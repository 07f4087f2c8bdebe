-- ===== src/SortSlice/Contract.antt =====
-- The contract of `sort.Slice`.
use catgirl.Base.{Bool, true, false, ◌≡◌, List, [], ◌∷◌, Perm, All}

-- No later element is less than an earlier one.
abbrev pub IsSorted : {A : Type 0} → (A → A → Bool) → List A → Type 0
IsSorted less [] = Unit {0}
IsSorted less (x ∷ xs) = All (λ y. less y x ≡ false) xs × IsSorted less xs

pub record IsStrictWeak {A : Type 0} (less : A → A → Bool) : Type 0 where
  pub irrefl : (a : A) → less a a ≡ false
  pub trans : (a b c : A) → less a b ≡ true → less b c ≡ true → less a c ≡ true
  pub not_less_trans : (a b c : A) → less a b ≡ false → less b c ≡ false → less a c ≡ false

pub record SortSlice (A : Type 0) : Type 0 where
  pub sort : (A → A → Bool) → List A → List A
  pub sort-perm : (less : A → A → Bool) (xs : List A) → Perm (sort less xs) xs
  pub sort-IsSorted :
      (less : A → A → Bool) → IsStrictWeak less → (xs : List A) → IsSorted less (sort less xs)
