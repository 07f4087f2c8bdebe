-- ===== src/SortSlice/Insertion.antt =====
-- Insertion sort meets the contract of `sort.Slice`, so that a statement about the contract is not
-- about nothing.
use mathlib.Core.List.Perm
use catgirl.Base.{
  Bool, true, false, ◌≡◌, List, [], ◌∷◌, Perm, All, if◌then◌else◌, Bool-cases, inl, inr,
}
use catgirl.SortSlice.Contract.{IsSorted, IsStrictWeak, SortSlice}

module _ {A : Type 0} (less : A → A → Bool) where
  pub insert : A → List A → List A
  insert x [] = x ∷ []
  insert x (y ∷ ys) = if less y x then y ∷ insert x ys else x ∷ y ∷ ys

  pub insertion_sort : List A → List A
  unfolding insert
  insertion_sort [] = []
  insertion_sort (x ∷ xs) = insert x (insertion_sort xs)

  insert-perm : (x : A) (ys : List A) → Perm (insert x ys) (x ∷ ys)
  unfolding insert
  insert-perm x [] = Perm.refl (x ∷ [])
  insert-perm x (y ∷ ys) = elim (Bool-cases (less y x)) [
    | inl e ↦ rw e (Perm.trans (Perm.cons y (insert-perm x ys)) (Perm.swap x y ys))
    | inr e ↦ rw e (Perm.refl (x ∷ y ∷ ys))
  ]

  pub insertion_sort-perm : (xs : List A) → Perm (insertion_sort xs) xs
  unfolding insertion_sort
  insertion_sort-perm [] = Perm.refl []
  insertion_sort-perm (x ∷ xs) =
      Perm.trans (insert-perm x (insertion_sort xs)) (Perm.cons x (insertion_sort-perm xs))

  insert-All : (P : A → Type 0) (x : A) (ys : List A) → P x → All P ys → All P (insert x ys)
  unfolding insert
  insert-All P x [] h k = (h, tt)
  insert-All P x (y ∷ ys) h k = elim (Bool-cases (less y x)) [
    | inl e ↦ rw e (k.0, insert-All P x ys h k.1)
    | inr e ↦ rw e (h, k)
  ]

  module _ (weak : IsStrictWeak less) where
    All-trans :
        (x y : A) (ys : List A)
        → less y x ≡ false
        → All (λ z. less z y ≡ false) ys
        → All (λ z. less z x ≡ false) ys
    All-trans x y [] h k = tt
    All-trans x y (z ∷ ys) h k = (weak.not_less_trans z y x k.0 h, All-trans x y ys h k.1)

    asymm : (x y : A) → less y x ≡ true → less x y ≡ false
    asymm x y h = elim (Bool-cases (less x y)) [
      | inl e ↦ cc (weak.trans x y x e h, weak.irrefl x)
      | inr e ↦ e
    ]

    insert-IsSorted : (x : A) (ys : List A) → IsSorted less ys → IsSorted less (insert x ys)
    unfolding insert
    insert-IsSorted x [] k = (tt, tt)
    insert-IsSorted x (y ∷ ys) k = elim (Bool-cases (less y x)) [
      | inl e ↦ rw e (insert-All _ x ys (asymm x y e) k.0, insert-IsSorted x ys k.1)
      | inr e ↦ rw e ((e, All-trans x y ys e k.0), k)
    ]

    pub insertion_sort-IsSorted : (xs : List A) → IsSorted less (insertion_sort xs)
    unfolding insertion_sort
    insertion_sort-IsSorted [] = tt
    insertion_sort-IsSorted (x ∷ xs) =
        insert-IsSorted x (insertion_sort xs) (insertion_sort-IsSorted xs)

abbrev pub by_insertion : {A : Type 0} → SortSlice A
by_insertion = record {
  sort = insertion_sort;
  sort-perm = insertion_sort-perm;
  sort-IsSorted = λ less weak xs. insertion_sort-IsSorted less weak xs;
}
