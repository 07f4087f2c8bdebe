-- ===== src/Base/Perms.antt =====
-- Permutations keep lengths and counts.
use Prim.Native.Nat.{ℕ}
use mathlib.Core.Path.{◌≡◌, refl, ap, subst, ◌∙◌}
use mathlib.Core.Bool.{Bool}
use mathlib.Core.Logic.{∥∥₁_elim}
use mathlib.Core.List.{List, [], ◌∷◌, ◌++◌, Perm, Permᴰ, append-nil, perm_middle}
use native.Mathlib.Nat.{ℕ_set}
use native.Mathlib.Omega.{arith}
use catgirl.Base.Tests.{if◌then◌else◌}
use catgirl.Base.Lists.{length, count_if}

module _ {A : Type 0} where
  Permᴰ-length : {xs ys : List A} → Permᴰ xs ys → length xs ≡ length ys
  Permᴰ-length Permᴰ.nil = refl
  Permᴰ-length (Permᴰ.cons e d) = omega (arith, Permᴰ-length d)
  Permᴰ-length (Permᴰ.swap e₁ e₂) = refl
  Permᴰ-length (Permᴰ.trans d₁ d₂) = Permᴰ-length d₁ ∙ Permᴰ-length d₂

  pub Perm-length : {xs ys : List A} → Perm xs ys → length xs ≡ length ys
  Perm-length h = ∥∥₁_elim h (ℕ_set _ _) Permᴰ-length

  abbrev weight : (A → Bool) → A → ℕ
  weight p a = if p a then 1 else 0

  Permᴰ-count_if : (p : A → Bool) {xs ys : List A} → Permᴰ xs ys → count_if p xs ≡ count_if p ys
  Permᴰ-count_if p Permᴰ.nil = refl
  Permᴰ-count_if p (Permᴰ.cons e d) = omega (arith, Permᴰ-count_if p d, ap (weight p) e)
  Permᴰ-count_if p (Permᴰ.swap e₁ e₂) = omega (arith, ap (weight p) e₁, ap (weight p) e₂)
  Permᴰ-count_if p (Permᴰ.trans d₁ d₂) = Permᴰ-count_if p d₁ ∙ Permᴰ-count_if p d₂

  pub Perm-count_if : (p : A → Bool) {xs ys : List A} → Perm xs ys → count_if p xs ≡ count_if p ys
  Perm-count_if p h = ∥∥₁_elim h (ℕ_set _ _) (Permᴰ-count_if p)

  pub perm_snoc : (t : A) (xs : List A) → Perm (xs ++ t ∷ []) (t ∷ xs)
  perm_snoc t xs = subst (λ ys. Perm (xs ++ t ∷ []) (t ∷ ys)) (append-nil xs) (perm_middle xs [])
