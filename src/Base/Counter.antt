-- ===== src/Base/Counter.antt =====
-- A `map[string]int` that a loop counts in: `m[key]++` on a missing key starts from 0.
use Prim.Native.Nat.{ℕ, ◌+◌}
use Prim.Native.String.{String}
use mathlib.Core.Path.{◌≡◌, refl}
use mathlib.Core.List.{List, [], ◌∷◌}
use native.Mathlib.Omega.{arith}
use text.Mathlib.Text.{◌==◌ as str_eq}
use text.Mathlib.TextEquality.{eq_iff}
use catgirl.Base.Tests.{if◌then◌else◌}
use catgirl.Base.Lists.{length, count_if}

abbrev pub get_count : String → List (String × ℕ) → ℕ
get_count key [] = 0
get_count key ((k, n) ∷ rest) = if str_eq k key then n else get_count key rest

abbrev pub increment : String → List (String × ℕ) → List (String × ℕ)
increment key [] = (key, 1) ∷ []
increment key ((k, n) ∷ rest) =
    if str_eq k key then (k, n + 1) ∷ rest else (k, n) ∷ increment key rest

abbrev pub sum_counts : List (String × ℕ) → ℕ
sum_counts [] = 0
sum_counts ((k, n) ∷ rest) = n + sum_counts rest

-- `for _, x := range xs { m[key(x)]++ }`
abbrev pub tally {ℓ} : {A : Type ℓ} → (A → String) → List (String × ℕ) → List A → List (String × ℕ)
tally key m [] = m
tally key m (x ∷ xs) = tally key (increment (key x) m) xs

pub get_count-increment :
    (key other : String) (m : List (String × ℕ))
    → get_count other (increment key m) ≡ get_count other m + (if str_eq key other then 1 else 0)
get_count-increment key other [] = ground arith
get_count-increment key other ((k, n) ∷ rest) =
    ground
      (arith, eq_iff k key, eq_iff k other, eq_iff key other, get_count-increment key other rest)

pub sum_counts-increment :
    (key : String) (m : List (String × ℕ)) → sum_counts (increment key m) ≡ sum_counts m + 1
sum_counts-increment key [] = refl
sum_counts-increment key ((k, n) ∷ rest) = ground (arith, sum_counts-increment key rest)

module _ {ℓ} {A : Type ℓ} (key : A → String) where
  pub get_count-tally :
      (other : String) (m : List (String × ℕ)) (xs : List A)
      → get_count other (tally key m xs)
        ≡ get_count other m + count_if (λ x. str_eq (key x) other) xs
  get_count-tally other m [] = omega arith
  get_count-tally other m (x ∷ xs) =
      omega
        (arith, get_count-tally other (increment (key x) m) xs, get_count-increment (key x) other m)

  pub sum_counts-tally :
      (m : List (String × ℕ)) (xs : List A) → sum_counts (tally key m xs) ≡ sum_counts m + length xs
  sum_counts-tally m [] = omega arith
  sum_counts-tally m (x ∷ xs) =
      omega (arith, sum_counts-tally (increment (key x) m) xs, sum_counts-increment (key x) m)
