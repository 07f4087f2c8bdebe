-- ===== src/Base/Monad.antt =====
-- Errors of the program as values, and a state that survives them: a call that fails halfway
-- leaves behind what it has already done.
use Prim.Native.Nat.{ℕ}
use Prim.Native.String.{String}
use mathlib.Core.Path.{◌≡◌, refl}
use mathlib.Core.Bool.{Bool, true, false}
use mathlib.Core.Option.{Option, none, some}
use native.Mathlib.Omega.{arith}

-- One constructor for each kind of error that the source makes; `wrap` is `fmt.Errorf("…: %w")`.
pub data Error : Type 0 where
  -- the database driver
  unavailable duplicate_key foreign_key invalid_json : Error
  -- the services
  queue_full pool_full not_found invalid_input not_configured denied : Error
  depth_exceeded : ℕ → ℕ → Error
  bad_status : ℕ → Error
  message : String → Error
  wrap : String → Error → Error

pub data Result (A : Type 0) : Type 0 where
  ok : A → Result A
  err : Error → Result A

abbrev pub M : Type 0 → Type 0 → Type 0
M S A = S → Result A × S

abbrev pub and_then : {S A B : Type 0} → Result A × S → (A → M S B) → Result B × S
and_then (ok a, s) f = f a s
and_then (err e, s) f = (err e, s)

infixl 5 ◌>>=◌ ◌>>◌
abbrev pub ◌>>=◌ : {S A B : Type 0} → M S A → (A → M S B) → M S B
◌>>=◌ m f s = and_then (m s) f

abbrev pub ◌>>◌ : {S A B : Type 0} → M S A → M S B → M S B
◌>>◌ m k s = and_then (m s) (λ _. k)

abbrev pub pure : {S A : Type 0} → A → M S A
pure a s = (ok a, s)

abbrev pub fail : {S A : Type 0} → Error → M S A
fail e s = (err e, s)

abbrev pub wrap_error : {A : Type 0} → String → Result A → Result A
wrap_error text (ok a) = ok a
wrap_error text (err e) = err (wrap text e)

-- `if err := m; err != nil { return fmt.Errorf(text, err) }`
abbrev pub wrapped : {S A : Type 0} → String → M S A → M S A
wrapped text m s = let (r, s') = m s in (wrap_error text r, s')

-- `v, _ := m` for a getter of the repository, which returns a pointer to a zero record beside an
-- error, and nil only where there is no row.
abbrev pub or_zero : {A : Type 0} → A → Result (Option A) → Option A
or_zero zero_value (ok o) = o
or_zero zero_value (err e) = some zero_value

abbrev pub attempt : {S A : Type 0} → A → M S (Option A) → M S (Option A)
attempt zero_value m s = let (r, s') = m s in (ok (or_zero zero_value r), s')

-- A call whose error is logged, or dropped.
abbrev pub ignored : {S A : Type 0} → M S A → M S (Unit {0})
ignored m s = let (r, s') = m s in (ok tt, s')

abbrev pub require : {S A : Type 0} → Option A → Error → M S A
require (some a) e = pure a
require none e = fail e

abbrev pub guard : {S : Type 0} → Bool → Error → M S (Unit {0})
guard true e = pure tt
guard false e = fail e

abbrev pub is_ok : {A : Type 0} → Result A → Bool
is_ok (ok a) = true
is_ok (err e) = false

-- A postcondition on the value and the state, whichever way the call ends.
abbrev pub Ensures : {S A : Type 0} → Result A × S → (A → S → Type 0) → (S → Type 0) → Type 0
Ensures (ok a, s) P Q = P a s
Ensures (err e, s) P Q = Q s

pub and_then-eq-ok :
    {S A B : Type 0} (r : Result A × S) (f : A → M S B) (b : B) (t : S)
    → and_then r f ≡ (ok b, t)
    → (a : A) × (s : S) × (r ≡ (ok a, s)) × (f a s ≡ (ok b, t))
and_then-eq-ok (ok a, s) f b t h = (a, s, refl, h)
and_then-eq-ok (err e, s) f b t h = ground arith
