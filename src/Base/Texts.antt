-- ===== src/Base/Texts.antt =====
-- Go's `strings` on texts of ASCII characters, whose bytes are their characters.
use Prim.Native.Nat.{ℕ, zero, suc}
use Prim.Native.String.{String, ◌++◌ as join, [] as nil, ◌∷◌ as ◌◃◌}
use mathlib.Core.Bool.{Bool, ◌||◌}
use mathlib.Core.Option.{Option, none, some}
use text.Mathlib.Text.{◌==◌ as str_eq}
use catgirl.Base.Tests.{if◌then◌else◌}

abbrev pub text_length : String → ℕ
text_length nil = 0
text_length (c ◃ rest) = suc (text_length rest)

abbrev pub text_take : ℕ → String → String
text_take zero text = nil
text_take (suc n) nil = nil
text_take (suc n) (c ◃ rest) = c ◃ text_take n rest

-- `strings.HasSuffix`
unfoldable pub has_suffix : String → String → Bool
has_suffix suffix nil = str_eq nil suffix
has_suffix suffix (c ◃ rest) = str_eq (c ◃ rest) suffix || has_suffix suffix rest

-- `strings.SplitN(text, separator, 2)` for a separator of one character, if it occurs.
abbrev pub split_rest : String → Option (String × String) → Option (String × String)
split_rest before none = none
split_rest before (some (first, second)) = some (join before first, second)

unfoldable pub split_first : String → String → Option (String × String)
split_first separator nil = none
split_first separator (c ◃ rest) =
    if str_eq (c ◃ nil) separator
    then some (nil, rest)
    else split_rest (c ◃ nil) (split_first separator rest)
