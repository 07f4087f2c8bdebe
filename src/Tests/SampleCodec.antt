-- ===== src/Tests/SampleCodec.antt =====
-- A codec of tool calls in which each character follows the mark of its field, and a database column
-- that keeps every text: the two meet what the contexts ask of them.
use Prim.Native.Char.{Char, code}
use Prim.Native.String.{[] as nil, ◌∷◌ as ◌◃◌}
use catgirl.Base.{
  ◌≡◌, refl, ap, Bool, true, false, Option, none, some, String, str_eq, ◌==◌, if◌then◌else◌,
  Bool-cases, inl, inr, eq_iff, ◌≢◌,
}
use catgirl.Models.{Json}
use catgirl.Llm.Messages.{ToolCall}
use catgirl.Runtime.Context.Messages.{Codec}
use catgirl.Runtime.Context.Reload.{KeepsJson}

abbrev pub call : String → String → String → ToolCall
call id name arguments = record { id = id; name = name; arguments = arguments }

abbrev pub tagged : Char → String → String → String
tagged t nil rest = rest
tagged t (c ◃ s) rest = t ◃ (c ◃ tagged t s rest)

abbrev pub mark_id : Char
mark_id = "0"

abbrev pub mark_name : Char
mark_name = "1"

abbrev pub mark_arguments : Char
mark_arguments = "2"

abbrev pub open_mark : Char
open_mark = "<"

abbrev pub put : Char → Char → ToolCall → ToolCall
put t c x =
    if code t == code mark_id
    then record x { id = c ◃ x.id }
    else if code t == code mark_name
    then record x { name = c ◃ x.name }
    else record x { arguments = c ◃ x.arguments }

abbrev pub split : String → ToolCall
split nil = call "" "" ""
split (t ◃ nil) = call "" "" ""
split (t ◃ (c ◃ s)) = put t c (split s)

abbrev pub encode : ToolCall → Json
encode x =
    open_mark ◃ tagged mark_id x.id (tagged mark_name x.name (tagged mark_arguments x.arguments ""))

abbrev pub decode : Json → Option ToolCall
decode nil = none
decode (b ◃ s) = some (split s)

split_arguments : (s : String) → split (tagged mark_arguments s "") ≡ call "" "" s
split_arguments nil = refl
split_arguments (c ◃ s) = ap (put mark_arguments c) (split_arguments s)

split_name :
    (s rest a : String) → split rest ≡ call "" "" a → split (tagged mark_name s rest) ≡ call "" s a
split_name nil rest a h = h
split_name (c ◃ s) rest a h = ap (put mark_name c) (split_name s rest a h)

split_id :
    (s rest n a : String) → split rest ≡ call "" n a → split (tagged mark_id s rest) ≡ call s n a
split_id nil rest n a h = h
split_id (c ◃ s) rest n a h = ap (put mark_id c) (split_id s rest n a h)

pub split_encode : (x : ToolCall) → decode (encode x) ≡ some x
split_encode x = ap some (
    split_id x.id _ x.name x.arguments
      (split_name x.name _ x.arguments (split_arguments x.arguments)))

pub encode-nonempty : (x : ToolCall) → str_eq (encode x) "" ≡ false
encode-nonempty x = elim (Bool-cases (str_eq (encode x) "")) [
  | inl e ↦ absurd (false≢true (ap is_nil ((eq_iff (encode x) "").0 e)))
  | inr e ↦ e
]
  where
    is_nil : String → Bool
    is_nil nil = true
    is_nil (c ◃ s) = false

    false≢true : false ≢ true
    false≢true e = cc

abbrev pub sample_codec : Codec
sample_codec = record {
  encode = encode;
  decode = decode;
  decode-encode = split_encode;
  encode-nonempty = encode-nonempty;
}

pub sample_codec-KeepsJson : KeepsJson sample_codec (λ j. some j)
sample_codec-KeepsJson c k h = (same, text)
  where
    of_some : Option Json → Json
    of_some none = ""
    of_some (some j) = j

    kept : encode c ≡ k
    kept = ap of_some h

    same : decode k ≡ some c
    same = rw (← kept) (split_encode c)

    text : str_eq k "" ≡ false
    text = rw (← kept) (encode-nonempty c)
