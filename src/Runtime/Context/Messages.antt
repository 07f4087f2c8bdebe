-- ===== src/Runtime/Context/Messages.antt =====
-- The messages that the turns of a context stand for. How `encoding/json` writes and reads a tool
-- call is the record `Codec`: a call that is written is read again, also after a JSONB column has
-- kept an equal value for it. Keys are matched whatever their case, so that the worker's form, whose
-- keys are the names of Go's fields, is read by the same structure.
use catgirl.Base.{
  ◌≡◌, List, [], ◌∷◌, ◌++◌, Option, none, some, String, str_eq, refl, false, if◌then◌else◌,
}
use Prim.Native.String.{◌++◌ as join}
use catgirl.Models.{Json, Role, user, assistant, tool, Turn}
use catgirl.Llm.Messages.{
  ChatMessage, ToolCall, new_message_builder, add_user_message, add_assistant_message,
  add_tool_result,
}

pub record Codec : Type 0 where
  pub encode : ToolCall → Json
  pub decode : Json → Option ToolCall
  pub decode-encode : (c : ToolCall) → decode (encode c) ≡ some c
  pub encode-nonempty : (c : ToolCall) → str_eq (encode c) "" ≡ false

-- A value whose id is empty is no tool call.
abbrev pub known_call : Option ToolCall → List ToolCall
known_call none = []
known_call (some c) = if str_eq c.id "" then [] else c ∷ []

abbrev pub decoded_calls : Codec → Option Json → List ToolCall
decoded_calls codec none = []
decoded_calls codec (some j) = if str_eq j "" then [] else known_call (codec.decode j)

-- `*turn.ToolCallID`; the turn of a tool always has one.
abbrev pub or_empty : Option String → String
or_empty none = ""
or_empty (some text) = text

abbrev pub add_turn_message : Codec → Role → Turn → List ChatMessage → List ChatMessage
add_turn_message codec user turn m = add_user_message turn.content m
add_turn_message codec assistant turn m =
    add_assistant_message turn.content (decoded_calls codec turn.tool_arguments) m
add_turn_message codec tool turn m = add_tool_result (or_empty turn.tool_call_id) turn.content m

abbrev pub add_turn_messages : Codec → List Turn → List ChatMessage → List ChatMessage
add_turn_messages codec [] m = m
add_turn_messages codec (turn ∷ turns) m =
    add_turn_messages codec turns (add_turn_message codec turn.role turn m)

abbrev pub inject : String → String → List ChatMessage → List ChatMessage
inject suffix additional m =
    if str_eq additional "" then m else add_user_message (join additional suffix) m

abbrev pub messages_of : Codec → String → String → String → List Turn → List ChatMessage
messages_of codec suffix system_prompt additional turns =
    add_turn_messages codec turns (inject suffix additional (new_message_builder system_prompt))

pub add_turn_messages-append :
    (codec : Codec) (turns turns' : List Turn) (m : List ChatMessage)
    → add_turn_messages codec (turns ++ turns') m
      ≡ add_turn_messages codec turns' (add_turn_messages codec turns m)
add_turn_messages-append codec [] turns' m = refl
add_turn_messages-append codec (t ∷ turns) turns' m =
    add_turn_messages-append codec turns turns' (add_turn_message codec t.role t m)
