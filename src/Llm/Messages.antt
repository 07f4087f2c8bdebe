-- ===== src/Llm/Messages.antt =====
-- llm.go and message_builder.go: chat messages, and the builder of their list. The fields that only
-- the wire format has (`Type`, which is always "function", and `Name`) are left out.
use catgirl.Base.{ℕ, List, [], ◌∷◌, ◌++◌, String, str_eq, if◌then◌else◌}
use catgirl.Workers.Agent.{MessageRole, system, user, assistant, tool}

pub record ToolCall : Type 0 where
  pub id : String
  pub name : String
  pub arguments : String

pub record ChatMessage : Type 0 where
  pub role : MessageRole
  pub content : String
  pub tool_calls : List ToolCall
  pub tool_call_id : String

abbrev pub plain : MessageRole → String → ChatMessage
plain role content = record { role = role; content = content; tool_calls = []; tool_call_id = "" }

abbrev pub new_message_builder : String → List ChatMessage
new_message_builder system_prompt =
    if str_eq system_prompt "" then [] else plain system system_prompt ∷ []

abbrev pub add_user_message : String → List ChatMessage → List ChatMessage
add_user_message content m = m ++ plain user content ∷ []

abbrev pub add_assistant_message : String → List ToolCall → List ChatMessage → List ChatMessage
add_assistant_message content tool_calls m =
    m
    ++ (record { role = assistant; content = content; tool_calls = tool_calls; tool_call_id = "" })
      ∷ []

abbrev pub add_tool_result : String → String → List ChatMessage → List ChatMessage
add_tool_result tool_call_id result m =
    m
    ++ (record { role = tool; content = result; tool_calls = []; tool_call_id = tool_call_id }) ∷ []

abbrev pub add_messages : List ChatMessage → List ChatMessage → List ChatMessage
add_messages messages m = m ++ messages

-- `Type` is "function" for every tool that is loaded; `parameters` is the JSON text of the schema.
pub record Tool : Type 0 where
  pub name : String
  pub description : String
  pub parameters : String

-- `choices` are the messages of the choices; the total of the usage and the ids are not used.
pub record ChatResponse : Type 0 where
  pub model : String
  pub choices : List ChatMessage
  pub prompt_tokens : ℕ
  pub completion_tokens : ℕ
