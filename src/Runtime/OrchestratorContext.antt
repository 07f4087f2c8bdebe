-- ===== src/Runtime/OrchestratorContext.antt =====
-- orchestrator_context.go: `OrchestratorContextManager`, whose owner is a session.
pub mod Laws
use catgirl.Base.{ℕ, List, [], ◌∷◌, Option, none, some, String, M, str_eq}
use catgirl.Models.{Uuid, Time, Json, Role, user, assistant, tool, Turn}
use catgirl.Repository.{Db, add_session_turn, get_session_turns}
use catgirl.Llm.Messages.{ChatMessage, ToolCall}
use catgirl.Runtime.Context.{
  ContextManager, ContextState, blank_turn, record_turn, after_select, recent, total_tokens,
}
use catgirl.Runtime.Context.Messages.{Codec, messages_of}

unfoldable pub load_history : M ContextState (Unit {0})
load_history s = after_select s (get_session_turns s.context.owner s.db)

unfoldable pub add_user_turn : Time → String → M ContextState (Unit {0})
add_user_turn now content s = record_turn add_session_turn (blank_turn now user content s.context) s

-- The first call is kept, and its name, whatever follows it.
abbrev pub kept_call : Codec → List ToolCall → Option Json
kept_call codec [] = none
kept_call codec (c ∷ cs) = some (codec.encode c)

abbrev pub kept_name : List ToolCall → Option String
kept_name [] = none
kept_name (c ∷ cs) = some c.name

unfoldable pub add_assistant_turn :
    Codec → Time → String → List ToolCall → ℕ → ℕ → M ContextState (Unit {0})
add_assistant_turn codec now content tool_calls input_tokens output_tokens s =
    record_turn add_session_turn
      (record (blank_turn now assistant content s.context) {
        tool_name = kept_name tool_calls;
        tool_arguments = kept_call codec tool_calls;
        input_tokens = input_tokens;
        output_tokens = output_tokens;
      })
      s

unfoldable pub add_tool_result_turn : Time → String → String → String → M ContextState (Unit {0})
add_tool_result_turn now tool_call_id tool_name result s =
    record_turn add_session_turn
      (record (blank_turn now tool result s.context) {
        tool_call_id = some tool_call_id;
        tool_name = some tool_name;
        tool_result = some result;
      })
      s

abbrev pub suffix : String
suffix = "\n\n---\n\nProceed with the conversation, using the context provided if relevant."

unfoldable pub build_messages : Codec → String → String → ContextManager → List ChatMessage
build_messages codec system_prompt additional w =
    messages_of codec suffix system_prompt additional w.turns

abbrev pub get_recent_turns : ℕ → ContextManager → List Turn
get_recent_turns count w = recent count w.turns

abbrev pub get_total_tokens : ContextManager → ℕ × ℕ
get_total_tokens w = total_tokens w.turns

unfoldable pub clear : ContextManager → ContextManager
clear w = record w { turns = []; current_turn_id = 0 }
