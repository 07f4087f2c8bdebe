-- ===== src/Runtime/Orchestrator.antt =====
-- session.go: an iteration of `orchestratorLoop`, for a message that the session's queue yields. The
-- code outside is that of the coordinator; `replies` is what `OnReply` was called with. The wait of a
-- tenth of a second is left out, and so is the context of BuildOrchestratorContext, which is empty.
pub mod Laws
use Prim.Native.String.{◌++◌ as join}
use catgirl.Base.{
  ℕ, Bool, true, false, not, ◌||◌, List, [], ◌∷◌, ◌++◌, Option, none, some, String, str_eq, M,
  Result, ok, err, if◌then◌else◌,
}
use catgirl.Models.{Uuid, Time, TaskInstance, Priority, general_purpose, llm_call}
use catgirl.Repository.{Db}
use catgirl.Config.{TelegramBotConfig, ModelProviderConfig}
use catgirl.Llm.Messages.{ChatMessage, Tool, ToolCall, ChatResponse}
use catgirl.Llm.Choice.{ModelConfig, get_random_model}
use catgirl.Workers.Billing.{BillingService, record_usage}
use catgirl.Task.Service.{TaskState, spawn_root_task}
use catgirl.Runtime.Context.{ContextManager, ContextState}
use catgirl.Runtime.OrchestratorContext.{
  add_user_turn, add_assistant_turn, add_tool_result_turn, build_messages,
}
use catgirl.Runtime.ToolLoader.{get_tools_by_name}
use catgirl.Runtime.Coordinator.{External, string_arg}

pub record SessionEnv : Type 0 where
  pub session_id : Uuid
  pub telegram_user_id : ℕ
  pub bot : TelegramBotConfig
  pub providers : List ModelProviderConfig
  pub tools : List Tool
  pub max_task_depth : ℕ
  pub now : Time

pub record Talk (World : Type 0) : Type 0 where
  pub db : Db
  pub enqueue_ch : List TaskInstance
  pub context : ContextManager
  pub replies : List (ℕ × String)
  pub world : World

pub data Progress : Type 0 where
  goes_on stops panics : Progress

module _ {World : Type 0} where
  abbrev pub on_context : M ContextState (Unit {0}) → Talk World → Talk World
  on_context m s =
      let (_, t) = m (record { db = s.db; context = s.context }) in
      record s { db = t.db; context = t.context }

  abbrev pub draw_id : External World → Talk World → Uuid × Talk World
  draw_id ext s = let (id, world) = ext.fresh s.world in (id, record s { world = world })

module _ {World : Type 0} (ext : External World) (env : SessionEnv) where
  -- `RecordUsage`, whose error is dropped.
  abbrev pub bill : ChatResponse → Talk World → Talk World
  bill resp s =
      let (id, s1) = draw_id ext s in
      let svc : BillingService = record {
        session_id = env.session_id;
        user_id = ext.show_user env.telegram_user_id;
      } in
      let (_, db) =
        record_usage svc env.now id none llm_call resp.model resp.prompt_tokens
          resp.completion_tokens "free" s1.db in
      record s1 { db = db }

  -- A model is drawn and asked; `none` is the panic of a draw out of an empty list.
  abbrev pub call_model :
      List ChatMessage → Option ModelConfig → Talk World → Option (Result ChatResponse) × Talk World
  call_model messages none s = (none, s)
  call_model messages (some model) s =
      let (r, world) =
        ext.chat model messages (get_tools_by_name env.tools env.bot.allowed_orchestrator_tools)
          s.world in
      (some r, record s { world = world })

  abbrev pub ask : Talk World → Option (Result ChatResponse) × Talk World
  ask s =
      let (draw, draw', world) = ext.draws s.world in
      call_model (build_messages ext.codec env.bot.orchestrator_system_prompt "" s.context)
        (get_random_model draw draw' env.providers env.bot.gp_model) (record s { world = world })

  abbrev pub sent : String → Option String → Talk World → String × Talk World
  sent arguments none s = ("", s)
  sent arguments (some text) s = (
    join "{\"status\": \"sent\", \"message\": " (join arguments "}"),
    record s { replies = s.replies ++ (env.telegram_user_id, text) ∷ [] },
  )

  abbrev pub spawned : Result TaskInstance → String
  spawned (ok task) =
      join "{\"success\": true, \"task_id\": \"" (join (ext.show_id task.instance_id) "\"}")
  spawned (err e) =
      join "{\"success\": false, \"error\": \"failed to spawn task: "
        (join (ext.error_text e) "\"}")

  abbrev pub spawn_root : String → Talk World → String × Talk World
  spawn_root description s =
      let (task_id, s1) = draw_id ext s in
      let (instance_id, s2) = draw_id ext s1 in
      let (r, t) =
        spawn_root_task env.max_task_depth env.now task_id instance_id env.session_id "orchestrator"
          description general_purpose Priority.normal
          (record { db = s2.db; enqueue_ch = s2.enqueue_ch }) in
      (spawned r, record s2 { db = t.db; enqueue_ch = t.enqueue_ch })

  abbrev pub spawn : String → Talk World → String × Talk World
  spawn description s = if str_eq description "" then ("", s) else spawn_root description s

  unfoldable pub dispatch : ToolCall → Talk World → String × Talk World
  dispatch tc s =
      if str_eq tc.name "SEND_MESSAGE"
      then sent tc.arguments (ext.text_arg tc.arguments "message") s
      else if str_eq tc.name "SPAWN_TASK"
      then spawn (string_arg ext tc.arguments "description") s
      else if str_eq tc.name "SET_STATE"
      then ("{\"status\": \"acknowledged\"}", s)
      else ("{\"error\": \"unknown tool\"}", s)

  unfoldable pub handle_calls : List ToolCall → Talk World → Talk World
  unfolding dispatch
  handle_calls [] s = s
  handle_calls (tc ∷ calls) s =
      let (result, s') = dispatch tc s in
      handle_calls calls (on_context (add_tool_result_turn env.now tc.id tc.name result) s')

  abbrev pub store_answer : ChatResponse → ChatMessage → Talk World → Talk World
  store_answer resp msg s =
      on_context
        (add_assistant_turn ext.codec env.now msg.content msg.tool_calls resp.prompt_tokens
          resp.completion_tokens)
        s

  abbrev pub has_calls : List ToolCall → Bool
  has_calls [] = false
  has_calls (tc ∷ calls) = true

  -- A follow-up with neither text nor calls is not stored.
  abbrev pub follow_up : ChatResponse → List ChatMessage → Talk World → Progress × Talk World
  follow_up resp [] s = (goes_on, s)
  follow_up resp (msg ∷ others) s = (
    goes_on,
    (if not (str_eq msg.content "") || has_calls msg.tool_calls
        then store_answer resp msg (bill resp s)
        else bill resp s),
  )

  abbrev pub followed : Option (Result ChatResponse) × Talk World → Progress × Talk World
  followed (none, s) = (panics, s)
  followed (some (err e), s) = (goes_on, s)
  followed (some (ok resp), s) = follow_up resp resp.choices s

  -- The calls of the model are made, and it is asked again; an answer without calls is only stored.
  abbrev pub process_calls :
      ChatResponse → ChatMessage → List ToolCall → Talk World → Progress × Talk World
  process_calls resp msg [] s = (goes_on, store_answer resp msg s)
  process_calls resp msg (tc ∷ calls) s =
      followed (ask (handle_calls (tc ∷ calls) (store_answer resp msg s)))

  abbrev pub answered : ChatResponse → List ChatMessage → Talk World → Progress × Talk World
  answered resp [] s = (stops, s)
  answered resp (msg ∷ others) s = process_calls resp msg msg.tool_calls (bill resp s)

  abbrev pub after_chat : Option (Result ChatResponse) × Talk World → Progress × Talk World
  after_chat (none, s) = (panics, s)
  after_chat (some (err e), s) = (stops, s)
  after_chat (some (ok resp), s) = answered resp resp.choices s

  unfoldable pub first_answer : String → Talk World → Option (Result ChatResponse) × Talk World
  first_answer text s = ask (on_context (add_user_turn env.now text) s)

  unfoldable pub handle_message : String → Talk World → Progress × Talk World
  unfolding first_answer handle_calls
  handle_message text s = after_chat (first_answer text s)
