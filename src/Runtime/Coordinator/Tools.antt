-- ===== src/Runtime/Coordinator/Tools.antt =====
-- runtime.go: the tools that an agent calls in `runAgentLoop`. The registry has at most one agent for
-- an instance, since a task is handed out once, so the order in which SEND_PARENT meets its entries
-- does not matter.
use Prim.Native.String.{◌++◌ as join}
use catgirl.Base.{
  ℕ, true, false, List, [], ◌∷◌, Option, none, some, String, str_eq, ◌==◌, Result, ok, err, find,
  if◌then◌else◌,
}
use catgirl.Models.{Uuid, Time, Json, TaskStatus, TaskInstance, Priority, general_purpose}
use catgirl.Llm.Messages.{ToolCall}
use catgirl.Workers.Agent.{AgentMessage, MessageRole, set_blocking}
use catgirl.Task.Service.{spawn_sub_task}
use catgirl.Runtime.Sessions.{handle_user_message}
use catgirl.Runtime.WorkerContext.{add_tool_result_turn}
use catgirl.Runtime.Callbacks.{BlockedAgentInfo, CallbackState, is_info, send_tool_result_to_agent}
use catgirl.Runtime.ParentDepth.{parent_depth}
use catgirl.Runtime.Coordinator.{
  DockerService, External, string_arg, WorkerEnv, Work, on_tasks, on_sessions, callbacks,
  with_callbacks, on_world, in_rt, on_context, on_agent, remember_message, store_task,
}

-- The text around two values, as `fmt.Sprintf` puts it.
abbrev pub report : String → String → String → String → String
report kind id description text = join kind (
    join " Task ID: "
      (join id (join "\nTask Description: " (join description (join "\nMessage: " text)))))

abbrev pub failed_with : String → String → String
failed_with what text = join "{\"success\": false, \"error\": \"" (join what (join text "\"}"))

abbrev pub succeeded : String
succeeded = "{\"success\": true}"

abbrev pub summary_of : String → Option String → Option String
summary_of result old = if str_eq result "" then old else some result

abbrev pub complete : Time → Json → TaskInstance → TaskInstance
complete now summary task = record task {
  status = TaskStatus.completed;
  completed_at = some now;
  result = summary;
}

abbrev pub give_up : Time → String → TaskInstance → TaskInstance
give_up now result task = record task {
  status = TaskStatus.failed;
  completed_at = some now;
  error = summary_of result task.error;
}

abbrev pub tool_message : String → String → AgentMessage
tool_message id result = record {
  role = MessageRole.tool;
  content = result;
  tool_calls = [];
  tool_call_id = id;
}

module _ {World : Type 0} (ext : External World) (env : WorkerEnv) where
  abbrev pub enter_state : String → String → Work World → String × Work World
  enter_state state result w =
      if str_eq state "BLOCKING"
      then (
        "{\"status\": \"ok\", \"state\": \"BLOCKING\"}",
        on_agent env.agent_id (set_blocking true) w,
      )
      else if str_eq state "COMPLETED"
      then (
        "{\"status\": \"ok\", \"state\": \"COMPLETED\"}",
        store_task env.agent_id (complete env.started (ext.summary_json result))
            (on_agent env.agent_id (set_blocking false) w),
      )
      else if str_eq state "FAILED"
      then (
        "{\"status\": \"ok\", \"state\": \"FAILED\"}",
        store_task env.agent_id (give_up env.started result)
            (on_agent env.agent_id (set_blocking false) w),
      )
      else (join "{\"error\": \"unknown state: " (join state "\"}"), w)

  -- `stateChange = state` for every state, also for one that is not known.
  unfoldable pub set_state : String → String → Work World → String × Work World
  set_state state result w = enter_state state result (record w { state_change = state })

  abbrev pub sent : Result (Unit {0}) × CallbackState → Work World → String × Work World
  sent (ok _, c) w = (succeeded, record w { rt = with_callbacks c w.rt })
  sent (err e, c) w = (
    failed_with "failed to send to parent: " (ext.error_text e),
    record w { rt = with_callbacks c w.rt },
  )

  -- What `HandleUserMessage` answers is dropped.
  abbrev pub tell_orchestrator : String → Work World → String × Work World
  tell_orchestrator text w =
      let (_, w') =
        in_rt (on_sessions (handle_user_message ext.text_json env.now env.session_id text)) w in
      (succeeded, w')

  abbrev pub send_to_parent : String → Option BlockedAgentInfo → Work World → String × Work World
  send_to_parent text none w = tell_orchestrator text w
  send_to_parent text (some info) w =
      sent (send_tool_result_to_agent info.agent_id "" "ASYNC_CHILD_MESSAGE" text (callbacks w.rt))
        w

  abbrev pub send_up : String → Option Uuid → Work World → String × Work World
  send_up text none w =
      tell_orchestrator (report "Root" (ext.show_id w.task.instance_id) w.task.description text) w
  send_up text (some parent) w =
      send_to_parent (report "Child" (ext.show_id w.task.instance_id) w.task.description text)
        (find (λ info. info.instance_id == parent) w.rt.blocked_agents) w

  unfoldable pub send_parent : String → Work World → String × Work World
  send_parent text w =
      if str_eq text ""
      then ("{\"success\": false, \"error\": \"message is required\"}", w)
      else send_up text w.task.parent_instance_id w

  abbrev pub spawned : Result TaskInstance × Work World → String × Work World
  spawned (ok task, w) =
      (join "{\"success\": true, \"task_id\": \"" (join (ext.show_id task.instance_id) "\"}"), w)
  spawned (err e, w) = (failed_with "failed to spawn task: " (ext.error_text e), w)

  abbrev pub count_depth : Work World → ℕ × Work World
  count_depth w =
      let (depth, db) = parent_depth w.task w.rt.db in
      (depth, record w { rt = record w.rt { db = db } })

  abbrev pub draw_id : Work World → Uuid × Work World
  draw_id w =
      let (id, world) = ext.fresh w.rt.world in
      (id, record w { rt = record w.rt { world = world } })

  abbrev pub spawn_below : String → Work World → String × Work World
  spawn_below description w =
      let (depth, w1) = count_depth w in
      let (id, w2) = draw_id w1 in
      spawned (
        in_rt
          (on_tasks (
            spawn_sub_task env.max_task_depth ext.show_id env.now id w2.task description
              general_purpose Priority.normal depth))
          w2)

  -- Without a description the result stays empty.
  unfoldable pub spawn_task : String → Work World → String × Work World
  spawn_task description w = if str_eq description "" then ("", w) else spawn_below description w

  abbrev pub ran : Result String × Work World → String × Work World
  ran (ok output, w) = (join "{\"success\": true, \"output\": " (join (ext.escape output) "}"), w)
  ran (err e, w) =
      (join "{\"success\": false, \"error\": " (join (ext.escape (ext.error_text e)) "}"), w)

  abbrev pub run_in :
      DockerService World → String → Option BlockedAgentInfo → Work World → String × Work World
  run_in docker cmd none w =
      ("{\"success\": false, \"error\": \"no container available for this task\"}", w)
  run_in docker cmd (some info) w =
      if str_eq info.container_id ""
      then ("{\"success\": false, \"error\": \"no container available for this task\"}", w)
      else ran (in_rt (on_world (docker.execute_cmd info.container_id cmd)) w)

  abbrev pub execute : Option (DockerService World) → String → Work World → String × Work World
  execute none cmd w = ("{\"success\": false, \"error\": \"docker service not available\"}", w)
  execute (some docker) cmd w =
      run_in docker cmd (find (is_info env.agent_id) w.rt.blocked_agents) w

  unfoldable pub execute_cmd : String → Work World → String × Work World
  execute_cmd cmd w =
      if str_eq cmd ""
      then ("{\"success\": false, \"error\": \"code is required\"}", w)
      else execute ext.docker cmd w

  -- The `switch` on the name of the tool.
  unfoldable pub dispatch : ToolCall → Work World → String × Work World
  unfolding set_state send_parent spawn_task execute_cmd
  dispatch tc w =
      if str_eq tc.name "SET_STATE"
      then set_state (string_arg ext tc.arguments "state") (string_arg ext tc.arguments "result") w
      else if str_eq tc.name "SEND_PARENT"
      then send_parent (string_arg ext tc.arguments "message") w
      else if str_eq tc.name "SPAWN_TASK"
      then spawn_task (string_arg ext tc.arguments "description") w
      else if str_eq tc.name "EXECUTE_CMD"
      then execute_cmd (string_arg ext tc.arguments "code") w
      else ("{\"error\": \"unknown tool\"}", w)

  -- One call: the tool, then its result in the output history and in the context.
  unfoldable pub handle_call : ToolCall → Work World → Work World
  handle_call tc w =
      let (result, w') = dispatch tc w in
      on_context (add_tool_result_turn env.now tc.id tc.name result)
        (remember_message env.agent_id (tool_message tc.id result) w')

  unfoldable pub handle_calls : List ToolCall → Work World → Work World
  unfolding handle_call
  handle_calls [] w = w
  handle_calls (tc ∷ calls) w = handle_calls calls (handle_call tc w)
