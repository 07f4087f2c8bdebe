-- ===== src/Runtime/Coordinator/Execute.antt =====
-- runtime.go: `executeTask`, and a pass of `workerLoop` for a task that the queue handed out.
use catgirl.Base.{
  ℕ, Bool, true, false, List, [], ◌∷◌, ◌++◌, Option, none, some, String, str_eq, Result, ok, err,
  message, queue_full, find,
}
use catgirl.Models.{Time, Uuid, AgentId, TaskStatus, TaskInstance, TaskFamily, general_purpose}
use catgirl.Repository.{get_task_family, update_task_instance}
use catgirl.Config.{TelegramBotConfig, ModelProviderConfig}
use catgirl.Llm.Messages.{Tool}
use catgirl.Docker.{ContainerInfo, get_or_create_container}
use catgirl.Workers.Agent.{
  AgentInput, InputType, AgentState, WorkerAgent, reset_for_new_task, send_input,
}
use catgirl.Workers.Pool.{has_id, spawn_agent, remove_agent}
use catgirl.Runtime.Sessions.{LiveSession, get_session}
use catgirl.Runtime.Context.{new_context_manager}
use catgirl.Runtime.WorkerContext.{load_history}
use catgirl.Runtime.Callbacks.{BlockedAgentInfo, register_agent_for_callback}
use catgirl.Runtime.Coordinator.{
  DockerService, External, RuntimeState, WorkerEnv, Work, on_db, on_pool, on_sessions, callbacks,
  with_callbacks, on_containers, on_context, on_agent,
}
use catgirl.Runtime.Coordinator.Loop.{Progress, going, returned, panicked, run_agent_loop}

-- What a worker reads of the configuration; `tools` is the order in which a loop meets the tools.
pub record WorkerConfig : Type 0 where
  pub bots : List TelegramBotConfig
  pub providers : List ModelProviderConfig
  pub tools : List Tool
  pub max_task_depth : ℕ
  pub max_agents : ℕ

abbrev pub no_bot : TelegramBotConfig
no_bot = record {
  bot_token = "";
  webhook_url = "";
  orchestrator_system_prompt = "";
  agent_system_prompt = "";
  allowed_orchestrator_tools = [];
  allowed_agent_tools = [];
  gp_model = "";
  reasoner_model = "";
}

-- The first bot with the session's token, or an empty configuration.
abbrev pub or_no_bot : Option TelegramBotConfig → TelegramBotConfig
or_no_bot none = no_bot
or_no_bot (some bot) = bot

abbrev pub bot_for : String → List TelegramBotConfig → TelegramBotConfig
bot_for token bots = or_no_bot (find (λ bot. str_eq bot.bot_token token) bots)

abbrev pub assigned_to : AgentId → Time → TaskInstance → TaskInstance
assigned_to id now task = record task {
  status = TaskStatus.in_progress;
  assigned_agent_id = some id;
  started_at = some now;
}

-- `ResetForNewTask`, and the fields that are set after it.
abbrev pub prepared : TaskInstance → WorkerAgent → WorkerAgent
prepared task agent = record (reset_for_new_task agent) {
  current_task = some task;
  state = AgentState.free;
  output_history = [];
}

abbrev pub first_input : TaskInstance → AgentInput
first_input task = record {
  kind = InputType.task_start;
  content = task.description;
  tool_id = "";
  tool_name = "";
}

abbrev pub env_of : WorkerConfig → AgentId → LiveSession → Time → WorkerEnv
env_of cfg id session now = record {
  agent_id = id;
  session_id = session.id;
  bot = bot_for session.bot_token cfg.bots;
  providers = cfg.providers;
  tools = cfg.tools;
  max_task_depth = cfg.max_task_depth;
  started = now;
  now = now;
}

module _ {World : Type 0} (ext : External World) (cfg : WorkerConfig) (now : Time) where
  abbrev pub info_of : AgentId → TaskInstance → String → BlockedAgentInfo
  info_of id task container_id = record {
    agent_id = id;
    instance_id = task.instance_id;
    container_id = container_id;
  }

  -- A container that cannot be made is logged, and the worker goes on without one.
  abbrev pub container_of : Result ContainerInfo × RuntimeState World → String × RuntimeState World
  container_of (ok info, rt) = (info.container_id, rt)
  container_of (err e, rt) = ("", rt)

  abbrev pub get_container :
      Option (DockerService World) → Uuid → RuntimeState World → String × RuntimeState World
  get_container none id rt = ("", rt)
  get_container (some docker) id rt = container_of (
      on_containers (get_or_create_container docker.client docker.registry docker.image now id "")
        rt)

  abbrev pub register : AgentId → String → Work World → Work World
  register id container_id w = record w {
    rt =
        with_callbacks
          (register_agent_for_callback (info_of id w.task container_id) (callbacks w.rt)) w.rt;
  }

  -- The container of the instance, the entry in the registry.
  abbrev pub set_up : AgentId → Work World → Work World
  set_up id w =
      let (container_id, rt) = get_container ext.docker w.task.instance_id w.rt in
      register id container_id (record w { rt = rt })

  abbrev pub start_loop :
      WorkerEnv → List (List AgentInput) → Bool × WorkerAgent → Work World → Progress × Work World
  start_loop env schedule (false, agent) w = (returned (err queue_full), w)
  start_loop env schedule (true, agent') w =
      run_agent_loop ext env schedule (on_agent env.agent_id (λ agent. agent') w)

  -- A worker that is not in the pool does not occur: it has just been spawned.
  abbrev pub send_first :
      WorkerEnv → List (List AgentInput) → Option WorkerAgent → Work World → Progress × Work World
  send_first env schedule none w = (returned (err queue_full), w)
  send_first env schedule (some agent) w =
      start_loop env schedule (send_input (first_input w.task) agent) w

  abbrev pub begin : WorkerEnv → List (List AgentInput) → Work World → Progress × Work World
  begin env schedule w = send_first env schedule (find (has_id env.agent_id) w.rt.agents) w

  unfoldable pub run_in_session :
      AgentId
      → TaskInstance
      → List (List AgentInput)
      → LiveSession
      → RuntimeState World
      → Progress × Work World
  run_in_session id task schedule session rt = begin (env_of cfg id session now) schedule (
      set_up id (
        on_context load_history (
          on_agent id (prepared task) (record {
            rt = rt;
            task = task;
            context = new_context_manager task.instance_id;
            state_change = "";
          }))))

  abbrev pub idle_work : TaskInstance → RuntimeState World → Work World
  idle_work task rt = record {
    rt = rt;
    task = task;
    context = new_context_manager task.instance_id;
    state_change = "";
  }

  abbrev pub in_session :
      AgentId
      → TaskInstance
      → List (List AgentInput)
      → Result (Option LiveSession) × RuntimeState World
      → Progress × Work World
  in_session id task schedule (ok (some session), rt) = run_in_session id task schedule session rt
  in_session id task schedule (ok none, rt) =
      (returned (err (message "failed to get session context")), idle_work task rt)
  in_session id task schedule (err e, rt) =
      (returned (err (message "failed to get session context")), idle_work task rt)

  abbrev pub in_family :
      AgentId
      → TaskInstance
      → List (List AgentInput)
      → Result (Option TaskFamily) × RuntimeState World
      → Progress × Work World
  in_family id task schedule (ok (some tf), rt) =
      in_session id task schedule (on_sessions (get_session tf.session_id) rt)
  in_family id task schedule (ok none, rt) =
      (returned (err (message "failed to get task family")), idle_work task rt)
  in_family id task schedule (err e, rt) =
      (returned (err (message "failed to get task family")), idle_work task rt)

  abbrev pub store_assigned : TaskInstance → RuntimeState World → RuntimeState World
  store_assigned task rt = (on_db (update_task_instance task) rt).1

  unfoldable pub execute_task :
      AgentId → TaskInstance → List (List AgentInput) → RuntimeState World → Progress × Work World
  unfolding run_in_session
  execute_task id task schedule rt =
      let task' = assigned_to id now task in
      in_family id task' schedule (on_db (get_task_family task'.task_id) (store_assigned task' rt))

  -- The agent leaves the pool when the task is over, however it ended.
  abbrev pub clean_up : AgentId → Progress × Work World → Progress × RuntimeState World
  clean_up id (going, w) = (going, w.rt)
  clean_up id (panicked, w) = (panicked, w.rt)
  clean_up id (returned r, w) = (returned r, (on_pool (remove_agent id) w.rt).1)

  abbrev pub with_agent :
      TaskInstance
      → List (List AgentInput)
      → Result WorkerAgent × RuntimeState World
      → Progress × RuntimeState World
  with_agent task schedule (err e, rt) =
      (returned (err e), record rt { enqueue_ch = rt.enqueue_ch ++ task ∷ [] })
  with_agent task schedule (ok agent, rt) =
      clean_up agent.id (execute_task agent.id task schedule rt)

  -- `short` is the part of the uuid that the agent's id draws.
  unfoldable pub work_on :
      ℕ → TaskInstance → List (List AgentInput) → RuntimeState World → Progress × RuntimeState World
  unfolding execute_task
  work_on short task schedule rt =
      with_agent task schedule (on_pool (spawn_agent cfg.max_agents now general_purpose short) rt)
