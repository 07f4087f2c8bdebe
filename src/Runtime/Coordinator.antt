-- ===== src/Runtime/Coordinator.antt =====
-- runtime.go: `RuntimeCoordinator`, the state that the workers share and the code outside that they
-- call. A worker's iteration is one step here, in which the clock stands still; what other goroutines
-- send to the agent comes between two iterations.
pub mod Tools
pub mod Loop
pub mod Execute
pub mod Frame
pub mod Effects
pub mod Outcome
pub mod Runs
pub mod Failures
pub mod Passes
pub mod Depths
use catgirl.Base.{ℕ, List, [], ◌∷◌, ◌++◌, Option, some, String, M, Result, Error, update_where}
use catgirl.Models.{Uuid, Time, Json, AgentId, TaskInstance, WorkingMemoryEntry}
use catgirl.Repository.{Db, update_task_instance}
use catgirl.Config.{TelegramBotConfig, ModelProviderConfig}
use catgirl.Llm.Messages.{ChatMessage, Tool, ChatResponse}
use catgirl.Llm.Choice.{ModelConfig}
use catgirl.Docker.{DockerClient, ContainerInfo, ManagerState}
use catgirl.Workers.Agent.{WorkerAgent, AgentMessage}
use catgirl.Workers.Pool.{PoolState, has_id}
use catgirl.Task.Service.{TaskState}
use catgirl.Runtime.Sessions.{LiveSession, SessionState}
use catgirl.Runtime.Context.{ContextManager, ContextState}
use catgirl.Runtime.Context.Messages.{Codec, or_empty}
use catgirl.Runtime.Callbacks.{BlockedAgentInfo, CallbackState}

-- The Docker client, the configured image, and a command that is run in a container.
pub record DockerService (World : Type 0) : Type 0 where
  pub client : DockerClient World
  pub registry : String
  pub image : String
  pub execute_cmd : String → String → M World String

-- `docker` is missing if the service could not be made. `draws` are the two numbers that a choice of
-- a model draws, `fresh` is a new uuid. `text_arg` is `args[key].(string)` of the JSON text of the
-- arguments, if that is a text; `show_user` prints a number. The last ones are `json.Marshal` of a summary, of a text and of
-- `{"text": …}`, `uuid.String` and `err.Error`.
pub record External (World : Type 0) : Type 0 where
  pub chat : ModelConfig → List ChatMessage → List Tool → M World ChatResponse
  pub docker : Option (DockerService World)
  pub draws : World → ℕ × ℕ × World
  pub fresh : World → Uuid × World
  pub codec : Codec
  pub by_key : List WorkingMemoryEntry → List WorkingMemoryEntry
  pub as_text : Json → Option String
  pub text_arg : String → String → Option String
  pub show_user : ℕ → String
  pub summary_json : String → Json
  pub escape : String → String
  pub text_json : String → Json
  pub show_id : Uuid → String
  pub error_text : Error → String

-- `text, _ := args[key].(string)`
abbrev pub string_arg : {World : Type 0} → External World → String → String → String
string_arg ext arguments key = or_empty (ext.text_arg arguments key)

pub record RuntimeState (World : Type 0) : Type 0 where
  pub db : Db
  pub enqueue_ch : List TaskInstance
  pub sessions : List LiveSession
  pub agents : List WorkerAgent
  pub blocked_agents : List BlockedAgentInfo
  pub released : List Uuid
  pub containers : List ContainerInfo
  pub world : World

-- What stays the same while a worker runs its task. `tools` is the order in which a loop meets the
-- loaded tools, `started` the time at which `runAgentLoop` was entered.
pub record WorkerEnv : Type 0 where
  pub agent_id : AgentId
  pub session_id : Uuid
  pub bot : TelegramBotConfig
  pub providers : List ModelProviderConfig
  pub tools : List Tool
  pub max_task_depth : ℕ
  pub started : Time
  pub now : Time

-- The variables of `runAgentLoop`; `state_change` is the one of an iteration. The task is shared with
-- the agent, whose `CurrentTask` points to it.
pub record Work (World : Type 0) : Type 0 where
  pub rt : RuntimeState World
  pub task : TaskInstance
  pub context : ContextManager
  pub state_change : String

module _ {World : Type 0} where
  -- The parts of the state that a callee works on.
  abbrev pub on_db : {A : Type 0} → M Db A → RuntimeState World → Result A × RuntimeState World
  on_db m s = let (r, db) = m s.db in (r, record s { db = db })

  abbrev pub on_tasks : {A : Type 0} → M TaskState A → M (RuntimeState World) A
  on_tasks m s =
      let (r, t) = m (record { db = s.db; enqueue_ch = s.enqueue_ch }) in
      (r, record s { db = t.db; enqueue_ch = t.enqueue_ch })

  abbrev pub on_sessions : {A : Type 0} → M SessionState A → M (RuntimeState World) A
  on_sessions m s =
      let (r, t) = m (record { db = s.db; sessions = s.sessions }) in
      (r, record s { db = t.db; sessions = t.sessions })

  abbrev pub on_pool : {A : Type 0} → M PoolState A → M (RuntimeState World) A
  on_pool m s =
      let (r, t) = m (record { db = s.db; agents = s.agents }) in
      (r, record s { db = t.db; agents = t.agents })

  abbrev pub callbacks : RuntimeState World → CallbackState
  callbacks s = record {
    agents = s.agents;
    blocked_agents = s.blocked_agents;
    released = s.released;
  }

  abbrev pub with_callbacks : CallbackState → RuntimeState World → RuntimeState World
  with_callbacks c s = record s {
    agents = c.agents;
    blocked_agents = c.blocked_agents;
    released = c.released;
  }

  abbrev pub on_world : {A : Type 0} → M World A → M (RuntimeState World) A
  on_world m s = let (r, world) = m s.world in (r, record s { world = world })

  abbrev pub on_containers : {A : Type 0} → M (ManagerState World) A → M (RuntimeState World) A
  on_containers m s =
      let (r, t) = m (record { engine = s.world; containers = s.containers }) in
      (r, record s { world = t.engine; containers = t.containers })

  abbrev pub in_rt : {A : Type 0} → M (RuntimeState World) A → Work World → Result A × Work World
  in_rt m w = let (r, rt) = m w.rt in (r, record w { rt = rt })

  -- The turns of the worker: an INSERT that fails is logged, the turn stays in memory.
  abbrev pub on_context : M ContextState (Unit {0}) → Work World → Work World
  on_context m w =
      let (_, t) = m (record { db = w.rt.db; context = w.context }) in
      record w { rt = record w.rt { db = t.db }; context = t.context }

  -- The agent, which the pool's map shares with its worker, is changed in place.
  abbrev pub on_agent : AgentId → (WorkerAgent → WorkerAgent) → Work World → Work World
  on_agent id f w = record w {
    rt = record w.rt { agents = update_where (has_id id) f w.rt.agents };
  }

  abbrev pub remember_message : AgentId → AgentMessage → Work World → Work World
  remember_message id msg =
      on_agent id (λ agent. record agent { output_history = agent.output_history ++ msg ∷ [] })

  -- The task is changed in place and stored; an UPDATE that fails is dropped.
  abbrev pub store_task : AgentId → (TaskInstance → TaskInstance) → Work World → Work World
  store_task id f w =
      let task = f w.task in
      let (_, db) = update_task_instance task w.rt.db in
      on_agent id (λ agent. record agent { current_task = some task })
        (record w { rt = record w.rt { db = db }; task = task })
