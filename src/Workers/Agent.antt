-- ===== src/Workers/Agent.antt =====
-- agent_pool.go: `WorkerAgent` and its methods. Each holds the agent's lock, so it is one step.
use catgirl.Base.{
  ℕ, Bool, true, false, List, [], ◌∷◌, ◌++◌, Option, none, some, String, ltb, length, if◌then◌else◌,
}
use catgirl.Models.{Time, AgentType, AgentId, AgentStatus, TaskInstance}

-- `Type` is the text of one of the kinds of input; `other` is any text that the loop does not know.
pub data InputType : Type 0 where
  task_start tool_result message : InputType
  other : String → InputType

pub record AgentInput : Type 0 where
  pub kind : InputType
  pub content : String
  pub tool_id : String
  pub tool_name : String

pub record ToolCallInfo : Type 0 where
  pub id : String
  pub name : String
  pub arguments : String

pub data MessageRole : Type 0 where
  system user assistant tool : MessageRole

pub record AgentMessage : Type 0 where
  pub role : MessageRole
  pub content : String
  pub tool_calls : List ToolCallInfo
  pub tool_call_id : String

pub data AgentState : Type 0 where
  blocking free completed failed : AgentState

-- No code adds to `PendingToolCalls`; an entry is the id of a call. `input_queue` is the buffer of
-- the channel, and `stopped` says that `stopCh` is closed.
pub record WorkerAgent : Type 0 where
  pub id : AgentId
  pub kind : AgentType
  pub status : AgentStatus
  pub current_task : Option TaskInstance
  pub last_active : Option Time
  pub input_queue : List AgentInput
  pub output_history : List AgentMessage
  pub pending_tool_calls : List String
  pub state : AgentState
  pub stopped : Bool

abbrev pub input_capacity : ℕ
input_capacity = 100

abbrev pub new_worker_agent : AgentId → AgentType → Time → WorkerAgent
new_worker_agent id agent_type now = record {
  id = id;
  kind = agent_type;
  status = AgentStatus.idle;
  current_task = none;
  last_active = some now;
  input_queue = [];
  output_history = [];
  pending_tool_calls = [];
  state = AgentState.free;
  stopped = false;
}

abbrev pub reset_for_new_task : WorkerAgent → WorkerAgent
reset_for_new_task agent = record agent {
  current_task = none;
  state = AgentState.free;
  output_history = [];
  pending_tool_calls = [];
}

abbrev pub set_blocking : Bool → WorkerAgent → WorkerAgent
set_blocking on agent = record agent { state = if on then AgentState.blocking else AgentState.free }

abbrev state_is_blocking : AgentState → Bool
state_is_blocking AgentState.blocking = true
state_is_blocking _ = false

abbrev state_is_free : AgentState → Bool
state_is_free AgentState.free = true
state_is_free _ = false

abbrev pub is_blocking : WorkerAgent → Bool
is_blocking agent = state_is_blocking agent.state

abbrev pub is_free : WorkerAgent → Bool
is_free agent = state_is_free agent.state

-- The send of a `select` with a `default`: it succeeds if the buffer has room.
unfoldable pub send_input : AgentInput → WorkerAgent → Bool × WorkerAgent
send_input input agent =
    if ltb (length agent.input_queue) input_capacity
    then (true, record agent { input_queue = agent.input_queue ++ input ∷ [] })
    else (false, agent)

-- `none` is a receive that waits.
abbrev pub received : WorkerAgent → List AgentInput → Option (AgentInput × WorkerAgent)
received agent [] = none
received agent (input ∷ rest) = some (input, record agent { input_queue = rest })

unfoldable pub get_input : WorkerAgent → Option (AgentInput × WorkerAgent)
get_input agent = received agent agent.input_queue
