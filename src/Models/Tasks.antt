-- ===== src/Models/Tasks.antt =====
-- models.go: task families, task instances and their owner channels.
use catgirl.Base.{ℕ, ℤ, String, Bool, true, false, Option}

abbrev pub Uuid : Type 0
Uuid = ℕ

abbrev pub Time : Type 0
Time = ℕ

abbrev pub Json : Type 0
Json = String

-- `uuid.Nil`
abbrev pub nil_uuid : Uuid
nil_uuid = 0

-- `unset` is the empty string, which a new instance has before `CreateTask` fills it in.
pub data TaskStatus : Type 0 where
  unset pending assigned in_progress completed failed exited : TaskStatus

pub data Priority : Type 0 where
  low normal high critical : Priority
  other : String → Priority

abbrev pub AgentType : Type 0
AgentType = String

abbrev pub general_purpose : AgentType
general_purpose = "general_purpose"

abbrev pub reasoner : AgentType
reasoner = "reasoner"

-- `agentType == ""`: any agent will do.
abbrev pub any_type : AgentType
any_type = ""

pub record TaskFamily : Type 0 where
  pub task_id : Uuid
  pub session_id : Uuid
  pub container_id : String
  pub root_description : String
  pub status : TaskStatus
  pub max_depth_reached : ℕ
  pub created_at : Time
  pub completed_at : Option Time
  pub container_snapshot_id : Option Uuid

-- `agentID := fmt.Sprintf("%s_%s", agentType, uuid.New().String()[:8])`: an agent's id is its type
-- and the first eight hexadecimal digits of a uuid, so a number below 2 ^ 32.
pub record AgentId : Type 0 where
  pub kind : AgentType
  pub short : ℕ

-- `priority_score` is a float64 in the source, here an integer: see Task/Score.
pub record TaskInstance : Type 0 where
  pub instance_id : Uuid
  pub task_id : Uuid
  pub description : String
  pub agent_type : AgentType
  pub status : TaskStatus
  pub priority : Priority
  pub priority_score : ℤ
  pub assigned_agent_id : Option AgentId
  pub parent_instance_id : Option Uuid
  pub created_at : Time
  pub started_at : Option Time
  pub completed_at : Option Time
  pub result : Json
  pub error : Option String
  pub constraints : Json

pub record TaskOwnerChannel : Type 0 where
  pub channel_id : Uuid
  pub task_instance_id : Uuid
  pub owner_id : String
  pub created_at : Time
  pub last_activity : Time

abbrev pub is_unset : TaskStatus → Bool
is_unset unset = true
is_unset _ = false

-- `status == completed || status == failed`
abbrev pub is_terminal : TaskStatus → Bool
is_terminal completed = true
is_terminal failed = true
is_terminal _ = false

abbrev pub is_in_progress : TaskStatus → Bool
is_in_progress in_progress = true
is_in_progress _ = false
