-- ===== src/Models/Agents.antt =====
-- models.go: agents, working memory, long-term memory and usage records.
use catgirl.Base.{ℕ, String, List, Option}
use catgirl.Models.Tasks.{Uuid, Time, Json, AgentType, AgentId}

pub data AgentStatus : Type 0 where
  idle busy destroying removed : AgentStatus

pub record Agent : Type 0 where
  pub id : AgentId
  pub kind : AgentType
  pub status : AgentStatus
  pub current_instance_id : Option Uuid
  pub created_at : Time
  pub last_active_at : Option Time
  pub tasks_completed : ℕ
  pub metadata : Json

pub record WorkingMemoryEntry : Type 0 where
  pub agent_id : AgentId
  pub key : String
  pub value : Json
  pub created_at : Time
  pub updated_at : Time

pub data LtmTier : Type 0 where
  tier1_raw tier2_summary tier3_brief : LtmTier

-- An embedding is a vector of float32, which no code of the repository computes with.
pub record LongTermMemory : Type 0 where
  pub id : Uuid
  pub session_id : Uuid
  pub tier : LtmTier
  pub content : String
  pub embedding : List ℕ
  pub access_count : ℕ
  pub created_at : Time
  pub expires_at : Option Time

pub data UsageOperationType : Type 0 where
  llm_call tool_call embedding : UsageOperationType

-- `cost_multiplier` is in tenths, and so is `effective_tokens`.
pub record UsageRecord : Type 0 where
  pub usage_id : Uuid
  pub task_id : Option Uuid
  pub session_id : Uuid
  pub user_id : String
  pub operation_type : UsageOperationType
  pub operation_name : String
  pub input_tokens : ℕ
  pub output_tokens : ℕ
  pub total_tokens : ℕ
  pub membership_level : String
  pub cost_multiplier : ℕ
  pub effective_tokens : ℕ
  pub timestamp : Time
