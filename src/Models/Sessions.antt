-- ===== src/Models/Sessions.antt =====
-- models.go and models_extra.go: sessions, telegram users, conversations.
use catgirl.Base.{ℕ, String, Bool, Option}
use catgirl.Models.Tasks.{Uuid, Time, Json}

pub data SessionStatus : Type 0 where
  active paused terminated : SessionStatus

pub record Session : Type 0 where
  pub id : Uuid
  pub telegram_user_id : ℕ
  pub bot_token : String
  pub name : String
  pub status : SessionStatus
  pub created_at : Time
  pub updated_at : Time
  pub orchestrator_state : Json
  pub metadata : Json

pub record TelegramUser : Type 0 where
  pub telegram_user_id : ℕ
  pub session_id : Option Uuid
  pub username : String
  pub first_name : String
  pub last_name : String
  pub is_banned : Bool
  pub created_at : Time
  pub last_activity : Time

pub record ConversationTurn : Type 0 where
  pub turn_id : ℕ
  pub thought : String
  pub action : String
  pub result : Json
  pub tokens : ℕ
  pub timestamp : Time

-- "user", "assistant", "tool"
pub data Role : Type 0 where
  user assistant tool : Role

-- `SessionTurn` and `TaskInstanceTurn` have the same fields; `owner` is the session's id in the one
-- and the task instance's in the other.
pub record Turn : Type 0 where
  pub turn_id : ℕ
  pub owner : Uuid
  pub role : Role
  pub content : String
  pub tool_call_id : Option String
  pub tool_name : Option String
  pub tool_arguments : Option Json
  pub tool_result : Option Json
  pub input_tokens : ℕ
  pub output_tokens : ℕ
  pub timestamp : Time

abbrev pub is_active : SessionStatus → Bool
is_active active = Bool.true
is_active _ = Bool.false
