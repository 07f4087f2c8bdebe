-- ===== src/Repository/Tables.antt =====
-- The database: its tables, and what a statement does.
use catgirl.Base.{
  ℕ, ◌+◌, ◌≡◌, ◌↔◌, Bool, true, ◌&&◌, ◌||◌, List, ◌==◌, str_eq, eq_iff, Result, err, unavailable, M,
  if◌then◌else◌, arith, refl, Option, none, some,
}
use catgirl.Models.{
  Uuid, Json, AgentId, TaskFamily, TaskInstance, TaskOwnerChannel, ContainerSnapshot, Agent,
  WorkingMemoryEntry, LongTermMemory, UsageRecord, Session, TelegramUser, ConversationTurn, Turn,
}

pub record Db : Type 0 where
  pub sessions : List Session
  pub telegram_users : List TelegramUser
  pub task_families : List TaskFamily
  pub task_instances : List TaskInstance
  pub task_owner_channels : List TaskOwnerChannel
  pub container_snapshots : List ContainerSnapshot
  pub agents : List Agent
  pub working_memory : List WorkingMemoryEntry
  pub long_term_memories : List LongTermMemory
  pub usage_records : List UsageRecord
  pub conversation_history : List (Uuid × ConversationTurn)
  pub session_turns : List Turn
  pub task_instance_turns : List Turn
  -- how many statements have been sent, and which of them fail
  pub calls : ℕ
  pub outage : ℕ → Bool
  -- what a text becomes in a JSONB column: an equal value in a normal form, if it is JSON at all
  pub as_jsonb : Json → Option Json

-- One statement: it is counted, and fails if the database says so.
abbrev pub statement : {A : Type 0} → (Db → Result A × Db) → M Db A
statement body db =
    let counted = record db { calls = db.calls + 1 } in
    if db.outage db.calls then (err unavailable, counted) else body counted

-- A JSONB column takes NULL, which the empty text stands for, and texts that are JSON.
abbrev pub is_json : Option Json → Bool
is_json none = Bool.false
is_json (some j) = true

abbrev pub fits_jsonb : (Json → Option Json) → Json → Bool
fits_jsonb as_jsonb j = str_eq j "" || is_json (as_jsonb j)

abbrev pub or_null : Option Json → Json
or_null none = ""
or_null (some j) = j

-- What such a column holds of a text that it takes.
abbrev pub as_column : (Json → Option Json) → Json → Json
as_column as_jsonb j = if str_eq j "" then "" else or_null (as_jsonb j)

abbrev pub agent_eq : AgentId → AgentId → Bool
agent_eq a b = str_eq a.kind b.kind && a.short == b.short

pub agent_eq_iff : (a b : AgentId) → (agent_eq a b ≡ true) ↔ (a ≡ b)
agent_eq_iff a b = ground (arith, eq_iff a.kind b.kind)

pub agent_eq_self : (a : AgentId) → agent_eq a a ≡ true
agent_eq_self a = (agent_eq_iff a a).1 refl
