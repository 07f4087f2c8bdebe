-- ===== src/Repository/Listings.antt =====
-- Rows that are listed by their session or their status. An `ORDER BY` is a parameter that puts rows in
-- an order: `newest` by the time of creation, `urgent` by score and age, `by_turn` by the number.
use catgirl.Base.{
  ℕ, Bool, true, false, not, ◌&&◌, List, Option, ◌==◌, ok, M, find, any, keep, map, take, drop,
}
use catgirl.Models.{
  Uuid, AgentId, TaskStatus, TaskInstance, TaskOwnerChannel, ContainerSnapshot, Agent, AgentStatus,
  TelegramUser, ConversationTurn,
}
use catgirl.Repository.Tables.{Db, statement, agent_eq}
use catgirl.Repository.Snapshots.{is_null}
use catgirl.Repository.Memories.{in_session}

abbrev pub page : {A : Type 0} → ℕ → ℕ → List A → List A
page limit offset rows = take limit (drop offset rows)

unfoldable pub list_task_instances_by_session :
    (List TaskInstance → List TaskInstance) → Uuid → ℕ → ℕ → M Db (List TaskInstance)
list_task_instances_by_session newest session_id limit offset = statement λ db. (
  ok (
      page limit offset
        (newest (keep (λ ti. any (in_session session_id ti) db.task_families) db.task_instances))),
  db,
)

abbrev pub has_status : TaskStatus → TaskInstance → Bool
has_status status ti = same status ti.status
  where
    same : TaskStatus → TaskStatus → Bool
    same TaskStatus.unset TaskStatus.unset = true
    same TaskStatus.pending TaskStatus.pending = true
    same TaskStatus.assigned TaskStatus.assigned = true
    same TaskStatus.in_progress TaskStatus.in_progress = true
    same TaskStatus.completed TaskStatus.completed = true
    same TaskStatus.failed TaskStatus.failed = true
    same TaskStatus.exited TaskStatus.exited = true
    same _ _ = false

unfoldable pub list_task_instances_by_status :
    (List TaskInstance → List TaskInstance) → TaskStatus → ℕ → M Db (List TaskInstance)
list_task_instances_by_status urgent status limit =
    statement λ db. (ok (take limit (urgent (keep (has_status status) db.task_instances))), db)

unfoldable pub list_container_snapshots_by_session :
    (List ContainerSnapshot → List ContainerSnapshot) → Uuid → ℕ → ℕ → M Db (List ContainerSnapshot)
list_container_snapshots_by_session newest session_id limit offset = statement λ db. (
  ok (
      page limit offset (
        newest (
          keep (λ row. row.session_id == session_id && is_null row.deleted_at)
            db.container_snapshots))),
  db,
)

unfoldable pub get_agent : AgentId → M Db (Option Agent)
get_agent id = statement λ db. (ok (find (λ row. agent_eq row.id id) db.agents), db)

abbrev pub same_status : AgentStatus → AgentStatus → Bool
same_status AgentStatus.idle AgentStatus.idle = true
same_status AgentStatus.busy AgentStatus.busy = true
same_status AgentStatus.destroying AgentStatus.destroying = true
same_status AgentStatus.removed AgentStatus.removed = true
same_status _ _ = false

unfoldable pub list_agents_by_status : AgentStatus → M Db (List Agent)
list_agents_by_status status =
    statement λ db. (ok (keep (λ row. same_status row.status status) db.agents), db)

unfoldable pub list_all_agents : M Db (List Agent)
list_all_agents =
    statement
      λ db. (ok (keep (λ row. not (same_status row.status AgentStatus.removed)) db.agents), db)

-- Of several channels of a task the first row is read.
unfoldable pub get_task_owner_channel_by_task : Uuid → M Db (Option TaskOwnerChannel)
get_task_owner_channel_by_task id =
    statement λ db. (ok (find (λ row. row.task_instance_id == id) db.task_owner_channels), db)

unfoldable pub get_conversation_history :
    (List ConversationTurn → List ConversationTurn) → Uuid → ℕ → ℕ → M Db (List ConversationTurn)
get_conversation_history by_turn session_id limit offset = statement λ db. (
  ok (
      page limit offset (
        by_turn (
          map (λ (owner, turn). turn)
            (keep (λ (owner, turn). owner == session_id) db.conversation_history)))),
  db,
)

unfoldable pub get_telegram_user : ℕ → M Db (Option TelegramUser)
get_telegram_user id =
    statement λ db. (ok (find (λ row. row.telegram_user_id == id) db.telegram_users), db)
