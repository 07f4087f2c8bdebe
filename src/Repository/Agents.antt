-- ===== src/Repository/Agents.antt =====
-- Agents, working memory, long-term memory and usage records.
use catgirl.Base.{
  Bool, List, true, ◌&&◌, [], ◌∷◌, ◌++◌, Option, none, some, String, str_eq, ◌==◌, ok, err,
  duplicate_key, foreign_key, M, if◌then◌else◌, find, any, keep, update_where, not,
}
use catgirl.Models.{
  TaskInstance, Uuid, Time, Json, AgentId, Agent, removed, WorkingMemoryEntry, UsageRecord,
}
use catgirl.Repository.Tables.{Db, statement, agent_eq}
use catgirl.Repository.Tasks.{is_instance}

abbrev pub is_agent : AgentId → Agent → Bool
is_agent id row = agent_eq row.id id

abbrev pub has_instance : Option Uuid → List TaskInstance → Bool
has_instance none rows = true
has_instance (some id) rows = any (is_instance id) rows

-- The INSERT leaves out `last_active_at` and `tasks_completed`, which is 0 by default.
abbrev pub inserted_agent : Agent → Agent
inserted_agent a = record a { last_active_at = none; tasks_completed = 0 }

unfoldable pub create_agent : Agent → M Db (Unit {0})
create_agent a = statement λ db.
    if any (is_agent a.id) db.agents
    then (err duplicate_key, db)
    else if has_instance a.current_instance_id db.task_instances
    then (ok tt, record db { agents = db.agents ++ inserted_agent a ∷ [] })
    else (err foreign_key, db)

abbrev pub set_agent : Agent → Agent → Agent
set_agent a row = record row {
  status = a.status;
  current_instance_id = a.current_instance_id;
  last_active_at = a.last_active_at;
  tasks_completed = a.tasks_completed;
  metadata = a.metadata;
}

unfoldable pub update_agent : Agent → M Db (Unit {0})
update_agent a = statement λ db.
    if has_instance a.current_instance_id db.task_instances
    then (ok tt, record db { agents = update_where (is_agent a.id) (set_agent a) db.agents })
    else if any (is_agent a.id) db.agents
    then (err foreign_key, db)
    else (ok tt, db)

-- An agent is never deleted from the table.
unfoldable pub delete_agent : AgentId → M Db (Unit {0})
delete_agent id = statement λ db. (
  ok tt,
  record db {
    agents = update_where (is_agent id) (λ row. record row { status = removed }) db.agents;
  },
)

abbrev pub is_entry : AgentId → String → WorkingMemoryEntry → Bool
is_entry agent_id key row = agent_eq row.agent_id agent_id && str_eq row.key key

-- `value` is the JSON text that `json.Marshal` gives; `NOW()` is the argument `now`.
unfoldable pub set_working_memory : AgentId → String → Json → Time → M Db (Unit {0})
set_working_memory agent_id key value now = statement λ db.
    if any (is_entry agent_id key) db.working_memory
    then (
      ok tt,
      record db {
        working_memory =
            update_where (is_entry agent_id key)
              (λ row. record row { value = value; updated_at = now }) db.working_memory;
      },
    )
    else (
      ok tt,
      record db {
        working_memory =
            db.working_memory
            ++ (record {
              agent_id = agent_id;
              key = key;
              value = value;
              created_at = now;
              updated_at = now;
            })
              ∷ [];
      },
    )

unfoldable pub get_working_memory : AgentId → String → M Db (Option WorkingMemoryEntry)
get_working_memory agent_id key =
    statement λ db. (ok (find (is_entry agent_id key) db.working_memory), db)

-- `ORDER BY key` follows the collation of the database, which `by_key` stands for.
unfoldable pub get_all_working_memory :
    (List WorkingMemoryEntry → List WorkingMemoryEntry) → AgentId → M Db (List WorkingMemoryEntry)
get_all_working_memory by_key agent_id =
    statement
      λ db. (ok (by_key (keep (λ row. agent_eq row.agent_id agent_id) db.working_memory)), db)

unfoldable pub delete_working_memory : AgentId → String → M Db (Unit {0})
delete_working_memory agent_id key = statement λ db. (
  ok tt,
  record db { working_memory = keep (λ row. not (is_entry agent_id key row)) db.working_memory },
)

unfoldable pub create_usage_record : UsageRecord → M Db (Unit {0})
create_usage_record u = statement λ db.
    if any (λ row. row.usage_id == u.usage_id) db.usage_records
    then (err duplicate_key, db)
    else if any (λ row. row.id == u.session_id) db.sessions
    then (if has_instance u.task_id db.task_instances
        then (ok tt, record db { usage_records = db.usage_records ++ u ∷ [] })
        else (err foreign_key, db))
    else (err foreign_key, db)
