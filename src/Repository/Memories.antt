-- ===== src/Repository/Memories.antt =====
-- Long-term memories, the working memory of a session, and the counts and deletions of turns. `newest`
-- is the order that `ORDER BY created_at DESC` puts the rows in. A memory's metadata, the time of its
-- last access and its source agents are left out.
use catgirl.Base.{
  ℕ, ◌+◌, Bool, not, ◌&&◌, List, [], ◌∷◌, ◌++◌, Option, none, some, ◌==◌, leb, ok, err,
  duplicate_key, foreign_key, message, M, length, take, drop, find, any, keep, count_if,
  update_where, if◌then◌else◌,
}
use catgirl.Models.{
  Uuid, Time, AgentId, TaskInstance, TaskFamily, Session, TaskOwnerChannel, WorkingMemoryEntry,
  LongTermMemory,
}
use catgirl.Repository.Tables.{Db, statement, agent_eq}

abbrev pub is_memory : Uuid → LongTermMemory → Bool
is_memory id row = row.id == id

-- The column is a vector of 1024 numbers.
abbrev pub vector_size : ℕ
vector_size = 1024

unfoldable pub create_long_term_memory : LongTermMemory → M Db (Unit {0})
create_long_term_memory m = statement λ db.
    if length m.embedding == vector_size
    then (if any (is_memory m.id) db.long_term_memories
        then (err duplicate_key, db)
        else if any (λ row. row.id == m.session_id) db.sessions
        then (ok tt, record db { long_term_memories = db.long_term_memories ++ m ∷ [] })
        else (err foreign_key, db))
    else (err (message "expected 1024 dimensions"), db)

unfoldable pub increment_memory_access_count : Uuid → M Db (Unit {0})
increment_memory_access_count id = statement λ db. (
  ok tt,
  record db {
    long_term_memories =
        update_where (is_memory id) (λ row. record row { access_count = row.access_count + 1 })
          db.long_term_memories;
  },
)

unfoldable pub delete_long_term_memory : Uuid → M Db (Unit {0})
delete_long_term_memory id = statement λ db. (
  ok tt,
  record db { long_term_memories = keep (λ row. not (is_memory id row)) db.long_term_memories },
)

unfoldable pub list_sessions : (List Session → List Session) → ℕ → ℕ → M Db (List Session)
list_sessions newest limit offset =
    statement λ db. (ok (take limit (drop offset (newest db.sessions))), db)

-- `wm.agent_id = ti.assigned_agent_id`; NULL equals nothing.
abbrev pub is_assigned : AgentId → Option AgentId → Bool
is_assigned id none = Bool.false
is_assigned id (some assigned) = agent_eq assigned id

abbrev pub in_session : Uuid → TaskInstance → TaskFamily → Bool
in_session session_id ti tf = tf.task_id == ti.task_id && tf.session_id == session_id

-- One entry for each row of the join, so one for each instance that the agent was assigned.
abbrev pub joined :
    Uuid → List TaskFamily → List TaskInstance → WorkingMemoryEntry → List WorkingMemoryEntry
joined session_id families [] entry = []
joined session_id families (ti ∷ rest) entry =
    if is_assigned entry.agent_id ti.assigned_agent_id && any (in_session session_id ti) families
    then entry ∷ joined session_id families rest entry
    else joined session_id families rest entry

abbrev pub all_joined :
    Uuid → List TaskFamily → List TaskInstance → List WorkingMemoryEntry → List WorkingMemoryEntry
all_joined session_id families instances [] = []
all_joined session_id families instances (entry ∷ rest) =
    joined session_id families instances entry ++ all_joined session_id families instances rest

unfoldable pub scan_working_memory_by_session : Uuid → M Db (List WorkingMemoryEntry)
scan_working_memory_by_session session_id =
    statement
      λ db. (ok (all_joined session_id db.task_families db.task_instances db.working_memory), db)

unfoldable pub get_turn_count : Uuid → M Db ℕ
get_turn_count id =
    statement λ db. (ok (count_if (λ (owner, turn). owner == id) db.conversation_history), db)

unfoldable pub delete_conversation_turns : Uuid → ℕ → M Db (Unit {0})
delete_conversation_turns id up_to = statement λ db. (
  ok tt,
  record db {
    conversation_history =
        keep (λ (owner, turn). not (owner == id && leb turn.turn_id up_to)) db.conversation_history;
  },
)

unfoldable pub get_task_instance_turn_count : Uuid → M Db ℕ
get_task_instance_turn_count id =
    statement λ db. (ok (count_if (λ row. row.owner == id) db.task_instance_turns), db)

unfoldable pub delete_task_instance_turns : Uuid → M Db (Unit {0})
delete_task_instance_turns id = statement λ db. (
  ok tt,
  record db { task_instance_turns = keep (λ row. not (row.owner == id)) db.task_instance_turns },
)

unfoldable pub get_session_turn_count : Uuid → M Db ℕ
get_session_turn_count id =
    statement λ db. (ok (count_if (λ row. row.owner == id) db.session_turns), db)

unfoldable pub delete_session_turns : Uuid → M Db (Unit {0})
delete_session_turns id = statement λ db.
    (ok tt, record db { session_turns = keep (λ row. not (row.owner == id)) db.session_turns })

unfoldable pub get_task_owner_channel : Uuid → M Db (Option TaskOwnerChannel)
get_task_owner_channel id =
    statement λ db. (ok (find (λ row. row.channel_id == id) db.task_owner_channels), db)

unfoldable pub update_channel_last_activity : Uuid → Time → M Db (Unit {0})
update_channel_last_activity id now = statement λ db. (
  ok tt,
  record db {
    task_owner_channels =
        update_where (λ row. row.channel_id == id) (λ row. record row { last_activity = now })
          db.task_owner_channels;
  },
)
