-- ===== src/Repository/Tasks.antt =====
-- Task families, task instances and owner channels.
use catgirl.Base.{
  not, invalid_json, Bool, List, true, [], ◌∷◌, ◌++◌, Option, none, some, ◌==◌, ok, err,
  duplicate_key, foreign_key, M, if◌then◌else◌, find, any, update_where,
}
use catgirl.Models.{Session, Json, Uuid, TaskFamily, TaskInstance, TaskOwnerChannel}
use catgirl.Repository.Tables.{Db, statement, fits_jsonb, as_column}

abbrev pub is_family : Uuid → TaskFamily → Bool
is_family id row = row.task_id == id

abbrev pub is_instance : Uuid → TaskInstance → Bool
is_instance id row = row.instance_id == id

abbrev has_session : Uuid → List Session → Bool
has_session id rows = any (λ row. row.id == id) rows

-- `task_id` is the primary key, `session_id` references `sessions`.
unfoldable pub create_task_family : TaskFamily → M Db (Unit {0})
create_task_family tf = statement λ db.
    if any (is_family tf.task_id) db.task_families
    then (err duplicate_key, db)
    else if has_session tf.session_id db.sessions
    then (
      ok tt,
      record db { task_families = db.task_families ++ (record tf { completed_at = none }) ∷ [] },
    )
    else (err foreign_key, db)

unfoldable pub get_task_family : Uuid → M Db (Option TaskFamily)
get_task_family id = statement λ db. (ok (find (is_family id) db.task_families), db)

abbrev pub set_family : TaskFamily → TaskFamily → TaskFamily
set_family tf row = record row {
  container_id = tf.container_id;
  status = tf.status;
  max_depth_reached = tf.max_depth_reached;
  completed_at = tf.completed_at;
  container_snapshot_id = tf.container_snapshot_id;
}

unfoldable pub update_task_family : TaskFamily → M Db (Unit {0})
update_task_family tf = statement λ db. (
  ok tt,
  record db {
    task_families = update_where (is_family tf.task_id) (set_family tf) db.task_families;
  },
)

-- `parent_instance_id` references `task_instances`; NULL references nothing.
abbrev pub has_parent : Option Uuid → List TaskInstance → Bool
has_parent none rows = true
has_parent (some id) rows = any (is_instance id) rows

-- The columns that the INSERT does not name are NULL in the new row.
abbrev pub inserted_instance : (Json → Option Json) → TaskInstance → TaskInstance
inserted_instance as_jsonb ti = record ti {
  constraints = as_column as_jsonb ti.constraints;
  started_at = none;
  completed_at = none;
  result = "";
  error = none;
}

unfoldable pub create_task_instance : TaskInstance → M Db (Unit {0})
create_task_instance ti = statement λ db.
    if not (fits_jsonb db.as_jsonb ti.constraints)
    then (err invalid_json, db)
    else if any (is_instance ti.instance_id) db.task_instances
    then (err duplicate_key, db)
    else if any (is_family ti.task_id) db.task_families
    then (if has_parent ti.parent_instance_id db.task_instances
        then (
          ok tt,
          record db { task_instances = db.task_instances ++ inserted_instance db.as_jsonb ti ∷ [] },
        )
        else (err foreign_key, db))
    else (err foreign_key, db)

unfoldable pub get_task_instance : Uuid → M Db (Option TaskInstance)
get_task_instance id = statement λ db. (ok (find (is_instance id) db.task_instances), db)

abbrev pub set_instance : (Json → Option Json) → TaskInstance → TaskInstance → TaskInstance
set_instance as_jsonb ti row = record row {
  status = ti.status;
  priority_score = ti.priority_score;
  assigned_agent_id = ti.assigned_agent_id;
  started_at = ti.started_at;
  completed_at = ti.completed_at;
  result = as_column as_jsonb ti.result;
  error = ti.error;
}

unfoldable pub update_task_instance : TaskInstance → M Db (Unit {0})
update_task_instance ti = statement λ db.
    if fits_jsonb db.as_jsonb ti.result
    then (
      ok tt,
      record db {
        task_instances =
            update_where (is_instance ti.instance_id) (set_instance db.as_jsonb ti)
              db.task_instances;
      },
    )
    else (err invalid_json, db)

unfoldable pub create_task_owner_channel : TaskOwnerChannel → M Db (Unit {0})
create_task_owner_channel c = statement λ db.
    if any (λ row. row.channel_id == c.channel_id) db.task_owner_channels
    then (err duplicate_key, db)
    else if any (is_instance c.task_instance_id) db.task_instances
    then (ok tt, record db { task_owner_channels = db.task_owner_channels ++ c ∷ [] })
    else (err foreign_key, db)
