-- ===== src/Task/Service.antt =====
-- task_queue.go: `TaskService`, over the database and the sending end of the queue's channel.
-- A send that finds the channel full waits for the loop of the queue; the model puts the task on the
-- channel at once and leaves the wait out. The clock stands still during a call; the uuids that a
-- call draws are its arguments; `uuid.String` is the parameter `show`. What a call writes into the
-- task that it was given a pointer to is part of the task that it returns.
pub mod Create
pub mod Spawn
pub mod Lifecycle
pub mod Root
use catgirl.Base.{
  ℕ, ◌+◌, ◌≡◌, ℤ, pos, negsuc, zero, Bool, true, false, ◌&&◌, List, [], ◌∷◌, ◌++◌, Option, none,
  some, String, ◌==◌, leb, ltb, M, Result, ok, err, ◌>>=◌, ◌>>◌, pure, fail, wrapped, attempt,
  ignored, require, guard, depth_exceeded, not_found, if◌then◌else◌,
}
use catgirl.Models.{
  Uuid, Time, Json, AgentType, AgentId, TaskInstance, TaskFamily, TaskOwnerChannel, Priority,
  TaskStatus, pending, assigned, is_unset, is_terminal, is_in_progress, nil_uuid,
}
use catgirl.Repository.{
  Db, create_task_instance, get_task_instance, update_task_instance, create_task_family,
  get_task_family, update_task_family, create_task_owner_channel,
}
use catgirl.Task.Score.{calculate_priority_score}

pub record TaskState : Type 0 where
  pub db : Db
  pub enqueue_ch : List TaskInstance

abbrev pub on_db : {A : Type 0} → M Db A → M TaskState A
on_db m s = let (r, db) = m s.db in (r, record s { db = db })

-- `s.queue.Enqueue(task)`
abbrev pub send : TaskInstance → M TaskState (Unit {0})
send task s = (ok tt, record s { enqueue_ch = s.enqueue_ch ++ task ∷ [] })

abbrev pub zero_family : TaskFamily
zero_family = record {
  task_id = nil_uuid;
  session_id = nil_uuid;
  container_id = "";
  root_description = "";
  status = TaskStatus.unset;
  max_depth_reached = 0;
  created_at = 0;
  completed_at = none;
  container_snapshot_id = none;
}

abbrev is_zero : ℤ → Bool
is_zero (pos zero) = true
is_zero _ = false

-- What `CreateTask` fills in before it stores the task.
abbrev fill_id : Uuid → TaskInstance → TaskInstance
fill_id fresh task =
    if task.instance_id == nil_uuid then record task { instance_id = fresh } else task

abbrev fill_created : Time → TaskInstance → TaskInstance
fill_created now task = if task.created_at == 0 then record task { created_at = now } else task

abbrev fill_status : TaskInstance → TaskInstance
fill_status task =
    if is_unset task.status then record task { status = TaskStatus.pending } else task

abbrev fill_score : Time → TaskInstance → TaskInstance
fill_score now task =
    if is_zero task.priority_score
    then record task { priority_score = calculate_priority_score now task (pos 0) }
    else task

pub filled : Uuid → Time → TaskInstance → TaskInstance
filled fresh now task = fill_score now (fill_status (fill_created now (fill_id fresh task)))

abbrev pub owner_channel : Time → String → TaskInstance → TaskOwnerChannel
owner_channel now owner_id task = record {
  channel_id = task.instance_id;
  task_instance_id = task.instance_id;
  owner_id = owner_id;
  created_at = now;
  last_activity = now;
}

unfoldable pub open_channel : Time → TaskInstance → String → M TaskState TaskInstance
open_channel now task owner_id = do
  tf ← wrapped "failed to get task family" (on_db (get_task_family task.task_id))
  require tf not_found
  ignored (on_db (create_task_owner_channel (owner_channel now owner_id task)))
  pure task

abbrev pub new_task :
    Uuid → Uuid → String → AgentType → Priority → Option Uuid → Time → TaskInstance
new_task instance_id task_id description agent_type priority parent now = record {
  instance_id = instance_id;
  task_id = task_id;
  description = description;
  agent_type = agent_type;
  status = TaskStatus.pending;
  priority = priority;
  priority_score = pos 0;
  assigned_agent_id = none;
  parent_instance_id = parent;
  created_at = now;
  started_at = none;
  completed_at = none;
  result = "";
  error = none;
  constraints = "";
}

abbrev pub raise_depth : Option TaskFamily → ℕ → M TaskState (Unit {0})
raise_depth none new_depth = pure tt
raise_depth (some tf) new_depth =
    if ltb tf.max_depth_reached new_depth
    then ignored (on_db (update_task_family (record tf { max_depth_reached = new_depth })))
    else pure tt

module _ (max_task_depth : ℕ) where
  -- The task is stored, then its depth is checked, then it is queued; the family is looked up last.
  unfoldable pub queue_stored : Time → TaskInstance → String → ℕ → M TaskState TaskInstance
  unfolding open_channel
  queue_stored now task owner_id depth = do
    guard (leb depth max_task_depth) (depth_exceeded depth max_task_depth)
    send task
    open_channel now task owner_id

  unfoldable pub create_filled : Time → TaskInstance → String → ℕ → M TaskState TaskInstance
  unfolding queue_stored
  create_filled now task owner_id depth = do
    wrapped "failed to create task instance" (on_db (create_task_instance task))
    queue_stored now task owner_id depth

  unfoldable pub create_task : Time → Uuid → TaskInstance → String → ℕ → M TaskState TaskInstance
  unfolding create_filled filled
  create_task now fresh task owner_id depth =
      create_filled now (filled fresh now task) owner_id depth

  unfoldable pub spawn_sub_task :
      (Uuid → String)
      → Time
      → Uuid
      → TaskInstance
      → String
      → AgentType
      → Priority
      → ℕ
      → M TaskState TaskInstance
  spawn_sub_task show now fresh parent description agent_type priority depth = do
    let new_depth = depth + 1
    guard (leb new_depth max_task_depth) (depth_exceeded new_depth max_task_depth)
    let child =
        new_task fresh parent.task_id description agent_type priority (some parent.instance_id) now
    task ← create_task now fresh child (show parent.instance_id) new_depth
    tf ← attempt zero_family (on_db (get_task_family parent.task_id))
    raise_depth tf new_depth
    pure task

  -- `task_id` and `fresh` are the two uuids that the call draws.
  unfoldable pub spawn_root_task :
      Time → Uuid → Uuid → Uuid → String → String → AgentType → Priority → M TaskState TaskInstance
  spawn_root_task now task_id fresh session_id owner_id description agent_type priority = do
    let family : TaskFamily = record {
      task_id = task_id;
      session_id = session_id;
      container_id = "";
      root_description = description;
      status = TaskStatus.in_progress;
      max_depth_reached = 0;
      created_at = now;
      completed_at = none;
      container_snapshot_id = none;
    }
    wrapped "failed to create task family" (on_db (create_task_family family))
    let task = new_task fresh task_id description agent_type priority none now
    wrapped "failed to create root task" (create_task now fresh task owner_id 0)

abbrev pub set_result : Option Json → TaskInstance → TaskInstance
set_result none task = task
set_result (some result) task = record task { result = result }

abbrev pub set_error : Option String → TaskInstance → TaskInstance
set_error none task = task
set_error (some text) task = record task { error = some text }

abbrev pub finish : Time → Option Json → Option String → TaskInstance → TaskInstance
finish now result err_msg task =
    set_error err_msg (set_result result (record task { completed_at = some now }))

abbrev pub is_nil : Option Time → Bool
is_nil none = true
is_nil (some t) = false

pub end_task : Time → TaskStatus → Option Json → Option String → TaskInstance → TaskInstance
end_task now status result err_msg task =
    if is_terminal status then finish now result err_msg task else task

pub start_task : Time → TaskStatus → TaskInstance → TaskInstance
start_task now status task =
    if is_in_progress status && is_nil task.started_at
    then record task { started_at = some now }
    else task

pub with_status : Time → TaskStatus → Option Json → Option String → TaskInstance → TaskInstance
unfolding end_task start_task
with_status now status result err_msg task =
    start_task now status (end_task now status result err_msg (record task { status = status }))

unfoldable pub update_task_status :
    Time → Uuid → TaskStatus → Option Json → Option String → M TaskState (Unit {0})
update_task_status now instance_id status result err_msg = do
  found ← on_db (get_task_instance instance_id)
  task ← require found not_found
  on_db (update_task_instance (with_status now status result err_msg task))

unfoldable pub assign_task : Uuid → AgentId → M TaskState (Unit {0})
assign_task instance_id agent_id = do
  found ← on_db (get_task_instance instance_id)
  task ← require found not_found
  on_db (
      update_task_instance
        (record task { assigned_agent_id = some agent_id; status = TaskStatus.assigned }))
