-- ===== src/Runtime/ParentDepth.antt =====
-- runtime.go: the loop of SPAWN_TASK that counts how many tasks stand above one, `for
-- current.ParentInstanceID != nil`. It has no bound of its own, so it runs on fuel here; with fuel for
-- the rows of the table it comes to its end by itself (ParentDepth/Laws). A getter that fails returns
-- a pointer to a zero record, which has no parent.
pub mod Laws
pub mod Order
use catgirl.Base.{
  ℕ, zero, suc, ◌+◌, pos, List, [], ◌∷◌, Option, none, some, Result, ok, err, or_zero, length,
}
use catgirl.Models.{Uuid, TaskInstance, TaskFamily, TaskStatus, Priority, nil_uuid}
use catgirl.Repository.{Db, get_task_family, get_task_instance}
use catgirl.Task.Service.{zero_family}

abbrev pub zero_instance : TaskInstance
zero_instance = record {
  instance_id = nil_uuid;
  task_id = nil_uuid;
  description = "";
  agent_type = "";
  status = TaskStatus.unset;
  priority = Priority.other "";
  priority_score = pos 0;
  assigned_agent_id = none;
  parent_instance_id = none;
  created_at = 0;
  started_at = none;
  completed_at = none;
  result = "";
  error = none;
  constraints = "";
}

-- `parentDepth++; parent, _ := GetTaskInstance(...); if parent == nil { break }; current = parent`
abbrev pub one_up : (Option Uuid → ℕ → Db → ℕ × Db) → ℕ → Result (Option TaskInstance) × Db → ℕ × Db
one_up again count (ok (some parent), db) = again parent.parent_instance_id (count + 1) db
one_up again count (ok none, db) = (count + 1, db)
one_up again count (err e, db) = again zero_instance.parent_instance_id (count + 1) db

-- `count` is `parentDepth` so far, the second argument `current.ParentInstanceID`.
unfoldable pub count_parents : ℕ → Option Uuid → ℕ → Db → ℕ × Db
count_parents fuel none count db = (count, db)
count_parents zero (some id) count db = (count, db)
count_parents (suc fuel) (some id) count db =
    one_up (count_parents fuel) count (get_task_instance id db)

-- `parentTask, err := GetTaskInstance(...); if err == nil && parentTask != nil`
abbrev pub depth_of : Result (Option TaskInstance) × Db → ℕ × Db
depth_of (ok (some task), db) =
    count_parents (length db.task_instances) task.parent_instance_id 0 db
depth_of (ok none, db) = (0, db)
depth_of (err e, db) = (0, db)

-- `if tf, _ := GetTaskFamily(...); tf != nil`
abbrev pub depth_in : TaskInstance → Result (Option TaskFamily) × Db → ℕ × Db
depth_in task (r, db) = elim (or_zero zero_family r) [
  | none ↦ (0, db)
  | some tf ↦ depth_of (get_task_instance task.instance_id db)
]

unfoldable pub parent_depth : TaskInstance → Db → ℕ × Db
unfolding count_parents
parent_depth task db = depth_in task (get_task_family task.task_id db)
