-- ===== src/Tests/Service.antt =====
-- The service of tasks at work, and the statement that it rests on.
use catgirl.Base.{[], none, some, String}
use catgirl.Models.{Uuid, Priority, TaskStatus, reasoner, TaskInstance}
use catgirl.Task.Service.{TaskState, spawn_sub_task, spawn_root_task, update_task_status}
use catgirl.Task.Service.Root.{RootSpec, spawn_root_task-RootSpec}
use catgirl.Task.Service.Spawn.{SpawnSpec, spawn_sub_task-SpawnSpec}
use catgirl.Task.Service.Lifecycle.{UpdateSpec, update_task_status-UpdateSpec}
use catgirl.Tests.Fixtures.{a_task, a_db}

abbrev a_state : TaskState
a_state = record { db = a_db; enqueue_ch = [] }

abbrev parent : TaskInstance
parent = a_task 1 Priority.normal 3

abbrev show : Uuid → String
show id = "id"

spawn_sub_task-SpawnSpec_example :
    SpawnSpec 3 4 2 parent 0 a_state
      (spawn_sub_task 3 show 4 2 parent "a part" reasoner Priority.high 0 a_state)
spawn_sub_task-SpawnSpec_example =
    spawn_sub_task-SpawnSpec 3 show 4 2 parent "a part" reasoner Priority.high 0 a_state

update_task_status-UpdateSpec_example :
    UpdateSpec 8 1 TaskStatus.failed none
      (some "no")
      a_state
      (update_task_status 8 1 TaskStatus.failed none (some "no") a_state)
update_task_status-UpdateSpec_example =
    update_task_status-UpdateSpec 8 1 TaskStatus.failed none (some "no") a_state

spawn_root_task-RootSpec_example :
    RootSpec 8 5 a_state
      (spawn_root_task 3 4 8 2 5 "orchestrator" "a whole" reasoner Priority.high a_state)
spawn_root_task-RootSpec_example =
    spawn_root_task-RootSpec 3 4 8 2 5 "orchestrator" "a whole" reasoner Priority.high a_state
