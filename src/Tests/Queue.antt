-- ===== src/Tests/Queue.antt =====
-- The queue of tasks at work.
use catgirl.Base.{◌+◌, ◌≡◌, refl, List, [], ◌∷◌, pos, ◌+ℤ◌, ◌<ℤ◌, arith}
use catgirl.Models.{Priority, reasoner, any_type, TaskInstance}
use catgirl.SortSlice.{by_insertion}
use catgirl.Task.Score.{calculate_priority_score, age_boost, score-lt_of_gap}
use catgirl.Task.PriorityQueue.{PriorityQueue, new_priority_queue, enqueue, dequeue, scored}
use catgirl.Task.PriorityQueue.Validity.{IsValid}
use catgirl.Task.PriorityQueue.Enqueue.{EnqueueSpec, enqueue-EnqueueSpec}
use catgirl.Task.PriorityQueue.Take.{DequeueSpec, dequeue-DequeueSpec}
use catgirl.Task.PriorityQueue.History.{
  Call, enqueues, dequeues, removes, run, run-new-IsValid, arrivals, departures, holds,
  run-new_balance,
}
use catgirl.Task.GlobalQueue
use catgirl.Task.GlobalQueue.{GlobalTaskQueue, new_global_task_queue, capacity}
use catgirl.Task.GlobalQueue.Conservation.{start, submit, Inv, Reach-Inv}
use catgirl.Tests.Fixtures.{a_task}

abbrev old_task : TaskInstance
old_task = a_task 1 Priority.low 0

abbrev new_task : TaskInstance
new_task = a_task 2 Priority.high 5

abbrev calls : List Call
calls = enqueues old_task 6 ∷ enqueues new_task 6 ∷ dequeues reasoner ∷ removes 9 ∷ []

abbrev two_items : PriorityQueue
two_items = record { items = scored 6 new_task ∷ scored 6 old_task ∷ []; max_size = 3 }

two_items-IsValid : IsValid two_items
unfolding calculate_priority_score age_boost ◌+ℤ◌
two_items-IsValid = record { sorted = ((refl, tt), (tt, tt)); bounded = omega arith }

run-new-IsValid_example : IsValid (run by_insertion (new_priority_queue 2) calls)
run-new-IsValid_example = run-new-IsValid by_insertion 2 calls

run-new_balance_example :
    let pq = new_priority_queue 2 in
    arrivals by_insertion 2 pq calls
    ≡ departures by_insertion 2 pq calls + holds 2 (run by_insertion pq calls)
run-new_balance_example = run-new_balance by_insertion 2 2 calls

enqueue-EnqueueSpec_example :
    EnqueueSpec old_task 6
      (new_priority_queue 1)
      (enqueue by_insertion old_task 6 (new_priority_queue 1))
enqueue-EnqueueSpec_example = enqueue-EnqueueSpec by_insertion old_task 6 (new_priority_queue 1)

dequeue-DequeueSpec_example : DequeueSpec any_type two_items (dequeue any_type two_items)
dequeue-DequeueSpec_example = dequeue-DequeueSpec any_type two_items two_items-IsValid

abbrev submitted : GlobalTaskQueue
submitted = GlobalQueue.enqueue old_task (new_global_task_queue 4)

Reach-Inv_example : Inv 4 (old_task ∷ []) [] submitted
Reach-Inv_example = Reach-Inv by_insertion 4 (submit start old_task (omega arith))

abbrev a_queue : GlobalTaskQueue
a_queue = record (new_global_task_queue 4) { pq = two_items }

score-lt_of_gap_example :
    calculate_priority_score 6 old_task (pos 0) <ℤ calculate_priority_score 6 new_task (pos 0)
score-lt_of_gap_example = score-lt_of_gap 6 old_task new_task (pos 0) (omega arith) (omega arith)
