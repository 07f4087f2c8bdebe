-- ===== src/Task/PriorityQueue/History.antt =====
-- Any history of calls on a queue that starts empty.
use catgirl.Base.{
  ℕ, ◌+◌, ◌≡◌, refl, ap, Bool, true, false, List, [], ◌∷◌, Option, none, some, Result, ok, err,
  count_if, ◌==◌, if◌then◌else◌, arith, Perm-count_if,
}
use catgirl.Models.{Uuid, Time, AgentType, TaskInstance}
use catgirl.SortSlice.{SortSlice}
use catgirl.Task.PriorityQueue.{PriorityQueue, new_priority_queue, enqueue, dequeue, remove}
use catgirl.Task.PriorityQueue.Validity.{IsValid}
use catgirl.Task.PriorityQueue.Enqueue.{EnqueueSpec, enqueue-EnqueueSpec, enqueue-IsValid}
use catgirl.Task.PriorityQueue.Take.{
  DequeueSpec, dequeue-DequeueSpec, dequeue-IsValid, RemoveSpec, remove-RemoveSpec, remove-IsValid,
}

pub data Call : Type 0 where
  enqueues : TaskInstance → Time → Call
  dequeues : AgentType → Call
  removes : Uuid → Call

module _ (sorter : SortSlice TaskInstance) where
  pub step : PriorityQueue → Call → PriorityQueue
  step pq (enqueues task now) = (enqueue sorter task now pq).1
  step pq (dequeues agent_type) = (dequeue agent_type pq).1
  step pq (removes id) = (remove id pq).1

  pub run : PriorityQueue → List Call → PriorityQueue
  unfolding step
  run pq [] = pq
  run pq (c ∷ cs) = run (step pq c) cs

  step-IsValid : (pq : PriorityQueue) (c : Call) → IsValid pq → IsValid (step pq c)
  unfolding step
  step-IsValid pq (enqueues task now) v = enqueue-IsValid sorter task now pq v
  step-IsValid pq (dequeues agent_type) v = dequeue-IsValid agent_type pq v
  step-IsValid pq (removes id) v = remove-IsValid id pq v

  run-IsValid : (pq : PriorityQueue) (cs : List Call) → IsValid pq → IsValid (run pq cs)
  unfolding run
  run-IsValid pq [] v = v
  run-IsValid pq (c ∷ cs) v = run-IsValid (step pq c) cs (step-IsValid pq c v)

  -- After any history of calls on a new queue the items are sorted by score and age, and there are
  -- at most as many as the queue was made for.
  pub run-new-IsValid :
      (max_size : ℕ) (cs : List Call) → IsValid (run (new_priority_queue max_size) cs)
  run-new-IsValid max_size cs =
      run-IsValid (new_priority_queue max_size) cs (record { sorted = tt; bounded = omega arith })

-- How many items of the queue have an id.
abbrev pub holds : Uuid → PriorityQueue → ℕ
holds id pq = count_if (λ t. t.instance_id == id) pq.items

abbrev pub weight : Uuid → TaskInstance → ℕ
weight id task = if task.instance_id == id then 1 else 0

-- How many items with an id a call hands out, or takes in.
abbrev pub taken : Uuid → Option TaskInstance → ℕ
taken id none = 0
taken id (some task) = weight id task

abbrev pub entered : Uuid → TaskInstance → Result (Unit {0}) → ℕ
entered id task (ok _) = weight id task
entered id task (err e) = 0

abbrev pub cleared : Bool → ℕ
cleared b = if b then 1 else 0

pub enqueue_balance :
    (id : Uuid) (task : TaskInstance) (now : Time) (pq : PriorityQueue)
    (r : Result (Unit {0}) × PriorityQueue)
    → EnqueueSpec task now pq r
    → entered id task r.0 + holds id pq ≡ holds id r.1
enqueue_balance id task now pq (ok _, pq') h =
    omega (arith, Perm-count_if (λ t. t.instance_id == id) h.1)
enqueue_balance id task now pq (err e, pq') h = omega (arith, ap (holds id) h.2)

pub dequeue_balance :
    (id : Uuid) (agent_type : AgentType) (pq : PriorityQueue)
    (r : Option TaskInstance × PriorityQueue)
    → DequeueSpec agent_type pq r
    → holds id pq ≡ taken id r.0 + holds id r.1
dequeue_balance id agent_type pq (none, pq') h = omega (arith, ap (holds id) h.1)
dequeue_balance id agent_type pq (some task, pq') h = Perm-count_if (λ t. t.instance_id == id) h.0

pub remove_balance :
    (id other : Uuid) (pq : PriorityQueue) (r : Bool × PriorityQueue)
    → RemoveSpec other pq r
    → holds id pq ≡ (if other == id then cleared r.0 else 0) + holds id r.1
remove_balance id other pq (true, pq') (task, e, same, size) =
    rw (← e) (omega (arith, Perm-count_if (λ t. t.instance_id == id) same))
remove_balance id other pq (false, pq') h = ground (arith, ap (holds id) h.1)

module _ (sorter : SortSlice TaskInstance) (id : Uuid) where
  -- What one call takes in and hands out of the items with the id.
  arrives : PriorityQueue → Call → ℕ
  arrives pq (enqueues task now) = entered id task (enqueue sorter task now pq).0
  arrives pq (dequeues agent_type) = 0
  arrives pq (removes other) = 0

  departs : PriorityQueue → Call → ℕ
  departs pq (enqueues task now) = 0
  departs pq (dequeues agent_type) = taken id (dequeue agent_type pq).0
  departs pq (removes other) = if other == id then cleared (remove other pq).0 else 0

  pub arrivals : PriorityQueue → List Call → ℕ
  unfolding arrives
  arrivals pq [] = 0
  arrivals pq (c ∷ cs) = arrives pq c + arrivals (step sorter pq c) cs

  pub departures : PriorityQueue → List Call → ℕ
  unfolding departs
  departures pq [] = 0
  departures pq (c ∷ cs) = departs pq c + departures (step sorter pq c) cs

  step_balance :
      (pq : PriorityQueue) (c : Call)
      → IsValid pq
      → arrives pq c + holds id pq ≡ departs pq c + holds id (step sorter pq c)
  unfolding step arrives departs
  step_balance pq (enqueues task now) v = omega (
    arith,
    enqueue_balance id task now pq (enqueue sorter task now pq)
        (enqueue-EnqueueSpec sorter task now pq),
  )
  step_balance pq (dequeues agent_type) v = omega (
    arith,
    dequeue_balance id agent_type pq (dequeue agent_type pq) (dequeue-DequeueSpec agent_type pq v),
  )
  step_balance pq (removes other) v =
      omega (arith, remove_balance id other pq (remove other pq) (remove-RemoveSpec other pq))

  run_balance :
      (pq : PriorityQueue) (cs : List Call)
      → IsValid pq
      → arrivals pq cs + holds id pq ≡ departures pq cs + holds id (run sorter pq cs)
  unfolding run arrivals departures
  run_balance pq [] v = refl
  run_balance pq (c ∷ cs) v =
      omega
        (arith, step_balance pq c v, run_balance (step sorter pq c) cs (step-IsValid sorter pq c v))

  -- In any history of a new queue, and for every id: the tasks that `Enqueue` accepted are those that
  -- `Dequeue` handed out or `Remove` took out, and those that the queue still holds.
  pub run-new_balance :
      (max_size : ℕ) (cs : List Call)
      → let pq = new_priority_queue max_size in
        arrivals pq cs ≡ departures pq cs + holds id (run sorter pq cs)
  run-new_balance max_size cs = omega (
    arith,
    run_balance (new_priority_queue max_size) cs (record { sorted = tt; bounded = omega arith }),
  )
