-- ===== src/Task/GlobalQueue.antt =====
-- task_queue.go: `GlobalTaskQueue`, a priority queue behind two buffered channels that one goroutine,
-- `processLoop`, serves. A send on a full channel waits, so it is no step. Which ready case the
-- `select` of the loop takes is open, so each case is a step of its own.
pub mod Conservation
pub mod Status
use catgirl.Base.{
  ℕ, ◌+◌, ◌<◌, ◌≡◌, Bool, List, [], ◌∷◌, ◌++◌, Option, Result, ok, err, ltb, if◌then◌else◌, length,
}
use catgirl.Models.{Uuid, Time, AgentType, TaskInstance}
use catgirl.SortSlice.{SortSlice}
use catgirl.Task.PriorityQueue
use catgirl.Task.PriorityQueue.{PriorityQueue}

-- `client` names the result channel, on which one reply is waited for.
pub record DequeueRequest : Type 0 where
  pub agent_type : AgentType
  pub client : ℕ

-- `replies` is what has been sent on the result channels, `dropped` the tasks that the loop logged
-- and gave up because the queue was full.
pub record GlobalTaskQueue : Type 0 where
  pub pq : PriorityQueue
  pub enqueue_ch : List TaskInstance
  pub dequeue_ch : List DequeueRequest
  pub replies : List (ℕ × Option TaskInstance)
  pub dropped : List TaskInstance

abbrev pub capacity : ℕ
capacity = 100

abbrev pub new_global_task_queue : ℕ → GlobalTaskQueue
new_global_task_queue max_queue_size = record {
  pq = PriorityQueue.new_priority_queue max_queue_size;
  enqueue_ch = [];
  dequeue_ch = [];
  replies = [];
  dropped = [];
}

-- The case `task := <-gtq.enqueueCh`.
abbrev pub take_in :
    GlobalTaskQueue → TaskInstance → Result (Unit {0}) × PriorityQueue → GlobalTaskQueue
take_in gtq task (ok _, pq) = record gtq { pq = pq }
take_in gtq task (err e, pq) = record gtq { pq = pq; dropped = task ∷ gtq.dropped }

module _ (sorter : SortSlice TaskInstance) where
  unfoldable pub handle_enqueue :
      TaskInstance → List TaskInstance → Time → GlobalTaskQueue → GlobalTaskQueue
  handle_enqueue task rest now gtq =
      take_in (record gtq { enqueue_ch = rest }) task (PriorityQueue.enqueue sorter task now gtq.pq)

-- The case `req := <-gtq.dequeueCh`.
unfoldable pub handle_dequeue :
    DequeueRequest → List DequeueRequest → GlobalTaskQueue → GlobalTaskQueue
handle_dequeue req rest gtq =
    let (task, pq) = PriorityQueue.dequeue req.agent_type gtq.pq in
    record gtq { pq = pq; dequeue_ch = rest; replies = (req.client, task) ∷ gtq.replies }

-- `rebalancePriorities` takes its lock and lets it go again.
unfoldable pub rebalance_priorities : GlobalTaskQueue → GlobalTaskQueue
rebalance_priorities gtq = gtq

unfoldable pub enqueue : TaskInstance → GlobalTaskQueue → GlobalTaskQueue
enqueue task gtq = record gtq { enqueue_ch = gtq.enqueue_ch ++ task ∷ [] }

unfoldable pub dequeue : DequeueRequest → GlobalTaskQueue → GlobalTaskQueue
dequeue req gtq = record gtq { dequeue_ch = gtq.dequeue_ch ++ req ∷ [] }

unfoldable pub remove : Uuid → GlobalTaskQueue → Bool × GlobalTaskQueue
remove id gtq = let (found, pq) = PriorityQueue.remove id gtq.pq in (found, record gtq { pq = pq })
