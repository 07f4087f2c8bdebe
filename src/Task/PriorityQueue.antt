-- ===== src/Task/PriorityQueue.antt =====
-- task_queue.go: `PriorityQueue`. Each method holds the queue's lock from start to end, so it is one
-- step. The time of a call is an argument, and `sort.Slice` is the section's parameter.
pub mod Order
pub mod Validity
pub mod Enqueue
pub mod Take
pub mod History
use catgirl.Base.{
  ℕ, ◌≡◌, Bool, true, false, not, ◌||◌, List, [], ◌∷◌, ◌++◌, Option, none, some, String, str_eq,
  ◌==◌, ltb, leb, pos, ltb_ℤ, ℤ, Result, ok, err, queue_full, if◌then◌else◌, length, get_elem?,
}
use catgirl.Models.{Uuid, Time, AgentType, any_type, TaskInstance}
use catgirl.SortSlice.{SortSlice}
use catgirl.Task.Score.{calculate_priority_score}

pub record PriorityQueue : Type 0 where
  pub items : List TaskInstance
  pub max_size : ℕ

abbrev pub new_priority_queue : ℕ → PriorityQueue
new_priority_queue max_size = record { items = []; max_size = max_size }

-- `a.PriorityScore != b.PriorityScore`, as a test.
abbrev same_score : ℤ → ℤ → Bool
same_score a b = not (ltb_ℤ a b || ltb_ℤ b a)

-- The comparison of `sortDesc`: the higher score first, and of equal scores the older task.
abbrev pub less : TaskInstance → TaskInstance → Bool
less a b =
    if same_score a.priority_score b.priority_score
    then ltb a.created_at b.created_at
    else ltb_ℤ b.priority_score a.priority_score

-- The score that `Enqueue` writes into the task.
abbrev pub scored : Time → TaskInstance → TaskInstance
scored now task = record task { priority_score = calculate_priority_score now task (pos 0) }

-- The queue with its items sorted, as `Enqueue` leaves it.
module _ (sorter : SortSlice TaskInstance) where
  unfoldable pub enqueue : TaskInstance → Time → PriorityQueue → Result (Unit {0}) × PriorityQueue
  enqueue task now pq =
      if leb pq.max_size (length pq.items)
      then (err queue_full, pq)
      else (ok tt, record pq { items = sorter.sort less (pq.items ++ scored now task ∷ []) })

-- `for i, task := range items { if p(task) { items = append(items[:i], items[i+1:]...) … } }`:
-- the first item that passes the test, and the others.
abbrev pub push_front :
    TaskInstance
    → Option (TaskInstance × List TaskInstance)
    → Option (TaskInstance × List TaskInstance)
push_front task none = none
push_front task (some (found, rest)) = some (found, task ∷ rest)

unfoldable pub extract :
    (TaskInstance → Bool) → List TaskInstance → Option (TaskInstance × List TaskInstance)
extract p [] = none
extract p (task ∷ rest) = if p task then some (task, rest) else push_front task (extract p rest)

abbrev pub matches : AgentType → TaskInstance → Bool
matches agent_type task = str_eq task.agent_type agent_type || str_eq agent_type any_type

-- No task fits: the first one is handed out whatever its type.
abbrev pub take_first : PriorityQueue → List TaskInstance → Option TaskInstance × PriorityQueue
take_first pq [] = (none, pq)
take_first pq (task ∷ rest) = (some task, record pq { items = rest })

abbrev pub take_found :
    PriorityQueue → Option (TaskInstance × List TaskInstance) → Option TaskInstance × PriorityQueue
take_found pq none = take_first pq pq.items
take_found pq (some (task, rest)) = (some task, record pq { items = rest })

unfoldable pub dequeue : AgentType → PriorityQueue → Option TaskInstance × PriorityQueue
dequeue agent_type pq = take_found pq (extract (matches agent_type) pq.items)

unfoldable pub peek : PriorityQueue → Option TaskInstance
peek pq = get_elem? pq.items 0

abbrev pub removed_from :
    PriorityQueue → Option (TaskInstance × List TaskInstance) → Bool × PriorityQueue
removed_from pq none = (false, pq)
removed_from pq (some (task, rest)) = (true, record pq { items = rest })

unfoldable pub remove : Uuid → PriorityQueue → Bool × PriorityQueue
remove id pq = removed_from pq (extract (λ task. task.instance_id == id) pq.items)
