-- ===== src/Task/GlobalQueue/Status.antt =====
-- task_queue.go: `GetQueueStatus`.
use catgirl.Base.{
  ℕ, ◌≡◌, ◌∙◌, List, [], String, str_eq, length, count_if, get_count, sum_counts, tally,
  get_count-tally, sum_counts-tally,
}
use native.Mathlib.Nat.{zero-add}
use catgirl.Models.{Priority, low, normal, high, critical}
use catgirl.Task.GlobalQueue.{GlobalTaskQueue}

-- `string(task.Priority)`
abbrev pub priority_text : Priority → String
priority_text low = "low"
priority_text normal = "normal"
priority_text high = "high"
priority_text critical = "critical"
priority_text (Priority.other text) = text

pub record QueueStatus : Type 0 where
  pub total_tasks : ℕ
  pub by_priority : List (String × ℕ)
  pub by_agent_type : List (String × ℕ)

unfoldable pub get_queue_status : GlobalTaskQueue → QueueStatus
get_queue_status gtq =
    let all_tasks = gtq.pq.items in
    record {
      total_tasks = length all_tasks;
      by_priority = tally (λ task. priority_text task.priority) [] all_tasks;
      by_agent_type = tally (λ task. task.agent_type) [] all_tasks;
    }

-- Each entry of the two tables is the number of queued tasks with that priority or agent type, and
-- the entries of either table add up to the total.
pub get_queue_status-counts :
    (gtq : GlobalTaskQueue) (key : String)
    → let status = get_queue_status gtq in
      (get_count key status.by_priority
        ≡ count_if (λ task. str_eq (priority_text task.priority) key) gtq.pq.items)
      × (get_count key status.by_agent_type
          ≡ count_if (λ task. str_eq task.agent_type key) gtq.pq.items)
      × (sum_counts status.by_priority ≡ status.total_tasks)
      × (sum_counts status.by_agent_type ≡ status.total_tasks)
unfolding get_queue_status
get_queue_status-counts gtq key = (
  get_count-tally (λ task. priority_text task.priority) key [] gtq.pq.items ∙ zero-add _,
  get_count-tally (λ task. task.agent_type) key [] gtq.pq.items ∙ zero-add _,
  sum_counts-tally (λ task. priority_text task.priority) [] gtq.pq.items ∙ zero-add _,
  sum_counts-tally (λ task. task.agent_type) [] gtq.pq.items ∙ zero-add _,
)
