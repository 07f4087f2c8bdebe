-- ===== src/Task/PriorityQueue/Validity.antt =====
-- The invariant of the priority queue.
use catgirl.Base.{subst, ◌≡◌, ap, List, ◌∷◌, ◌++◌, arith, length, ◌≤◌}
use catgirl.Models.{TaskInstance}
use catgirl.SortSlice.{IsSorted}
use catgirl.Task.PriorityQueue.{PriorityQueue, less}
use catgirl.Task.PriorityQueue.Order.{IsSorted-middle, length-middle}

-- The items are sorted and fit the queue.
pub record IsValid (pq : PriorityQueue) : Type 0 where
  pub sorted : IsSorted less pq.items
  pub bounded : length pq.items ≤ pq.max_size

pub rest-IsValid :
    (pq : PriorityQueue) (task : TaskInstance) (rest before after : List TaskInstance)
    → pq.items ≡ before ++ task ∷ after
    → rest ≡ before ++ after
    → IsValid pq
    → IsValid (record pq { items = rest })
rest-IsValid pq task rest before after whole others v = record {
  sorted = rw others (IsSorted-middle before after task (subst (IsSorted less) whole v.sorted));
  bounded = omega (arith, v, ap length whole, ap length others, length-middle before after task);
}
