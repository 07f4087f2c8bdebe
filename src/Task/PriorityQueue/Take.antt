-- ===== src/Task/PriorityQueue/Take.antt =====
-- What `Dequeue` and `Remove` promise.
use mathlib.Core.List.{perm_middle}
use mathlib.Core.List.Perm
use catgirl.Base.{
  subst, ◌==◌, ==_iff, ◌≡◌, refl, sym, ap, Bool, true, false, List, [], ◌∷◌, Perm, All, Option,
  none, some, inl, inr, ◌⊎◌, arith, length,
}
use catgirl.Models.{Uuid, TaskInstance, AgentType}
use catgirl.SortSlice.{IsSorted}
use catgirl.Task.PriorityQueue.{
  PriorityQueue, less, dequeue, remove, extract, matches, take_first, take_found, removed_from,
}
use catgirl.Task.PriorityQueue.Order.{
  IsExtract, extract-IsExtract, IsSorted-after, All-append_weaken,
}
use catgirl.Task.PriorityQueue.Validity.{IsValid, rest-IsValid}

-- What `Dequeue` yields, and the items that it leaves.
abbrev pub DequeueSpec : AgentType → PriorityQueue → Option TaskInstance × PriorityQueue → Type 0
DequeueSpec agent_type pq (none, pq') = (pq.items ≡ []) × (pq' ≡ pq)
DequeueSpec agent_type pq (some task, pq') =
    Perm pq.items (task ∷ pq'.items)
    × (pq'.max_size ≡ pq.max_size)
    × (((matches agent_type task ≡ true)
          × All (λ u. (matches agent_type u ≡ false) ⊎ (less u task ≡ false)) pq'.items)
        ⊎ (All (λ u. matches agent_type u ≡ false) pq.items × (pq.items ≡ task ∷ pq'.items)))

take_first-DequeueSpec :
    (agent_type : AgentType) (pq : PriorityQueue) (tasks : List TaskInstance)
    → pq.items ≡ tasks
    → All (λ u. matches agent_type u ≡ false) pq.items
    → DequeueSpec agent_type pq (take_first pq tasks)
take_first-DequeueSpec agent_type pq [] e h = (e, refl)
take_first-DequeueSpec agent_type pq (t ∷ ts) e h =
    (subst (λ xs. Perm xs (t ∷ ts)) (sym e) (Perm.refl (t ∷ ts)), refl, inr (h, e))

take_found-DequeueSpec :
    (agent_type : AgentType) (pq : PriorityQueue) (o : Option (TaskInstance × List TaskInstance))
    → IsSorted less pq.items
    → IsExtract (matches agent_type) pq.items o
    → DequeueSpec agent_type pq (take_found pq o)
take_found-DequeueSpec agent_type pq none v h = take_first-DequeueSpec agent_type pq pq.items refl h
take_found-DequeueSpec agent_type pq (some (task, rest)) v
      (before, after, whole, others, passes, none_before) =
    (
      rw (whole, others) (perm_middle before after),
      refl,
      inl (
        passes,
        rw others (
            All-append_weaken (λ u. matches agent_type u ≡ false) (λ u. less u task ≡ false) _
              before after (λ u. inl) (λ u. inr) none_before
              (IsSorted-after before after task (rw whole at v))),
      ),
    )

-- On a valid queue `Dequeue` gives nothing exactly if the queue is empty. Otherwise it hands out one
-- item and keeps the rest. An item that fits is the best one: no item that fits is left that comes
-- before it. An item that does not fit is handed out only if none fits, and then it is the first one.
pub dequeue-DequeueSpec :
    (agent_type : AgentType) (pq : PriorityQueue)
    → IsValid pq
    → DequeueSpec agent_type pq (dequeue agent_type pq)
unfolding dequeue
dequeue-DequeueSpec agent_type pq v =
    take_found-DequeueSpec agent_type pq (extract (matches agent_type) pq.items) v.sorted
      (extract-IsExtract (matches agent_type) pq.items)

take_found-IsValid :
    (agent_type : AgentType) (pq : PriorityQueue) (o : Option (TaskInstance × List TaskInstance))
    → IsValid pq
    → IsExtract (matches agent_type) pq.items o
    → IsValid (take_found pq o).1
take_found-IsValid agent_type pq none v h = take_first-IsValid pq pq.items refl v
  where
    take_first-IsValid :
        (q : PriorityQueue) (tasks : List TaskInstance)
        → q.items ≡ tasks
        → IsValid q
        → IsValid (take_first q tasks).1
    take_first-IsValid q [] e v = v
    take_first-IsValid q (t ∷ ts) e v = record {
      sorted = (subst (IsSorted less) e v.sorted).1;
      bounded = omega (arith, ap length e);
    }
take_found-IsValid agent_type pq (some (task, rest)) v
      (before, after, whole, others, passes, none_before) =
    rest-IsValid pq task rest before after whole others v

pub dequeue-IsValid :
    (agent_type : AgentType) (pq : PriorityQueue) → IsValid pq → IsValid (dequeue agent_type pq).1
unfolding dequeue
dequeue-IsValid agent_type pq v =
    take_found-IsValid agent_type pq (extract (matches agent_type) pq.items) v
      (extract-IsExtract (matches agent_type) pq.items)

-- What `Remove` answers, and the items that it leaves.
abbrev pub RemoveSpec : Uuid → PriorityQueue → Bool × PriorityQueue → Type 0
RemoveSpec id pq (true, pq') =
    (task : TaskInstance) × (task.instance_id ≡ id)
    × Perm pq.items (task ∷ pq'.items)
    × (pq'.max_size ≡ pq.max_size)
RemoveSpec id pq (false, pq') = All (λ u. (u.instance_id == id) ≡ false) pq.items × (pq' ≡ pq)

removed_from-RemoveSpec :
    (id : Uuid) (pq : PriorityQueue) (o : Option (TaskInstance × List TaskInstance))
    → IsExtract (λ t. t.instance_id == id) pq.items o
    → RemoveSpec id pq (removed_from pq o)
removed_from-RemoveSpec id pq none h = (h, refl)
removed_from-RemoveSpec id pq (some (task, rest))
      (before, after, whole, others, passes, none_before) =
    (
      task,
      (==_iff task.instance_id id).0 passes,
      rw (whole, others) (perm_middle before after),
      refl,
    )

-- If `Remove` answers true, it took out one item with the id, and nothing else. If it answers false,
-- no item has the id, and the queue is as before.
pub remove-RemoveSpec : (id : Uuid) (pq : PriorityQueue) → RemoveSpec id pq (remove id pq)
unfolding remove
remove-RemoveSpec id pq =
    removed_from-RemoveSpec id pq (extract (λ t. t.instance_id == id) pq.items)
      (extract-IsExtract (λ t. t.instance_id == id) pq.items)

removed_from-IsValid :
    (p : TaskInstance → Bool) (pq : PriorityQueue) (o : Option (TaskInstance × List TaskInstance))
    → IsValid pq
    → IsExtract p pq.items o
    → IsValid (removed_from pq o).1
removed_from-IsValid p pq none v h = v
removed_from-IsValid p pq (some (task, rest)) v
      (before, after, whole, others, passes, none_before) =
    rest-IsValid pq task rest before after whole others v

pub remove-IsValid : (id : Uuid) (pq : PriorityQueue) → IsValid pq → IsValid (remove id pq).1
unfolding remove
remove-IsValid id pq v =
    removed_from-IsValid (λ t. t.instance_id == id) pq (extract (λ t. t.instance_id == id) pq.items)
      v (extract-IsExtract (λ t. t.instance_id == id) pq.items)

DequeueSpec-max_size :
    (agent_type : AgentType) (pq : PriorityQueue) (r : Option TaskInstance × PriorityQueue)
    → DequeueSpec agent_type pq r
    → r.1.max_size ≡ pq.max_size
DequeueSpec-max_size agent_type pq (none, pq') h = ap (λ q. q.max_size) h.1
DequeueSpec-max_size agent_type pq (some task, pq') h = h.1

pub dequeue-max_size :
    (agent_type : AgentType) (pq : PriorityQueue)
    → IsValid pq
    → (dequeue agent_type pq).1.max_size ≡ pq.max_size
dequeue-max_size agent_type pq v =
    DequeueSpec-max_size agent_type pq (dequeue agent_type pq) (dequeue-DequeueSpec agent_type pq v)

RemoveSpec-max_size :
    (id : Uuid) (pq : PriorityQueue) (r : Bool × PriorityQueue)
    → RemoveSpec id pq r
    → r.1.max_size ≡ pq.max_size
RemoveSpec-max_size id pq (true, pq') (task, e, same, size) = size
RemoveSpec-max_size id pq (false, pq') h = ap (λ q. q.max_size) h.1

pub remove-max_size : (id : Uuid) (pq : PriorityQueue) → (remove id pq).1.max_size ≡ pq.max_size
remove-max_size id pq = RemoveSpec-max_size id pq (remove id pq) (remove-RemoveSpec id pq)
