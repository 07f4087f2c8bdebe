-- ===== src/Task/PriorityQueue/Enqueue.antt =====
-- What `Enqueue` promises.
use mathlib.Core.List.Perm
use catgirl.Base.{
  Perm-length, perm_snoc, ◌≡◌, refl, [], ◌∷◌, ◌++◌, Perm, inl, inr, arith, Bool-cases, length,
  length-append, ◌≤◌, ◌<◌, leb, Result, ok, err, queue_full, leb→le,
}
use catgirl.Models.{TaskInstance, Time}
use catgirl.SortSlice.{SortSlice}
use catgirl.Task.PriorityQueue.{PriorityQueue, less, scored, enqueue}
use catgirl.Task.PriorityQueue.Order.{less-IsStrictWeak}
use catgirl.Task.PriorityQueue.Validity.{IsValid}

-- What `Enqueue` yields, and the items that it leaves.
abbrev pub EnqueueSpec :
    TaskInstance → Time → PriorityQueue → Result (Unit {0}) × PriorityQueue → Type 0
EnqueueSpec task now pq (ok _, pq') =
    (length pq.items < pq.max_size)
    × Perm pq'.items (scored now task ∷ pq.items)
    × (pq'.max_size ≡ pq.max_size)
EnqueueSpec task now pq (err e, pq') =
    (pq.max_size ≤ length pq.items) × (e ≡ queue_full) × (pq' ≡ pq)

module _ (sorter : SortSlice TaskInstance) where
  -- `Enqueue` fails exactly on a full queue, and then changes nothing; otherwise the queue holds the
  -- task, with its score, beside what it held, and keeps its size limit.
  pub enqueue-EnqueueSpec :
      (task : TaskInstance) (now : Time) (pq : PriorityQueue)
      → EnqueueSpec task now pq (enqueue sorter task now pq)
  unfolding enqueue
  enqueue-EnqueueSpec task now pq = elim (Bool-cases (leb pq.max_size (length pq.items))) [
    | inl full ↦ rw full (leb→le _ _ full, refl, refl)
    | inr room ↦ rw room (
      ground arith,
      Perm.trans (sorter.sort-perm less (pq.items ++ scored now task ∷ []))
          (perm_snoc (scored now task) pq.items),
      refl,
    )
  ]

  pub enqueue-IsValid :
      (task : TaskInstance) (now : Time) (pq : PriorityQueue)
      → IsValid pq
      → IsValid (enqueue sorter task now pq).1
  unfolding enqueue
  enqueue-IsValid task now pq v = elim (Bool-cases (leb pq.max_size (length pq.items))) [
    | inl full ↦ rw full v
    | inr room ↦ rw room (record {
      sorted = sorter.sort-IsSorted less less-IsStrictWeak (pq.items ++ scored now task ∷ []);
      bounded = ground (
        arith,
        Perm-length (sorter.sort-perm less (pq.items ++ scored now task ∷ [])),
        length-append pq.items (scored now task ∷ []),
      );
    })
  ]
