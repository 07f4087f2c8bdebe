-- ===== src/Task/GlobalQueue/Conservation.antt =====
-- The global queue under any interleaving of its callers and its loop.
use catgirl.Base.{
  ℕ, ◌+◌, ◌≤◌, ◌<◌, ◌≡◌, refl, ap, ◌∙◌, List, [], ◌∷◌, Option, Result, ok, err, length,
  length-append, count_if, count_if-append, ◌==◌, if◌then◌else◌, arith,
}
use catgirl.Models.{Uuid, Time, TaskInstance}
use catgirl.SortSlice.{SortSlice}
use catgirl.Task.PriorityQueue
use catgirl.Task.PriorityQueue.{PriorityQueue}
use catgirl.Task.PriorityQueue.Validity.{IsValid}
use catgirl.Task.PriorityQueue.Enqueue.{EnqueueSpec, enqueue-EnqueueSpec, enqueue-IsValid}
use catgirl.Task.PriorityQueue.Take.{
  dequeue-DequeueSpec, dequeue-IsValid, dequeue-max_size, remove-RemoveSpec, remove-IsValid,
  remove-max_size,
}
use catgirl.Task.PriorityQueue.History.{
  holds, taken, enqueue_balance, dequeue_balance, remove_balance,
}
use catgirl.Task.GlobalQueue.{
  DequeueRequest, GlobalTaskQueue, capacity, new_global_task_queue, take_in, handle_enqueue,
  handle_dequeue, rebalance_priorities, enqueue, dequeue, remove,
}

-- The states that the queue can reach: `submitted` are the tasks whose send went through, newest
-- first, and `removed` the ids for which `Remove` answered true.
module _ (sorter : SortSlice TaskInstance) (max_queue_size : ℕ) where
  pub data Reach : List TaskInstance → List Uuid → GlobalTaskQueue → Type 0 where
    start : Reach [] [] (new_global_task_queue max_queue_size)
    submit :
        {ts : List TaskInstance} {ids : List Uuid} {g : GlobalTaskQueue}
        → Reach ts ids g
        → (task : TaskInstance) → length g.enqueue_ch < capacity
        → Reach (task ∷ ts) ids (enqueue task g)
    request :
        {ts : List TaskInstance} {ids : List Uuid} {g : GlobalTaskQueue}
        → Reach ts ids g
        → (req : DequeueRequest) → length g.dequeue_ch < capacity
        → Reach ts ids (dequeue req g)
    serve_enqueue :
        {ts : List TaskInstance} {ids : List Uuid} {g : GlobalTaskQueue}
        → Reach ts ids g
        → (task : TaskInstance) (rest : List TaskInstance) (now : Time) → g.enqueue_ch ≡ task ∷ rest
        → Reach ts ids (handle_enqueue sorter task rest now g)
    serve_dequeue :
        {ts : List TaskInstance} {ids : List Uuid} {g : GlobalTaskQueue}
        → Reach ts ids g
        → (req : DequeueRequest) (rest : List DequeueRequest) → g.dequeue_ch ≡ req ∷ rest
        → Reach ts ids (handle_dequeue req rest g)
    rebalance :
        {ts : List TaskInstance} {ids : List Uuid} {g : GlobalTaskQueue}
        → Reach ts ids g
        → Reach ts ids (rebalance_priorities g)
    removes :
        {ts : List TaskInstance} {ids : List Uuid} {g : GlobalTaskQueue}
        → Reach ts ids g
        → (id : Uuid) → Reach ts (if (remove id g).0 then id ∷ ids else ids) (remove id g).1

abbrev pub occurrences : Uuid → List TaskInstance → ℕ
occurrences id = count_if (λ t. t.instance_id == id)

abbrev pub delivered : Uuid → List (ℕ × Option TaskInstance) → ℕ
delivered id [] = 0
delivered id ((client, task) ∷ rs) = taken id task + delivered id rs

abbrev pub removals : Uuid → List Uuid → ℕ
removals id = count_if (λ other. other == id)

-- Where the tasks of an id are: on the channel, in the queue, with a client, or given up.
abbrev pub present : Uuid → GlobalTaskQueue → ℕ
present id g =
    occurrences id g.enqueue_ch + holds id g.pq + delivered id g.replies + occurrences id g.dropped

pub record Inv (max_queue_size : ℕ) (ts : List TaskInstance) (ids : List Uuid) (g : GlobalTaskQueue)
    : Type 0 where
  pub valid : IsValid g.pq
  pub size : g.pq.max_size ≡ max_queue_size
  pub room_in : length g.enqueue_ch ≤ capacity
  pub room_out : length g.dequeue_ch ≤ capacity
  pub balance : (id : Uuid) → occurrences id ts ≡ present id g + removals id ids

module _ (sorter : SortSlice TaskInstance) (size : ℕ) {ts : List TaskInstance} {ids : List Uuid}
    (g : GlobalTaskQueue) (v : Inv size ts ids g) where
  submit-Inv :
      (task : TaskInstance)
      → length g.enqueue_ch < capacity
      → Inv size (task ∷ ts) ids (enqueue task g)
  unfolding enqueue
  submit-Inv task room = record {
    valid = v.valid;
    size = v.size;
    room_in = omega (arith, length-append g.enqueue_ch (task ∷ []));
    room_out = v.room_out;
    balance = λ id.
        omega (
          arith,
          v.balance id,
          count_if-append (λ t. t.instance_id == id) g.enqueue_ch (task ∷ []),
        );
  }

  request-Inv :
      (req : DequeueRequest) → length g.dequeue_ch < capacity → Inv size ts ids (dequeue req g)
  unfolding dequeue
  request-Inv req room = record {
    valid = v.valid;
    size = v.size;
    room_in = v.room_in;
    room_out = omega (arith, length-append g.dequeue_ch (req ∷ []));
    balance = v.balance;
  }

  take_in-Inv :
      (task : TaskInstance) (rest : List TaskInstance) (now : Time)
      (r : Result (Unit {0}) × PriorityQueue)
      → g.enqueue_ch ≡ task ∷ rest
      → EnqueueSpec task now g.pq r
      → IsValid r.1
      → Inv size ts ids (take_in (record g { enqueue_ch = rest }) task r)
  take_in-Inv task rest now (ok u, pq) e h w = record {
    valid = w;
    size = h.2 ∙ v.size;
    room_in = omega (arith, v.room_in, ap length e);
    room_out = v.room_out;
    balance = λ id.
        omega (
          arith,
          v.balance id,
          ap (occurrences id) e,
          enqueue_balance id task now g.pq (ok u, pq) h,
        );
  }
  take_in-Inv task rest now (err x, pq) e h w = record {
    valid = w;
    size = rw h.2 v.size;
    room_in = omega (arith, v.room_in, ap length e);
    room_out = v.room_out;
    balance = λ id. omega (
      arith,
      v.balance id,
      ap (occurrences id) e,
      enqueue_balance id task now g.pq (err x, pq) h,
    );
  }

  serve_enqueue-Inv :
      (task : TaskInstance) (rest : List TaskInstance) (now : Time)
      → g.enqueue_ch ≡ task ∷ rest
      → Inv size ts ids (handle_enqueue sorter task rest now g)
  unfolding handle_enqueue
  serve_enqueue-Inv task rest now e =
      take_in-Inv task rest now (PriorityQueue.enqueue sorter task now g.pq) e
        (enqueue-EnqueueSpec sorter task now g.pq) (enqueue-IsValid sorter task now g.pq v.valid)

  serve_dequeue-Inv :
      (req : DequeueRequest) (rest : List DequeueRequest)
      → g.dequeue_ch ≡ req ∷ rest
      → Inv size ts ids (handle_dequeue req rest g)
  unfolding handle_dequeue
  serve_dequeue-Inv req rest e = record {
    valid = dequeue-IsValid req.agent_type g.pq v.valid;
    size = dequeue-max_size req.agent_type g.pq v.valid ∙ v.size;
    room_in = v.room_in;
    room_out = omega (arith, v.room_out, ap length e);
    balance = λ id. omega (
      arith,
      v.balance id,
      dequeue_balance id req.agent_type g.pq _ (dequeue-DequeueSpec req.agent_type g.pq v.valid),
    );
  }

  rebalance-Inv : Inv size ts ids (rebalance_priorities g)
  unfolding rebalance_priorities
  rebalance-Inv = v

  removes-Inv :
      (id : Uuid) → Inv size ts (if (remove id g).0 then id ∷ ids else ids) (remove id g).1
  unfolding remove
  removes-Inv id = record {
    valid = remove-IsValid id g.pq v.valid;
    size = remove-max_size id g.pq ∙ v.size;
    room_in = v.room_in;
    room_out = v.room_out;
    balance = λ other.
        ground (arith, v.balance other, remove_balance other id g.pq _ (remove-RemoveSpec id g.pq));
  }

module _ (sorter : SortSlice TaskInstance) (size : ℕ) where
  -- In every state that the callers and the loop can reach, in whatever order they act, the queue is
  -- sorted and within its size, no channel holds more than its capacity, and of every id the tasks
  -- that were submitted are on the channel, in the queue, with a client, among the dropped ones or
  -- removed, each once.
  pub Reach-Inv :
      {ts : List TaskInstance} {ids : List Uuid} {g : GlobalTaskQueue}
      → Reach sorter size ts ids g
      → Inv size ts ids g
  Reach-Inv start = record {
    valid = record { sorted = tt; bounded = omega arith };
    size = refl;
    room_in = omega arith;
    room_out = omega arith;
    balance = λ id. refl;
  }
  Reach-Inv (submit {g = g} r task room) = submit-Inv sorter size g (Reach-Inv r) task room
  Reach-Inv (request {g = g} r req room) = request-Inv sorter size g (Reach-Inv r) req room
  Reach-Inv (serve_enqueue {g = g} r task rest now e) =
      serve_enqueue-Inv sorter size g (Reach-Inv r) task rest now e
  Reach-Inv (serve_dequeue {g = g} r req rest e) =
      serve_dequeue-Inv sorter size g (Reach-Inv r) req rest e
  Reach-Inv (rebalance {g = g} r) = rebalance-Inv sorter size g (Reach-Inv r)
  Reach-Inv (removes {g = g} r id) = removes-Inv sorter size g (Reach-Inv r) id
