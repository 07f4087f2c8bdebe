-- ===== src/Task/Service/Create.antt =====
-- What `CreateTask` does, whatever the database answers.
use catgirl.Base.{
  ℕ, ◌+◌, ◌<◌, ◌≤◌, ◌≡◌, refl, ap, ◌∙◌, true, [], ◌∷◌, ◌++◌, some, ◌⊎◌, inl, inr, Result, ok, err,
  String, leb, leb→le, find, any, arith, Bool-cases, depth_exceeded, and_then, wrap_error, wrap,
  Error, unavailable,
}
use catgirl.Models.{Uuid, Time, TaskInstance}
use catgirl.Repository.{
  Db, is_family, is_instance, inserted_instance, create_task_instance, get_task_family,
  create_task_owner_channel,
}
use catgirl.Repository.Laws.{Refused, InsertSpec, create_task_instance-InsertSpec, find-any}
use catgirl.Task.Service.{
  TaskState, open_channel, queue_stored, create_filled, create_task, filled, owner_channel,
}

-- The row of the task is the one that was added, and is found under its id.
abbrev pub IsStored : TaskInstance → Db → Db → Type 0
IsStored task db db' =
    (db'.task_instances ≡ db.task_instances ++ inserted_instance db.as_jsonb task ∷ [])
    × (find (is_instance task.instance_id) db'.task_instances
        ≡ some (inserted_instance db.as_jsonb task))

-- What `CreateTask` yields, and what it does to the channel and the table of instances.
abbrev pub CreateSpec : ℕ → TaskInstance → ℕ → TaskState → Result TaskInstance × TaskState → Type 0
CreateSpec max_task_depth task depth s (ok made, s') =
    (made ≡ task)
    × (depth ≤ max_task_depth)
    × (s'.enqueue_ch ≡ s.enqueue_ch ++ task ∷ [])
    × (find (is_instance task.instance_id) s'.db.task_instances
        ≡ some (inserted_instance s.db.as_jsonb task))
    × (any (is_family task.task_id) s.db.task_families ≡ true)
CreateSpec max_task_depth task depth s (err e, s') =
    ((s'.enqueue_ch ≡ s.enqueue_ch)
      × (((cause : Error) × (e ≡ wrap "failed to create task instance" cause)
            × Refused task s.db cause
            × (s'.db.task_instances ≡ s.db.task_instances))
          ⊎ ((max_task_depth < depth)
              × (e ≡ depth_exceeded depth max_task_depth)
              × IsStored task s.db s'.db)))
    ⊎ ((s'.enqueue_ch ≡ s.enqueue_ch ++ task ∷ [])
        × (depth ≤ max_task_depth)
        × (e ≡ wrap "failed to get task family" unavailable)
        × (s.db.outage (s.db.calls + 1) ≡ true)
        × IsStored task s.db s'.db)

channel_keeps_tasks :
    (now : Time) (owner_id : String) (task : TaskInstance) (db : Db)
    → (create_task_owner_channel (owner_channel now owner_id task) db).1.task_instances
      ≡ db.task_instances
unfolding create_task_owner_channel
channel_keeps_tasks now owner_id task db = ground arith

-- The last part of the call fails only if the database does not answer.
abbrev OpenSpec : TaskInstance → TaskState → Result TaskInstance × TaskState → Type 0
OpenSpec task s (ok made, s') =
    (made ≡ task) × (s'.enqueue_ch ≡ s.enqueue_ch) × (s'.db.task_instances ≡ s.db.task_instances)
OpenSpec task s (err e, s') =
    (s'.enqueue_ch ≡ s.enqueue_ch)
    × (e ≡ wrap "failed to get task family" unavailable)
    × (s.db.outage s.db.calls ≡ true)
    × (s'.db.task_instances ≡ s.db.task_instances)

open_channel-OpenSpec :
    (now : Time) (task : TaskInstance) (owner_id : String) (s : TaskState)
    → any (is_family task.task_id) s.db.task_families ≡ true
    → OpenSpec task s (open_channel now task owner_id s)
unfolding open_channel get_task_family
open_channel-OpenSpec now task owner_id s family = elim (Bool-cases (s.db.outage s.db.calls)) [
  | inl down ↦ rw down (refl, refl, down, refl)
  | inr up ↦
      let (tf, found) = find-any (is_family task.task_id) s.db.task_families family in
      rw (up, found) (refl, refl, channel_keeps_tasks now owner_id task _)
]

module _ (max_task_depth : ℕ) (now : Time) (task : TaskInstance) (owner_id : String) (depth : ℕ)
    (s : TaskState) where
  after_open :
      (t : TaskState) (r : Result TaskInstance × TaskState)
      → t.enqueue_ch ≡ s.enqueue_ch ++ task ∷ []
      → t.db.calls ≡ s.db.calls + 1
      → t.db.outage ≡ s.db.outage
      → depth ≤ max_task_depth
      → IsStored task s.db t.db
      → any (is_family task.task_id) s.db.task_families ≡ true
      → OpenSpec task t r
      → CreateSpec max_task_depth task depth s r
  after_open t (ok made, s') sent calls outage shallow stored family h =
      (h.0, shallow, h.1 ∙ sent, rw h.2 stored.1, family)
  after_open t (err e, s') sent calls outage shallow stored family h =
      inr (h.0 ∙ sent, shallow, h.1, rw (outage, calls) at h.2, (h.3 ∙ stored.0, rw h.3 stored.1))

  after_insert :
      (r : Result (Unit {0}) × Db)
      → InsertSpec task s.db r
      → CreateSpec max_task_depth task depth s (
          and_then
            (wrap_error "failed to create task instance" r.0, record s { db = r.1 })
            (λ _. queue_stored max_task_depth now task owner_id depth))
  unfolding queue_stored
  after_insert (err e, db) (same, why) = inl (refl, inl (e, refl, why, rw same refl))
  after_insert (ok u, db) (same, family, stored) = elim (Bool-cases (leb depth max_task_depth)) [
    | inl shallow ↦ rw shallow (
        after_open (record s { db = db; enqueue_ch = s.enqueue_ch ++ task ∷ [] }) _ refl
          (ap (λ d. d.calls) same) (ap (λ d. d.outage) same) (leb→le _ _ shallow)
          (ap (λ d. d.task_instances) same, stored) family
          (open_channel-OpenSpec now task owner_id _ (rw (ap (λ d. d.task_families) same) family)))
    | inr deep ↦
        rw deep (inl (refl, inr (ground arith, refl, (ap (λ d. d.task_instances) same, stored))))
  ]

  pub create_filled-CreateSpec :
      CreateSpec max_task_depth task depth s
        (create_filled max_task_depth now task owner_id depth s)
  unfolding create_filled
  create_filled-CreateSpec =
      after_insert (create_task_instance task s.db) (create_task_instance-InsertSpec task s.db)

module _ (max_task_depth : ℕ) (now : Time) (fresh : Uuid) (task : TaskInstance) (owner_id : String)
    (depth : ℕ) (s : TaskState) where
  pub create_task-CreateSpec :
      CreateSpec max_task_depth
        (filled fresh now task)
        depth
        s
        (create_task max_task_depth now fresh task owner_id depth s)
  unfolding create_task
  create_task-CreateSpec =
      create_filled-CreateSpec max_task_depth now (filled fresh now task) owner_id depth s
