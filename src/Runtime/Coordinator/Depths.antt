-- ===== src/Runtime/Coordinator/Depths.antt =====
-- runtime.go: SPAWN_TASK, the count of the parents together with the limit that `SpawnSubTask` puts on
-- the depth.
use catgirl.Base.{
  ℕ, zero, suc, ◌+◌, ◌<◌, ◌≤◌, ◌≡◌, refl, ap, ◌∙◌, true, false, [], ◌∷◌, ◌++◌, Option, none, some,
  Result, ok, err, ◌⊎◌, inl, inr, String, str_eq, leb, leb→le, length, find, any, arith, Bool-cases,
  Option-cases,
}
use catgirl.Models.{Uuid, Time, TaskInstance, Priority, general_purpose}
use catgirl.Repository.{Db, is_instance, is_family, get_task_family, get_task_instance}
use catgirl.Repository.Laws.{find-any}
use catgirl.Task.Service.{TaskState}
use catgirl.Task.Service.Spawn.{SpawnSpec, spawn_sub_task-SpawnSpec}
use catgirl.Runtime.ParentDepth.{count_parents, depth_of, depth_in, parent_depth}
use catgirl.Runtime.ParentDepth.Laws.{ParentsFirst, Depth, ParentsFirst-Depth, count_parents-Counts}
use catgirl.Runtime.Coordinator.{External, WorkerEnv, Work}
use catgirl.Runtime.Coordinator.Tools.{spawn_task}
use catgirl.Runtime.Coordinator.Effects.{spawned-state}

-- Counting changes no row.
count_parents-rows :
    (fuel : ℕ) (o : Option Uuid) (count : ℕ) (db : Db)
    → (count_parents fuel o count db).1.task_instances ≡ db.task_instances
unfolding count_parents get_task_instance
count_parents-rows fuel none count db = refl
count_parents-rows zero (some id) count db = refl
count_parents-rows (suc fuel) (some id) count db = elim (Bool-cases (db.outage db.calls)) [
  | inl down ↦
      rw down (count_parents-rows fuel none (count + 1) (record db { calls = db.calls + 1 }))
  | inr up ↦ elim (Option-cases (find (is_instance id) db.task_instances)) [
    | inl missing ↦ rw (up, missing) refl
    | inr (parent, found) ↦
        rw (up, found)
          (count_parents-rows fuel parent.parent_instance_id (count + 1)
            (record db { calls = db.calls + 1 }))
  ]
]

-- While the database answers, the depth of a task of a known family is the number of the tasks above.
parent_depth-exact :
    (task : TaskInstance) (db : Db) (d : ℕ)
    → ((n : ℕ) → db.outage n ≡ false)
    → any (is_family task.task_id) db.task_families ≡ true
    → Depth db.task_instances (some task.instance_id) (suc d)
    → d ≤ length db.task_instances
    → ((parent_depth task db).0 ≡ d) × ((parent_depth task db).1.task_instances ≡ db.task_instances)
unfolding parent_depth count_parents get_task_family get_task_instance
parent_depth-exact task db d up known (Depth.below {parent = row} found rest) le =
    let (tf, listed) = find-any (is_family task.task_id) db.task_families known in
    let counted : Db = record db { calls = db.calls + 1 } in
    let after : Db = record db { calls = db.calls + 1 + 1 } in
    let of_family : get_task_family task.task_id db ≡ (ok (some tf), counted) =
      rw (up db.calls, listed) refl in
    let of_task : get_task_instance task.instance_id counted ≡ (ok (some row), after) =
      rw (up (db.calls + 1), found) refl in
    let counts =
      count_parents-Counts db.task_instances row.parent_instance_id d (length db.task_instances) 0
        after rest refl le in
    let same : parent_depth task db
        ≡ count_parents (length db.task_instances) row.parent_instance_id 0 after =
      ap (depth_in task) of_family ∙ ap depth_of of_task in
    rw same (
      omega (arith, counts.2 up),
      count_parents-rows (length db.task_instances) row.parent_instance_id 0 after,
    )

-- A sub-task of depth `d` that is too deep changes neither rows nor channel; another one may join the
-- end of the channel.
abbrev pub DepthSpec : ℕ → ℕ → TaskState → TaskState → Type 0
DepthSpec max d s s' =
    ((max < d) × (s'.enqueue_ch ≡ s.enqueue_ch) × (s'.db.task_instances ≡ s.db.task_instances))
    ⊎ ((d ≤ max)
        × ((s'.enqueue_ch ≡ s.enqueue_ch)
            ⊎ ((task : TaskInstance) × (s'.enqueue_ch ≡ s.enqueue_ch ++ task ∷ []))))

DepthSpec-same : (max d : ℕ) (s : TaskState) → DepthSpec max d s s
DepthSpec-same max d s = elim (Bool-cases (leb d max)) [
  | inl e ↦ inr (leb→le d max e, inl refl)
  | inr e ↦ inl (ground arith, refl, refl)
]

SpawnSpec-DepthSpec :
    (max : ℕ) (now : Time) (fresh : Uuid) (parent : TaskInstance) (depth d : ℕ) (s s1 : TaskState)
    (q : Result TaskInstance × TaskState)
    → SpawnSpec max now fresh parent depth s1 q
    → depth ≡ d
    → s1.enqueue_ch ≡ s.enqueue_ch
    → s1.db.task_instances ≡ s.db.task_instances
    → DepthSpec max (suc d) s q.1
SpawnSpec-DepthSpec max now fresh parent depth d s s1 (ok task, t) h e ch rows =
    inr (omega (arith, h.0, e), inr (task, h.4 ∙ ap (λ l. l ++ task ∷ []) ch))
SpawnSpec-DepthSpec max now fresh parent depth d s s1 (err _, t) (inl full) e ch rows = inl (
  omega (arith, full.0, e),
  ap (λ u. u.enqueue_ch) full.2 ∙ ch,
  ap (λ u. u.db.task_instances) full.2 ∙ rows,
)
SpawnSpec-DepthSpec max now fresh parent depth d s s1 (err _, t) (inr (room, inl same)) e ch rows =
    inr (omega (arith, room, e), inl (same ∙ ch))
SpawnSpec-DepthSpec max now fresh parent depth d s s1 (err _, t) (inr (room, inr (task, more))) e ch
      rows =
    inr (omega (arith, room, e), inr (task, more ∙ ap (λ l. l ++ task ∷ []) ch))

module _ {World : Type 0} (ext : External World) (env : WorkerEnv) where
  abbrev pub tasks_of : Work World → TaskState
  tasks_of w = record { db = w.rt.db; enqueue_ch = w.rt.enqueue_ch }

  -- While the database answers and parents stand before their children, SPAWN_TASK of a task in the
  -- table queues a sub-task only if as many tasks as would stand above it are within the limit; past
  -- the limit it changes neither the channel nor the rows.
  pub spawn_task-DepthSpec :
      (text : String) (w : Work World)
      → ((n : ℕ) → w.rt.db.outage n ≡ false)
      → ParentsFirst [] w.rt.db.task_instances
      → any (is_family w.task.task_id) w.rt.db.task_families ≡ true
      → any (is_instance w.task.instance_id) w.rt.db.task_instances ≡ true
      → (d : ℕ) × Depth w.rt.db.task_instances (some w.task.instance_id) d
        × DepthSpec env.max_task_depth d (tasks_of w) (tasks_of (spawn_task ext env text w).1)
  unfolding spawn_task
  spawn_task-DepthSpec text w up first family known =
      let (d, depth, le) =
        ParentsFirst-Depth w.rt.db.task_instances (some w.task.instance_id) first known in
      (d, depth, above d depth le)
    where
      above :
          (d : ℕ)
          → Depth w.rt.db.task_instances (some w.task.instance_id) d
          → d ≤ length w.rt.db.task_instances
          → DepthSpec env.max_task_depth d (tasks_of w) (tasks_of (spawn_task ext env text w).1)
      above zero depth le = elim depth [ ]
      above (suc d) depth le = elim (Bool-cases (str_eq text "")) [
        | inl e ↦ rw e (DepthSpec-same env.max_task_depth (suc d) (tasks_of w))
        | inr e ↦
            let (exact, rows) = parent_depth-exact w.task w.rt.db d up family depth (omega arith) in
            let (id, world) = ext.fresh w.rt.world in
            let (count, db) = parent_depth w.task w.rt.db in
            let s1 : TaskState = record { db = db; enqueue_ch = w.rt.enqueue_ch } in
            rw (e, spawned-state ext env)
              (SpawnSpec-DepthSpec env.max_task_depth env.now id w.task count d (tasks_of w) s1 _
                (spawn_sub_task-SpawnSpec env.max_task_depth ext.show_id env.now id w.task text
                  general_purpose Priority.normal count s1)
                exact refl rows)
      ]
