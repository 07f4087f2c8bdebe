-- ===== src/Task/Service/Spawn.antt =====
-- `SpawnSubTask`: the limit on the depth of a family.
use catgirl.Base.{
  ℕ, ◌+◌, ◌<◌, ◌≤◌, ◌≡◌, refl, [], ◌∷◌, ◌++◌, Option, none, some, ◌⊎◌, inl, inr, Result, ok, err,
  String, leb, leb→le, arith, Bool-cases, depth_exceeded, and_then, attempt, ltb, ◌>>=◌, ◌>>◌, pure,
  or_zero,
}
use catgirl.Models.{Uuid, Time, TaskInstance, TaskFamily, AgentType, Priority, TaskStatus}
use catgirl.Repository.{get_task_family}
use catgirl.Task.Service.{
  TaskState, on_db, new_task, filled, create_task, raise_depth, spawn_sub_task, zero_family,
}
use catgirl.Task.Service.Create.{CreateSpec, create_task-CreateSpec}

pub filled-fields :
    (fresh : Uuid) (now : Time) (task : TaskInstance)
    → ((filled fresh now task).task_id ≡ task.task_id)
      × ((filled fresh now task).parent_instance_id ≡ task.parent_instance_id)
      × ((filled fresh now task).description ≡ task.description)
      × ((filled fresh now task).agent_type ≡ task.agent_type)
unfolding filled
filled-fields fresh now task = (ground arith, ground arith, ground arith, ground arith)

raise_keeps_channel :
    (tf : Option TaskFamily) (depth : ℕ) (s : TaskState)
    → (raise_depth tf depth s).1.enqueue_ch ≡ s.enqueue_ch
raise_keeps_channel none depth s = refl
raise_keeps_channel (some tf) depth s = ground arith

-- What `SpawnSubTask` yields, and what it does to the channel.
abbrev pub SpawnSpec :
    ℕ → Time → Uuid → TaskInstance → ℕ → TaskState → Result TaskInstance × TaskState → Type 0
SpawnSpec max now fresh parent depth s (ok task, s') =
    (depth < max)
    × (task.task_id ≡ parent.task_id)
    × (task.parent_instance_id ≡ some parent.instance_id)
    × (task.status ≡ TaskStatus.pending)
    × (s'.enqueue_ch ≡ s.enqueue_ch ++ task ∷ [])
SpawnSpec max now fresh parent depth s (err e, s') =
    ((max ≤ depth) × (e ≡ depth_exceeded (depth + 1) max) × (s' ≡ s))
    ⊎ ((depth < max)
        × ((s'.enqueue_ch ≡ s.enqueue_ch)
            ⊎ ((task : TaskInstance) × (s'.enqueue_ch ≡ s.enqueue_ch ++ task ∷ []))))

pub filled-status :
    (fresh : Uuid) (now : Time) (task : TaskInstance)
    → task.status ≡ TaskStatus.pending
    → (filled fresh now task).status ≡ TaskStatus.pending
unfolding filled
filled-status fresh now task e = ground arith

module _ (max : ℕ) (show : Uuid → String) (now : Time) (fresh : Uuid) (parent : TaskInstance)
    (description : String) (agent_type : AgentType) (priority : Priority) (depth : ℕ)
    (s : TaskState) where
  abbrev child : TaskInstance
  child =
      new_task fresh parent.task_id description agent_type priority (some parent.instance_id) now

  after_raise :
      (task : TaskInstance) (o : Option TaskFamily) (t : TaskState)
      → SpawnSpec max now fresh parent depth s (ok task, t)
      → SpawnSpec max now fresh parent depth s ((raise_depth o (depth + 1) >> pure task) t)
  after_raise task none t h = h
  after_raise task (some tf) t h = elim (Bool-cases (ltb tf.max_depth_reached (depth + 1))) [
    | inl deeper ↦ rw deeper h
    | inr same ↦ rw same h
  ]

  after_create :
      (r : Result TaskInstance × TaskState)
      → depth < max
      → CreateSpec max (filled fresh now child) (depth + 1) s r
      → SpawnSpec max now fresh parent depth s (
          and_then r λ task. attempt zero_family (on_db (get_task_family parent.task_id)) >>= λ tf.
          raise_depth tf (depth + 1) >> pure task)
  after_create (err e, t) room (inl unsent) = inr (room, inl unsent.0)
  after_create (err e, t) room (inr sent) = inr (room, inr (filled fresh now child, sent.0))
  after_create (ok task, t) room h =
      let fields = filled-fields fresh now child in
      after_raise task (or_zero zero_family (get_task_family parent.task_id t.db).0) _ (
        room,
        rw h.0 fields.0,
        rw h.0 fields.1,
        rw h.0 (filled-status fresh now child refl),
        rw h.0 h.2,
      )

  -- A sub-task is created only below a parent whose depth is under the limit, as a pending task of
  -- the parent's family that names the parent, and it is the one task that is put on the channel. At
  -- the limit the call reports the depth and changes nothing at all; under it, a call that fails has
  -- put at most one task on the channel.
  pub spawn_sub_task-SpawnSpec :
      SpawnSpec max now fresh parent depth s
        (spawn_sub_task max show now fresh parent description agent_type priority depth s)
  unfolding spawn_sub_task
  spawn_sub_task-SpawnSpec = elim (Bool-cases (leb (depth + 1) max)) [
    | inl room ↦ rw room (
        after_create (create_task max now fresh child (show parent.instance_id) (depth + 1) s)
          (omega (arith, leb→le (depth + 1) max room))
          (create_task-CreateSpec max now fresh child (show parent.instance_id) (depth + 1) s))
    | inr full ↦ rw full (inl (ground arith, refl, refl))
  ]
