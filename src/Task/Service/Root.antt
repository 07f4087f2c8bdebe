-- ===== src/Task/Service/Root.antt =====
-- `SpawnRootTask`: a new family and its first task.
use catgirl.Base.{
  ℕ, ◌+◌, ◌≡◌, refl, ◌∙◌, true, false, [], ◌∷◌, ◌++◌, none, ◌⊎◌, inl, inr, Result, ok, err, String,
  any, Bool-cases, wrap_error, ◌==◌,
}
use catgirl.Models.{Uuid, Time, TaskInstance, TaskFamily, AgentType, Priority, TaskStatus, Session}
use catgirl.Repository.{is_family, create_task_family}
use catgirl.Task.Service.{TaskState, new_task, filled, spawn_root_task}
use catgirl.Task.Service.Create.{CreateSpec, create_task-CreateSpec}
use catgirl.Task.Service.Spawn.{filled-fields, filled-status}

-- What `SpawnRootTask` yields, and what it does to the channel.
abbrev pub RootSpec : Uuid → Uuid → TaskState → Result TaskInstance × TaskState → Type 0
RootSpec task_id session_id s (ok task, s') =
    (task.task_id ≡ task_id)
    × (task.parent_instance_id ≡ none)
    × (task.status ≡ TaskStatus.pending)
    × (any (is_family task_id) s.db.task_families ≡ false)
    × (any (λ (row : Session). row.id == session_id) s.db.sessions ≡ true)
    × (s'.enqueue_ch ≡ s.enqueue_ch ++ task ∷ [])
RootSpec task_id session_id s (err e, s') =
    (s'.enqueue_ch ≡ s.enqueue_ch)
    ⊎ ((task : TaskInstance) × (s'.enqueue_ch ≡ s.enqueue_ch ++ task ∷ []))

module _ (max : ℕ) (now : Time) (task_id fresh session_id : Uuid) (owner_id description : String)
    (agent_type : AgentType) (priority : Priority) (s : TaskState) where
  abbrev root : TaskInstance
  root = new_task fresh task_id description agent_type priority none now

  abbrev family : TaskFamily
  family = record {
    task_id = task_id;
    session_id = session_id;
    container_id = "";
    root_description = description;
    status = TaskStatus.in_progress;
    max_depth_reached = 0;
    created_at = now;
    completed_at = none;
    container_snapshot_id = none;
  }

  -- The state once the family is stored.
  abbrev stored : TaskState
  stored = record s {
    db = record s.db { task_families = s.db.task_families ++ family ∷ []; calls = s.db.calls + 1 };
  }

  after_root :
      (t : TaskState) (r : Result TaskInstance × TaskState)
      → t.enqueue_ch ≡ s.enqueue_ch
      → any (is_family task_id) s.db.task_families ≡ false
      → any (λ (row : Session). row.id == session_id) s.db.sessions ≡ true
      → CreateSpec max (filled fresh now root) 0 t r
      → RootSpec task_id session_id s (wrap_error "failed to create root task" r.0, r.1)
  after_root t (ok task, s') same new known h =
      let fields = filled-fields fresh now root in
      (
        rw h.0 fields.0,
        rw h.0 fields.1,
        rw h.0 (filled-status fresh now root refl),
        new,
        known,
        rw (h.0, ← same) h.2,
      )
  after_root t (err e, s') same new known (inl unsent) = inl (unsent.0 ∙ same)
  after_root t (err e, s') same new known (inr sent) =
      inr (filled fresh now root, rw (← same) sent.0)

  -- A root task is pending, has no parent, belongs to a family that is new and to a session that is
  -- there, and is the one task that is put on the channel. A call that fails has put at most one there.
  pub spawn_root_task-RootSpec :
      RootSpec task_id session_id s (
        spawn_root_task max now task_id fresh session_id owner_id description agent_type priority s)
  unfolding spawn_root_task create_task_family
  spawn_root_task-RootSpec = elim (Bool-cases (s.db.outage s.db.calls)) [
    | inl down ↦ rw down (inl refl)
    | inr up ↦ elim (Bool-cases (any (is_family task_id) s.db.task_families)) [
      | inl old ↦ rw (up, old) (inl refl)
      | inr new ↦ elim (Bool-cases (any (λ (row : Session). row.id == session_id) s.db.sessions)) [
        | inr unknown ↦ rw (up, new, unknown) (inl refl)
        | inl known ↦
            rw (up, new, known)
              (after_root stored _ refl new known
                (create_task-CreateSpec max now fresh root owner_id 0 stored))
      ]
    ]
  ]
