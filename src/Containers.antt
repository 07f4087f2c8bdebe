-- ===== src/Containers.antt =====
-- internal/services/container/container.go: `ContainerService.GetOrCreateContainer`. The name that it
-- formats from an id is the parameter `container_name`. Its other methods only log.
use catgirl.Base.{
  ◌+◌, ◌≡◌, refl, false, Option, none, some, inl, inr, String, str_eq, M, Error, err, ◌>>=◌, ◌>>◌,
  pure, wrapped, if◌then◌else◌, find, any, Bool-cases, ◌==◌,
}
use catgirl.Models.{Uuid, Time, TaskFamily, TaskStatus, nil_uuid, Session}
use catgirl.Repository.{Db, is_family, create_task_family, get_task_family, update_task_family}

-- A family without a session: its id is the nil uuid.
abbrev pub new_family : Time → Uuid → String → TaskFamily
new_family now task_id container_id = record {
  task_id = task_id;
  session_id = nil_uuid;
  container_id = container_id;
  root_description = "";
  status = TaskStatus.in_progress;
  max_depth_reached = 0;
  created_at = now;
  completed_at = none;
  container_snapshot_id = none;
}

abbrev pub or_create : Time → Uuid → String → Option TaskFamily → M Db String
or_create now task_id container_id none = do
  wrapped "failed to create task family" (create_task_family (new_family now task_id container_id))
  pure container_id
or_create now task_id container_id (some tf) =
    if str_eq tf.container_id ""
    then (do
      wrapped "failed to update task family"
          (update_task_family (record tf { container_id = container_id }))
      pure container_id)
    else pure tf.container_id

unfoldable pub get_or_create_container : (Uuid → String) → Time → Uuid → M Db String
get_or_create_container container_name now task_id = do
  tf ← wrapped "failed to get task family" (get_task_family task_id)
  or_create now task_id (container_name task_id) tf

-- For a task without a family the call always fails, and creates none: the family that it tries to
-- create belongs to the session with the nil uuid, which no session has.
pub get_or_create_container-unknown :
    (container_name : Uuid → String) (now : Time) (task_id : Uuid) (db : Db)
    → find (is_family task_id) db.task_families ≡ none
    → any (λ (row : Session). row.id == nil_uuid) db.sessions ≡ false
    → let (r, db') = get_or_create_container container_name now task_id db in
      ((e : Error) × (r ≡ err e)) × (db'.task_families ≡ db.task_families)
unfolding get_or_create_container get_task_family create_task_family
get_or_create_container-unknown container_name now task_id db missing no_session =
    elim (Bool-cases (db.outage db.calls)) [
      | inl down ↦ rw down ((_, refl), refl)
      | inr up ↦ elim (Bool-cases (db.outage (db.calls + 1))) [
        | inl down ↦ rw (up, missing, down) ((_, refl), refl)
        | inr still ↦ elim (Bool-cases (any (is_family task_id) db.task_families)) [
          | inl old ↦ rw (up, missing, still, old) ((_, refl), refl)
          | inr new ↦ rw (up, missing, still, new, no_session) ((_, refl), refl)
        ]
      ]
    ]
