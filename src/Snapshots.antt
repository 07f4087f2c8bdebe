-- ===== src/Snapshots.antt =====
-- internal/services/snapshot/snapshot.go: `SnapshotService`. `time.ParseDuration` is the parameter
-- `parse_duration`, in nanoseconds; negative durations are not modelled. The names and JSON texts
-- that the source formats are the parameters `image_name`, `environment` and `recalled_name`.
pub mod Cleanup
use catgirl.Base.{
  ℕ, ◌+◌, ◌*◌, Bool, true, false, List, [], ◌∷◌, Option, none, some, String, M, Result, ok, err,
  ◌>>=◌, ◌>>◌, pure, fail, wrapped, ignored, require, not_found, if◌then◌else◌,
}
use catgirl.Models.{
  Uuid, Time, Json, TaskFamily, SnapshotReason, completed, failed, exited, interrupted,
  ContainerSnapshot,
}
use catgirl.Config.{SnapshotConfig, RetentionConfig}
use catgirl.Repository.{
  Db, create_container_snapshot, get_container_snapshot, delete_container_snapshot,
  list_expired_snapshots,
}

abbrev pub week : ℕ
week = 604_800_000_000_000

abbrev pub or_week : Option ℕ → ℕ
or_week none = week
or_week (some d) = d

abbrev pub retention_of : (String → Option ℕ) → RetentionConfig → SnapshotReason → ℕ
retention_of parse_duration r completed = or_week (parse_duration r.completed)
retention_of parse_duration r failed = or_week (parse_duration r.failed)
retention_of parse_duration r exited = or_week (parse_duration r.exited)
retention_of parse_duration r interrupted = or_week (parse_duration r.interrupted)
retention_of parse_duration r (SnapshotReason.other text) = week

unfoldable pub calculate_expires_at :
    (String → Option ℕ) → SnapshotConfig → Time → SnapshotReason → Time
calculate_expires_at parse_duration config now reason =
    now + retention_of parse_duration config.retention reason

-- The texts that a snapshot is given.
pub record Texts : Type 0 where
  pub image_name : Uuid → Time → String
  pub environment : TaskFamily → Json
  pub metadata : Json
  pub recalled_name : Uuid → String

abbrev pub new_snapshot :
    Texts
    → (String → Option ℕ)
    → SnapshotConfig
    → Time
    → Uuid
    → TaskFamily
    → SnapshotReason
    → ContainerSnapshot
new_snapshot texts parse_duration config now fresh tf reason = record {
  snapshot_id = fresh;
  task_id = tf.task_id;
  session_id = tf.session_id;
  container_id = tf.container_id;
  image_id = "";
  image_name = texts.image_name tf.task_id now;
  reason = reason;
  volumes = "{}";
  environment = texts.environment tf;
  metadata = texts.metadata;
  created_at = now;
  expires_at = some (calculate_expires_at parse_duration config now reason);
  deleted_at = none;
}

abbrev pub if_enabled :
    Bool
    → M Db (Option (ContainerSnapshot × TaskFamily))
    → M Db (Option (ContainerSnapshot × TaskFamily))
if_enabled true m = m
if_enabled false m = pure none

-- The family comes back as the call leaves it.
unfoldable pub create_snapshot :
    Texts
    → (String → Option ℕ)
    → SnapshotConfig
    → Time
    → Uuid
    → TaskFamily
    → SnapshotReason
    → M Db (Option (ContainerSnapshot × TaskFamily))
create_snapshot texts parse_duration config now fresh tf reason = if_enabled config.enabled (do
  let snapshot = new_snapshot texts parse_duration config now fresh tf reason
  wrapped "failed to create snapshot" (create_container_snapshot snapshot)
  pure (some (snapshot, record tf { container_snapshot_id = some fresh })))

unfoldable pub recall_snapshot : Texts → Uuid → M Db String
recall_snapshot texts id = do
  found ← get_container_snapshot id
  require found not_found
  pure (texts.recalled_name id)

unfoldable pub delete_each : Time → List ContainerSnapshot → M Db (Unit {0})
delete_each now [] = pure tt
delete_each now (snapshot ∷ rest) = do
  ignored (delete_container_snapshot snapshot.snapshot_id now)
  delete_each now rest

unfoldable pub cleanup_expired_snapshots : Time → M Db (Unit {0})
cleanup_expired_snapshots now = do
  expired ← wrapped "failed to list expired snapshots" (list_expired_snapshots now)
  delete_each now expired
