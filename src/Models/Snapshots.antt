-- ===== src/Models/Snapshots.antt =====
-- models.go: container snapshots.
use catgirl.Base.{String, Option}
use catgirl.Models.Tasks.{Uuid, Time, Json}

-- `other` is any text that is none of the four constants.
pub data SnapshotReason : Type 0 where
  completed failed exited interrupted : SnapshotReason
  other : String → SnapshotReason

pub record ContainerSnapshot : Type 0 where
  pub snapshot_id : Uuid
  pub task_id : Uuid
  pub session_id : Uuid
  pub container_id : String
  pub image_id : String
  pub image_name : String
  pub reason : SnapshotReason
  pub volumes : Json
  pub environment : Json
  pub metadata : Json
  pub created_at : Time
  pub expires_at : Option Time
  pub deleted_at : Option Time
