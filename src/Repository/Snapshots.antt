-- ===== src/Repository/Snapshots.antt =====
-- Container snapshots. A deleted snapshot keeps its row, with the time of its deletion.
use catgirl.Base.{
  Bool, true, false, ◌&&◌, List, [], ◌∷◌, ◌++◌, Option, none, some, ◌==◌, ltb, ok, err,
  duplicate_key, foreign_key, M, if◌then◌else◌, find, any, keep, update_where,
}
use catgirl.Models.{Uuid, Time, ContainerSnapshot}
use catgirl.Repository.Tables.{Db, statement}
use catgirl.Repository.Tasks.{is_family}

-- `deleted_at IS NULL`
abbrev pub is_null : Option Time → Bool
is_null none = true
is_null (some t) = false

-- `expires_at < $1`, which NULL is not.
abbrev pub is_before : Option Time → Time → Bool
is_before none now = false
is_before (some t) now = ltb t now

abbrev pub is_snapshot : Uuid → ContainerSnapshot → Bool
is_snapshot id row = row.snapshot_id == id

abbrev pub is_expired : Time → ContainerSnapshot → Bool
is_expired now row = is_before row.expires_at now && is_null row.deleted_at

unfoldable pub create_container_snapshot : ContainerSnapshot → M Db (Unit {0})
create_container_snapshot cs = statement λ db.
    if any (is_snapshot cs.snapshot_id) db.container_snapshots
    then (err duplicate_key, db)
    else if any (is_family cs.task_id) db.task_families
    then (if any (λ row. row.id == cs.session_id) db.sessions
        then (
          ok tt,
          record db {
            container_snapshots = db.container_snapshots ++ (record cs { deleted_at = none }) ∷ [];
          },
        )
        else (err foreign_key, db))
    else (err foreign_key, db)

unfoldable pub get_container_snapshot : Uuid → M Db (Option ContainerSnapshot)
get_container_snapshot id = statement λ db.
    (ok (find (λ row. is_snapshot id row && is_null row.deleted_at) db.container_snapshots), db)

unfoldable pub delete_container_snapshot : Uuid → Time → M Db (Unit {0})
delete_container_snapshot id now = statement λ db. (
  ok tt,
  record db {
    container_snapshots =
        update_where (is_snapshot id) (λ row. record row { deleted_at = some now })
          db.container_snapshots;
  },
)

unfoldable pub list_expired_snapshots : Time → M Db (List ContainerSnapshot)
list_expired_snapshots now = statement λ db. (ok (keep (is_expired now) db.container_snapshots), db)
