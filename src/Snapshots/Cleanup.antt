-- ===== src/Snapshots/Cleanup.antt =====
-- snapshot.go: what a pass of `CleanupExpiredSnapshots` leaves.
use catgirl.Base.{
  ℕ, ◌+◌, ◌≡◌, refl, ap, sym, ◌∙◌, Bool, true, false, List, [], ◌∷◌, some, ◌⊎◌, inl, inr, ok, find,
  any, keep, update_where, All, Bool-cases, ◌==◌, ==_iff, ==_self, arith, subst, ◌≢◌,
}
use catgirl.Models.{Uuid, Time, ContainerSnapshot}
use catgirl.Repository.{
  Db, is_snapshot, is_expired, delete_container_snapshot, list_expired_snapshots,
}
use catgirl.Snapshots.{delete_each, cleanup_expired_snapshots}

abbrev pub deleted : Time → ContainerSnapshot → ContainerSnapshot
deleted now row = record row { deleted_at = some now }

-- The rows after the deletions of a pass.
abbrev pub swept : Time → List ContainerSnapshot → List ContainerSnapshot → List ContainerSnapshot
swept now [] rows = rows
swept now (snapshot ∷ rest) rows =
    swept now rest (update_where (is_snapshot snapshot.snapshot_id) (deleted now) rows)

abbrev pub lists_id : List ContainerSnapshot → ContainerSnapshot → Bool
lists_id snapshots row = any (λ s. is_snapshot s.snapshot_id row) snapshots

-- Every expired row has an id that is listed.
abbrev pub Covers : Time → List ContainerSnapshot → List ContainerSnapshot → Type 0
Covers now snapshots rows =
    All (λ row. (is_expired now row ≡ false) ⊎ (lists_id snapshots row ≡ true)) rows

deleted-is_expired :
    (now : Time) (row : ContainerSnapshot) → is_expired now (deleted now row) ≡ false
deleted-is_expired now row = ground arith

Covers-step :
    (now : Time) (snapshot : ContainerSnapshot) (rest rows : List ContainerSnapshot)
    → Covers now (snapshot ∷ rest) rows
    → Covers now rest (update_where (is_snapshot snapshot.snapshot_id) (deleted now) rows)
Covers-step now snapshot rest [] h = tt
Covers-step now snapshot rest (row ∷ rows) (h, hs) =
    elim (Bool-cases (is_snapshot snapshot.snapshot_id row)) [
      | inl e ↦ rw e (inl (deleted-is_expired now row), Covers-step now snapshot rest rows hs)
      | inr e ↦ rw e (rw e at h, Covers-step now snapshot rest rows hs)
    ]

Covers-nil :
    (now : Time) (rows : List ContainerSnapshot)
    → Covers now [] rows
    → keep (is_expired now) rows ≡ []
Covers-nil now [] h = refl
Covers-nil now (row ∷ rows) (inl e, hs) = rw e (Covers-nil now rows hs)
Covers-nil now (row ∷ rows) (inr e, hs) = cc

swept-keep :
    (now : Time) (snapshots rows : List ContainerSnapshot)
    → Covers now snapshots rows
    → keep (is_expired now) (swept now snapshots rows) ≡ []
swept-keep now [] rows h = Covers-nil now rows h
swept-keep now (snapshot ∷ rest) rows h =
    swept-keep now rest _ (Covers-step now snapshot rest rows h)

-- The rows that are listed are those that are expired.
Covers-weaken :
    (now : Time) (snapshot : ContainerSnapshot) (snapshots rows : List ContainerSnapshot)
    → Covers now snapshots rows
    → Covers now (snapshot ∷ snapshots) rows
Covers-weaken now snapshot snapshots [] h = tt
Covers-weaken now snapshot snapshots (row ∷ rows) (inl e, hs) =
    (inl e, Covers-weaken now snapshot snapshots rows hs)
Covers-weaken now snapshot snapshots (row ∷ rows) (inr e, hs) =
    (inr (rw e (ground arith)), Covers-weaken now snapshot snapshots rows hs)

Covers-keep :
    (now : Time) (rows : List ContainerSnapshot) → Covers now (keep (is_expired now) rows) rows
Covers-keep now [] = tt
Covers-keep now (row ∷ rows) = elim (Bool-cases (is_expired now row)) [
  | inl e ↦
      let kept : keep (is_expired now) (row ∷ rows) ≡ row ∷ keep (is_expired now) rows =
        rw e refl in
      subst (λ l. Covers now l (row ∷ rows)) (sym kept)
        (
          inr (rw (==_self row.snapshot_id) refl),
          Covers-weaken now row (keep (is_expired now) rows) rows (Covers-keep now rows),
        )
  | inr e ↦
      let kept : keep (is_expired now) (row ∷ rows) ≡ keep (is_expired now) rows = rw e refl in
      subst (λ l. Covers now l (row ∷ rows)) (sym kept) (inl e, Covers-keep now rows)
]

-- A row whose id is not listed is found as before.
find_other :
    (now : Time) (id other : Uuid) (rows : List ContainerSnapshot)
    → (other == id) ≡ false
    → find (is_snapshot id) (update_where (is_snapshot other) (deleted now) rows)
      ≡ find (is_snapshot id) rows
find_other now id other [] apart = refl
find_other now id other (row ∷ rows) apart = elim (Bool-cases (is_snapshot other row)) [
  | inl e ↦
      let missed : is_snapshot id row ≡ false =
        ap (λ i. i == id) ((==_iff row.snapshot_id other).0 e) ∙ apart in
      rw (e, missed) (find_other now id other rows apart)
  | inr e ↦ elim (Bool-cases (is_snapshot id row)) [
    | inl k ↦ rw (e, k) refl
    | inr k ↦ rw (e, k) (find_other now id other rows apart)
  ]
]

swept-find :
    (now : Time) (id : Uuid) (snapshots rows : List ContainerSnapshot)
    → any (is_snapshot id) snapshots ≡ false
    → find (is_snapshot id) (swept now snapshots rows) ≡ find (is_snapshot id) rows
swept-find now id [] rows h = refl
swept-find now id (snapshot ∷ rest) rows h = elim (Bool-cases (is_snapshot id snapshot)) [
  | inl e ↦ absurd (true≢false (rw e at h))
  | inr e ↦ swept-find now id rest _ (rw e at h) ∙ find_other now id snapshot.snapshot_id rows e
]
  where
    true≢false : true ≢ false
    true≢false e = cc

delete_each-swept :
    (now : Time) (snapshots : List ContainerSnapshot) (db : Db)
    → ((n : ℕ) → db.outage n ≡ false)
    → let (r, db') = delete_each now snapshots db in
      (r ≡ ok tt) × (db'.container_snapshots ≡ swept now snapshots db.container_snapshots)
unfolding delete_each delete_container_snapshot
delete_each-swept now [] db up = (refl, refl)
delete_each-swept now (snapshot ∷ rest) db up = rw (up db.calls) (delete_each-swept now rest _ up)

-- While the database answers, a pass succeeds, no snapshot is expired and undeleted afterwards, and
-- every id is that of a snapshot that was expired, or finds what it found before.
pub cleanup_expired_snapshots-clears :
    (now : Time) (db : Db)
    → ((n : ℕ) → db.outage n ≡ false)
    → let (r, db') = cleanup_expired_snapshots now db in
      (r ≡ ok tt)
      × (keep (is_expired now) db'.container_snapshots ≡ [])
      × ((id : Uuid)
          → (any (is_snapshot id) (keep (is_expired now) db.container_snapshots) ≡ true)
            ⊎ (find (is_snapshot id) db'.container_snapshots
                ≡ find (is_snapshot id) db.container_snapshots))
unfolding cleanup_expired_snapshots list_expired_snapshots
cleanup_expired_snapshots-clears now db up =
    let expired = keep (is_expired now) db.container_snapshots in
    let d = delete_each-swept now expired (record db { calls = db.calls + 1 }) up in
    rw (up db.calls) (
      d.0,
      ap (keep (is_expired now)) d.1
          ∙ swept-keep now expired db.container_snapshots (Covers-keep now db.container_snapshots),
      λ id. elim (Bool-cases (any (is_snapshot id) expired)) [
        | inl e ↦ inl e
        | inr e ↦
            inr
              (ap (find (is_snapshot id)) d.1 ∙ swept-find now id expired db.container_snapshots e)
      ],
    )
