-- ===== src/Runtime/ParentDepth/Laws.antt =====
-- runtime.go: why counting the parents of a task ends, and what it comes to, in a table in which every
-- parent's row stands before its children's, as the foreign key has it.
use catgirl.Base.{
  ℕ, zero, suc, ◌+◌, ◌≤◌, ◌≡◌, refl, sym, subst, ◌∙◌, true, false, Bool, List, [], ◌∷◌, ◌++◌,
  Option, none, some, ok, err, ◌⊎◌, unavailable, length, find, any, arith, Bool-cases, inl, inr,
  append_assoc, append-nil, length-append,
}
use catgirl.Models.{Uuid, TaskInstance}
use catgirl.Repository.{Db, is_instance, has_parent, get_task_instance}
use catgirl.Runtime.ParentDepth.{count_parents}

-- Every row's parent stands before it, after the rows `before`.
abbrev pub ParentsFirst : List TaskInstance → List TaskInstance → Type 0
ParentsFirst before [] = Unit
ParentsFirst before (task ∷ rest) =
    (has_parent task.parent_instance_id before ≡ true) × ParentsFirst (before ++ task ∷ []) rest

-- How many tasks stand above one with this parent.
pub data Depth (rows : List TaskInstance) : Option Uuid → ℕ → Type 0 where
  root : Depth rows none 0
  below :
      {id : Uuid} {parent : TaskInstance} {d : ℕ}
      → find (is_instance id) rows ≡ some parent
      → Depth rows parent.parent_instance_id d
      → Depth rows (some id) (suc d)

any-snoc :
    (p : TaskInstance → Bool) (xs : List TaskInstance) (x : TaskInstance)
    → any p (xs ++ x ∷ []) ≡ true
    → any p xs ≡ false
    → p x ≡ true
any-snoc p [] x h new = ground arith
any-snoc p (y ∷ ys) x h new = elim (Bool-cases (p y)) [
  | inl e ↦ ground arith
  | inr e ↦ any-snoc p ys x (rw e at h) (rw e at new)
]

find-middle :
    (p : TaskInstance → Bool) (xs : List TaskInstance) (x : TaskInstance) (ys : List TaskInstance)
    → any p xs ≡ false
    → p x ≡ true
    → find p (xs ++ x ∷ ys) ≡ some x
find-middle p [] x ys new e = rw e refl
find-middle p (y ∷ zs) x ys new e = elim (Bool-cases (p y)) [
  | inl f ↦ ground arith
  | inr f ↦ rw f (find-middle p zs x ys (rw f at new) e)
]

-- Each task whose parent is among the first rows has a depth, at most as large as their number.
abbrev Known : List TaskInstance → List TaskInstance → Type 0
Known rows before =
    (o : Option Uuid) → has_parent o before ≡ true → (d : ℕ) × Depth rows o d × (d ≤ length before)

Known-snoc :
    (before rest : List TaskInstance) (task : TaskInstance)
    → Known (before ++ task ∷ rest) before
    → has_parent task.parent_instance_id before ≡ true
    → Known (before ++ task ∷ rest) (before ++ task ∷ [])
Known-snoc before rest task known parent none h = (0, Depth.root, omega arith)
Known-snoc before rest task known parent (some id) h =
    elim (Bool-cases (any (is_instance id) before)) [
      | inl old ↦
          let (d, depth, le) = known (some id) old in
          (d, depth, omega (arith, length-append before (task ∷ [])))
      | inr new ↦
          let (d, depth, le) = known task.parent_instance_id parent in
          (
            suc d,
            Depth.below
                (find-middle (is_instance id) before task rest new
                  (any-snoc (is_instance id) before task h new))
                depth,
            omega (arith, length-append before (task ∷ [])),
          )
    ]

Known-all :
    (rows before rest : List TaskInstance)
    → rows ≡ before ++ rest
    → ParentsFirst before rest
    → Known rows before
    → Known rows rows
Known-all rows before [] e first known = subst (Known rows) (sym (e ∙ append-nil before)) known
Known-all rows before (task ∷ rest) e first known =
    Known-all rows (before ++ task ∷ []) rest (e ∙ sym (append_assoc before (task ∷ []) rest))
      first.1
      (subst (λ l. Known l (before ++ task ∷ [])) (sym e)
        (Known-snoc before rest task (subst (λ l. Known l before) e known) first.0))

pub ParentsFirst-Depth :
    (rows : List TaskInstance) (o : Option Uuid)
    → ParentsFirst [] rows
    → has_parent o rows ≡ true
    → (d : ℕ) × Depth rows o d × (d ≤ length rows)
ParentsFirst-Depth rows o first h = Known-all rows [] rows refl first none_known o h
  where
    none_known : Known rows []
    none_known none e = (0, Depth.root, omega arith)
    none_known (some id) e = cc

-- What a lookup answers that the loop goes on from: the row, or a record with no parent.
get_task_instance-answer :
    (id : Uuid) (db : Db) (parent : TaskInstance)
    → find (is_instance id) db.task_instances ≡ some parent
    → ((db.outage db.calls ≡ true)
        × (get_task_instance id db ≡ (err unavailable, record db { calls = db.calls + 1 })))
      ⊎ ((db.outage db.calls ≡ false)
          × (get_task_instance id db ≡ (ok (some parent), record db { calls = db.calls + 1 })))
unfolding get_task_instance
get_task_instance-answer id db parent h = elim (Bool-cases (db.outage db.calls)) [
  | inl e ↦ inl (e, rw e refl)
  | inr e ↦ inr (e, rw (e, h) refl)
]

-- The count of a task of depth `d`, on any fuel from `d` on.
abbrev pub Counts : Option Uuid → ℕ → ℕ → ℕ → Db → Type 0
Counts o d fuel count db =
    (count_parents fuel o count db ≡ count_parents d o count db)
    × ((count_parents fuel o count db).0 ≤ count + d)
    × (((n : ℕ) → db.outage n ≡ false) → (count_parents fuel o count db).0 ≡ count + d)

pub count_parents-Counts :
    (rows : List TaskInstance) (o : Option Uuid) (d fuel count : ℕ) (db : Db)
    → Depth rows o d
    → db.task_instances ≡ rows
    → d ≤ fuel
    → Counts o d fuel count db
unfolding count_parents
count_parents-Counts rows none d fuel count db Depth.root e le =
    (refl, omega arith, λ up. omega arith)
count_parents-Counts rows (some id) zero fuel count db h e le = elim h [ ]
count_parents-Counts rows (some id) (suc d) zero count db (Depth.below found rest) e le =
    absurd (omega arith)
count_parents-Counts rows (some id) (suc d) (suc fuel) count db
      (Depth.below {parent = parent} found rest) e le =
    elim (get_task_instance-answer id db parent (rw e found)) [
      | inl (down, answer) ↦ rw answer (refl, omega arith, λ always. cc (always db.calls))
      | inr (up, answer) ↦
          let next : Db = record db { calls = db.calls + 1 } in
          let (same, le', exact) =
            count_parents-Counts rows parent.parent_instance_id d fuel (count + 1) next rest e
              (omega arith) in
          rw answer (same, omega arith, λ always. omega (arith, exact always))
    ]

-- If every parent's row stands before its children's, the count of a task in the table comes to its
-- end with fuel for the rows, more fuel changes nothing, and it is at most the number of the tasks
-- above, which it is exactly if the database answers. That number is at most that of the rows.
pub count_parents-ends :
    (o : Option Uuid) (db : Db)
    → ParentsFirst [] db.task_instances
    → has_parent o db.task_instances ≡ true
    → let rows = length db.task_instances in
      (d : ℕ) × Depth db.task_instances o d
      × (d ≤ rows)
      × ((fuel : ℕ) → rows ≤ fuel → count_parents fuel o 0 db ≡ count_parents rows o 0 db)
      × ((count_parents rows o 0 db).0 ≤ d)
      × (((n : ℕ) → db.outage n ≡ false) → (count_parents rows o 0 db).0 ≡ d)
count_parents-ends o db first known =
    let rows = length db.task_instances in
    let (d, depth, le) = ParentsFirst-Depth db.task_instances o first known in
    let on = λ (fuel : ℕ) (enough : d ≤ fuel).
      count_parents-Counts db.task_instances o d fuel 0 db depth refl enough in
    let here = on rows le in
    (
      d,
      depth,
      le,
      λ fuel more. (on fuel (omega arith)).0 ∙ sym here.0,
      omega (arith, here.1),
      λ up. omega (arith, here.2 up),
    )
