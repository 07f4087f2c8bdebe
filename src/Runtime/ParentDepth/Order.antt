-- ===== src/Runtime/ParentDepth/Order.antt =====
-- The statements on task instances, which keep the order that counting the parents of a task needs.
use catgirl.Base.{
  ◌≡◌, refl, ap, sym, subst, ◌∙◌, true, Bool, ◌||◌, List, [], ◌∷◌, ◌++◌, Option, none, some, any,
  update_where, arith, Bool-cases, inl, inr, append_assoc, append-nil, ◌==◌,
}
use catgirl.Models.{Uuid, Json, TaskInstance}
use catgirl.Repository.{
  Db, fits_jsonb, is_instance, is_family, has_parent, inserted_instance, set_instance,
  create_task_instance, update_task_instance,
}
use catgirl.Runtime.ParentDepth.Laws.{ParentsFirst}

ParentsFirst-snoc :
    (before rows : List TaskInstance) (task : TaskInstance)
    → ParentsFirst before rows
    → has_parent task.parent_instance_id (before ++ rows) ≡ true
    → ParentsFirst before (rows ++ task ∷ [])
ParentsFirst-snoc before [] task first parent =
    (subst (λ l. has_parent task.parent_instance_id l ≡ true) (append-nil before) parent, tt)
ParentsFirst-snoc before (row ∷ rows) task first parent = (
  first.0,
  ParentsFirst-snoc (before ++ row ∷ []) rows task first.1 (
      subst (λ l. has_parent task.parent_instance_id l ≡ true)
        (sym (append_assoc before (row ∷ []) rows)) parent),
)

-- Rows that know the same ids are parents of the same tasks.
abbrev SameIds : List TaskInstance → List TaskInstance → Type 0
SameIds rows rows' = (id : Uuid) → any (is_instance id) rows ≡ any (is_instance id) rows'

any-one_more :
    (p : TaskInstance → Bool) (xs : List TaskInstance) (x : TaskInstance)
    → any p (xs ++ x ∷ []) ≡ (any p xs || p x)
any-one_more p [] x = ground arith
any-one_more p (y ∷ ys) x = elim (Bool-cases (p y)) [
  | inl e ↦ rw e refl
  | inr e ↦ rw e (any-one_more p ys x)
]

SameIds-snoc :
    (rows rows' : List TaskInstance) (x x' : TaskInstance)
    → SameIds rows rows'
    → x.instance_id ≡ x'.instance_id
    → SameIds (rows ++ x ∷ []) (rows' ++ x' ∷ [])
SameIds-snoc rows rows' x x' same e id =
    any-one_more (is_instance id) rows x
    ∙ ap (λ b. b || is_instance id x) (same id)
    ∙ ap (λ i. any (is_instance id) rows' || (i == id)) e
    ∙ sym (any-one_more (is_instance id) rows' x')

has_parent-same :
    (rows rows' : List TaskInstance) (o : Option Uuid)
    → SameIds rows rows'
    → has_parent o rows ≡ true
    → has_parent o rows' ≡ true
has_parent-same rows rows' none same h = refl
has_parent-same rows rows' (some id) same h = sym (same id) ∙ h

ParentsFirst-update :
    (as_jsonb : Json → Option Json) (ti : TaskInstance) (before before' rows : List TaskInstance)
    → SameIds before before'
    → ParentsFirst before rows
    → ParentsFirst before'
        (update_where (is_instance ti.instance_id) (set_instance as_jsonb ti) rows)
ParentsFirst-update as_jsonb ti before before' [] same first = tt
ParentsFirst-update as_jsonb ti before before' (row ∷ rows) same first =
    let row' : TaskInstance = set_instance as_jsonb ti row in
    elim (Bool-cases (is_instance ti.instance_id row)) [
      | inl e ↦ rw e (
        has_parent-same before before' row.parent_instance_id same first.0,
        ParentsFirst-update as_jsonb ti (before ++ row ∷ []) (before' ++ row' ∷ []) rows
            (SameIds-snoc before before' row row' same refl) first.1,
      )
      | inr e ↦ rw e (
        has_parent-same before before' row.parent_instance_id same first.0,
        ParentsFirst-update as_jsonb ti (before ++ row ∷ []) (before' ++ row ∷ []) rows
            (SameIds-snoc before before' row row same refl) first.1,
      )
    ]

create-ParentsFirst :
    (ti : TaskInstance) (db : Db)
    → ParentsFirst [] db.task_instances
    → ParentsFirst [] (create_task_instance ti db).1.task_instances
unfolding create_task_instance
create-ParentsFirst ti db first = elim (Bool-cases (db.outage db.calls)) [
  | inl e ↦ rw e first
  | inr e ↦ elim (Bool-cases (fits_jsonb db.as_jsonb ti.constraints)) [
    | inr bad ↦ rw (e, bad) first
    | inl good ↦ elim (Bool-cases (any (is_instance ti.instance_id) db.task_instances)) [
      | inl old ↦ rw (e, good, old) first
      | inr new ↦ elim (Bool-cases (any (is_family ti.task_id) db.task_families)) [
        | inr orphan ↦ rw (e, good, new, orphan) first
        | inl family ↦ elim (Bool-cases (has_parent ti.parent_instance_id db.task_instances)) [
          | inr lost ↦ rw (e, good, new, family, lost) first
          | inl parent ↦
              rw (e, good, new, family, parent)
                (ParentsFirst-snoc [] db.task_instances (inserted_instance db.as_jsonb ti) first
                  parent)
        ]
      ]
    ]
  ]
]

-- Whether they succeed or fail, the statements that write task instances keep every parent's row
-- before its children's.
pub task_statements-ParentsFirst :
    (ti : TaskInstance) (db : Db)
    → ParentsFirst [] db.task_instances
    → ParentsFirst [] (create_task_instance ti db).1.task_instances
      × ParentsFirst [] (update_task_instance ti db).1.task_instances
unfolding update_task_instance
task_statements-ParentsFirst ti db first = (
  create-ParentsFirst ti db first,
  elim (Bool-cases (db.outage db.calls)) [
    | inl e ↦ rw e first
    | inr e ↦ elim (Bool-cases (fits_jsonb db.as_jsonb ti.result)) [
      | inr bad ↦ rw (e, bad) first
      | inl good ↦
          rw (e, good)
            (ParentsFirst-update db.as_jsonb ti [] [] db.task_instances (λ id. refl) first)
    ]
  ],
)
