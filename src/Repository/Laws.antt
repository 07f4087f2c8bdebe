-- ===== src/Repository/Laws.antt =====
-- What the statements of the task tables promise.
use catgirl.Base.{
  ◌⊎◌, Error, unavailable, invalid_json, duplicate_key, foreign_key, ◌+◌, ◌≡◌, refl, ap, Bool, true,
  false, List, [], ◌∷◌, ◌++◌, none, some, inl, inr, Result, ok, err, ==_self, find, any, arith,
  Bool-cases, update_where, keep, not,
}
use catgirl.Models.{TaskInstance}
use catgirl.Repository.Tables.{Db, fits_jsonb}
use catgirl.Repository.Tasks.{
  is_family, is_instance, inserted_instance, create_task_instance, has_parent,
}

module _ {ℓ} {A : Type ℓ} (p : A → Bool) where
  pub find-any : (xs : List A) → any p xs ≡ true → (x : A) × (find p xs ≡ some x)
  find-any [] h = cc
  find-any (x ∷ xs) h = elim (Bool-cases (p x)) [
    | inl e ↦ (x, rw e)
    | inr e ↦ rw e (find-any xs (rw e at h))
  ]

  pub find-append_fresh :
      (xs : List A) (x : A) → any p xs ≡ false → p x ≡ true → find p (xs ++ x ∷ []) ≡ some x
  find-append_fresh [] x h e = rw e
  find-append_fresh (y ∷ ys) x h e = elim (Bool-cases (p y)) [
    | inl f ↦ ground arith
    | inr f ↦ rw f (find-append_fresh ys x (rw f at h) e)
  ]

  pub find-append_missing :
      (xs : List A) (x : A) → find p xs ≡ none → p x ≡ true → find p (xs ++ x ∷ []) ≡ some x
  find-append_missing [] x h e = rw e
  find-append_missing (y ∷ ys) x h e = elim (Bool-cases (p y)) [
    | inl f ↦ ground arith
    | inr f ↦ rw f (find-append_missing ys x (rw f at h) e)
  ]

  pub find_passes : (xs : List A) (x : A) → find p xs ≡ some x → p x ≡ true
  find_passes [] x h = cc
  find_passes (y ∷ ys) x h = elim (Bool-cases (p y)) [
    | inl e ↦ ground arith
    | inr e ↦ find_passes ys x (rw e at h)
  ]

-- Why the INSERT of a task instance is refused.
abbrev pub Refused : TaskInstance → Db → Error → Type 0
Refused ti db e =
    ((e ≡ unavailable) × (db.outage db.calls ≡ true))
    ⊎ ((e ≡ invalid_json) × (fits_jsonb db.as_jsonb ti.constraints ≡ false))
    ⊎ ((e ≡ duplicate_key) × (any (is_instance ti.instance_id) db.task_instances ≡ true))
    ⊎ ((e ≡ foreign_key)
        × ((any (is_family ti.task_id) db.task_families ≡ false)
            ⊎ (has_parent ti.parent_instance_id db.task_instances ≡ false)))

-- What the INSERT of a task instance leaves.
abbrev pub InsertSpec : TaskInstance → Db → Result (Unit {0}) × Db → Type 0
InsertSpec ti db (ok _, db') =
    (db' ≡ record db {
      task_instances = db.task_instances ++ inserted_instance db.as_jsonb ti ∷ [];
      calls = db.calls + 1;
    })
    × (any (is_family ti.task_id) db.task_families ≡ true)
    × (find (is_instance ti.instance_id) db'.task_instances
        ≡ some (inserted_instance db.as_jsonb ti))
InsertSpec ti db (err e, db') = (db' ≡ record db { calls = db.calls + 1 }) × Refused ti db e

-- A new instance belongs to a family that is there, and is found under its id; a refused INSERT
-- leaves the tables as they were, for one of four reasons.
pub create_task_instance-InsertSpec :
    (ti : TaskInstance) (db : Db) → InsertSpec ti db (create_task_instance ti db)
unfolding create_task_instance
create_task_instance-InsertSpec ti db = elim (Bool-cases (db.outage db.calls)) [
  | inl e ↦ rw e (refl, inl (refl, e))
  | inr e ↦ elim (Bool-cases (fits_jsonb db.as_jsonb ti.constraints)) [
    | inr bad ↦ rw (e, bad) (refl, inr (inl (refl, bad)))
    | inl good ↦ elim (Bool-cases (any (is_instance ti.instance_id) db.task_instances)) [
      | inl old ↦ rw (e, good, old) (refl, inr (inr (inl (refl, old))))
      | inr new ↦ elim (Bool-cases (any (is_family ti.task_id) db.task_families)) [
        | inr orphan ↦ rw (e, good, new, orphan) (refl, inr (inr (inr (refl, inl orphan))))
        | inl family ↦ elim (Bool-cases (has_parent ti.parent_instance_id db.task_instances)) [
          | inr lost ↦ rw (e, good, new, family, lost) (refl, inr (inr (inr (refl, inr lost))))
          | inl parent ↦
              rw (e, good, new, family, parent)
                (
                  refl,
                  family,
                  find-append_fresh (is_instance ti.instance_id) db.task_instances
                      (inserted_instance db.as_jsonb ti) new (==_self ti.instance_id),
                )
        ]
      ]
    ]
  ]
]

-- A row that is updated in place is found again, changed.
pub find-update_where :
    {A : Type 0} (p : A → Bool) (f : A → A) (xs : List A) (x : A)
    → ((y : A) → p (f y) ≡ p y)
    → find p xs ≡ some x
    → find p (update_where p f xs) ≡ some (f x)
find-update_where p f [] x same h = cc
find-update_where p f (y ∷ ys) x same h = elim (Bool-cases (p y)) [
  | inl e ↦ rw (e, same y, e) (ground arith)
  | inr e ↦ rw (e, e) (find-update_where p f ys x same (rw e at h))
]

module _ {A : Type 0} (p : A → Bool) where
  -- No row passes the test: an update changes nothing.
  pub update_where-none : (f : A → A) (xs : List A) → any p xs ≡ false → update_where p f xs ≡ xs
  update_where-none f [] h = refl
  update_where-none f (x ∷ xs) h = elim (Bool-cases (p x)) [
    | inl e ↦ ground arith
    | inr e ↦ rw e (ap (◌∷◌ x) (update_where-none f xs (rw e at h)))
  ]

  -- The rows that pass the test are gone.
  pub find-keep_others : (xs : List A) → find p (keep (λ x. not (p x)) xs) ≡ none
  find-keep_others [] = refl
  find-keep_others (x ∷ xs) = elim (Bool-cases (p x)) [
    | inl e ↦ rw e (find-keep_others xs)
    | inr e ↦ rw (e, e) (find-keep_others xs)
  ]

  -- A search for rows that all stay is not changed by the removal.
  pub find-keep :
      (q : A → Bool) (xs : List A)
      → ((x : A) → p x ≡ true → q x ≡ true)
      → find p (keep q xs) ≡ find p xs
  find-keep q [] stay = refl
  find-keep q (x ∷ xs) stay = elim (Bool-cases (p x)) [
    | inl e ↦ rw (stay x e, e) refl
    | inr e ↦ elim (Bool-cases (q x)) [
      | inl k ↦ rw (k, e) (find-keep q xs stay)
      | inr k ↦ rw (k, e) (find-keep q xs stay)
    ]
  ]

  -- A search for rows that the update does not touch is not changed by it.
  pub find-update_where_others :
      (q : A → Bool) (f : A → A) (xs : List A)
      → ((x : A) → q x ≡ true → (p x ≡ false) × (p (f x) ≡ false))
      → find p (update_where q f xs) ≡ find p xs
  find-update_where_others q f [] apart = refl
  find-update_where_others q f (x ∷ xs) apart = elim (Bool-cases (q x)) [
    | inl k ↦ rw (k, (apart x k).0, (apart x k).1) (find-update_where_others q f xs apart)
    | inr k ↦ elim (Bool-cases (p x)) [
      | inl e ↦ rw (k, e) refl
      | inr e ↦ rw (k, e) (find-update_where_others q f xs apart)
    ]
  ]
