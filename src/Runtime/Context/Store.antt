-- ===== src/Runtime/Context/Store.antt =====
-- What a context needs of the table that keeps its turns, and the two tables that provide it.
use catgirl.Base.{
  ◌≡◌, refl, true, List, [], ◌∷◌, ◌++◌, some, M, Result, ok, err, any, keep, ◌==◌, Bool-cases,
  Option-cases, inl, inr,
}
use catgirl.Models.{Uuid, Turn}
use catgirl.Repository.{
  Db, is_turn, is_instance, stored_turn, sorted_by_id, add_task_instance_turn,
  get_task_instance_turns, add_session_turn, get_session_turns,
}

-- An INSERT that succeeds adds the row of the turn at the end; one that fails adds nothing.
abbrev pub InsertLaw : (Db → List Turn) → Turn → Db → Result (Unit {0}) × Db → Type 0
InsertLaw rows turn db (ok _, db') =
    (row : Turn) × (stored_turn db.as_jsonb turn ≡ some row)
    × (rows db' ≡ rows db ++ row ∷ [])
    × (db'.as_jsonb ≡ db.as_jsonb)
InsertLaw rows turn db (err e, db') = (rows db' ≡ rows db) × (db'.as_jsonb ≡ db.as_jsonb)

-- A SELECT yields the rows of the owner by their numbers, and fails only if the database does.
abbrev pub SelectLaw : (Db → List Turn) → Uuid → Db → Result (List Turn) × Db → Type 0
SelectLaw rows id db (ok turns, db') =
    (turns ≡ sorted_by_id (keep (λ row. row.owner == id) (rows db))) × (rows db' ≡ rows db)
SelectLaw rows id db (err e, db') = (db.outage db.calls ≡ true) × (rows db' ≡ rows db)

pub record TurnStore : Type 1 where
  pub insert : Turn → M Db (Unit {0})
  pub select : Uuid → M Db (List Turn)
  pub rows : Db → List Turn
  pub insert-law : (turn : Turn) (db : Db) → InsertLaw rows turn db (insert turn db)
  pub select-law : (id : Uuid) (db : Db) → SelectLaw rows id db (select id db)

pub task_insert :
    (turn : Turn) (db : Db)
    → InsertLaw (λ d. d.task_instance_turns) turn db (add_task_instance_turn turn db)
unfolding add_task_instance_turn
task_insert turn db = elim (Bool-cases (db.outage db.calls)) [
  | inl down ↦ rw down (refl, refl)
  | inr up ↦ elim (Option-cases (stored_turn db.as_jsonb turn)) [
    | inl bad ↦ rw (up, bad) (refl, refl)
    | inr (row, good) ↦ elim (Bool-cases (any (is_turn row) db.task_instance_turns)) [
      | inl old ↦ rw (up, good, old) (refl, refl)
      | inr new ↦ elim (Bool-cases (any (is_instance row.owner) db.task_instances)) [
        | inl known ↦ rw (up, good, new, known) (row, good, refl, refl)
        | inr unknown ↦ rw (up, good, new, unknown) (refl, refl)
      ]
    ]
  ]
]

pub session_insert :
    (turn : Turn) (db : Db) → InsertLaw (λ d. d.session_turns) turn db (add_session_turn turn db)
unfolding add_session_turn
session_insert turn db = elim (Bool-cases (db.outage db.calls)) [
  | inl down ↦ rw down (refl, refl)
  | inr up ↦ elim (Option-cases (stored_turn db.as_jsonb turn)) [
    | inl bad ↦ rw (up, bad) (refl, refl)
    | inr (row, good) ↦ elim (Bool-cases (any (is_turn row) db.session_turns)) [
      | inl old ↦ rw (up, good, old) (refl, refl)
      | inr new ↦ elim (Bool-cases (any (λ s. s.id == row.owner) db.sessions)) [
        | inl known ↦ rw (up, good, new, known) (row, good, refl, refl)
        | inr unknown ↦ rw (up, good, new, unknown) (refl, refl)
      ]
    ]
  ]
]

pub task_select :
    (id : Uuid) (db : Db)
    → SelectLaw (λ d. d.task_instance_turns) id db (get_task_instance_turns id db)
unfolding get_task_instance_turns
task_select id db = elim (Bool-cases (db.outage db.calls)) [
  | inl down ↦ rw down (down, refl)
  | inr up ↦ rw up (refl, refl)
]

pub session_select :
    (id : Uuid) (db : Db) → SelectLaw (λ d. d.session_turns) id db (get_session_turns id db)
unfolding get_session_turns
session_select id db = elim (Bool-cases (db.outage db.calls)) [
  | inl down ↦ rw down (down, refl)
  | inr up ↦ rw up (refl, refl)
]

abbrev pub task_store : TurnStore
task_store = record {
  insert = add_task_instance_turn;
  select = get_task_instance_turns;
  rows = λ d. d.task_instance_turns;
  insert-law = task_insert;
  select-law = task_select;
}

abbrev pub session_store : TurnStore
session_store = record {
  insert = add_session_turn;
  select = get_session_turns;
  rows = λ d. d.session_turns;
  insert-law = session_insert;
  select-law = session_select;
}
