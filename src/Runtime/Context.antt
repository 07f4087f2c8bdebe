-- ===== src/Runtime/Context.antt =====
-- What worker_context.go and orchestrator_context.go have in common: the turns of an owner, a task
-- instance or a session, in memory and in a table of turns.
pub mod Store
pub mod Messages
pub mod History
pub mod Reload
use catgirl.Base.{
  ℕ, ◌+◌, ◌-◌, Bool, List, [], ◌∷◌, ◌++◌, Option, none, some, String, M, Result, ok, err, length,
  drop, get_last?,
}
use catgirl.Models.{Uuid, Time, Json, Role, Turn}
use catgirl.Repository.{Db}

pub record ContextManager : Type 0 where
  pub owner : Uuid
  pub turns : List Turn
  pub current_turn_id : ℕ

abbrev pub new_context_manager : Uuid → ContextManager
new_context_manager owner = record { owner = owner; turns = []; current_turn_id = 0 }

pub record ContextState : Type 0 where
  pub db : Db
  pub context : ContextManager

-- `w.currentTurnID++` and `w.turns = append(w.turns, turn)`.
abbrev pub append_turn : Turn → ContextManager → ContextManager
append_turn turn w = record w {
  turns = w.turns ++ turn ∷ [];
  current_turn_id = w.current_turn_id + 1;
}

-- A turn is added in memory first; the INSERT may fail afterwards.
abbrev pub record_turn : (Turn → M Db (Unit {0})) → Turn → M ContextState (Unit {0})
record_turn insert turn s =
    let (r, db) = insert turn s.db in
    (r, record s { db = db; context = append_turn turn s.context })

-- The turn with the fields that every role leaves empty.
abbrev pub blank_turn : Time → Role → String → ContextManager → Turn
blank_turn now role content w = record {
  turn_id = w.current_turn_id + 1;
  owner = w.owner;
  role = role;
  content = content;
  tool_call_id = none;
  tool_name = none;
  tool_arguments = none;
  tool_result = none;
  input_tokens = 0;
  output_tokens = 0;
  timestamp = now;
}

-- The number of the last turn that was loaded, and the old one if there is none.
abbrev pub last_id : ℕ → Option Turn → ℕ
last_id old none = old
last_id old (some turn) = turn.turn_id

abbrev pub loaded : List Turn → ContextManager → ContextManager
loaded turns w = record w {
  turns = turns;
  current_turn_id = last_id w.current_turn_id (get_last? turns);
}

abbrev pub after_select : ContextState → Result (List Turn) × Db → Result (Unit {0}) × ContextState
after_select s (err e, db) = (err e, record s { db = db })
after_select s (ok turns, db) = (ok tt, record s { db = db; context = loaded turns s.context })

-- `start := len(turns) - count`, at least 0.
abbrev pub recent : {A : Type 0} → ℕ → List A → List A
recent count xs = drop (length xs - count) xs

abbrev pub total_tokens : List Turn → ℕ × ℕ
total_tokens [] = (0, 0)
total_tokens (turn ∷ turns) =
    let (input_total, output_total) = total_tokens turns in
    (turn.input_tokens + input_total, turn.output_tokens + output_total)
