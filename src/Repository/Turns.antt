-- ===== src/Repository/Turns.antt =====
-- The turns of workers and orchestrators, and the conversation history.
-- `ORDER BY turn_id` is left to the query: a turn is inserted with a number above those before it,
-- and `sorted_by_id` puts the rows in order all the same.
use mathlib.Core.Option
use catgirl.Base.{
  Option, none, some, Result, err, not, invalid_json, Bool, ◌&&◌, List, [], ◌∷◌, ◌++◌, ◌==◌, ltb,
  ok, err, duplicate_key, foreign_key, M, if◌then◌else◌, any, keep, update_where,
}
use catgirl.Models.{Uuid, Json, ConversationTurn, Turn}
use catgirl.Repository.Tables.{Db, statement, fits_jsonb, as_column}
use catgirl.Repository.Tasks.{is_instance}

abbrev pub is_turn : Turn → Turn → Bool
is_turn turn row = row.owner == turn.owner && row.turn_id == turn.turn_id

-- Insertion of a turn before the first one with a larger number.
unfoldable pub place : Turn → List Turn → List Turn
place t [] = t ∷ []
place t (u ∷ us) = if ltb t.turn_id u.turn_id then t ∷ u ∷ us else u ∷ place t us

unfoldable pub sorted_by_id : List Turn → List Turn
unfolding place
sorted_by_id [] = []
sorted_by_id (t ∷ ts) = place t (sorted_by_id ts)

-- A turn as its row holds it. An absent value is NULL.
abbrev pub stored_json : (Json → Option Json) → Option Json → Option (Option Json)
stored_json as_jsonb none = some none
stored_json as_jsonb (some j) = Option.map some (as_jsonb j)

abbrev pub with_json : Turn → Option (Option Json) → Option (Option Json) → Option Turn
with_json turn (some arguments) (some result) =
    some (record turn { tool_arguments = arguments; tool_result = result })
with_json turn _ _ = none

abbrev pub stored_turn : (Json → Option Json) → Turn → Option Turn
stored_turn as_jsonb turn =
    with_json turn (stored_json as_jsonb turn.tool_arguments)
      (stored_json as_jsonb turn.tool_result)

-- UNIQUE(instance_id, turn_id), and `instance_id` references `task_instances`.
abbrev put_task_instance_turns : Option Turn → Db → Result (Unit {0}) × Db
put_task_instance_turns none db = (err invalid_json, db)
put_task_instance_turns (some turn) db =
    if any (is_turn turn) db.task_instance_turns
    then (err duplicate_key, db)
    else if any (is_instance turn.owner) db.task_instances
    then (ok tt, record db { task_instance_turns = db.task_instance_turns ++ turn ∷ [] })
    else (err foreign_key, db)

unfoldable pub add_task_instance_turn : Turn → M Db (Unit {0})
add_task_instance_turn turn =
    statement λ db. put_task_instance_turns (stored_turn db.as_jsonb turn) db

unfoldable pub get_task_instance_turns : Uuid → M Db (List Turn)
unfolding sorted_by_id
get_task_instance_turns id =
    statement λ db. (ok (sorted_by_id (keep (λ row. row.owner == id) db.task_instance_turns)), db)

-- UNIQUE(session_id, turn_id), and `session_id` references `sessions`.
abbrev put_session_turns : Option Turn → Db → Result (Unit {0}) × Db
put_session_turns none db = (err invalid_json, db)
put_session_turns (some turn) db =
    if any (is_turn turn) db.session_turns
    then (err duplicate_key, db)
    else if any (λ row. row.id == turn.owner) db.sessions
    then (ok tt, record db { session_turns = db.session_turns ++ turn ∷ [] })
    else (err foreign_key, db)

unfoldable pub add_session_turn : Turn → M Db (Unit {0})
add_session_turn turn = statement λ db. put_session_turns (stored_turn db.as_jsonb turn) db

unfoldable pub get_session_turns : Uuid → M Db (List Turn)
unfolding sorted_by_id
get_session_turns id =
    statement λ db. (ok (sorted_by_id (keep (λ row. row.owner == id) db.session_turns)), db)

abbrev pub is_history : Uuid → ConversationTurn → Uuid × ConversationTurn → Bool
is_history id turn (owner, row) = owner == id && row.turn_id == turn.turn_id

-- The row in conflict keeps its number and its timestamp.
abbrev pub set_history :
    (Json → Option Json) → ConversationTurn → Uuid × ConversationTurn → Uuid × ConversationTurn
set_history as_jsonb turn (owner, row) = (
  owner,
  record row {
    thought = turn.thought;
    action = turn.action;
    result = as_column as_jsonb turn.result;
    tokens = turn.tokens;
  },
)

abbrev pub inserted_history : (Json → Option Json) → ConversationTurn → ConversationTurn
inserted_history as_jsonb turn = record turn { result = as_column as_jsonb turn.result }

unfoldable pub add_conversation_turn : Uuid → ConversationTurn → M Db (Unit {0})
add_conversation_turn id turn = statement λ db.
    if not (fits_jsonb db.as_jsonb turn.result)
    then (err invalid_json, db)
    else if any (is_history id turn) db.conversation_history
    then (
      ok tt,
      record db {
        conversation_history =
            update_where (is_history id turn) (set_history db.as_jsonb turn)
              db.conversation_history;
      },
    )
    else if any (λ row. row.id == id) db.sessions
    then (
      ok tt,
      record db {
        conversation_history =
            db.conversation_history ++ (id, inserted_history db.as_jsonb turn) ∷ [];
      },
    )
    else (err foreign_key, db)
