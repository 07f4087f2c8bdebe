-- ===== src/Runtime/Sessions.antt =====
-- session.go: `SessionService`, its sessions in memory over the table of sessions. `show_name` is the
-- name that a new session gets, `text_json` is `json.Marshal` of `{"text": message}`. A session's
-- `OrchestratorState` is left out, and so is the goroutine that each session starts.
pub mod Spec
use catgirl.Base.{
  ℕ, ◌+◌, Bool, List, [], ◌∷◌, ◌++◌, Option, none, some, String, ◌==◌, ltb, M, Result, ok, err,
  wrap, ◌>>=◌, ◌>>◌, pure, fail, wrapped, ignored, require, not_found, length, find, update_where,
  if◌then◌else◌,
}
use catgirl.Models.{Uuid, Time, Json, Session, SessionStatus, active, ConversationTurn}
use catgirl.Repository.{
  Db, create_session as insert_session, get_session as select_session, create_telegram_user,
  get_session_by_telegram_user as select_session_by_user, add_conversation_turn as insert_turn,
}
use catgirl.Runtime.Context.{ContextManager, new_context_manager}

pub record LiveSession : Type 0 where
  pub id : Uuid
  pub telegram_user_id : ℕ
  pub bot_token : String
  pub history : List ConversationTurn
  pub current_turn_id : ℕ
  pub context : ContextManager
  pub input_queue : List String
  pub created_at : Time
  pub last_active : Time

pub record SessionState : Type 0 where
  pub db : Db
  pub sessions : List LiveSession

abbrev pub has_id : Uuid → LiveSession → Bool
has_id id session = session.id == id

abbrev pub input_capacity : ℕ
input_capacity = 100

abbrev pub on_db : {A : Type 0} → M Db A → M SessionState A
on_db m s = let (r, db) = m s.db in (r, record s { db = db })

-- `s.sessions[session.ID] = session`, for an id that the map does not have.
abbrev pub add : LiveSession → M SessionState (Unit {0})
add session s = (ok tt, record s { sessions = s.sessions ++ session ∷ [] })

abbrev pub look_up : Uuid → M SessionState (Option LiveSession)
look_up id s = (ok (find (has_id id) s.sessions), s)

abbrev pub change : Uuid → (LiveSession → LiveSession) → M SessionState (Unit {0})
change id f s = (ok tt, record s { sessions = update_where (has_id id) f s.sessions })

-- A session with an empty history and an empty queue.
abbrev pub live : Uuid → ℕ → String → Time → Time → LiveSession
live id user bot_token created_at last_active = record {
  id = id;
  telegram_user_id = user;
  bot_token = bot_token;
  history = [];
  current_turn_id = 0;
  context = new_context_manager id;
  input_queue = [];
  created_at = created_at;
  last_active = last_active;
}

abbrev pub session_row : String → Uuid → ℕ → String → Time → Session
session_row name id user bot_token now = record {
  id = id;
  telegram_user_id = user;
  bot_token = bot_token;
  name = name;
  status = SessionStatus.active;
  created_at = now;
  updated_at = now;
  orchestrator_state = "";
  metadata = "";
}

-- `id` is the uuid that the call draws.
unfoldable pub create_session :
    (Uuid → String)
    → Time
    → Uuid
    → ℕ
    → String
    → String
    → String
    → String
    → M SessionState LiveSession
create_session show_name now id user bot_token username first_name last_name = do
  wrapped "failed to create session"
      (on_db (insert_session (session_row (show_name id) id user bot_token now)))
  ignored (on_db (create_telegram_user user (some id) username first_name last_name now))
  add (live id user bot_token now now)
  pure (live id user bot_token now now)

-- A session that is only in the table is loaded, with nothing in its history.
abbrev pub load : Option Session → M SessionState (Option LiveSession)
load none = pure none
load (some row) = do
  add (live row.id row.telegram_user_id row.bot_token row.created_at row.updated_at)
  pure (some (live row.id row.telegram_user_id row.bot_token row.created_at row.updated_at))

abbrev pub or_load : Uuid → Option LiveSession → M SessionState (Option LiveSession)
or_load id (some session) = pure (some session)
or_load id none = do row ← on_db (select_session id); load row

unfoldable pub get_session : Uuid → M SessionState (Option LiveSession)
get_session id s = or_load id (find (has_id id) s.sessions) s

-- `order` is the order in which the loop meets the sessions of the map.
abbrev pub or_select : ℕ → Option LiveSession → M SessionState (Option LiveSession)
or_select user (some session) = pure (some session)
or_select user none = do
  row ← on_db (select_session_by_user user)
  elim row [ none ↦ pure none | some r ↦ get_session r.id ]

unfoldable pub get_session_by_telegram_user :
    List LiveSession → ℕ → M SessionState (Option LiveSession)
unfolding get_session
get_session_by_telegram_user order user =
    or_select user (find (λ session. session.telegram_user_id == user) order)

abbrev pub touch : Time → LiveSession → LiveSession
touch now session = record session { last_active = now }

abbrev pub remember : ConversationTurn → LiveSession → LiveSession
remember turn session = record session {
  history = session.history ++ turn ∷ [];
  current_turn_id = session.current_turn_id + 1;
}

unfoldable pub add_conversation_turn : Time → Uuid → ConversationTurn → M SessionState (Unit {0})
add_conversation_turn now id turn = do
  found ← look_up id
  session ← require found not_found
  change id (touch now)
  let numbered : ConversationTurn = record turn { turn_id = session.current_turn_id + 1 }
  on_db (insert_turn id numbered)
  change id (remember numbered)

-- The send of a `select` with a `default`: a message that finds the queue full is dropped.
abbrev pub enqueue : String → LiveSession → LiveSession
enqueue message session =
    if ltb (length session.input_queue) input_capacity
    then record session { input_queue = session.input_queue ++ message ∷ [] }
    else session

abbrev pub message_turn : (String → Json) → Time → String → ConversationTurn
message_turn text_json now message = record {
  turn_id = 0;
  thought = "";
  action = "USER_MESSAGE";
  result = text_json message;
  tokens = 0;
  timestamp = now;
}

unfoldable pub handle_user_message :
    (String → Json) → Time → Uuid → String → M SessionState (Unit {0})
unfolding get_session add_conversation_turn
handle_user_message text_json now id message = do
  found ← wrapped "failed to get session" (get_session id)
  require found not_found
  add_conversation_turn now id (message_turn text_json now message)
  change id (enqueue message)
