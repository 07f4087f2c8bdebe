-- ===== src/Repository/Sessions.antt =====
-- Sessions and telegram users.
use catgirl.Base.{
  ℕ, List, Bool, true, false, ◌&&◌, [], ◌∷◌, ◌++◌, Option, none, some, String, ◌==◌, ok, err,
  duplicate_key, foreign_key, M, if◌then◌else◌, find, any, update_where,
}
use catgirl.Models.{Uuid, Time, Session, TelegramUser, is_active}
use catgirl.Repository.Tables.{Db, statement}

abbrev pub is_session : Uuid → Session → Bool
is_session id row = row.id == id

abbrev pub is_user : ℕ → TelegramUser → Bool
is_user id row = row.telegram_user_id == id

unfoldable pub create_session : Session → M Db (Unit {0})
create_session s = statement λ db.
    if any (is_session s.id) db.sessions
    then (err duplicate_key, db)
    else (ok tt, record db { sessions = db.sessions ++ s ∷ [] })

unfoldable pub get_session : Uuid → M Db (Option Session)
get_session id = statement λ db. (ok (find (is_session id) db.sessions), db)

unfoldable pub get_session_by_telegram_user : ℕ → M Db (Option Session)
get_session_by_telegram_user user =
    statement λ db.
      (ok (find (λ row. row.telegram_user_id == user && is_active row.status) db.sessions), db)

abbrev pub set_session : Session → Time → Session → Session
set_session s now row = record row {
  bot_token = s.bot_token;
  name = s.name;
  status = s.status;
  updated_at = now;
  orchestrator_state = s.orchestrator_state;
  metadata = s.metadata;
}

unfoldable pub update_session : Session → Time → M Db (Unit {0})
update_session s now = statement λ db.
    (ok tt, record db { sessions = update_where (is_session s.id) (set_session s now) db.sessions })

abbrev has_session : Option Uuid → List Session → Bool
has_session none rows = true
has_session (some id) rows = any (is_session id) rows

-- ON CONFLICT keeps the ban and the time of creation.
unfoldable pub create_telegram_user :
    ℕ → Option Uuid → String → String → String → Time → M Db (Unit {0})
create_telegram_user user session_id username first_name last_name now = statement λ db.
    if has_session session_id db.sessions
    then (if any (is_user user) db.telegram_users
        then (
          ok tt,
          record db {
            telegram_users =
                update_where (is_user user)
                  (λ row. record row {
                    session_id = session_id;
                    username = username;
                    first_name = first_name;
                    last_name = last_name;
                    last_activity = now;
                  })
                  db.telegram_users;
          },
        )
        else (
          ok tt,
          record db {
            telegram_users =
                db.telegram_users
                ++ (record {
                  telegram_user_id = user;
                  session_id = session_id;
                  username = username;
                  first_name = first_name;
                  last_name = last_name;
                  is_banned = false;
                  created_at = now;
                  last_activity = now;
                })
                  ∷ [];
          },
        ))
    else (err foreign_key, db)

abbrev banned_row : Option TelegramUser → Bool
banned_row none = false
banned_row (some row) = row.is_banned

unfoldable pub is_telegram_user_banned : ℕ → M Db Bool
is_telegram_user_banned user =
    statement λ db. (ok (banned_row (find (is_user user) db.telegram_users)), db)

unfoldable pub ban_telegram_user : ℕ → Bool → M Db (Unit {0})
ban_telegram_user user banned = statement λ db. (
  ok tt,
  record db {
    telegram_users =
        update_where (is_user user) (λ row. record row { is_banned = banned }) db.telegram_users;
  },
)
