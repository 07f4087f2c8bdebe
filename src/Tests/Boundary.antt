-- ===== src/Tests/Boundary.antt =====
-- Tools, migrations, telegram and the consolidation of memories at concrete inputs.
use catgirl.Base.{
  ◌≡◌, refl, true, false, List, [], ◌∷◌, none, some, ok, find, if◌then◌else◌, DirEntry,
}
use catgirl.Models.{Priority, TelegramUser}
use catgirl.Config.{TelegramBotConfig}
use catgirl.Repository.{Db}
use catgirl.Llm.Messages.{Tool}
use catgirl.Runtime.Coordinator.Execute.{no_bot}
use catgirl.Runtime.ToolLoader.{Disk, entries, is_named, load_tools, get_tools_by_name}
use catgirl.Runtime.ToolLoader.Laws.{is_asked, last_tool, get_tools_by_name-offers}
use catgirl.Database.Migrations.{Migration, Schema, run_all}
use catgirl.Database.Migrations.Laws.{RunSpec, run_all-RunSpec, run_all-again}
use catgirl.Telegram.{BotApi, TelegramMessage, TelegramService, TelegramState, handle_message}
use catgirl.Telegram.Laws.{SentOnly, denial, handle_message-banned}
use catgirl.Tests.Fixtures.{a_db, a_task, an_id}

abbrev a_tool : Tool
a_tool = record { name = "SET_STATE"; description = "state"; parameters = "{}" }

abbrev tool_files : List DirEntry
tool_files =
    (record { name = "set_state.json"; is_dir = false })
    ∷ (record { name = "notes.txt"; is_dir = false })
    ∷ []

abbrev a_disk : Disk
a_disk = record {
  read_dir = λ dir. entries tool_files;
  make_dir = λ dir. ok tt;
  read_file = λ dir name. ok "tool";
  as_tool = λ text. some ("function", a_tool);
  as_function = λ text. none;
  as_object = λ j. j;
}

get_tools_by_name-offers_example :
    ((load_tools a_disk "tools" []).0 ≡ ok tt)
    × (find
          (is_named "SET_STATE")
          (get_tools_by_name (load_tools a_disk "tools" []).1 ("SET_STATE" ∷ []))
        ≡ (if is_asked ("SET_STATE" ∷ []) "SET_STATE"
            then last_tool a_disk "tools" "SET_STATE" tool_files none
            else none))
get_tools_by_name-offers_example =
    get_tools_by_name-offers a_disk "tools" tool_files [] (load_tools a_disk "tools" []).1
      ("SET_STATE" ∷ []) refl (λ n. refl) "SET_STATE"

abbrev two_migrations : List Migration
two_migrations =
    (record { version = "001"; name = "users"; sql = "CREATE TABLE users" })
    ∷ (record { version = "002"; name = "tasks"; sql = "CREATE TABLE tasks" })
    ∷ []

abbrev empty_schema : Schema
empty_schema = record {
  versions = [];
  scripts = [];
  calls = 0;
  outage = λ n. false;
  accepts = λ scripts sql. true;
}

run_all-RunSpec_example : RunSpec two_migrations [] [] (run_all two_migrations empty_schema)
run_all-RunSpec_example = run_all-RunSpec two_migrations empty_schema

two_migrations-run : (run_all two_migrations empty_schema).0 ≡ ok tt
unfolding run_all
two_migrations-run = refl

run_all-again_example :
    let once = (run_all two_migrations empty_schema).1 in
    let twice = (run_all two_migrations once).1 in
    (twice.versions ≡ once.versions) × (twice.scripts ≡ once.scripts)
run_all-again_example = run_all-again two_migrations empty_schema two_migrations-run

abbrev an_api : BotApi
an_api = record { accepts = λ token. true; delivers = λ bot chat_id text. ok tt }

abbrev two_bots : List TelegramBotConfig
two_bots = record no_bot { bot_token = "other" } ∷ record no_bot { bot_token = "token" } ∷ []

abbrev a_telegram : TelegramState
a_telegram = record { db = a_db; sessions = []; outbox = [] }

abbrev a_banned_user : TelegramUser
a_banned_user = record {
  telegram_user_id = 4;
  session_id = none;
  username = "u";
  first_name = "f";
  last_name = "l";
  is_banned = true;
  created_at = 1;
  last_activity = 1;
}

abbrev guarded : TelegramState
guarded = record {
  db = record a_db { telegram_users = a_banned_user ∷ [] };
  sessions = [];
  outbox = [];
}

abbrev a_message : TelegramMessage
a_message = record {
  sender = record { id = 4; username = "u"; first_name = "f"; last_name = "l" };
  chat_id = 4;
  text = "hi";
  command = none;
}

abbrev a_service : TelegramService
a_service = record { bots = "token" ∷ []; config = two_bots }

handle_message-banned_example :
    let s' =
      (handle_message an_api a_service
        (λ id. "session")
        (λ text. text)
        8
        6
        []
        a_message
        no_bot
        guarded).1 in
    (s'.sessions ≡ guarded.sessions)
    × (s'.db.sessions ≡ guarded.db.sessions)
    × (s'.db.conversation_history ≡ guarded.db.conversation_history)
    × SentOnly a_service 4 denial guarded s'
handle_message-banned_example =
    handle_message-banned an_api a_service (λ id. "session") (λ text. text) 8 6 [] a_message no_bot
      a_banned_user guarded refl refl refl

-- An agent with a note, assigned to a task of session 5.
abbrev with_note : Db
with_note = record a_db {
  task_instances = record (a_task 1 Priority.normal 3) { assigned_agent_id = some an_id } ∷ [];
  working_memory =
      (record { agent_id = an_id; key = "k"; value = "note"; created_at = 1; updated_at = 1 }) ∷ [];
}
