-- ===== src/Telegram.antt =====
-- services/telegram/telegram.go: `TelegramService`, over the sessions and the bot API. A bot is known
-- by its token; `accepts` says for which tokens the API makes one, `delivers` whether a message goes
-- out; a text is logged in `outbox` when it is handed to a bot. Of a user only the id and the names
-- count; the uuid of a new session is drawn by `fresh`.
pub mod Laws
use catgirl.Base.{
  ℕ, zero, suc, ◌+◌, Bool, true, false, not, ◌&&◌, List, [], ◌∷◌, ◌++◌, Option, none, some, String,
  str_eq, ltb, Result, ok, err, Error, message, M, length, get_elem?, if◌then◌else◌,
}
use catgirl.Models.{Uuid, Time, Json, Session}
use catgirl.Repository.{
  Db, is_telegram_user_banned, get_session_by_telegram_user as select_session_by_user,
}
use catgirl.Config.{TelegramBotConfig}
use catgirl.Runtime.Sessions.{
  LiveSession, SessionState, get_session_by_telegram_user, create_session, handle_user_message,
}

pub record TelegramUserInfo : Type 0 where
  pub id : ℕ
  pub username : String
  pub first_name : String
  pub last_name : String

-- `command` is `Command()` of a message that `IsCommand()`.
pub record TelegramMessage : Type 0 where
  pub sender : TelegramUserInfo
  pub chat_id : ℕ
  pub text : String
  pub command : Option String

pub record BotApi : Type 0 where
  pub accepts : String → Bool
  pub delivers : String → ℕ → String → Result (Unit {0})

pub record TelegramService : Type 0 where
  pub bots : List String
  pub config : List TelegramBotConfig

-- What a text was sent by, to whom.
pub record Sent : Type 0 where
  pub bot : String
  pub chat_id : ℕ
  pub text : String

pub record TelegramState : Type 0 where
  pub db : Db
  pub sessions : List LiveSession
  pub outbox : List Sent

-- A bot without a token, and one that the API refuses, is skipped.
unfoldable pub initialized : BotApi → List TelegramBotConfig → List String
initialized api [] = []
initialized api (bot ∷ rest) =
    let others = initialized api rest in
    if not (str_eq bot.bot_token "") && api.accepts bot.bot_token
    then bot.bot_token ∷ others
    else others

unfoldable pub new_telegram_service : BotApi → List TelegramBotConfig → TelegramService
unfolding initialized
new_telegram_service api config = record { bots = initialized api config; config = config }

-- `s.bots[i]` for the first `i` whose configuration has the token, if there is such a bot.
unfoldable pub bot_of : String → List TelegramBotConfig → List String → Option String
bot_of token [] bots = none
bot_of token (cfg ∷ config) [] = none
bot_of token (cfg ∷ config) (bot ∷ bots) =
    if str_eq cfg.bot_token token then some bot else bot_of token config bots

abbrev pub or_first : Option String → Option String → Option String
or_first (some bot) first = some bot
or_first none first = first

abbrev pub bot_for_session : TelegramService → Result (Option Session) → Option String
bot_for_session svc (ok (some session)) =
    or_first (bot_of session.bot_token svc.config svc.bots) (get_elem? svc.bots 0)
bot_for_session svc (ok none) = get_elem? svc.bots 0
bot_for_session svc (err e) = get_elem? svc.bots 0

abbrev pub look_up :
    TelegramService → Result (Option Session) × Db → TelegramState → Option String × TelegramState
look_up svc (r, db) s = (bot_for_session svc r, record s { db = db })

abbrev pub has_no_bots : List String → Bool
has_no_bots [] = true
has_no_bots (bot ∷ bots) = false

unfoldable pub get_bot_for_chat :
    TelegramService → ℕ → TelegramState → Option String × TelegramState
unfolding bot_of
get_bot_for_chat svc chat_id s =
    if has_no_bots svc.bots then (none, s) else look_up svc (select_session_by_user chat_id s.db) s

abbrev pub deliver :
    BotApi → ℕ → String → Option String × TelegramState → Result (Unit {0}) × TelegramState
deliver api chat_id text (none, s) = (ok tt, s)
deliver api chat_id text (some bot, s) = (
  api.delivers bot chat_id text,
  record s { outbox = s.outbox ++ (record { bot = bot; chat_id = chat_id; text = text }) ∷ [] },
)

abbrev pub on_db : {A : Type 0} → M Db A → M TelegramState A
on_db m s = let (r, db) = m s.db in (r, record s { db = db })

abbrev pub on_sessions : {A : Type 0} → M SessionState A → M TelegramState A
on_sessions m s =
    let (r, t) = m (record { db = s.db; sessions = s.sessions }) in
    (r, record s { db = t.db; sessions = t.sessions })

module _ (api : BotApi) (svc : TelegramService) where
  -- `SendMessage`; `sendReply` differs in that the text answers a message.
  unfoldable pub send_message : ℕ → String → M TelegramState (Unit {0})
  unfolding get_bot_for_chat
  send_message chat_id text s = deliver api chat_id text (get_bot_for_chat svc chat_id s)

  unfoldable pub handle_command : TelegramMessage → String → M TelegramState (Unit {0})
  unfolding send_message
  handle_command msg command =
      if str_eq command "start"
      then send_message msg.chat_id
          "Welcome to Catgirl Agentic Runtime!\n\nI'm an AI agent that can help you with various tasks.\n\nCommands:\n/start - Start the bot\n/help - Show help\n/status - Check bot status\n"
      else if str_eq command "help"
      then send_message msg.chat_id
          "Available commands:\n/start - Start the bot\n/help - Show this help\n/status - Check bot status\n"
      else if str_eq command "status"
      then send_message msg.chat_id "Bot is running and ready to help!"
      else send_message msg.chat_id "Unknown command. Type /help for available commands."

  module _ (show_name : Uuid → String) (text_json : String → Json) (now : Time) (fresh : Uuid)
      (order : List LiveSession) where
    abbrev pub fed :
        TelegramMessage → Result (Unit {0}) × TelegramState → Result (Unit {0}) × TelegramState
    fed msg (ok _, s) = (ok tt, s)
    fed msg (err e, s) = send_message msg.chat_id "Sorry, I couldn't process your message." s

    abbrev pub feed : TelegramMessage → Uuid → M TelegramState (Unit {0})
    feed msg id s = fed msg (on_sessions (handle_user_message text_json now id msg.text) s)

    abbrev pub created :
        TelegramMessage → Result LiveSession × TelegramState → Result (Unit {0}) × TelegramState
    created msg (ok session, s) = feed msg session.id s
    created msg (err e, s) =
        send_message msg.chat_id "Failed to create session. Please try again." s

    abbrev pub with_session :
        TelegramMessage
        → TelegramBotConfig
        → Result (Option LiveSession) × TelegramState
        → Result (Unit {0}) × TelegramState
    with_session msg bot (ok (some session), s) = feed msg session.id s
    with_session msg bot (ok none, s) = created msg (
        on_sessions
          (create_session show_name now fresh msg.sender.id bot.bot_token msg.sender.username
            msg.sender.first_name msg.sender.last_name)
          s)
    with_session msg bot (err e, s) =
        send_message msg.chat_id "An error occurred. Please try again later." s

    abbrev pub admit :
        TelegramMessage → TelegramBotConfig → TelegramState → Result (Unit {0}) × TelegramState
    admit msg bot s =
        with_session msg bot (on_sessions (get_session_by_telegram_user order msg.sender.id) s)

    -- A ban that cannot be looked up does not count.
    abbrev pub checked :
        TelegramMessage
        → TelegramBotConfig
        → Result Bool × TelegramState
        → Result (Unit {0}) × TelegramState
    checked msg bot (ok true, s) = send_message msg.chat_id "You are not allowed to use this bot." s
    checked msg bot (ok false, s) = admit msg bot s
    checked msg bot (err e, s) = admit msg bot s

    unfoldable pub handle_message : TelegramMessage → TelegramBotConfig → M TelegramState (Unit {0})
    unfolding send_message
    handle_message msg bot s = checked msg bot (on_db (is_telegram_user_banned msg.sender.id) s)

    abbrev pub handle_text :
        TelegramMessage → TelegramBotConfig → Option String → M TelegramState (Unit {0})
    handle_text msg bot (some command) = handle_command msg command
    handle_text msg bot none = handle_message msg bot

    -- `s.config.Bots[botIndex]`; an index in range of the bots is in range of the configuration.
    abbrev pub routed : TelegramMessage → Option TelegramBotConfig → M TelegramState (Unit {0})
    routed msg none s = (err (message "index out of range"), s)
    routed msg (some bot) s = handle_text msg bot msg.command s

    abbrev pub update_of : Option TelegramMessage → ℕ → M TelegramState (Unit {0})
    update_of none index s = (ok tt, s)
    update_of (some msg) index s = routed msg (get_elem? svc.config index) s

    unfoldable pub handle_update_for_bot : Option TelegramMessage → ℕ → M TelegramState (Unit {0})
    unfolding handle_message handle_command
    handle_update_for_bot update index s =
        if ltb index (length svc.bots)
        then update_of update index s
        else (err (message "invalid bot index"), s)
