-- ===== src/Telegram/Laws.antt =====
-- services/telegram/telegram.go: which bot speaks to a user, and what a banned user can do.
use catgirl.Base.{
  ℕ, ◌+◌, ◌≡◌, refl, ap, true, false, ◌&&◌, List, [], ◌∷◌, ◌++◌, Option, none, some, ◌⊎◌, inl, inr,
  String, str_eq, eq_iff, All, any, find, map, get_elem?, Result, ok, err, Bool-cases, ◌==◌,
}
use catgirl.Models.{Uuid, Time, Json, Session, TelegramUser, is_active}
use catgirl.Repository.{is_user, is_telegram_user_banned, get_session_by_telegram_user}
use catgirl.Config.{TelegramBotConfig}
use catgirl.Runtime.Sessions.{LiveSession}
use catgirl.Telegram.{
  BotApi, TelegramMessage, TelegramService, TelegramState, initialized, or_first, bot_for_session,
  new_telegram_service, bot_of, has_no_bots, get_bot_for_chat, deliver, send_message,
  handle_message,
}

abbrev pub Usable : BotApi → TelegramBotConfig → Type 0
Usable api bot = (str_eq bot.bot_token "" ≡ false) × (api.accepts bot.bot_token ≡ true)

initialized-All :
    (api : BotApi) (config : List TelegramBotConfig)
    → All (Usable api) config
    → initialized api config ≡ map (λ bot. bot.bot_token) config
unfolding initialized
initialized-All api [] h = refl
initialized-All api (bot ∷ config) h =
    rw (h.0.0, h.0.1) (ap (◌∷◌ bot.bot_token) (initialized-All api config h.1))

bot_of-own :
    (token : String) (config : List TelegramBotConfig)
    → any (λ bot. str_eq bot.bot_token token) config ≡ true
    → bot_of token config (map (λ bot. bot.bot_token) config) ≡ some token
unfolding bot_of
bot_of-own token [] h = cc
bot_of-own token (bot ∷ config) h = elim (Bool-cases (str_eq bot.bot_token token)) [
  | inl e ↦ rw e (ap some ((eq_iff bot.bot_token token).0 e))
  | inr e ↦ rw e (bot_of-own token config (rw e at h))
]

abbrev pub session_of : ℕ → List Session → Option Session
session_of user rows = find (λ row. row.telegram_user_id == user && is_active row.status) rows

get_bot_for_chat-own :
    (config : List TelegramBotConfig) (svc : TelegramService) (chat_id : ℕ) (session : Session)
    (s : TelegramState)
    → svc.config ≡ config
    → svc.bots ≡ map (λ bot. bot.bot_token) config
    → any (λ bot. str_eq bot.bot_token session.bot_token) config ≡ true
    → s.db.outage s.db.calls ≡ false
    → session_of chat_id s.db.sessions ≡ some session
    → get_bot_for_chat svc chat_id s
      ≡ (some session.bot_token, record s { db = record s.db { calls = s.db.calls + 1 } })
unfolding get_bot_for_chat get_session_by_telegram_user
get_bot_for_chat-own [] svc chat_id session s c b listed up found = cc
get_bot_for_chat-own (bot ∷ config) svc chat_id session s c b listed up found =
    rw (b, up, found, c, bot_of-own session.bot_token (bot ∷ config) listed) refl

-- Where no configured bot was skipped, a user with an active session is spoken to by the bot of that
-- session, and the answer is what the API says of the delivery.
pub send_message-own :
    (api : BotApi) (config : List TelegramBotConfig) (chat_id : ℕ) (text : String)
    (session : Session) (s : TelegramState)
    → All (Usable api) config
    → any (λ bot. str_eq bot.bot_token session.bot_token) config ≡ true
    → s.db.outage s.db.calls ≡ false
    → session_of chat_id s.db.sessions ≡ some session
    → let (r, s') = send_message api (new_telegram_service api config) chat_id text s in
      (r ≡ api.delivers session.bot_token chat_id text)
      × (s'.outbox
          ≡ s.outbox ++ (record { bot = session.bot_token; chat_id = chat_id; text = text }) ∷ [])
unfolding send_message new_telegram_service
send_message-own api config chat_id text session s usable listed up found =
    rw
      (get_bot_for_chat-own config (new_telegram_service api config) chat_id session s refl
        (initialized-All api config usable) listed up found)
      (refl, refl)

abbrev pub denial : String
denial = "You are not allowed to use this bot."

-- One text has gone out, to this chat; none only if there is no bot.
abbrev pub SentOnly : TelegramService → ℕ → String → TelegramState → TelegramState → Type 0
SentOnly svc chat_id text s s' =
    ((svc.bots ≡ []) × (s'.outbox ≡ s.outbox))
    ⊎ ((bot : String) × (s'.outbox
          ≡ s.outbox ++ (record { bot = bot; chat_id = chat_id; text = text }) ∷ []))

deliver-SentOnly :
    (api : BotApi) (svc : TelegramService) (chat_id : ℕ) (text : String) (s : TelegramState)
    (p : Option String × TelegramState)
    → (p.0 ≡ none → svc.bots ≡ [])
    → (p.1.sessions ≡ s.sessions)
      × (p.1.db.sessions ≡ s.db.sessions)
      × (p.1.db.conversation_history ≡ s.db.conversation_history)
      × (p.1.outbox ≡ s.outbox)
    → let s' = (deliver api chat_id text p).1 in
      (s'.sessions ≡ s.sessions)
      × (s'.db.sessions ≡ s.db.sessions)
      × (s'.db.conversation_history ≡ s.db.conversation_history)
      × SentOnly svc chat_id text s s'
deliver-SentOnly api svc chat_id text s (none, t) silent h = (h.0, h.1, h.2, inl (silent refl, h.3))
deliver-SentOnly api svc chat_id text s (some bot, t) silent h = (
  h.0,
  h.1,
  h.2,
  inr (bot, ap (λ l. l ++ (record { bot = bot; chat_id = chat_id; text = text }) ∷ []) h.3),
)

get_bot_for_chat-keeps :
    (svc : TelegramService) (chat_id : ℕ) (s : TelegramState)
    → let t = (get_bot_for_chat svc chat_id s).1 in
      (t.sessions ≡ s.sessions)
      × (t.db.sessions ≡ s.db.sessions)
      × (t.db.conversation_history ≡ s.db.conversation_history)
      × (t.outbox ≡ s.outbox)
unfolding get_bot_for_chat get_session_by_telegram_user
get_bot_for_chat-keeps svc chat_id s = elim (Bool-cases (has_no_bots svc.bots)) [
  | inl e ↦ rw e (refl, refl, refl, refl)
  | inr e ↦ elim (Bool-cases (s.db.outage s.db.calls)) [
    | inl down ↦ rw (e, down) (refl, refl, refl, refl)
    | inr up ↦ rw (e, up) (refl, refl, refl, refl)
  ]
]

first-none :
    (o : Option String) (bots : List String) → or_first o (get_elem? bots 0) ≡ none → bots ≡ []
first-none (some bot) bots h = cc
first-none none [] h = refl
first-none none (bot ∷ bots) h = cc

-- Where there is a bot, there is one for each chat.
get_bot_for_chat-none :
    (svc : TelegramService) (chat_id : ℕ) (s : TelegramState)
    → (get_bot_for_chat svc chat_id s).0 ≡ none
    → svc.bots ≡ []
unfolding get_bot_for_chat get_session_by_telegram_user
get_bot_for_chat-none svc chat_id s h = elim (Bool-cases (has_no_bots svc.bots)) [
  | inl e ↦ no_bots svc.bots e
  | inr e ↦ speaks (get_session_by_telegram_user chat_id s.db).0 (rw e at h)
]
  where
    no_bots : (bots : List String) → has_no_bots bots ≡ true → bots ≡ []
    no_bots [] e = refl
    no_bots (bot ∷ bots) e = cc

    speaks : (r : Result (Option Session)) → bot_for_session svc r ≡ none → svc.bots ≡ []
    speaks (ok (some session)) e =
        first-none (bot_of session.bot_token svc.config svc.bots) svc.bots e
    speaks (ok none) e = first-none none svc.bots e
    speaks (err x) e = first-none none svc.bots e

-- While the database answers, a message of a banned user makes no session, no entry in a history and
-- no input of a session. If there is a bot, one text goes out, the denial, to the chat that the
-- message came from.
pub handle_message-banned :
    (api : BotApi) (svc : TelegramService) (show_name : Uuid → String) (text_json : String → Json)
    (now : Time) (fresh : Uuid) (order : List LiveSession) (msg : TelegramMessage)
    (bot : TelegramBotConfig) (row : TelegramUser) (s : TelegramState)
    → s.db.outage s.db.calls ≡ false
    → find (is_user msg.sender.id) s.db.telegram_users ≡ some row
    → row.is_banned ≡ true
    → let s' = (handle_message api svc show_name text_json now fresh order msg bot s).1 in
      (s'.sessions ≡ s.sessions)
      × (s'.db.sessions ≡ s.db.sessions)
      × (s'.db.conversation_history ≡ s.db.conversation_history)
      × SentOnly svc msg.chat_id denial s s'
unfolding handle_message send_message is_telegram_user_banned
handle_message-banned api svc show_name text_json now fresh order msg bot row s up known banned =
    let counted : TelegramState = record s { db = record s.db { calls = s.db.calls + 1 } } in
    rw (up, known, banned)
      (deliver-SentOnly api svc msg.chat_id denial counted
        (get_bot_for_chat svc msg.chat_id counted) (get_bot_for_chat-none svc msg.chat_id counted)
        (get_bot_for_chat-keeps svc msg.chat_id counted))
