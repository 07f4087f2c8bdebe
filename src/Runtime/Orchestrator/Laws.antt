-- ===== src/Runtime/Orchestrator/Laws.antt =====
-- session.go: what the user is sent by an iteration of `orchestratorLoop`, and when the loop ends.
use catgirl.Base.{
  ℕ, ◌≡◌, refl, ap, sym, ◌∙◌, not, ◌||◌, List, [], ◌∷◌, ◌++◌, Option, none, some, String, str_eq,
  Result, ok, err, if◌then◌else◌, Bool-cases, inl, inr, append-nil, append_assoc,
}
use catgirl.Config.Laws.{Serves}
use catgirl.Llm.Messages.{ChatMessage, ToolCall, ChatResponse}
use catgirl.Llm.Choice.{ModelConfig}
use catgirl.Llm.Choice.Laws.{get_random_model-offers}
use catgirl.Runtime.OrchestratorContext.{build_messages, add_user_turn, add_tool_result_turn}
use catgirl.Runtime.Coordinator.{External, string_arg}
use catgirl.Runtime.Orchestrator.{
  SessionEnv, Talk, Progress, goes_on, stops, panics, on_context, bill, call_model, ask, sent,
  spawn, dispatch, handle_calls, store_answer, has_calls, follow_up, followed, process_calls,
  answered, after_chat, first_answer, handle_message,
}

-- What the user is to be told: the texts of the SEND_MESSAGE calls that have one, in order.
abbrev pub told : Option String → ℕ → List (ℕ × String)
told none user = []
told (some text) user = (user, text) ∷ []

module _ {World : Type 0} (ext : External World) (env : SessionEnv) where
  abbrev pub message_of : ToolCall → List (ℕ × String)
  message_of tc =
      if str_eq tc.name "SEND_MESSAGE"
      then told (ext.text_arg tc.arguments "message") env.telegram_user_id
      else []

  abbrev pub messages_of : List ToolCall → List (ℕ × String)
  messages_of [] = []
  messages_of (tc ∷ calls) = message_of tc ++ messages_of calls

  abbrev pub of_choices : List ChatMessage → List (ℕ × String)
  of_choices [] = []
  of_choices (msg ∷ others) = messages_of msg.tool_calls

  abbrev pub said : Option (Result ChatResponse) → List (ℕ × String)
  said none = []
  said (some (err e)) = []
  said (some (ok resp)) = of_choices resp.choices

  -- How the loop goes on after a first answer.
  abbrev pub with_choices : List ChatMessage → Progress
  with_choices [] = stops
  with_choices (msg ∷ others) = goes_on

  abbrev pub course : Option (Result ChatResponse) → Progress
  course none = panics
  course (some (err e)) = stops
  course (some (ok resp)) = with_choices resp.choices

  call_model-replies :
      (messages : List ChatMessage) (o : Option ModelConfig) (s : Talk World)
      → (call_model ext env messages o s).1.replies ≡ s.replies
  call_model-replies messages none s = refl
  call_model-replies messages (some model) s = refl

  ask-replies : (s : Talk World) → (ask ext env s).1.replies ≡ s.replies
  ask-replies s = call_model-replies _ _ _

  sent-replies :
      (arguments : String) (o : Option String) (s : Talk World)
      → (sent ext env arguments o s).1.replies ≡ s.replies ++ told o env.telegram_user_id
  sent-replies arguments none s = sym (append-nil s.replies)
  sent-replies arguments (some text) s = refl

  spawn-replies :
      (description : String) (s : Talk World) → (spawn ext env description s).1.replies ≡ s.replies
  spawn-replies description s = elim (Bool-cases (str_eq description "")) [
    | inl e ↦ rw e refl
    | inr e ↦ rw e refl
  ]

  dispatch-replies :
      (tc : ToolCall) (s : Talk World)
      → (dispatch ext env tc s).1.replies ≡ s.replies ++ message_of tc
  unfolding dispatch
  dispatch-replies tc s = elim (Bool-cases (str_eq tc.name "SEND_MESSAGE")) [
    | inl e ↦ rw e (sent-replies tc.arguments (ext.text_arg tc.arguments "message") s)
    | inr e ↦ elim (Bool-cases (str_eq tc.name "SPAWN_TASK")) [
      | inl f ↦
          rw (e, f)
            (spawn-replies (string_arg ext tc.arguments "description") s
              ∙ sym (append-nil s.replies))
      | inr f ↦ elim (Bool-cases (str_eq tc.name "SET_STATE")) [
        | inl g ↦ rw (e, f, g) (sym (append-nil s.replies))
        | inr g ↦ rw (e, f, g) (sym (append-nil s.replies))
      ]
    ]
  ]

  handle_calls-replies :
      (calls : List ToolCall) (s : Talk World)
      → (handle_calls ext env calls s).replies ≡ s.replies ++ messages_of calls
  unfolding handle_calls
  handle_calls-replies [] s = sym (append-nil s.replies)
  handle_calls-replies (tc ∷ calls) s =
      let result = (dispatch ext env tc s).0 in
      let s1 =
        on_context (add_tool_result_turn env.now tc.id tc.name result) (dispatch ext env tc s).1 in
      handle_calls-replies calls s1
      ∙ ap (λ l. l ++ messages_of calls) (dispatch-replies tc s)
      ∙ append_assoc s.replies (message_of tc) (messages_of calls)

  follow_up-replies :
      (resp : ChatResponse) (choices : List ChatMessage) (s : Talk World)
      → (follow_up ext env resp choices s).1.replies ≡ s.replies
  follow_up-replies resp [] s = refl
  follow_up-replies resp (msg ∷ others) s =
      elim (Bool-cases (not (str_eq msg.content "") || has_calls ext env msg.tool_calls)) [
        | inl e ↦ rw e refl
        | inr e ↦ rw e refl
      ]

  follow_up-goes_on :
      (resp : ChatResponse) (choices : List ChatMessage) (s : Talk World)
      → (follow_up ext env resp choices s).0 ≡ goes_on
  follow_up-goes_on resp [] s = refl
  follow_up-goes_on resp (msg ∷ others) s = refl

  followed-replies :
      (p : Option (Result ChatResponse) × Talk World) → (followed ext env p).1.replies ≡ p.1.replies
  followed-replies (none, s) = refl
  followed-replies (some (err e), s) = refl
  followed-replies (some (ok resp), s) = follow_up-replies resp resp.choices s

  -- With models to choose from a draw never panics.
  ask-answers :
      (s : Talk World)
      → Serves env.providers
      → (r : Result ChatResponse) × ((ask ext env s).0 ≡ some r)
  ask-answers s serves =
      let drawn = ext.draws s.world in
      let (model, offered, listed, kind) =
        get_random_model-offers drawn.0 drawn.1 env.providers env.bot.gp_model serves in
      (
        _,
        ap
            (λ o.
              (call_model ext env
                (build_messages ext.codec env.bot.orchestrator_system_prompt "" s.context) o
                (record s { world = drawn.2 })).0)
            offered,
      )

  followed-goes_on :
      (p : Option (Result ChatResponse) × Talk World) (r : Result ChatResponse)
      → p.0 ≡ some r
      → (followed ext env p).0 ≡ goes_on
  followed-goes_on (none, s) r h = cc
  followed-goes_on (some (err e), s) r h = refl
  followed-goes_on (some (ok resp), s) r h = follow_up-goes_on resp resp.choices s

  process_calls-replies :
      (resp : ChatResponse) (msg : ChatMessage) (calls : List ToolCall) (s : Talk World)
      → (process_calls ext env resp msg calls s).1.replies ≡ s.replies ++ messages_of calls
  process_calls-replies resp msg [] s = sym (append-nil s.replies)
  process_calls-replies resp msg (tc ∷ calls) s =
      let s1 = store_answer ext env resp msg s in
      let s2 = handle_calls ext env (tc ∷ calls) s1 in
      followed-replies (ask ext env s2) ∙ ask-replies s2 ∙ handle_calls-replies (tc ∷ calls) s1

  process_calls-goes_on :
      (resp : ChatResponse) (msg : ChatMessage) (calls : List ToolCall) (s : Talk World)
      → Serves env.providers
      → (process_calls ext env resp msg calls s).0 ≡ goes_on
  process_calls-goes_on resp msg [] s serves = refl
  process_calls-goes_on resp msg (tc ∷ calls) s serves =
      let s2 = handle_calls ext env (tc ∷ calls) (store_answer ext env resp msg s) in
      let (r, some_answer) = ask-answers s2 serves in
      followed-goes_on (ask ext env s2) r some_answer

  answered-replies :
      (resp : ChatResponse) (choices : List ChatMessage) (s : Talk World)
      → (answered ext env resp choices s).1.replies ≡ s.replies ++ of_choices choices
  answered-replies resp [] s = sym (append-nil s.replies)
  answered-replies resp (msg ∷ others) s =
      process_calls-replies resp msg msg.tool_calls (bill ext env resp s)

  after_chat-replies :
      (p : Option (Result ChatResponse) × Talk World)
      → (after_chat ext env p).1.replies ≡ p.1.replies ++ said p.0
  after_chat-replies (none, s) = sym (append-nil s.replies)
  after_chat-replies (some (err e), s) = sym (append-nil s.replies)
  after_chat-replies (some (ok resp), s) = answered-replies resp resp.choices s

  answered-course :
      (resp : ChatResponse) (choices : List ChatMessage) (s : Talk World)
      → Serves env.providers
      → (answered ext env resp choices s).0 ≡ with_choices choices
  answered-course resp [] s serves = refl
  answered-course resp (msg ∷ others) s serves =
      process_calls-goes_on resp msg msg.tool_calls (bill ext env resp s) serves

  after_chat-course :
      (p : Option (Result ChatResponse) × Talk World)
      → Serves env.providers
      → (after_chat ext env p).0 ≡ course p.0
  after_chat-course (none, s) serves = refl
  after_chat-course (some (err e), s) serves = refl
  after_chat-course (some (ok resp), s) serves = answered-course resp resp.choices s serves

  -- For a message the user is sent the texts of the SEND_MESSAGE calls of the model's first answer,
  -- in order, and nothing else: not its text, and nothing of the answer that follows.
  pub handle_message-replies :
      (text : String) (s : Talk World)
      → (handle_message ext env text s).1.replies
        ≡ s.replies ++ said (first_answer ext env text s).0
  unfolding handle_message
  handle_message-replies text s =
      after_chat-replies (first_answer ext env text s)
      ∙ ap (λ l. l ++ said (first_answer ext env text s).0) (first text s)
    where
      first : (t : String) (u : Talk World) → (first_answer ext env t u).1.replies ≡ u.replies
      first t u = ask-replies (on_context (add_user_turn env.now t) u)

  -- With models to choose from the loop ends for good exactly if the first call for a message fails
  -- or yields no choice; whatever the second call comes to, it goes on.
  pub handle_message-course :
      (text : String) (s : Talk World)
      → Serves env.providers
      → ((handle_message ext env text s).0 ≡ course (first_answer ext env text s).0)
        × ((r : Result ChatResponse) × ((first_answer ext env text s).0 ≡ some r))
  unfolding handle_message
  handle_message-course text s serves = (
    after_chat-course (first_answer ext env text s) serves,
    ask-answers (on_context (add_user_turn env.now text) s) serves,
  )
