-- ===== src/Runtime/WorkerContext/Laws.antt =====
-- worker_context.go: what is kept of the turns, and what is not.
use catgirl.Base.{
  ℕ, ◌≡◌, refl, ap, sym, ◌∙◌, Bool, true, false, ◌&&◌, List, [], ◌∷◌, ◌++◌, none, some, String,
  str_eq, M, ok, is_ok, inl, inr, if◌then◌else◌, subst, ◌⊎◌,
}
use catgirl.Models.{Uuid, Time}
use catgirl.Repository.{Db}
use catgirl.Workers.Agent.{assistant}
use catgirl.Llm.Messages.{ToolCall, new_message_builder}
use catgirl.Runtime.Context.{ContextState, new_context_manager}
use catgirl.Runtime.Context.Store.{task_store}
use catgirl.Runtime.Context.Messages.{
  Codec, decoded_calls, inject, add_turn_messages-append, add_turn_messages,
}
use catgirl.Runtime.Context.History.{owned, StoredAs}
use catgirl.Runtime.Context.Reload.{KeepsJson, IsInStep, record_turn-IsInStep, load-Resumes}
use catgirl.Runtime.WorkerContext.{
  load_history, add_user_turn, kept_call, add_assistant_turn, add_tool_result_turn, suffix,
  build_messages,
}

-- A call that adds a turn.
pub data Entry : Type 0 where
  says : Time → String → Entry
  answers : Time → String → List ToolCall → ℕ → ℕ → Entry
  returns : Time → String → String → String → Entry

module _ (codec : Codec) where
  unfoldable pub record_entry : Entry → M ContextState (Unit {0})
  record_entry (says now content) = add_user_turn now content
  record_entry (answers now content tool_calls input_tokens output_tokens) =
      add_assistant_turn codec now content tool_calls input_tokens output_tokens
  record_entry (returns now tool_call_id tool_name result) =
      add_tool_result_turn now tool_call_id tool_name result

  -- The callers log an error and go on; the first part says whether there was none.
  unfoldable pub record_entries : List Entry → ContextState → Bool × ContextState
  unfolding record_entry
  record_entries [] s = (true, s)
  record_entries (e ∷ es) s =
      let (r, s') = record_entry e s in
      let (rest, last) = record_entries es s' in (is_ok r && rest, last)

  kept_call-IsWritten :
      (tool_calls : List ToolCall)
      → ((kept_call codec tool_calls ≡ none)
          ⊎ ((c : ToolCall) × (kept_call codec tool_calls ≡ some (codec.encode c))))
  kept_call-IsWritten [] = inl refl
  kept_call-IsWritten (c ∷ []) = inr (c, refl)
  kept_call-IsWritten (c ∷ d ∷ cs) = inl refl

  record_entry-IsInStep :
      (e : Entry) (s : ContextState)
      → is_ok (record_entry e s).0 ≡ true
      → IsInStep codec task_store.rows s
      → IsInStep codec task_store.rows (record_entry e s).1
  unfolding record_entry add_user_turn add_assistant_turn add_tool_result_turn
  record_entry-IsInStep (says now content) s good v =
      record_turn-IsInStep codec task_store _ s refl refl (inl refl) good v
  record_entry-IsInStep (answers now content tool_calls input_tokens output_tokens) s good v =
      record_turn-IsInStep codec task_store _ s refl refl (kept_call-IsWritten tool_calls) good v
  record_entry-IsInStep (returns now tool_call_id tool_name result) s good v =
      record_turn-IsInStep codec task_store _ s refl refl (inl refl) good v

  record_entries-IsInStep :
      (es : List Entry) (s : ContextState)
      → (record_entries es s).0 ≡ true
      → IsInStep codec task_store.rows s
      → IsInStep codec task_store.rows (record_entries es s).1
  unfolding record_entries
  record_entries-IsInStep [] s good v = v
  record_entries-IsInStep (e ∷ es) s good v =
      record_entries-IsInStep es (record_entry e s).1
        (and-right (is_ok (record_entry e s).0) (record_entries es (record_entry e s).1).0 good)
        (record_entry-IsInStep e s
          (and-left (is_ok (record_entry e s).0) (record_entries es (record_entry e s).1).0 good) v)
    where
      and-left : (a b : Bool) → (a && b) ≡ true → a ≡ true
      and-left true b h = refl
      and-left false b h = h

      and-right : (a b : Bool) → (a && b) ≡ true → b ≡ true
      and-right true b h = h
      and-right false b h = cc

-- A task instance without stored turns, any calls that add turns and an INSERT that succeeds for
-- each of them: a context that is then loaded afresh, while the database answers, goes on with the
-- same number and builds the same messages, whatever the prompts.
pub worker_context-resumes :
    (codec : Codec) (owner : Uuid) (db : Db) (es : List Entry)
    → KeepsJson codec db.as_jsonb
    → owned owner db.task_instance_turns ≡ []
    → let (good, s) =
        record_entries codec es (record { db = db; context = new_context_manager owner }) in
      good ≡ true
      → s.db.outage s.db.calls ≡ false
      → let (r, s') =
          load_history (record { db = s.db; context = new_context_manager s.context.owner }) in
        (r ≡ ok tt)
        × (s'.context.current_turn_id ≡ s.context.current_turn_id)
        × ((system_prompt additional : String)
            → build_messages codec system_prompt additional s'.context
              ≡ build_messages codec system_prompt additional s.context)
unfolding load_history build_messages
worker_context-resumes codec owner db es keeps none_yet good up =
    let start : ContextState = record { db = db; context = new_context_manager owner } in
    load-Resumes task_store codec suffix (record_entries codec es start).1 up (
      record_entries-IsInStep codec es start good (record {
        numbered = tt;
        counted = refl;
        keeps = keeps;
        written = tt;
        stored = subst (StoredAs db.as_jsonb []) (sym none_yet) tt;
      }))

-- The calls that a message of the assistant shows.
abbrev pub shown_calls : List ToolCall → List ToolCall
shown_calls (c ∷ []) = if str_eq c.id "" then [] else c ∷ []
shown_calls _ = []

decoded-shown :
    (codec : Codec) (tool_calls : List ToolCall)
    → decoded_calls codec (kept_call codec tool_calls) ≡ shown_calls tool_calls
decoded-shown codec [] = refl
decoded-shown codec (c ∷ []) = rw (codec.encode-nonempty c, codec.decode-encode c) refl
decoded-shown codec (c ∷ d ∷ cs) = refl

-- Whether or not the INSERT succeeds, the turn shows as one more message of the assistant. It has
-- the tool call if there was exactly one and its id is not empty, and no tool call otherwise.
pub worker_answer-message :
    (codec : Codec) (now : Time) (content : String) (tool_calls : List ToolCall)
    (input_tokens output_tokens : ℕ) (s : ContextState) (system_prompt additional : String)
    → build_messages codec system_prompt additional
        (add_assistant_turn codec now content tool_calls input_tokens output_tokens s).1.context
      ≡ build_messages codec system_prompt additional s.context
        ++ (record {
          role = assistant;
          content = content;
          tool_calls = shown_calls tool_calls;
          tool_call_id = "";
        })
          ∷ []
unfolding build_messages add_assistant_turn
worker_answer-message codec now content tool_calls input_tokens output_tokens s system_prompt
      additional =
    add_turn_messages-append codec s.context.turns _
      (inject suffix additional (new_message_builder system_prompt))
    ∙ ap
        (λ calls.
          add_turn_messages codec s.context.turns
            (inject suffix additional (new_message_builder system_prompt))
          ++ (record { role = assistant; content = content; tool_calls = calls; tool_call_id = "" })
            ∷ [])
        (decoded-shown codec tool_calls)
