-- ===== src/Runtime/Context/Reload.antt =====
-- The turns in memory, the rows of the table, and a context that is loaded from them.
use catgirl.Base.{
  ℕ, ◌+◌, ◌≡◌, ◌≢◌, refl, ap, sym, subst, ◌∙◌, true, false, List, [], ◌∷◌, ◌++◌, Option, none, some,
  String, str_eq, Result, ok, err, length, length-append, get_last?, Option-cases, inl, inr, arith,
  is_ok, suc, ◌⊎◌, All, All-append,
}
use catgirl.Models.{Json, Role, user, assistant, tool, Turn}
use catgirl.Repository.{Db, stored_json}
use catgirl.Llm.Messages.{
  ChatMessage, ToolCall, add_user_message, add_assistant_message, add_tool_result,
}
use catgirl.Runtime.Context.{
  ContextState, new_context_manager, record_turn, append_turn, after_select, last_id,
}
use catgirl.Runtime.Context.Store.{TurnStore, InsertLaw, SelectLaw}
use catgirl.Runtime.Context.Messages.{
  Codec, known_call, decoded_calls, or_empty, add_turn_message, add_turn_messages, messages_of,
}
use catgirl.Runtime.Context.History.{
  Numbered, StoredAs, owned, stored_turn-keeps, Numbered-snoc, StoredAs-snoc, StoredAs-Numbered,
  owned-snoc, sorted-Numbered,
}

-- What a JSONB column keeps of a call is read as the call, and is no empty text.
abbrev pub KeepsJson : Codec → (Json → Option Json) → Type 0
KeepsJson codec as_jsonb =
    (c : ToolCall) (k : Json)
    → as_jsonb (codec.encode c) ≡ some k
    → (codec.decode k ≡ some c) × (str_eq k "" ≡ false)

-- The arguments of a turn are a call that the codec wrote, or absent.
abbrev pub IsWritten : Codec → Turn → Type 0
IsWritten codec turn =
    (turn.tool_arguments ≡ none) ⊎ ((c : ToolCall) × (turn.tool_arguments ≡ some (codec.encode c)))

-- The memory is numbered from 1 on without a gap, and the table holds the same turns.
pub record IsInStep (codec : Codec) (rows : Db → List Turn) (s : ContextState) : Type 0 where
  pub numbered : Numbered 0 s.context.turns
  pub counted : s.context.current_turn_id ≡ length s.context.turns
  pub keeps : KeepsJson codec s.db.as_jsonb
  pub written : All (IsWritten codec) s.context.turns
  pub stored : StoredAs s.db.as_jsonb s.context.turns (owned s.context.owner (rows s.db))

module _ (codec : Codec) (store : TurnStore) where
  after_insert :
      (turn : Turn) (s : ContextState) (r : Result (Unit {0}) × Db)
      → InsertLaw store.rows turn s.db r
      → is_ok r.0 ≡ true
      → turn.turn_id ≡ s.context.current_turn_id + 1
      → turn.owner ≡ s.context.owner
      → IsWritten codec turn
      → IsInStep codec store.rows s
      → IsInStep codec store.rows (record s { db = r.1; context = append_turn turn s.context })
  after_insert turn s (err e, db) law good id owner w v = cc
  after_insert turn s (ok _, db) (row, stored, rows, same) good id owner w v = record {
    numbered = Numbered-snoc 0 s.context.turns turn v.numbered (omega (arith, id, v.counted));
    keeps = subst (KeepsJson codec) (sym same) v.keeps;
    written = All-append (IsWritten codec) s.context.turns (turn ∷ []) v.written (w, tt);
    counted = omega (arith, v.counted, length-append s.context.turns (turn ∷ []));
    stored =
        subst
          (λ f. StoredAs f (s.context.turns ++ turn ∷ []) (owned s.context.owner (store.rows db)))
          (sym same)
          (subst (λ l. StoredAs s.db.as_jsonb (s.context.turns ++ turn ∷ []) l)
            (sym (
              ap (owned s.context.owner) rows
              ∙ owned-snoc s.context.owner (store.rows s.db) row
                  ((stored_turn-keeps s.db.as_jsonb turn row stored).1 ∙ owner)))
            (StoredAs-snoc s.db.as_jsonb s.context.turns _ turn row v.stored stored));
  }

  -- A turn that is numbered next and whose INSERT succeeds keeps the memory and the table in step.
  pub record_turn-IsInStep :
      (turn : Turn) (s : ContextState)
      → turn.turn_id ≡ s.context.current_turn_id + 1
      → turn.owner ≡ s.context.owner
      → IsWritten codec turn
      → is_ok (record_turn store.insert turn s).0 ≡ true
      → IsInStep codec store.rows s
      → IsInStep codec store.rows (record_turn store.insert turn s).1
  record_turn-IsInStep turn s id owner w good v =
      after_insert turn s (store.insert turn s.db) (store.insert-law turn s.db) good id owner w v

  selected :
      (s : ContextState) (r : Result (List Turn) × Db)
      → SelectLaw store.rows s.context.owner s.db r
      → s.db.outage s.db.calls ≡ false
      → IsInStep codec store.rows s
      → (r.0 ≡ ok (owned s.context.owner (store.rows s.db)))
  selected s (err e, db) law up v = cc (law.0, up)
  selected s (ok turns, db) law up v = ap ok (
      law.0
      ∙ sorted-Numbered 0 (owned s.context.owner (store.rows s.db))
          (StoredAs-Numbered s.db.as_jsonb 0 s.context.turns _ v.stored v.numbered))

-- A row stands for the same message as its turn, if its arguments are a call that the codec wrote.
stored_calls :
    (codec : Codec) (as_jsonb : Json → Option Json)
    → KeepsJson codec as_jsonb
    → (arguments kept : Option Json)
    → ((arguments ≡ none) ⊎ ((c : ToolCall) × (arguments ≡ some (codec.encode c))))
    → stored_json as_jsonb arguments ≡ some kept
    → decoded_calls codec kept ≡ decoded_calls codec arguments
stored_calls codec as_jsonb law arguments kept (inl e) h =
    let same : none ≡ kept = some-injective (rw e at h) in
    rw e (ap (decoded_calls codec) (sym same))
  where
    some-injective : {a b : Option Json} → some a ≡ some b → a ≡ b
    some-injective e = cc
stored_calls codec as_jsonb law arguments kept (inr (c, e)) h =
    elim (Option-cases (as_jsonb (codec.encode c))) [
      | inl bad ↦ absurd (none≢some (rw (e, bad) at h))
      | inr (k, good) ↦
          let same : some k ≡ kept = some-injective (rw (e, good) at h) in
          let l = law c k good in
          rw (e, ← same, codec.encode-nonempty c, l.1)
            (ap known_call (l.0 ∙ sym (codec.decode-encode c)))
    ]
  where
    none≢some : {a : Option Json} → none ≢ some a
    none≢some e = cc

    some-injective : {a b : Option Json} → some a ≡ some b → a ≡ b
    some-injective e = cc

stored_message :
    (codec : Codec) (role role' : Role) (turn row : Turn) (m : List ChatMessage)
    → role ≡ role'
    → row.content ≡ turn.content
    → row.tool_call_id ≡ turn.tool_call_id
    → decoded_calls codec row.tool_arguments ≡ decoded_calls codec turn.tool_arguments
    → add_turn_message codec role row m ≡ add_turn_message codec role' turn m
stored_message codec user role' turn row m e c i a =
    subst (λ r. add_turn_message codec user row m ≡ add_turn_message codec r turn m) e
      (ap (λ x. add_user_message x m) c)
stored_message codec assistant role' turn row m e c i a =
    subst (λ r. add_turn_message codec assistant row m ≡ add_turn_message codec r turn m) e
      (ap (λ x. add_assistant_message x (decoded_calls codec row.tool_arguments) m) c
        ∙ ap (λ x. add_assistant_message turn.content x m) a)
stored_message codec tool role' turn row m e c i a =
    subst (λ r. add_turn_message codec tool row m ≡ add_turn_message codec r turn m) e
      (ap (λ x. add_tool_result (or_empty row.tool_call_id) x m) c
        ∙ ap (λ x. add_tool_result (or_empty x) turn.content m) i)

stored_messages :
    (codec : Codec) (as_jsonb : Json → Option Json) (turns rows : List Turn) (m : List ChatMessage)
    → KeepsJson codec as_jsonb
    → All (IsWritten codec) turns
    → StoredAs as_jsonb turns rows
    → add_turn_messages codec rows m ≡ add_turn_messages codec turns m
stored_messages codec as_jsonb [] [] m law w h = refl
stored_messages codec as_jsonb (t ∷ turns) (r ∷ rows) m law w h =
    let kept = stored_turn-keeps as_jsonb t r h.0 in
    stored_messages codec as_jsonb turns rows (add_turn_message codec r.role r m) law w.1 h.1
    ∙ ap (add_turn_messages codec turns) (
        stored_message codec r.role t.role t r m kept.2 kept.3 kept.4
          (stored_calls codec as_jsonb law t.tool_arguments r.tool_arguments w.0 kept.5))
stored_messages codec as_jsonb [] (r ∷ rows) m law w h = absurd h
stored_messages codec as_jsonb (t ∷ turns) [] m law w h = absurd h

last_id-Numbered :
    (k : ℕ) (rows : List Turn) → Numbered k rows → last_id k (get_last? rows) ≡ k + length rows
last_id-Numbered k [] n = omega arith
last_id-Numbered k (r ∷ []) n = omega (arith, n.0)
last_id-Numbered k (r ∷ r' ∷ rows) n =
    omega (arith, last_id_cons (k + 1) k r' rows, last_id-Numbered (k + 1) (r' ∷ rows) n.1)
  where
    last_id_cons :
        (a b : ℕ) (t : Turn) (ts : List Turn)
        → last_id a (get_last? (t ∷ ts)) ≡ last_id b (get_last? (t ∷ ts))
    last_id_cons a b t [] = refl
    last_id_cons a b t (u ∷ ts) = last_id_cons a b u ts

StoredAs-length :
    (as_jsonb : Json → Option Json) (turns rows : List Turn)
    → StoredAs as_jsonb turns rows
    → length rows ≡ length turns
StoredAs-length as_jsonb [] [] h = refl
StoredAs-length as_jsonb (t ∷ turns) (r ∷ rows) h = ap suc (StoredAs-length as_jsonb turns rows h.1)
StoredAs-length as_jsonb [] (r ∷ rows) h = absurd h
StoredAs-length as_jsonb (t ∷ turns) [] h = absurd h

-- What a context that is loaded afresh for the same owner has in common with the one in memory.
abbrev pub Resumes : Codec → String → ContextState → Result (Unit {0}) × ContextState → Type 0
Resumes codec suffix s (r, s') =
    (r ≡ ok tt)
    × (s'.context.current_turn_id ≡ s.context.current_turn_id)
    × ((system_prompt additional : String)
        → messages_of codec suffix system_prompt additional s'.context.turns
          ≡ messages_of codec suffix system_prompt additional s.context.turns)

-- While memory and table are in step and the database answers, a fresh context for the same owner
-- loads, goes on with the same number, and builds the same messages.
pub load-Resumes :
    (store : TurnStore) (codec : Codec) (suffix : String) (s : ContextState)
    → s.db.outage s.db.calls ≡ false
    → IsInStep codec store.rows s
    → Resumes codec suffix s (
        after_select
          (record { db = s.db; context = new_context_manager s.context.owner })
          (store.select s.context.owner s.db))
load-Resumes store codec suffix s up v = go (store.select s.context.owner s.db) (
    selected codec store s (store.select s.context.owner s.db)
      (store.select-law s.context.owner s.db) up v)
  where
    rows : List Turn
    rows = owned s.context.owner (store.rows s.db)

    go :
        (r : Result (List Turn) × Db)
        → r.0 ≡ ok rows
        → Resumes codec suffix s
            (after_select (record { db = s.db; context = new_context_manager s.context.owner }) r)
    go (err e, db) h = cc
    go (ok turns, db) h =
        let same : turns ≡ rows = cc in
        subst
          (λ l. Resumes codec suffix s (
            after_select (record { db = s.db; context = new_context_manager s.context.owner })
              (ok l, db)))
          (sym same)
          (
            refl,
            last_id-Numbered 0 rows
                  (StoredAs-Numbered s.db.as_jsonb 0 s.context.turns rows v.stored v.numbered)
                ∙ omega
                    (arith, StoredAs-length s.db.as_jsonb s.context.turns rows v.stored, v.counted),
            λ p a.
                stored_messages codec s.db.as_jsonb s.context.turns rows _ v.keeps v.written
                  v.stored,
          )
