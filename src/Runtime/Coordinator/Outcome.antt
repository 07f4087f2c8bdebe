-- ===== src/Runtime/Coordinator/Outcome.antt =====
-- runtime.go: what a batch of tool calls comes to, and how a run of the agent's loop can end.
use catgirl.Base.{
  ◌≡◌, ◌≢◌, refl, ap, sym, subst, ◌∙◌, List, [], ◌∷◌, ◌++◌, Option, some, ◌⊎◌, inl, inr, String,
  str_eq, eq_iff, ok, map, Bool-cases, append_assoc, append-nil,
}
use catgirl.Models.{TaskStatus, Turn}
use catgirl.Llm.Messages.{ToolCall}
use catgirl.Runtime.Context.{ContextManager}
use catgirl.Runtime.WorkerContext.{add_tool_result_turn}
use catgirl.Runtime.Callbacks.{others, unregister_agent_for_callback}
use catgirl.Runtime.Coordinator.{External, WorkerEnv, Work}
use catgirl.Runtime.Coordinator.Tools.{dispatch, tool_message, handle_call, handle_calls}
use catgirl.Runtime.Coordinator.Loop.{Progress, going, returned, conclude, process_calls}
use catgirl.Runtime.Coordinator.Frame.{ids, Keeps, Keeps-refl, Keeps-trans, on_agent-Keeps, Agrees}
use catgirl.Runtime.Coordinator.Effects.{asked_state, dispatch-CallSpec}

abbrev pub call_ids : ContextManager → List (Option String)
call_ids context = map (λ turn. turn.tool_call_id) context.turns

pub map-append {ℓ} :
    {A B : Type ℓ} (f : A → B) (xs ys : List A) → map f (xs ++ ys) ≡ map f xs ++ map f ys
map-append f [] ys = refl
map-append f (x ∷ xs) ys = ap (◌∷◌ (f x)) (map-append f xs ys)

module _ {World : Type 0} (ext : External World) (env : WorkerEnv) where
  -- The state that the last SET_STATE of the calls asks for.
  abbrev pub last_state : List ToolCall → String → String
  last_state [] before = before
  last_state (tc ∷ calls) before = last_state calls (asked_state ext env tc before)

  -- Each call adds one turn to the context, which names it, in the order of the calls.
  pub record BatchSpec (calls : List ToolCall) (w w' : Work World) : Type 0 where
    pub keeps : Keeps w.rt w'.rt
    pub answers : call_ids w'.context ≡ call_ids w.context ++ map (λ tc. some tc.id) calls
    pub changes : w'.state_change ≡ last_state calls w.state_change
    pub agrees : Agrees w → Agrees w'

  handle_call-BatchSpec :
      (tc : ToolCall) (w : Work World) → BatchSpec (tc ∷ []) w (handle_call ext env tc w)
  unfolding handle_call add_tool_result_turn
  handle_call-BatchSpec tc w =
      let s = dispatch-CallSpec ext env tc w in
      let result = (dispatch ext env tc w).0 in
      let w1 = (dispatch ext env tc w).1 in
      let k =
        on_agent-Keeps env.agent_id
          (λ agent. record agent {
            output_history = agent.output_history ++ tool_message tc.id result ∷ [];
          })
          w1 (λ a. refl) in
      record {
        keeps = record {
          same_ids = k.same_ids ∙ s.keeps.same_ids;
          same_registry = s.keeps.same_registry;
        };
        answers =
            map-append (λ (turn : Turn). turn.tool_call_id) w1.context.turns _
            ∙ ap (λ c. call_ids c ++ some tc.id ∷ []) s.same_context;
        changes = s.changes;
        agrees = s.agrees;
      }

  pub handle_calls-BatchSpec :
      (calls : List ToolCall) (w : Work World) → BatchSpec calls w (handle_calls ext env calls w)
  unfolding handle_calls
  handle_calls-BatchSpec [] w = record {
    keeps = Keeps-refl w.rt;
    answers = sym (append-nil (call_ids w.context));
    changes = refl;
    agrees = λ a. a;
  }
  handle_calls-BatchSpec (tc ∷ calls) w =
      let w1 = handle_call ext env tc w in
      let s = handle_call-BatchSpec tc w in
      let rest = handle_calls-BatchSpec calls w1 in
      record {
        keeps = Keeps-trans s.keeps rest.keeps;
        answers =
            rest.answers
            ∙ ap (λ l. l ++ map (λ (c : ToolCall). some c.id) calls) s.answers
            ∙ append_assoc (call_ids w.context) (some tc.id ∷ []) _;
        changes = rest.changes ∙ ap (last_state calls) s.changes;
        agrees = λ a. rest.agrees (s.agrees a);
      }

  -- The variables as they are when the calls of an answer begin.
  abbrev pub fresh_batch : Work World → Work World
  fresh_batch w = record w { state_change = "" }

  fresh-Agrees : (w : Work World) → Agrees (fresh_batch w)
  fresh-Agrees w = (λ h. cc, λ h. cc)

  -- The registry has lost the agent, and the task is over.
  abbrev pub IsOver : Work World → Progress × Work World → Type 0
  IsOver w (p, w') =
      (p ≡ returned (ok tt))
      × (w'.rt.blocked_agents ≡ others env.agent_id w.rt.blocked_agents)
      × ((w'.task.status ≡ TaskStatus.completed) ⊎ (w'.task.status ≡ TaskStatus.failed))

  abbrev pub Concludes : String → Work World → Progress × Work World → Type 0
  Concludes state w out =
      ((state ≡ "BLOCKING") × (out.0 ≡ going) × (out.1.rt.blocked_agents ≡ w.rt.blocked_agents))
      ⊎ ((((state ≡ "COMPLETED") × (out.1.task.status ≡ TaskStatus.completed))
            ⊎ ((state ≡ "FAILED") × (out.1.task.status ≡ TaskStatus.failed)))
          × (out.0 ≡ returned (ok tt))
          × (out.1.rt.blocked_agents ≡ others env.agent_id w.rt.blocked_agents))
      ⊎ ((state ≢ "BLOCKING")
          × (state ≢ "COMPLETED")
          × (state ≢ "FAILED")
          × (out.0 ≡ returned (ok tt))
          × (out.1.rt.blocked_agents ≡ w.rt.blocked_agents))

  conclude-Concludes :
      (w w1 : Work World)
      → w1.rt.blocked_agents ≡ w.rt.blocked_agents
      → Agrees w1
      → Concludes w1.state_change w (conclude ext env w1)
  unfolding unregister_agent_for_callback
  conclude-Concludes w w1 same agrees = elim (Bool-cases (str_eq w1.state_change "BLOCKING")) [
    | inl e ↦ rw e (inl ((eq_iff w1.state_change "BLOCKING").0 e, refl, same))
    | inr e ↦ elim (Bool-cases (str_eq w1.state_change "COMPLETED")) [
      | inl f ↦
          let done = (eq_iff w1.state_change "COMPLETED").0 f in
          rw (e, f) (inr (inl (inl (done, agrees.0 done), refl, ap (others env.agent_id) same)))
      | inr f ↦ elim (Bool-cases (str_eq w1.state_change "FAILED")) [
        | inl g ↦
            let done = (eq_iff w1.state_change "FAILED").0 g in
            rw (e, f, g)
              (inr (inl (inr (done, agrees.1 done), refl, ap (others env.agent_id) same)))
        | inr g ↦
            rw (e, f, g)
              (inr (
                inr (
                  λ h. cc (e, (eq_iff w1.state_change "BLOCKING").1 h),
                  λ h. cc (f, (eq_iff w1.state_change "COMPLETED").1 h),
                  λ h. cc (g, (eq_iff w1.state_change "FAILED").1 h),
                  refl,
                  same,
                )))
      ]
    ]
  ]

  -- What no end of a batch touches.
  abbrev pub Untouched : Work World → Work World → Type 0
  Untouched w1 w' = (w'.context ≡ w1.context) × (ids w'.rt.agents ≡ ids w1.rt.agents)

  pub conclude-Untouched : (w1 : Work World) → Untouched w1 (conclude ext env w1).1
  unfolding unregister_agent_for_callback
  conclude-Untouched w1 = elim (Bool-cases (str_eq w1.state_change "BLOCKING")) [
    | inl e ↦ rw e (refl, refl)
    | inr e ↦ elim (Bool-cases (str_eq w1.state_change "COMPLETED")) [
      | inl f ↦ rw (e, f) (refl, refl)
      | inr f ↦ elim (Bool-cases (str_eq w1.state_change "FAILED")) [
        | inl g ↦ rw (e, f, g) (refl, refl)
        | inr g ↦ rw (e, f, g) (refl, refl)
      ]
    ]
  ]

  pub batch_done :
      (calls : List ToolCall) (w : Work World)
      → BatchSpec calls (fresh_batch w) (handle_calls ext env calls (fresh_batch w))
  batch_done calls w = handle_calls-BatchSpec calls (fresh_batch w)

  -- An answer with tool calls adds to the context one turn for each call, in order. The loop goes on
  -- if the last state asked for is BLOCKING. It ends, with the task completed or failed and the agent
  -- out of the registry, if that is COMPLETED or FAILED, and ends with the registry as it was
  -- otherwise.
  pub process_calls-Concludes :
      (tc : ToolCall) (calls : List ToolCall) (w : Work World)
      → let out = process_calls ext env (tc ∷ calls) w in
        Concludes (last_state (tc ∷ calls) "") w out
        × (call_ids out.1.context ≡ call_ids w.context ++ map (λ c. some c.id) (tc ∷ calls))
  process_calls-Concludes tc calls w =
      let w1 = handle_calls ext env (tc ∷ calls) (fresh_batch w) in
      let s = batch_done (tc ∷ calls) w in
      (
        subst (λ state. Concludes state w (conclude ext env w1)) s.changes
            (conclude-Concludes w w1 s.keeps.same_registry (s.agrees (fresh-Agrees w))),
        ap call_ids (conclude-Untouched w1).0 ∙ s.answers,
      )
