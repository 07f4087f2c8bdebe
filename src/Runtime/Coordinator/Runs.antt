-- ===== src/Runtime/Coordinator/Runs.antt =====
-- runtime.go: how a run of the agent's loop can end.
use catgirl.Base.{
  ◌≡◌, ◌≢◌, refl, ap, ◌∙◌, List, [], ◌∷◌, ◌++◌, Option, none, some, ◌⊎◌, inl, inr, String, Result,
  ok, err, M, find, Option-cases,
}
use catgirl.Llm.Messages.{ChatMessage, ToolCall, ChatResponse}
use catgirl.Llm.Choice.{ModelConfig}
use catgirl.Workers.Agent.{AgentInput, AgentMessage, WorkerAgent, get_input, send_input}
use catgirl.Workers.Pool.{has_id}
use catgirl.Runtime.Context.{ContextState}
use catgirl.Runtime.WorkerContext.{add_assistant_turn}
use catgirl.Runtime.Callbacks.{others}
use catgirl.Runtime.Coordinator.{External, WorkerEnv, Work, on_agent, on_context, remember_message}
use catgirl.Runtime.Coordinator.Tools.{handle_calls}
use catgirl.Runtime.Coordinator.Loop.{
  Progress, going, returned, panicked, heard, process_calls, answered, store_answer,
  assistant_message, after_chat, call_model, think, listen, handle_input, receive, iterate, arrive,
  go_on, run_agent_loop,
}
use catgirl.Runtime.Coordinator.Frame.{
  ids, ids-update_where, ids-replace, send_input-id, Keeps, Keeps-refl, Keeps-trans, on_agent-Keeps,
}
use catgirl.Workers.Agent.{received}
use catgirl.Runtime.Coordinator.Outcome.{
  IsOver, Concludes, process_calls-Concludes, conclude-Untouched, batch_done, fresh_batch,
  last_state,
}

module _ {World : Type 0} (ext : External World) (env : WorkerEnv) where
  -- A step of the loop leaves pool and registry as they are, or it is over.
  abbrev pub Left : Work World → Progress × Work World → Type 0
  Left w (p, w') =
      (ids w'.rt.agents ≡ ids w.rt.agents)
      × ((w'.rt.blocked_agents ≡ w.rt.blocked_agents) ⊎ IsOver ext env w (p, w'))

  of_Concludes :
      (state : String) (w : Work World) (out : Progress × Work World)
      → Concludes ext env state w out
      → (out.1.rt.blocked_agents ≡ w.rt.blocked_agents) ⊎ IsOver ext env w out
  of_Concludes state w (p, w') (inl h) = inl h.2
  of_Concludes state w (p, w') (inr (inl (inl done, e, out))) = inr (e, out, inl done.1)
  of_Concludes state w (p, w') (inr (inl (inr done, e, out))) = inr (e, out, inr done.1)
  of_Concludes state w (p, w') (inr (inr h)) = inl h.4

  process_calls-Left :
      (calls : List ToolCall) (w : Work World) → Left w (process_calls ext env calls w)
  process_calls-Left [] w = (refl, inl refl)
  process_calls-Left (tc ∷ calls) w =
      let w1 = handle_calls ext env (tc ∷ calls) (fresh_batch ext env w) in
      let s = batch_done ext env (tc ∷ calls) w in
      (
        (conclude-Untouched ext env w1).1 ∙ s.keeps.same_ids,
        of_Concludes (last_state ext env (tc ∷ calls) "") w (process_calls ext env (tc ∷ calls) w)
            (process_calls-Concludes ext env tc calls w).0,
      )

  -- Steps that keep the pool's ids and the registry may come before.
  Left-from :
      (w w1 : Work World) (out : Progress × Work World)
      → ids w1.rt.agents ≡ ids w.rt.agents
      → w1.rt.blocked_agents ≡ w.rt.blocked_agents
      → Left w1 out
      → Left w out
  Left-from w w1 (p, w') e f (same, inl kept) = (same ∙ e, inl (kept ∙ f))
  Left-from w w1 (p, w') e f (same, inr (r, gone, status)) =
      (same ∙ e, inr (r, gone ∙ ap (others env.agent_id) f, status))

  remember-ids :
      (msg : AgentMessage) (w : Work World)
      → ids (remember_message env.agent_id msg w).rt.agents ≡ ids w.rt.agents
  remember-ids msg w =
      ids-update_where (has_id env.agent_id)
        (λ agent. record agent { output_history = agent.output_history ++ msg ∷ [] }) w.rt.agents
        (λ a e. refl)

  answered-Left :
      (resp : ChatResponse) (choices : List ChatMessage) (w : Work World)
      → Left w (answered ext env resp choices w)
  answered-Left resp [] w = (refl, inl refl)
  answered-Left resp (msg ∷ choices) w =
      Left-from w (store_answer ext env resp msg w)
        (process_calls ext env msg.tool_calls (store_answer ext env resp msg w))
        (remember-ids (assistant_message msg) (
          on_context
            (add_assistant_turn ext.codec env.now msg.content msg.tool_calls resp.prompt_tokens
              resp.completion_tokens)
            w))
        refl (process_calls-Left msg.tool_calls (store_answer ext env resp msg w))

  after_chat-Left :
      (w : Work World) (p : Result ChatResponse × Work World)
      → ids p.1.rt.agents ≡ ids w.rt.agents
      → p.1.rt.blocked_agents ≡ w.rt.blocked_agents
      → Left w (after_chat ext env p)
  after_chat-Left w (err e, w1) same kept = (same, inl kept)
  after_chat-Left w (ok resp, w1) same kept =
      Left-from w w1 (answered ext env resp resp.choices w1) same kept
        (answered-Left resp resp.choices w1)

  call_model-Left :
      (messages : List ChatMessage) (model : Option ModelConfig) (w : Work World)
      → Left w (call_model ext env messages model w)
  call_model-Left messages none w = (refl, inl refl)
  call_model-Left messages (some model) w = after_chat-Left w _ refl refl

  think-Left : (w : Work World) → Left w (think ext env w)
  think-Left w = call_model-Left _ _ _

  listen-Left :
      (o : Option (AgentMessage × M ContextState (Unit {0}))) (w : Work World)
      → Left w (listen ext env o w)
  listen-Left none w = (refl, inl refl)
  listen-Left (some (msg, store)) w =
      let w1 = remember_message env.agent_id msg (on_context store w) in
      Left-from w w1 (think ext env w1) (remember-ids msg (on_context store w)) refl (think-Left w1)

  handle_input-Left : (input : AgentInput) (w : Work World) → Left w (handle_input ext env input w)
  unfolding handle_input
  handle_input-Left input w = listen-Left (heard env.now input input.kind) w

  received-Left :
      (w : Work World) (agent : WorkerAgent) (queue : List AgentInput)
      → find (has_id env.agent_id) w.rt.agents ≡ some agent
      → Left w (receive ext env (received agent queue) w)
  received-Left w agent [] found = (refl, inl refl)
  received-Left w agent (input ∷ rest) found =
      let agent' : WorkerAgent = record agent { input_queue = rest } in
      let w1 = on_agent env.agent_id (λ a. agent') w in
      Left-from w w1 (handle_input ext env input w1)
        (ids-replace env.agent_id agent agent' w.rt.agents found refl) refl
        (handle_input-Left input w1)

  iterate-Left : (w : Work World) → Left w (iterate ext env w)
  unfolding iterate get_input
  iterate-Left w = elim (Option-cases (find (has_id env.agent_id) w.rt.agents)) [
    | inl e ↦ rw e (refl, inl refl)
    | inr (agent, e) ↦ rw e (received-Left w agent agent.input_queue e)
  ]

  pub arrive-Keeps :
      (inputs : List AgentInput) (w : Work World) → Keeps w.rt (arrive ext env inputs w).rt
  arrive-Keeps [] w = Keeps-refl w.rt
  arrive-Keeps (input ∷ inputs) w =
      let w1 = on_agent env.agent_id (λ agent. (send_input input agent).1) w in
      Keeps-trans
        (on_agent-Keeps env.agent_id (λ agent. (send_input input agent).1) w (send_input-id input))
        (arrive-Keeps inputs w1)

  go_on-Left :
      (again : Work World → Progress × Work World) (w : Work World) (out : Progress × Work World)
      → Left w out
      → ((w1 : Work World) → Left w1 (again w1))
      → Left w (go_on ext env again out)
  go_on-Left again w (returned r, w1) l more = l
  go_on-Left again w (panicked, w1) l more = l
  go_on-Left again w (going, w1) (same, inl kept) more =
      Left-from w w1 (again w1) same kept (more w1)
  go_on-Left again w (going, w1) (same, inr (r, gone, over)) more = absurd (not_returned r)
    where
      not_returned : going ≢ returned (ok tt)
      not_returned e = cc

  -- However a run of the loop goes, the pool keeps the ids of its agents. The registry stays as it
  -- is, unless the loop has returned without an error with the task completed or failed: then it has
  -- lost the agent, and nothing else.
  pub run_agent_loop-Left :
      (schedule : List (List AgentInput)) (w : Work World)
      → Left w (run_agent_loop ext env schedule w)
  unfolding run_agent_loop
  run_agent_loop-Left [] w = (refl, inl refl)
  run_agent_loop-Left (inputs ∷ schedule) w =
      let w1 = arrive ext env inputs w in
      let kept = arrive-Keeps inputs w in
      Left-from w w1 (go_on ext env (run_agent_loop ext env schedule) (iterate ext env w1))
        kept.same_ids kept.same_registry
        (go_on-Left (run_agent_loop ext env schedule) w1 (iterate ext env w1) (iterate-Left w1)
          (run_agent_loop-Left schedule))
