-- ===== src/Runtime/Coordinator/Failures.antt =====
-- runtime.go: `runAgentLoop` when the call of the model fails.
use catgirl.Base.{◌≡◌, refl, List, some, Error, Result, ok, err, M}
use catgirl.Llm.Messages.{ChatMessage, Tool, ChatResponse}
use catgirl.Llm.Choice.{ModelConfig}
use catgirl.Config.Laws.{Serves}
use catgirl.Llm.Choice.Laws.{get_random_model-offers}
use catgirl.Workers.Agent.{AgentInput, AgentMessage}
use catgirl.Runtime.Context.{ContextState}
use catgirl.Runtime.ToolLoader.{get_tools_by_name}
use catgirl.Runtime.Coordinator.{
  External, WorkerEnv, Work, in_rt, on_world, on_context, remember_message,
}
use catgirl.Runtime.Coordinator.Loop.{
  Progress, returned, heard, after_chat, call_model, think, handle_input, preferred_model,
  build_context,
}

module _ {World : Type 0} (ext : External World) (env : WorkerEnv) where
  -- Every call of the model ends with this error.
  abbrev pub Fails : Error → Type 0
  Fails e =
      (model : ModelConfig) (messages : List ChatMessage) (tools : List Tool) (world : World)
      → (ext.chat model messages tools world).0 ≡ err e

  -- The error is returned, and the task, the registry, the containers and the queue are untouched.
  abbrev pub GivesUp : Error → Work World → Progress × Work World → Type 0
  GivesUp e w out =
      (out.0 ≡ returned (err e))
      × (out.1.task ≡ w.task)
      × (out.1.rt.blocked_agents ≡ w.rt.blocked_agents)
      × (out.1.rt.released ≡ w.rt.released)
      × (out.1.rt.containers ≡ w.rt.containers)
      × (out.1.rt.enqueue_ch ≡ w.rt.enqueue_ch)

  after_chat-fails :
      (e : Error) (p : Result ChatResponse × Work World)
      → p.0 ≡ err e
      → after_chat ext env p ≡ (returned (err e), p.1)
  after_chat-fails e (ok resp, w) h = cc
  after_chat-fails e (err e', w) h = cc

  call_model-Fails :
      (e : Error) (messages : List ChatMessage) (model : ModelConfig) (w : Work World)
      → Fails e
      → GivesUp e w (call_model ext env messages (some model) w)
  call_model-Fails e messages model w fails =
      let tools = get_tools_by_name env.tools env.bot.allowed_agent_tools in
      rw
        (after_chat-fails e (in_rt (on_world (ext.chat model messages tools)) w)
          (fails model messages tools w.rt.world))
        (refl, refl, refl, refl, refl, refl)

  think-Fails :
      (e : Error) (w : Work World) → Serves env.providers → Fails e → GivesUp e w (think ext env w)
  think-Fails e w serves fails =
      let w1 = (build_context ext env w).1 in
      let drawn = ext.draws w1.rt.world in
      let (model, offered, listed, kind) =
        get_random_model-offers drawn.0 drawn.1 env.providers
          (preferred_model ext env w1.task.agent_type) serves in
      rw offered (call_model-Fails e _ model _ fails)

  -- With models to choose from, an input of a known kind and a model that does not answer end the
  -- loop with the model's error: the task stays as it was, and the agent in the registry, with its
  -- container neither released nor forgotten.
  pub handle_input-GivesUp :
      (e : Error) (input : AgentInput) (w : Work World)
      (h : AgentMessage × M ContextState (Unit {0}))
      → Serves env.providers
      → Fails e
      → heard env.now input input.kind ≡ some h
      → GivesUp e w (handle_input ext env input w)
  unfolding handle_input
  handle_input-GivesUp e input w (msg, store) serves fails known =
      rw known (think-Fails e (remember_message env.agent_id msg (on_context store w)) serves fails)
