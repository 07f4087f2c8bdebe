-- ===== src/Runtime/Coordinator/Loop.antt =====
-- runtime.go: `runAgentLoop`. An iteration takes one input from the agent's queue; on an empty queue
-- it waits. What others send to the agent before each iteration is the schedule, so that a run is one
-- over an explicit sequence of arrivals.
use catgirl.Base.{
  List, [], ◌∷◌, Option, none, some, String, str_eq, M, Result, ok, err, map, find, if◌then◌else◌,
}
use catgirl.Models.{Time, AgentType, reasoner}
use catgirl.Llm.Messages.{ChatMessage, ToolCall, ChatResponse}
use catgirl.Llm.Choice.{ModelConfig, get_random_model}
use catgirl.Workers.Agent.{
  AgentInput, InputType, task_start, tool_result, message, other, AgentMessage, MessageRole,
  ToolCallInfo, WorkerAgent, get_input, send_input,
}
use catgirl.Workers.Pool.{has_id}
use catgirl.Runtime.Context.{ContextState}
use catgirl.Runtime.WorkerContext.{
  add_user_turn, add_tool_result_turn, add_assistant_turn, build_messages,
}
use catgirl.Runtime.Callbacks.{unregister_agent_for_callback}
use catgirl.Runtime.ToolLoader.{get_tools_by_name}
use catgirl.Runtime.ContextBuilder.{build_worker_context}
use catgirl.Runtime.Coordinator.{
  External, WorkerEnv, Work, callbacks, with_callbacks, on_world, in_rt, on_context, on_agent,
  remember_message,
}
use catgirl.Runtime.Coordinator.Tools.{tool_message, handle_calls}

-- The loop goes on, or returns, or a random draw out of an empty list panics.
pub data Progress : Type 0 where
  going : Progress
  returned : Result (Unit {0}) → Progress
  panicked : Progress

abbrev pub user_message : String → AgentMessage
user_message content = record {
  role = MessageRole.user;
  content = content;
  tool_calls = [];
  tool_call_id = "";
}

-- What an input is in the output history and in the context; `none` for a kind that is not known.
abbrev pub heard : Time → AgentInput → InputType → Option (AgentMessage × M ContextState (Unit {0}))
heard now input task_start = some (user_message input.content, add_user_turn now input.content)
heard now input tool_result = some (
  tool_message input.tool_id input.content,
  add_tool_result_turn now input.tool_id input.tool_name input.content,
)
heard now input message = some (user_message input.content, add_user_turn now input.content)
heard now input (other text) = none

abbrev pub to_info : ToolCall → ToolCallInfo
to_info tc = record { id = tc.id; name = tc.name; arguments = tc.arguments }

abbrev pub assistant_message : ChatMessage → AgentMessage
assistant_message msg = record {
  role = MessageRole.assistant;
  content = msg.content;
  tool_calls = map to_info msg.tool_calls;
  tool_call_id = "";
}

module _ {World : Type 0} (ext : External World) (env : WorkerEnv) where
  abbrev pub unregister : Work World → Work World
  unregister w = record w {
    rt = with_callbacks (unregister_agent_for_callback env.agent_id (callbacks w.rt)) w.rt;
  }

  -- After the tool calls: the change that the last SET_STATE asked for.
  abbrev pub conclude : Work World → Progress × Work World
  conclude w =
      if str_eq w.state_change "BLOCKING"
      then (going, w)
      else if str_eq w.state_change "COMPLETED"
      then (returned (ok tt), unregister w)
      else if str_eq w.state_change "FAILED"
      then (returned (ok tt), unregister w)
      else (returned (ok tt), w)

  abbrev pub process_calls : List ToolCall → Work World → Progress × Work World
  process_calls [] w = (returned (ok tt), w)
  process_calls (tc ∷ calls) w =
      conclude (handle_calls ext env (tc ∷ calls) (record w { state_change = "" }))

  abbrev pub store_answer : ChatResponse → ChatMessage → Work World → Work World
  store_answer resp msg w = remember_message env.agent_id (assistant_message msg) (
      on_context
        (add_assistant_turn ext.codec env.now msg.content msg.tool_calls resp.prompt_tokens
          resp.completion_tokens)
        w)

  -- `if err != nil || len(resp.Choices) == 0 { return err }`: without a choice the error is nil.
  abbrev pub answered : ChatResponse → List ChatMessage → Work World → Progress × Work World
  answered resp [] w = (returned (ok tt), w)
  answered resp (msg ∷ others) w = process_calls msg.tool_calls (store_answer resp msg w)

  abbrev pub after_chat : Result ChatResponse × Work World → Progress × Work World
  after_chat (err e, w) = (returned (err e), w)
  after_chat (ok resp, w) = answered resp resp.choices w

  abbrev pub preferred_model : AgentType → String
  preferred_model agent_type =
      if str_eq agent_type reasoner then env.bot.reasoner_model else env.bot.gp_model

  abbrev pub call_model : List ChatMessage → Option ModelConfig → Work World → Progress × Work World
  call_model messages none w = (panicked, w)
  call_model messages (some model) w = after_chat (
      in_rt
        (on_world
          (ext.chat model messages (get_tools_by_name env.tools env.bot.allowed_agent_tools)))
        w)

  abbrev pub ask : List ChatMessage → Work World → Progress × Work World
  ask messages w =
      let (draw, draw', world) = ext.draws w.rt.world in
      call_model messages
        (get_random_model draw draw' env.providers (preferred_model w.task.agent_type))
        (record w { rt = record w.rt { world = world } })

  abbrev pub build_context : Work World → String × Work World
  build_context w =
      let (text, db) =
        build_worker_context ext.by_key ext.as_text env.agent_id w.task.parent_instance_id
          w.rt.db in
      (text, record w { rt = record w.rt { db = db } })

  abbrev pub think : Work World → Progress × Work World
  think w =
      let (text, w') = build_context w in
      ask (build_messages ext.codec env.bot.agent_system_prompt text w'.context) w'

  abbrev pub listen :
      Option (AgentMessage × M ContextState (Unit {0})) → Work World → Progress × Work World
  listen none w = (going, w)
  listen (some (msg, store)) w = think (remember_message env.agent_id msg (on_context store w))

  -- The loop's body for an input.
  unfoldable pub handle_input : AgentInput → Work World → Progress × Work World
  handle_input input w = listen (heard env.now input input.kind) w

  abbrev pub receive : Option (AgentInput × WorkerAgent) → Work World → Progress × Work World
  receive none w = (going, w)
  receive (some (input, agent')) w = handle_input input (on_agent env.agent_id (λ agent. agent') w)

  abbrev pub receive_from : Option WorkerAgent → Work World → Progress × Work World
  receive_from none w = (going, w)
  receive_from (some agent) w = receive (get_input agent) w

  unfoldable pub iterate : Work World → Progress × Work World
  unfolding handle_input
  iterate w = receive_from (find (has_id env.agent_id) w.rt.agents) w

  abbrev pub arrive : List AgentInput → Work World → Work World
  arrive [] w = w
  arrive (input ∷ inputs) w =
      arrive inputs (on_agent env.agent_id (λ agent. (send_input input agent).1) w)

  abbrev pub go_on :
      (Work World → Progress × Work World) → Progress × Work World → Progress × Work World
  go_on again (going, w) = again w
  go_on again (returned r, w) = (returned r, w)
  go_on again (panicked, w) = (panicked, w)

  unfoldable pub run_agent_loop : List (List AgentInput) → Work World → Progress × Work World
  unfolding iterate
  run_agent_loop [] w = (going, w)
  run_agent_loop (inputs ∷ schedule) w = go_on (run_agent_loop schedule) (iterate (arrive inputs w))
