-- ===== src/Runtime/Callbacks.antt =====
-- runtime.go: the registry of agents that wait for asynchronous results, what is sent to them, and
-- the messages of an agent's output history. A container that is to be released is put on a list,
-- which the goroutine that releases it would take it from.
use catgirl.Base.{
  ◌+◌, ◌<◌, ◌≤◌, ◌≡◌, refl, ap, ◌∙◌, Bool, true, false, not, List, [], ◌∷◌, ◌++◌, Option, none,
  some, ◌⊎◌, inl, inr, String, str_eq, Result, ok, err, not_found, denied, queue_full, length,
  length-append, find, keep, any, count_if, update_where, ltb, ltb→lt, if◌then◌else◌, Bool-cases,
  Option-cases, arith, map, sym, append-nil, append_assoc,
}
use catgirl.Models.{Uuid, AgentId}
use catgirl.Repository.{agent_eq}
use catgirl.Workers.Agent.{
  AgentInput, InputType, AgentMessage, ToolCallInfo, MessageRole, system, user, assistant, tool,
  WorkerAgent, input_capacity, send_input,
}
use catgirl.Workers.Pool.{has_id}
use catgirl.Llm.Messages.{
  ChatMessage, ToolCall, new_message_builder, add_user_message, add_assistant_message,
  add_tool_result,
}

-- `ContainerID` is empty if the agent has no container.
pub record BlockedAgentInfo : Type 0 where
  pub agent_id : AgentId
  pub instance_id : Uuid
  pub container_id : String

pub record CallbackState : Type 0 where
  pub agents : List WorkerAgent
  pub blocked_agents : List BlockedAgentInfo
  pub released : List Uuid

abbrev pub is_info : AgentId → BlockedAgentInfo → Bool
is_info id info = agent_eq info.agent_id id

abbrev pub others : AgentId → List BlockedAgentInfo → List BlockedAgentInfo
others id = keep (λ info. not (is_info id info))

-- An entry of the map replaces the one that was there.
unfoldable pub register_agent_for_callback : BlockedAgentInfo → CallbackState → CallbackState
register_agent_for_callback info s = record s {
  blocked_agents = others info.agent_id s.blocked_agents ++ info ∷ [];
}

abbrev pub release : Option BlockedAgentInfo → List Uuid → List Uuid
release none released = released
release (some info) released =
    if str_eq info.container_id "" then released else released ++ info.instance_id ∷ []

unfoldable pub unregister_agent_for_callback : AgentId → CallbackState → CallbackState
unregister_agent_for_callback id s = record s {
  blocked_agents = others id s.blocked_agents;
  released = release (find (is_info id) s.blocked_agents) s.released;
}

abbrev pub result_input : String → String → String → AgentInput
result_input tool_id tool_name result = record {
  kind = InputType.tool_result;
  content = result;
  tool_id = tool_id;
  tool_name = tool_name;
}

abbrev pub delivered :
    AgentId → CallbackState → Bool × WorkerAgent → Result (Unit {0}) × CallbackState
delivered id s (true, agent) =
    (ok tt, record s { agents = update_where (has_id id) (λ a. agent) s.agents })
delivered id s (false, agent) = (err queue_full, s)

abbrev pub send_to :
    AgentId → AgentInput → CallbackState → Option WorkerAgent → Result (Unit {0}) × CallbackState
send_to id input s none = (err not_found, s)
send_to id input s (some agent) = delivered id s (send_input input agent)

-- An agent that is not registered is refused with `denied`.
unfoldable pub send_tool_result_to_agent :
    AgentId → String → String → String → CallbackState → Result (Unit {0}) × CallbackState
send_tool_result_to_agent id tool_id tool_name result s =
    if any (is_info id) s.blocked_agents
    then send_to id (result_input tool_id tool_name result) s (find (has_id id) s.agents)
    else (err denied, s)

abbrev pub to_tool_call : ToolCallInfo → ToolCall
to_tool_call tc = record { id = tc.id; name = tc.name; arguments = tc.arguments }

abbrev pub add_message : AgentMessage → MessageRole → List ChatMessage → List ChatMessage
add_message msg system m = m
add_message msg user m = add_user_message msg.content m
add_message msg assistant m = add_assistant_message msg.content (map to_tool_call msg.tool_calls) m
add_message msg tool m = add_tool_result msg.tool_call_id msg.content m

unfoldable pub add_history : List AgentMessage → List ChatMessage → List ChatMessage
add_history [] m = m
add_history (msg ∷ history) m = add_history history (add_message msg msg.role m)

unfoldable pub convert_to_llm_messages : List AgentMessage → String → List ChatMessage
unfolding add_history
convert_to_llm_messages history system_prompt =
    add_history history (new_message_builder system_prompt)

-- What a result that is sent to an agent does.
abbrev pub SendSpec :
    AgentId → AgentInput → CallbackState → Result (Unit {0}) × CallbackState → Type 0
SendSpec id input s (ok _, s') =
    (agent : WorkerAgent) × (any (is_info id) s.blocked_agents ≡ true)
    × (find (has_id id) s.agents ≡ some agent)
    × (length agent.input_queue < input_capacity)
    × (find (has_id id) s'.agents
        ≡ some (record agent { input_queue = agent.input_queue ++ input ∷ [] }))
    × (s'.blocked_agents ≡ s.blocked_agents)
SendSpec id input s (err e, s') =
    (s' ≡ s)
    × (((e ≡ denied) × (any (is_info id) s.blocked_agents ≡ false))
        ⊎ (((e ≡ not_found) × (find (has_id id) s.agents ≡ none))
            ⊎ ((e ≡ queue_full)
                × ((agent : WorkerAgent) × (find (has_id id) s.agents ≡ some agent)
                    × (input_capacity ≤ length agent.input_queue)))))

find-replaced :
    (id : AgentId) (agent agent' : WorkerAgent) (agents : List WorkerAgent)
    → agent'.id ≡ agent.id
    → find (has_id id) agents ≡ some agent
    → find (has_id id) (update_where (has_id id) (λ a. agent') agents) ≡ some agent'
find-replaced id agent agent' [] same h = cc
find-replaced id agent agent' (a ∷ agents) same h = elim (Bool-cases (has_id id a)) [
  | inl e ↦
      let first : a ≡ agent = some-injective (rw e at h) in
      let fits : has_id id agent' ≡ true =
        ap (λ i. agent_eq i id) (same ∙ sym (ap (λ x. x.id) first)) ∙ e in
      rw (e, fits) refl
  | inr e ↦ rw (e, e) (find-replaced id agent agent' agents same (rw e at h))
]
  where
    some-injective : {x y : WorkerAgent} → some x ≡ some y → x ≡ y
    some-injective e = cc

-- A result reaches an agent exactly if it is registered, in the pool, and has room in its queue, at
-- whose end the result then stands. Otherwise nothing changes, and the error says which it was.
pub send_tool_result_to_agent-SendSpec :
    (id : AgentId) (tool_id tool_name result : String) (s : CallbackState)
    → SendSpec id
        (result_input tool_id tool_name result)
        s
        (send_tool_result_to_agent id tool_id tool_name result s)
unfolding send_tool_result_to_agent send_input
send_tool_result_to_agent-SendSpec id tool_id tool_name result s =
    elim (Bool-cases (any (is_info id) s.blocked_agents)) [
      | inr unknown ↦ rw unknown (refl, inl (refl, unknown))
      | inl known ↦ elim (Option-cases (find (has_id id) s.agents)) [
        | inl missing ↦ rw (known, missing) (refl, inr (inl (refl, missing)))
        | inr (agent, found) ↦ elim (Bool-cases (ltb (length agent.input_queue) 100)) [
          | inr full ↦
              rw (known, found, full) (refl, inr (inr (refl, (agent, found, ground arith))))
          | inl room ↦
              rw (known, found, room)
                (
                  agent,
                  known,
                  found,
                  ltb→lt _ _ room,
                  find-replaced id agent _ s.agents refl found,
                  refl,
                )
        ]
      ]
    ]

abbrev pub is_system : MessageRole → Bool
is_system system = true
is_system _ = false

-- The conversion of a message, for one that is none of the system's.
abbrev pub converted : AgentMessage → MessageRole → List ChatMessage
converted msg role = add_message msg role []

abbrev pub converted_all : List AgentMessage → List ChatMessage
converted_all [] = []
converted_all (msg ∷ history) = converted msg msg.role ++ converted_all history

add_history-append :
    (history : List AgentMessage) (m : List ChatMessage)
    → add_history history m ≡ m ++ converted_all history
unfolding add_history
add_history-append [] m = sym (append-nil m)
add_history-append (msg ∷ history) m =
    add_history-append history (add_message msg msg.role m)
    ∙ ap (λ l. l ++ converted_all history) (one msg.role)
    ∙ append_assoc m (converted msg msg.role) (converted_all history)
  where
    one : (role : MessageRole) → add_message msg role m ≡ m ++ converted msg role
    one system = sym (append-nil m)
    one user = refl
    one assistant = refl
    one tool = refl

converted_all-length :
    (history : List AgentMessage)
    → length (converted_all history) ≡ count_if (λ msg. not (is_system msg.role)) history
converted_all-length [] = refl
converted_all-length (msg ∷ history) = omega (
  arith,
  length-append (converted msg msg.role) (converted_all history),
  one msg.role,
  converted_all-length history,
)
  where
    one :
        (role : MessageRole) → length (converted msg role) ≡ (if not (is_system role) then 1 else 0)
    one system = refl
    one user = refl
    one assistant = refl
    one tool = refl

-- The messages of a history are the system prompt, if there is one, and then one message for each
-- entry that is none of the system's, in order; what an entry becomes does not depend on the others.
pub convert_to_llm_messages-each :
    (history : List AgentMessage) (system_prompt : String)
    → (convert_to_llm_messages history system_prompt
        ≡ new_message_builder system_prompt ++ converted_all history)
      × (length (convert_to_llm_messages history system_prompt)
          ≡ length (new_message_builder system_prompt)
            + count_if (λ msg. not (is_system msg.role)) history)
unfolding convert_to_llm_messages
convert_to_llm_messages-each history system_prompt =
    let whole = add_history-append history (new_message_builder system_prompt) in
    (
      whole,
      ap length whole
          ∙ length-append (new_message_builder system_prompt) (converted_all history)
          ∙ ap (λ n. length (new_message_builder system_prompt) + n) (converted_all-length history),
    )
