-- ===== src/Runtime/Coordinator/Frame.antt =====
-- runtime.go: the parts of the coordinator's state that most steps of an agent leave alone.
use catgirl.Base.{
  ◌≡◌, refl, ap, sym, ◌∙◌, Bool, true, false, List, [], ◌∷◌, some, inl, inr, String, map, any, find,
  update_where, ltb, length, Bool-cases, Option-cases,
}
use catgirl.Models.{AgentId, TaskStatus}
use catgirl.Repository.{agent_eq_iff}
use catgirl.Repository.Laws.{find_passes}
use catgirl.Workers.Agent.{WorkerAgent, AgentInput, send_input}
use catgirl.Workers.Pool.{has_id}
use catgirl.Runtime.Callbacks.{
  CallbackState, is_info, delivered, result_input, send_tool_result_to_agent,
}
use catgirl.Runtime.Coordinator.{RuntimeState, Work, on_agent}

abbrev pub ids : List WorkerAgent → List AgentId
ids agents = map (λ agent. agent.id) agents

pub ids-update_where :
    (p : WorkerAgent → Bool) (f : WorkerAgent → WorkerAgent) (agents : List WorkerAgent)
    → ((a : WorkerAgent) → p a ≡ true → (f a).id ≡ a.id)
    → ids (update_where p f agents) ≡ ids agents
ids-update_where p f [] same = refl
ids-update_where p f (a ∷ agents) same = elim (Bool-cases (p a)) [
  | inl e ↦ rw e (
      ap (λ i. i ∷ ids (update_where p f agents)) (same a e)
      ∙ ap (λ l. a.id ∷ l) (ids-update_where p f agents same))
  | inr e ↦ rw e (ap (λ l. a.id ∷ l) (ids-update_where p f agents same))
]

-- An agent that is found under an id has that id, so it may replace what the id finds.
pub ids-replace :
    (id : AgentId) (agent agent' : WorkerAgent) (agents : List WorkerAgent)
    → find (has_id id) agents ≡ some agent
    → agent'.id ≡ agent.id
    → ids (update_where (has_id id) (λ a. agent') agents) ≡ ids agents
ids-replace id agent agent' agents found same =
    ids-update_where (has_id id) (λ a. agent') agents
      λ a e.
        same
        ∙ (agent_eq_iff agent.id id).0 (find_passes (has_id id) agents agent found)
        ∙ sym ((agent_eq_iff a.id id).0 e)

pub send_input-id :
    (input : AgentInput) (agent : WorkerAgent) → (send_input input agent).1.id ≡ agent.id
unfolding send_input
send_input-id input agent = elim (Bool-cases (ltb (length agent.input_queue) 100)) [
  | inl e ↦ rw e refl
  | inr e ↦ rw e refl
]

-- A result that is sent to an agent leaves the registry and the ids of the pool alone.
pub send_tool_result_to_agent-keeps :
    (id : AgentId) (tool_id tool_name text : String) (s : CallbackState)
    → let s' = (send_tool_result_to_agent id tool_id tool_name text s).1 in
      (ids s'.agents ≡ ids s.agents) × (s'.blocked_agents ≡ s.blocked_agents)
unfolding send_tool_result_to_agent
send_tool_result_to_agent-keeps id tool_id tool_name text s =
    elim (Bool-cases (any (is_info id) s.blocked_agents)) [
      | inr e ↦ rw e (refl, refl)
      | inl e ↦ elim (Option-cases (find (has_id id) s.agents)) [
        | inl missing ↦ rw (e, missing) (refl, refl)
        | inr (agent, found) ↦
            rw (e, found)
              (put agent found (send_input (result_input tool_id tool_name text) agent)
                (send_input-id _ agent))
      ]
    ]
  where
    put :
        (agent : WorkerAgent)
        → find (has_id id) s.agents ≡ some agent
        → (answer : Bool × WorkerAgent) → answer.1.id ≡ agent.id
        → let s' = (delivered id s answer).1 in
          (ids s'.agents ≡ ids s.agents) × (s'.blocked_agents ≡ s.blocked_agents)
    put agent found (true, agent') same = (ids-replace id agent agent' s.agents found same, refl)
    put agent found (false, agent') same = (refl, refl)

module _ {World : Type 0} where
  -- The pool has the same agents and the registry the same entries.
  pub record Keeps (rt rt' : RuntimeState World) : Type 0 where
    pub same_ids : ids rt'.agents ≡ ids rt.agents
    pub same_registry : rt'.blocked_agents ≡ rt.blocked_agents

  -- Also the variables of the loop are as before.
  pub record Quiet (w w' : Work World) : Type 0 where
    pub keeps : Keeps w.rt w'.rt
    pub same_context : w'.context ≡ w.context
    pub same_task : w'.task ≡ w.task
    pub same_change : w'.state_change ≡ w.state_change

  pub Keeps-refl : (rt : RuntimeState World) → Keeps rt rt
  Keeps-refl rt = record { same_ids = refl; same_registry = refl }

  pub Keeps-trans :
      {rt rt' rt'' : RuntimeState World} → Keeps rt rt' → Keeps rt' rt'' → Keeps rt rt''
  Keeps-trans a b = record {
    same_ids = b.same_ids ∙ a.same_ids;
    same_registry = b.same_registry ∙ a.same_registry;
  }

  pub Quiet-refl : (w : Work World) → Quiet w w
  Quiet-refl w = record {
    keeps = Keeps-refl w.rt;
    same_context = refl;
    same_task = refl;
    same_change = refl;
  }

  pub on_agent-Keeps :
      (id : AgentId) (f : WorkerAgent → WorkerAgent) (w : Work World)
      → ((a : WorkerAgent) → (f a).id ≡ a.id)
      → Keeps w.rt (on_agent id f w).rt
  on_agent-Keeps id f w same = record {
    same_ids = ids-update_where (has_id id) f w.rt.agents (λ a e. same a);
    same_registry = refl;
  }

  -- What SET_STATE makes of the task.
  abbrev pub Agrees : Work World → Type 0
  Agrees w =
      (w.state_change ≡ "COMPLETED" → w.task.status ≡ TaskStatus.completed)
      × (w.state_change ≡ "FAILED" → w.task.status ≡ TaskStatus.failed)
