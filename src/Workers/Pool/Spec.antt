-- ===== src/Workers/Pool/Spec.antt =====
-- agent_pool.go: what `SpawnAgent`, `AssignTask` and `RemoveAgent` do on each of their branches.
use catgirl.Base.{
  ℕ, ◌≤◌, ◌<◌, ◌≡◌, refl, ◌∙◌, true, false, not, [], ◌∷◌, ◌++◌, none, some, ◌⊎◌, inl, inr, Result,
  ok, err, wrap, pool_full, not_found, unavailable, duplicate_key, ltb, ltb→lt, length, find, any,
  keep, update_where, arith, sym, ◌≢◌, Bool-cases, Option-cases,
}
use catgirl.Models.{Time, AgentType, AgentId, removed, TaskInstance}
use catgirl.Repository.{
  agent_eq, agent_eq_iff, is_instance, is_agent, inserted_agent, create_agent, update_agent,
  delete_agent, set_agent,
}
use catgirl.Repository.Laws.{update_where-none, find-keep_others, find-keep}
use catgirl.Workers.Agent.{WorkerAgent, new_worker_agent}
use catgirl.Workers.Pool.{
  PoolState, has_id, agent_row, spawn_agent, assign_task, remove_agent, with_task, busy_row,
}

-- A spawned agent is new to the table of agents, is idle, and joins the pool together with its row,
-- while there was room. A refusal leaves the pool and the table as they were.
abbrev pub SpawnSpec :
    ℕ → Time → AgentType → ℕ → PoolState → Result WorkerAgent × PoolState → Type 0
SpawnSpec max_agents now agent_type short s (ok agent, s') =
    (agent ≡ new_worker_agent (record { kind = agent_type; short = short }) agent_type now)
    × (length s.agents < max_agents)
    × (any (is_agent agent.id) s.db.agents ≡ false)
    × (s'.agents ≡ s.agents ++ agent ∷ [])
    × (s'.db.agents ≡ s.db.agents ++ inserted_agent (agent_row agent now) ∷ [])
    × (s.db.outage s.db.calls ≡ false)
SpawnSpec max_agents now agent_type short s (err e, s') =
    (s'.agents ≡ s.agents)
    × (s'.db.agents ≡ s.db.agents)
    × (((e ≡ pool_full) × (max_agents ≤ length s.agents))
        ⊎ (((e ≡ wrap "failed to persist agent" unavailable) × (s.db.outage s.db.calls ≡ true))
            ⊎ ((e ≡ wrap "failed to persist agent" duplicate_key)
                × (any (is_agent (record { kind = agent_type; short = short })) s.db.agents
                    ≡ true))))

-- `SpawnAgent` yields a new idle agent with the id of the type and the drawn number, if the pool has
-- room and the table has no row with the id; agent and row join the pool and the table. It fails
-- with both unchanged if the pool is full, the statement fails, or the id is taken.
pub spawn_agent-SpawnSpec :
    (max_agents : ℕ) (now : Time) (agent_type : AgentType) (short : ℕ) (s : PoolState)
    → SpawnSpec max_agents now agent_type short s (spawn_agent max_agents now agent_type short s)
unfolding spawn_agent create_agent
spawn_agent-SpawnSpec max_agents now agent_type short s =
    elim (Bool-cases (ltb (length s.agents) max_agents)) [
      | inr full ↦ rw full (refl, refl, inl (refl, ground arith))
      | inl room ↦ elim (Bool-cases (s.db.outage s.db.calls)) [
        | inl down ↦ rw (room, down) (refl, refl, inr (inl (refl, down)))
        | inr up ↦
            elim (Bool-cases
              (any (is_agent (record { kind = agent_type; short = short })) s.db.agents)) [
                | inl old ↦ rw (room, up, old) (refl, refl, inr (inr (refl, old)))
                | inr new ↦ rw (room, up, new) (refl, ltb→lt _ _ room, new, refl, refl, up)
              ]
      ]
    ]

-- What becomes of the pool when a task is given to an agent: the agent is changed before the row is.
abbrev pub AssignSpec :
    Time → AgentId → TaskInstance → PoolState → Result (Unit {0}) × PoolState → Type 0
AssignSpec now id task s (ok _, s') =
    (agent : WorkerAgent) × (find (has_id id) s.agents ≡ some agent)
    × (s'.agents ≡ update_where (has_id id) (with_task now task) s.agents)
    × (s'.db.agents
        ≡ update_where (is_agent agent.id) (set_agent (busy_row agent.id now task)) s.db.agents)
AssignSpec now id task s (err e, s') =
    (s'.db.agents ≡ s.db.agents)
    × (((e ≡ not_found) × (find (has_id id) s.agents ≡ none) × (s'.agents ≡ s.agents))
        ⊎ ((e ≢ not_found) × (s'.agents ≡ update_where (has_id id) (with_task now task) s.agents)))

-- `AssignTask` fails with nothing changed if the pool has no such agent. Otherwise the agent of the
-- pool is busy with the task from now on, and the row of the agent is brought up to date unless the
-- UPDATE fails, which leaves the table as it was and the agent busy.
pub assign_task-AssignSpec :
    (now : Time) (id : AgentId) (task : TaskInstance) (s : PoolState)
    → AssignSpec now id task s (assign_task now id task s)
unfolding assign_task update_agent
assign_task-AssignSpec now id task s = elim (Option-cases (find (has_id id) s.agents)) [
  | inl missing ↦ rw missing (refl, inl (refl, missing, refl))
  | inr (agent, found) ↦ elim (Bool-cases (s.db.outage s.db.calls)) [
    | inl down ↦ rw (found, down) (refl, inr (λ h. ground arith, refl))
    | inr up ↦ elim (Bool-cases (any (is_instance task.instance_id) s.db.task_instances)) [
      | inl known ↦ rw (found, up, known) (agent, found, refl, refl)
      | inr unknown ↦ elim (Bool-cases (any (is_agent agent.id) s.db.agents)) [
        | inl row ↦ rw (found, up, unknown, row) (refl, inr (λ h. ground arith, refl))
        | inr absent ↦
            rw (found, up, unknown, absent)
              (agent, found, refl, sym (update_where-none (is_agent agent.id) _ s.db.agents absent))
      ]
    ]
  ]
]

-- What becomes of the pool and of the row of an agent that leaves.
abbrev pub RemoveSpec : AgentId → PoolState → Result WorkerAgent × PoolState → Type 0
RemoveSpec id s (ok last, s') =
    (find (has_id id) s.agents ≢ none)
    × (last.status ≡ removed)
    × (last.stopped ≡ true)
    × (find (has_id id) s'.agents ≡ none)
    × ((other : AgentId)
        → (other ≡ id) ⊎ (find (has_id other) s'.agents ≡ find (has_id other) s.agents))
    × (((s.db.outage s.db.calls ≡ false)
          × (s'.db.agents
              ≡ update_where (is_agent id) (λ row. record row { status = removed }) s.db.agents))
        ⊎ ((s.db.outage s.db.calls ≡ true) × (s'.db.agents ≡ s.db.agents)))
RemoveSpec id s (err e, s') = (e ≡ not_found) × (find (has_id id) s.agents ≡ none) × (s' ≡ s)

-- `RemoveAgent` fails only where the pool has no such agent, and then changes nothing. Otherwise the
-- agent is marked as removed and its stop channel closed, the pool no longer has it, every other id
-- finds what it found before, and the row is marked as removed while the database answers, and kept
-- only if it does not.
pub remove_agent-RemoveSpec : (id : AgentId) (s : PoolState) → RemoveSpec id s (remove_agent id s)
unfolding remove_agent delete_agent
remove_agent-RemoveSpec id s = elim (Option-cases (find (has_id id) s.agents)) [
  | inl missing ↦ rw missing (refl, missing, refl)
  | inr (agent, found) ↦
      let gone : find (has_id id) (keep (λ a. not (has_id id a)) s.agents) ≡ none =
        find-keep_others (has_id id) s.agents in
      elim (Bool-cases (s.db.outage s.db.calls)) [
        | inl down ↦
            rw (found, down) (λ h. cc (found, h), refl, refl, gone, others_stay, inr (refl, refl))
        | inr up ↦
            rw (found, up) (λ h. cc (found, h), refl, refl, gone, others_stay, inl (refl, refl))
      ]
]
  where
    stays :
        (other : AgentId)
        → other ≢ id
        → find (has_id other) (keep (λ a. not (has_id id a)) s.agents)
          ≡ find (has_id other) s.agents
    stays other apart =
        find-keep (has_id other) (λ a. not (has_id id a)) s.agents
          λ a e. elim (Bool-cases (has_id id a)) [
            | inl k ↦
                absurd (apart (sym ((agent_eq_iff a.id other).0 e) ∙ (agent_eq_iff a.id id).0 k))
            | inr k ↦ rw k refl
          ]

    others_stay :
        (other : AgentId)
        → (other ≡ id)
          ⊎ (find (has_id other) (keep (λ a. not (has_id id a)) s.agents)
              ≡ find (has_id other) s.agents)
    others_stay other = elim (Bool-cases (agent_eq other id)) [
      | inl e ↦ inl ((agent_eq_iff other id).0 e)
      | inr e ↦ inr (stays other λ same. cc (e, (agent_eq_iff other id).1 same))
    ]
