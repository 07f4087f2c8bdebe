-- ===== src/Workers/Pool/Invariant.antt =====
-- agent_pool.go: what any history of calls keeps true of the pool and the table of agents.
use catgirl.Base.{
  ℕ, ◌+◌, ◌≤◌, ◌≡◌, refl, ap, sym, ◌∙◌, Bool, true, false, not, List, [], ◌∷◌, Option, none, some,
  inl, inr, Result, ok, err, length, length-append, length-update_where, length-keep-le, count_if,
  count_if-append, count_if-update_where, count_if-keep-le, count_if-any, find, keep, update_where,
  arith, Bool-cases, Option-cases, if◌then◌else◌,
}
use catgirl.Models.{Time, AgentType, AgentId, removed, TaskInstance}
use catgirl.Repository.{
  Db, agent_eq, agent_eq_iff, is_agent, inserted_agent, set_agent, delete_agent,
}
use catgirl.Workers.Agent.{WorkerAgent, set_blocking}
use catgirl.Workers.Pool.{
  PoolState, has_id, agent_row, spawn_agent, assign_task, remove_agent, with_task, busy_row,
  get_idle_agent, make_busy, claim, fits, update_agent_last_active, set_agent_blocking,
}
use catgirl.Workers.Pool.Spec.{SpawnSpec, spawn_agent-SpawnSpec, AssignSpec, assign_task-AssignSpec}

-- There are at most `max_agents` agents; under each id the pool has no more agents than the table
-- has rows, and the table has at most one row.
pub record PoolIsValid (max_agents : ℕ) (s : PoolState) : Type 0 where
  pub bounded : length s.agents ≤ max_agents
  pub stored : (id : AgentId) → count_if (has_id id) s.agents ≤ count_if (is_agent id) s.db.agents
  pub keyed : (id : AgentId) → count_if (is_agent id) s.db.agents ≤ 1

-- A call of the pool, with what it draws and the order in which its loop goes.
pub data PoolCall : Type 0 where
  spawns : Time → AgentType → ℕ → PoolCall
  assigns : Time → AgentId → TaskInstance → PoolCall
  removes : AgentId → PoolCall
  claims : AgentType → List WorkerAgent → PoolCall
  touches : Time → AgentId → PoolCall
  blocks : AgentId → Bool → PoolCall

module _ (max_agents : ℕ) where
  pub step : PoolState → PoolCall → PoolState
  step s (spawns now agent_type short) = (spawn_agent max_agents now agent_type short s).1
  step s (assigns now id task) = (assign_task now id task s).1
  step s (removes id) = (remove_agent id s).1
  step s (claims agent_type order) = (get_idle_agent agent_type order s).1
  step s (touches now id) = update_agent_last_active now id s
  step s (blocks id on) = set_agent_blocking id on s

  pub run : PoolState → List PoolCall → PoolState
  unfolding step
  run s [] = s
  run s (c ∷ cs) = run (step s c) cs

-- A change of agents and rows that keeps their ids keeps the invariant.
same_ids :
    (max_agents : ℕ) (s s' : PoolState)
    → (length s'.agents ≤ length s.agents)
    → ((id : AgentId) → count_if (has_id id) s'.agents ≤ count_if (has_id id) s.agents)
    → ((id : AgentId) → count_if (is_agent id) s'.db.agents ≡ count_if (is_agent id) s.db.agents)
    → PoolIsValid max_agents s
    → PoolIsValid max_agents s'
same_ids max_agents s s' size agents rows v = record {
  bounded = omega (arith, size, v.bounded);
  stored = λ id. omega (arith, agents id, rows id, v.stored id);
  keyed = λ id. omega (arith, rows id, v.keyed id);
}

changed_agents :
    (max_agents : ℕ) (id : AgentId) (f : WorkerAgent → WorkerAgent) (s s' : PoolState)
    → ((agent : WorkerAgent) → (f agent).id ≡ agent.id)
    → s'.agents ≡ update_where (has_id id) f s.agents
    → ((other : AgentId)
        → count_if (is_agent other) s'.db.agents ≡ count_if (is_agent other) s.db.agents)
    → PoolIsValid max_agents s
    → PoolIsValid max_agents s'
changed_agents max_agents id f s s' same changed rows v =
    same_ids max_agents s s'
      (omega (arith, ap length changed, length-update_where (has_id id) f s.agents))
      (λ other. omega (
        arith,
        ap (count_if (has_id other)) changed,
        count_if-update_where (has_id other) (has_id id) f s.agents
            (λ agent. ap (λ i. agent_eq i other) (same agent)),
      ))
      rows v

spawn_keeps :
    (max_agents : ℕ) (now : Time) (agent_type : AgentType) (short : ℕ) (s : PoolState)
    (r : Result WorkerAgent × PoolState)
    → SpawnSpec max_agents now agent_type short s r
    → PoolIsValid max_agents s
    → PoolIsValid max_agents r.1
spawn_keeps max_agents now agent_type short s (err e, s') h v =
    same_ids max_agents s s' (omega (arith, ap length h.0))
      (λ id. omega (arith, ap (count_if (has_id id)) h.0)) (λ id. ap (count_if (is_agent id)) h.1) v
spawn_keeps max_agents now agent_type short s (ok agent, s') (same, room, new, joined, row, _) v =
    record {
      bounded = omega (arith, room, ap length joined, length-append s.agents (agent ∷ []));
      stored = λ id. omega (arith, v.stored id, pool_count id, row_count id);
      keyed = λ id. elim (Bool-cases (agent_eq agent.id id)) [
        | inl e ↦ omega (arith, row_count id, one_row id, none_yet id e)
        | inr e ↦ omega (arith, row_count id, other_row id e, v.keyed id)
      ];
    }
  where
    weight : AgentId → ℕ
    weight id = if agent_eq agent.id id then 1 else 0

    pool_count :
        (id : AgentId) → count_if (has_id id) s'.agents ≡ count_if (has_id id) s.agents + weight id
    pool_count id =
        omega (
          arith,
          ap (count_if (has_id id)) joined,
          count_if-append (has_id id) s.agents (agent ∷ []),
        )

    row_count :
        (id : AgentId)
        → count_if (is_agent id) s'.db.agents ≡ count_if (is_agent id) s.db.agents + weight id
    row_count id = omega (
      arith,
      ap (count_if (is_agent id)) row,
      count_if-append (is_agent id) s.db.agents (inserted_agent (agent_row agent now) ∷ []),
    )

    none_yet : (id : AgentId) → agent_eq agent.id id ≡ true → count_if (is_agent id) s.db.agents ≡ 0
    none_yet id e =
        ap (λ i. count_if (is_agent i) s.db.agents) (sym ((agent_eq_iff agent.id id).0 e))
        ∙ count_if-any (is_agent agent.id) s.db.agents new

    one_row : (id : AgentId) → weight id ≤ 1
    one_row id = ground arith

    other_row : (id : AgentId) → agent_eq agent.id id ≡ false → weight id ≡ 0
    other_row id e = rw e refl

assign_keeps :
    (max_agents : ℕ) (now : Time) (id : AgentId) (task : TaskInstance) (s : PoolState)
    (r : Result (Unit {0}) × PoolState)
    → AssignSpec now id task s r
    → PoolIsValid max_agents s
    → PoolIsValid max_agents r.1
assign_keeps max_agents now id task s (ok _, s') (agent, found, changed, rows) v =
    changed_agents max_agents id (with_task now task) s s' (λ a. refl) changed
      (λ other.
        ap (count_if (is_agent other)) rows
        ∙ count_if-update_where (is_agent other) (is_agent agent.id)
            (set_agent (busy_row agent.id now task)) s.db.agents (λ a. refl))
      v
assign_keeps max_agents now id task s (err e, s') (rows, inl (missing, absent, same)) v =
    same_ids max_agents s s' (omega (arith, ap length same))
      (λ other. omega (arith, ap (count_if (has_id other)) same))
      (λ other. ap (count_if (is_agent other)) rows) v
assign_keeps max_agents now id task s (err e, s') (rows, inr (other_error, changed)) v =
    changed_agents max_agents id (with_task now task) s s' (λ a. refl) changed
      (λ other. ap (count_if (is_agent other)) rows) v

remove_keeps :
    (max_agents : ℕ) (id : AgentId) (s : PoolState)
    → PoolIsValid max_agents s
    → PoolIsValid max_agents (remove_agent id s).1
unfolding remove_agent delete_agent
remove_keeps max_agents id s v = elim (Option-cases (find (has_id id) s.agents)) [
  | inl missing ↦ rw missing v
  | inr (agent, found) ↦ elim (Bool-cases (s.db.outage s.db.calls)) [
    | inl down ↦ rw (found, down) (same_ids max_agents s _ size agents (λ other. refl) v)
    | inr up ↦
        rw (found, up)
          (same_ids max_agents s _ size agents
            (λ other.
              count_if-update_where (is_agent other) (is_agent id)
                (λ row. record row { status = removed }) s.db.agents (λ a. refl))
            v)
  ]
]
  where
    size : length (keep (λ a. not (has_id id a)) s.agents) ≤ length s.agents
    size = length-keep-le (λ a. not (has_id id a)) s.agents

    agents :
        (other : AgentId)
        → count_if (has_id other) (keep (λ a. not (has_id id a)) s.agents)
          ≤ count_if (has_id other) s.agents
    agents other = count_if-keep-le (has_id other) (λ a. not (has_id id a)) s.agents

claim_keeps :
    (max_agents : ℕ) (s : PoolState) (found : Option WorkerAgent)
    → PoolIsValid max_agents s
    → PoolIsValid max_agents (claim s found).1
claim_keeps max_agents s none v = v
claim_keeps max_agents s (some agent) v =
    changed_agents max_agents agent.id make_busy s _ (λ a. refl) refl (λ other. refl) v

step-PoolIsValid :
    (max_agents : ℕ) (s : PoolState) (c : PoolCall)
    → PoolIsValid max_agents s
    → PoolIsValid max_agents (step max_agents s c)
unfolding step get_idle_agent update_agent_last_active set_agent_blocking
step-PoolIsValid max_agents s (spawns now agent_type short) v =
    spawn_keeps max_agents now agent_type short s _
      (spawn_agent-SpawnSpec max_agents now agent_type short s) v
step-PoolIsValid max_agents s (assigns now id task) v =
    assign_keeps max_agents now id task s _ (assign_task-AssignSpec now id task s) v
step-PoolIsValid max_agents s (removes id) v = remove_keeps max_agents id s v
step-PoolIsValid max_agents s (claims agent_type order) v =
    claim_keeps max_agents s (find (fits agent_type) order) v
step-PoolIsValid max_agents s (touches now id) v =
    changed_agents max_agents id (λ agent. record agent { last_active = some now }) s _ (λ a. refl)
      refl (λ other. refl) v
step-PoolIsValid max_agents s (blocks id on) v =
    changed_agents max_agents id (set_blocking on) s _ (λ a. refl) refl (λ other. refl) v

run_keeps :
    (max_agents : ℕ) (s : PoolState) (cs : List PoolCall)
    → PoolIsValid max_agents s
    → PoolIsValid max_agents (run max_agents s cs)
unfolding run
run_keeps max_agents s [] v = v
run_keeps max_agents s (c ∷ cs) v =
    run_keeps max_agents (step max_agents s c) cs (step-PoolIsValid max_agents s c v)

-- A pool that starts empty, on a table of agents whose ids all differ, has after any history of
-- calls at most `max_agents` agents, each under an id of its own that has a row in the table.
pub run-PoolIsValid :
    (max_agents : ℕ) (db : Db) (cs : List PoolCall)
    → ((id : AgentId) → count_if (is_agent id) db.agents ≤ 1)
    → PoolIsValid max_agents (run max_agents (record { db = db; agents = [] }) cs)
run-PoolIsValid max_agents db cs keyed =
    run_keeps max_agents (record { db = db; agents = [] }) cs
      (record { bounded = omega arith; stored = λ id. omega arith; keyed = keyed })
