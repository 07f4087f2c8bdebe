-- ===== src/Workers/Pool.antt =====
-- agent_pool.go: `AgentPool`. The map of agents is a list with one agent for each id; where the
-- source ranges over the map, the order in which it does is an argument.
pub mod Spec
pub mod Invariant
pub mod Idle
pub mod Status
use catgirl.Base.{
  ℕ, ◌+◌, ◌-◌, ◌*◌, ◌≡◌, Bool, true, false, not, ◌&&◌, ◌||◌, List, [], ◌∷◌, ◌++◌, Option, none,
  some, String, str_eq, ltb, leb, M, Result, ok, err, ◌>>=◌, ◌>>◌, pure, fail, wrapped, ignored,
  guard, pool_full, not_found, length, find, keep, update_where, if◌then◌else◌,
}
use catgirl.Models.{
  Time, AgentType, AgentId, AgentStatus, idle, busy, destroying, removed, Agent, TaskInstance,
  any_type,
}
use catgirl.Repository.{Db, agent_eq, create_agent, update_agent, delete_agent}
use catgirl.Workers.Agent.{WorkerAgent, AgentState, new_worker_agent, set_blocking}

pub record PoolState : Type 0 where
  pub db : Db
  pub agents : List WorkerAgent

abbrev pub has_id : AgentId → WorkerAgent → Bool
has_id id agent = agent_eq agent.id id

abbrev pub on_db : {A : Type 0} → M Db A → M PoolState A
on_db m s = let (r, db) = m s.db in (r, record s { db = db })

-- An agent that the pool's map shares with its users is changed in place.
abbrev pub change : AgentId → (WorkerAgent → WorkerAgent) → M PoolState (Unit {0})
change id f s = (ok tt, record s { agents = update_where (has_id id) f s.agents })

abbrev pub look_up : AgentId → M PoolState WorkerAgent
look_up id s = (found (find (has_id id) s.agents), s)
  where
    found : Option WorkerAgent → Result WorkerAgent
    found none = err not_found
    found (some agent) = ok agent

abbrev pub add : WorkerAgent → M PoolState (Unit {0})
add agent s = (ok tt, record s { agents = s.agents ++ agent ∷ [] })

abbrev pub delete : AgentId → M PoolState (Unit {0})
delete id s = (ok tt, record s { agents = keep (λ agent. not (has_id id agent)) s.agents })

-- The row that is stored for a new agent.
abbrev pub agent_row : WorkerAgent → Time → Agent
agent_row agent now = record {
  id = agent.id;
  kind = agent.kind;
  status = agent.status;
  current_instance_id = none;
  created_at = now;
  last_active_at = some now;
  tasks_completed = 0;
  metadata = "";
}

-- `short` is the part of the uuid that the call draws.
module _ (max_agents : ℕ) where
  unfoldable pub spawn_agent : Time → AgentType → ℕ → M PoolState WorkerAgent
  spawn_agent now agent_type short s =
      (do
        guard (ltb (length s.agents) max_agents) pool_full
        let id : AgentId = record { kind = agent_type; short = short }
        let agent = new_worker_agent id agent_type now
        wrapped "failed to persist agent" (on_db (create_agent (agent_row agent now)))
        add agent
        pure agent)
        s

abbrev pub with_task : Time → TaskInstance → WorkerAgent → WorkerAgent
with_task now task agent = record agent {
  current_task = some task;
  status = busy;
  last_active = some now;
}

-- The row that the UPDATE is given: the fields that are not set here are empty.
abbrev pub busy_row : AgentId → Time → TaskInstance → Agent
busy_row id now task = record {
  id = id;
  kind = any_type;
  status = busy;
  current_instance_id = some task.instance_id;
  created_at = 0;
  last_active_at = some now;
  tasks_completed = 0;
  metadata = "";
}

unfoldable pub assign_task : Time → AgentId → TaskInstance → M PoolState (Unit {0})
assign_task now id task = do
  agent ← look_up id
  change id (with_task now task)
  wrapped "failed to update agent" (on_db (update_agent (busy_row agent.id now task)))

-- The agent that leaves is also what its other users see.
unfoldable pub remove_agent : AgentId → M PoolState WorkerAgent
remove_agent id = do
  agent ← look_up id
  delete id
  ignored (on_db (delete_agent id))
  pure (record agent { status = removed; stopped = true })

unfoldable pub get_agent : AgentId → PoolState → Option WorkerAgent
get_agent id s = find (has_id id) s.agents

abbrev pub is_idle : AgentStatus → Bool
is_idle idle = true
is_idle _ = false

abbrev pub fits : AgentType → WorkerAgent → Bool
fits agent_type agent =
    is_idle agent.status && (str_eq agent_type any_type || str_eq agent.kind agent_type)

-- `order` is the order in which the loop meets the agents of the map.
abbrev pub make_busy : WorkerAgent → WorkerAgent
make_busy agent = record agent { status = busy }

abbrev pub claim : PoolState → Option WorkerAgent → Option WorkerAgent × PoolState
claim s none = (none, s)
claim s (some agent) = (
  some (make_busy agent),
  record s { agents = update_where (has_id agent.id) make_busy s.agents },
)

unfoldable pub get_idle_agent :
    AgentType → List WorkerAgent → PoolState → Option WorkerAgent × PoolState
get_idle_agent agent_type order s = claim s (find (fits agent_type) order)

unfoldable pub update_agent_last_active : Time → AgentId → PoolState → PoolState
update_agent_last_active now id s = record s {
  agents = update_where (has_id id) (λ agent. record agent { last_active = some now }) s.agents;
}

unfoldable pub set_agent_blocking : AgentId → Bool → PoolState → PoolState
set_agent_blocking id on s = record s {
  agents = update_where (has_id id) (set_blocking on) s.agents;
}

-- What a pass of the idle check comes to: it ends, or it waits on the stop channel of an agent, on
-- which no code of the repository ever receives, and holds the pool's lock and the agent's.
pub data Pass : Type 0 where
  ends : Pass
  waits_on : AgentId → Pass

abbrev pub second : ℕ
second = 1_000_000_000

-- `agent.LastActive != nil && time.Since(*agent.LastActive) > timeout`; a time that is still to
-- come has a negative distance, which no timeout is below.
abbrev pub is_expired : ℕ → Time → Option Time → Bool
is_expired idle_timeout_secs now none = false
is_expired idle_timeout_secs now (some t) = ltb (idle_timeout_secs * second) (now - t)

abbrev pub must_stop : ℕ → Time → WorkerAgent → Bool
must_stop idle_timeout_secs now agent =
    is_idle agent.status && is_expired idle_timeout_secs now agent.last_active

unfoldable pub cleanup_idle_agents : ℕ → Time → List WorkerAgent → Pass
cleanup_idle_agents idle_timeout_secs now [] = ends
cleanup_idle_agents idle_timeout_secs now (agent ∷ order) =
    if must_stop idle_timeout_secs now agent
    then waits_on agent.id
    else cleanup_idle_agents idle_timeout_secs now order
