-- ===== src/Workers/Pool/Status.antt =====
-- agent_pool.go: `GetPoolStatus`.
use catgirl.Base.{
  ℕ, ◌+◌, ◌≡◌, ◌∙◌, refl, Bool, List, [], ◌∷◌, String, str_eq, length, count_if, get_count,
  sum_counts, tally, get_count-tally, sum_counts-tally, Perm, Perm-length, Perm-count_if, arith, ap,
  if◌then◌else◌, true, false,
}
use catgirl.Models.{AgentStatus, idle, busy, destroying, removed}
use catgirl.Workers.Agent.{WorkerAgent}
use catgirl.Workers.Pool.{PoolState, is_idle}

pub record PoolStatus : Type 0 where
  pub total : ℕ
  pub idle_count : ℕ
  pub busy_count : ℕ
  pub destroying_count : ℕ
  pub by_type : List (String × ℕ)

-- The `switch` of the loop.
abbrev pub count_status : AgentStatus → PoolStatus → PoolStatus
count_status idle status = record status { idle_count = status.idle_count + 1 }
count_status busy status = record status { busy_count = status.busy_count + 1 }
count_status destroying status = record status { destroying_count = status.destroying_count + 1 }
count_status removed status = status

-- One round of the loop.
abbrev pub count_agent : WorkerAgent → PoolStatus → PoolStatus
count_agent agent status =
    let counted = count_status agent.status status in
    record counted { by_type = tally (λ a. a.kind) status.by_type (agent ∷ []) }

unfoldable pub count_agents : PoolStatus → List WorkerAgent → PoolStatus
count_agents status [] = status
count_agents status (agent ∷ order) = count_agents (count_agent agent status) order

unfoldable pub get_pool_status : List WorkerAgent → PoolState → PoolStatus
get_pool_status order s =
    count_agents
      (record {
        total = length s.agents;
        idle_count = 0;
        busy_count = 0;
        destroying_count = 0;
        by_type = [];
      })
      order

abbrev pub is_busy : AgentStatus → Bool
is_busy busy = true
is_busy _ = false

abbrev pub is_destroying : AgentStatus → Bool
is_destroying destroying = true
is_destroying _ = false

abbrev pub is_removed : AgentStatus → Bool
is_removed removed = true
is_removed _ = false

abbrev of_type : String → WorkerAgent → Bool
of_type key agent = str_eq agent.kind key

count_status-counts :
    (st : AgentStatus) (status : PoolStatus)
    → let counted = count_status st status in
      (counted.total ≡ status.total)
      × (counted.idle_count ≡ status.idle_count + (if is_idle st then 1 else 0))
      × (counted.busy_count ≡ status.busy_count + (if is_busy st then 1 else 0))
      × (counted.destroying_count ≡ status.destroying_count + (if is_destroying st then 1 else 0))
count_status-counts idle status = (refl, refl, omega arith, omega arith)
count_status-counts busy status = (refl, omega arith, refl, omega arith)
count_status-counts destroying status = (refl, omega arith, omega arith, refl)
count_status-counts removed status = (refl, omega arith, omega arith, omega arith)

count_agents-counts :
    (status : PoolStatus) (order : List WorkerAgent)
    → let counted = count_agents status order in
      (counted.total ≡ status.total)
      × (counted.idle_count ≡ status.idle_count + count_if (λ a. is_idle a.status) order)
      × (counted.busy_count ≡ status.busy_count + count_if (λ a. is_busy a.status) order)
      × (counted.destroying_count
          ≡ status.destroying_count + count_if (λ a. is_destroying a.status) order)
      × (counted.by_type ≡ tally (λ a. a.kind) status.by_type order)
unfolding count_agents
count_agents-counts status [] = (refl, omega arith, omega arith, omega arith, refl)
count_agents-counts status (agent ∷ order) =
    let h = count_agents-counts (count_agent agent status) order in
    let one = count_status-counts agent.status status in
    (
      h.0 ∙ one.0,
      omega (arith, h.1, one.1),
      omega (arith, h.2, one.2),
      omega (arith, h.3, one.3),
      h.4,
    )

one_status :
    (agents : List WorkerAgent)
    → count_if (λ a. is_idle a.status) agents
        + count_if (λ a. is_busy a.status) agents
        + count_if (λ a. is_destroying a.status) agents
        + count_if (λ a. is_removed a.status) agents
      ≡ length agents
one_status [] = refl
one_status (agent ∷ agents) = omega (arith, each agent.status, one_status agents)
  where
    each :
        (st : AgentStatus)
        → (if is_idle st then 1 else 0)
            + (if is_busy st then 1 else 0)
            + (if is_destroying st then 1 else 0)
            + (if is_removed st then 1 else 0)
          ≡ 1
    each idle = refl
    each busy = refl
    each destroying = refl
    each removed = refl

-- Whatever the order in which the loop meets the agents: each of the three numbers is the number of
-- agents of the pool with that status, the entry of a type is the number of agents of the type, the
-- entries add up to the total, and the three numbers with the removed agents add up to it as well.
pub get_pool_status-counts :
    (order : List WorkerAgent) (s : PoolState) (key : String)
    → Perm order s.agents
    → let status = get_pool_status order s in
      (status.idle_count ≡ count_if (λ a. is_idle a.status) s.agents)
      × (status.busy_count ≡ count_if (λ a. is_busy a.status) s.agents)
      × (status.destroying_count ≡ count_if (λ a. is_destroying a.status) s.agents)
      × (get_count key status.by_type ≡ count_if (λ a. str_eq a.kind key) s.agents)
      × (sum_counts status.by_type ≡ status.total)
      × (status.idle_count
            + status.busy_count
            + status.destroying_count
            + count_if (λ a. is_removed a.status) s.agents
          ≡ status.total)
unfolding get_pool_status
get_pool_status-counts order s key same =
    let start : PoolStatus = record {
      total = length s.agents;
      idle_count = 0;
      busy_count = 0;
      destroying_count = 0;
      by_type = [];
    } in
    let status = get_pool_status order s in
    let h = count_agents-counts start order in
    let i : status.idle_count ≡ count_if (λ a. is_idle a.status) s.agents =
      omega (arith, h.1, Perm-count_if (λ a. is_idle a.status) same) in
    let b : status.busy_count ≡ count_if (λ a. is_busy a.status) s.agents =
      omega (arith, h.2, Perm-count_if (λ a. is_busy a.status) same) in
    let d : status.destroying_count ≡ count_if (λ a. is_destroying a.status) s.agents =
      omega (arith, h.3, Perm-count_if (λ a. is_destroying a.status) same) in
    (
      i,
      b,
      d,
      omega (
        arith,
        ap (get_count key) h.4,
        get_count-tally (λ a. a.kind) key [] order,
        Perm-count_if (λ a. str_eq a.kind key) same,
      ),
      omega (
        arith,
        ap sum_counts h.4,
        sum_counts-tally (λ a. a.kind) [] order,
        Perm-length same,
        h.0,
      ),
      omega (arith, one_status s.agents, i, b, d, h.0),
    )
