-- ===== src/Workers/Pool/Idle.antt =====
-- agent_pool.go: `GetIdleAgent`, a loop over the agents of the pool.
use mathlib.Core.List.Perm.{mem_iff}
use mathlib.Core.List.{mem-cons_self, mem-cons_of_mem}
use catgirl.Base.{
  ◌≡◌, refl, ap, sym, subst, ◌∙◌, true, false, List, [], ◌∷◌, Option, none, some, ◌⊎◌, str_eq,
  eq_iff, arith, Bool, Bool-cases, Option-cases, ◌↔◌, find, update_where, count_if, Perm,
  Perm-count_if, Mem, All, inl, inr, find_count,
}
use catgirl.Models.{AgentType, AgentStatus, idle, busy, any_type}
use catgirl.Workers.Agent.{WorkerAgent}
use catgirl.Workers.Pool.{PoolState, has_id, is_idle, fits, get_idle_agent}

-- An agent that a call asks for: it is idle, and of the type or any type will do.
abbrev pub Wanted : AgentType → WorkerAgent → Type 0
Wanted agent_type agent =
    (agent.status ≡ idle) × ((agent_type ≡ any_type) ⊎ (agent.kind ≡ agent_type))

is_idle_iff : (status : AgentStatus) → (is_idle status ≡ true) ↔ (status ≡ idle)
is_idle_iff AgentStatus.idle = (λ h. refl, λ h. refl)
is_idle_iff AgentStatus.busy = (λ h. cc, λ h. ap is_idle h)
is_idle_iff AgentStatus.destroying = (λ h. cc, λ h. ap is_idle h)
is_idle_iff AgentStatus.removed = (λ h. cc, λ h. ap is_idle h)

fits_iff :
    (agent_type : AgentType) (agent : WorkerAgent)
    → (fits agent_type agent ≡ true) ↔ Wanted agent_type agent
fits_iff agent_type agent =
    let a = is_idle_iff agent.status in
    let b = eq_iff agent_type any_type in
    let c = eq_iff agent.kind agent_type in
    (
      λ h. elim (Bool-cases (is_idle agent.status)) [
        | inr e ↦ cc (rw e at h)
        | inl e ↦ elim (Bool-cases (str_eq agent_type any_type)) [
          | inl f ↦ (a.0 e, inl (b.0 f))
          | inr f ↦ (a.0 e, inr (c.0 (rw (e, f) at h)))
        ]
      ],
      λ (wanted, kind). rw (a.1 wanted) (elim kind [
        | inl any ↦ rw (b.1 any) refl
        | inr same ↦ elim (Bool-cases (str_eq agent_type any_type)) [
          | inl f ↦ rw f refl
          | inr f ↦ rw f (c.1 same)
        ]
      ]),
    )

find-Mem :
    (p : WorkerAgent → Bool) (xs : List WorkerAgent) (x : WorkerAgent)
    → find p xs ≡ some x
    → (p x ≡ true) × Mem x xs
find-Mem p [] x h = cc
find-Mem p (y ∷ ys) x h = elim (Bool-cases (p y)) [
  | inl e ↦
      let same : y ≡ x = some-injective (rw e at h) in
      (ap p (sym same) ∙ e, subst (λ z. Mem z (y ∷ ys)) same mem-cons_self)
  | inr e ↦ let (good, there) = find-Mem p ys x (rw e at h) in (good, mem-cons_of_mem y there)
]
  where
    or_that : Option WorkerAgent → WorkerAgent
    or_that none = y
    or_that (some z) = z

    some-injective : {a b : WorkerAgent} → some a ≡ some b → a ≡ b
    some-injective h = ap or_that h

count-All :
    (p : WorkerAgent → Bool) (xs : List WorkerAgent) → count_if p xs ≡ 0 → All (λ a. p a ≡ false) xs
count-All p [] h = tt
count-All p (x ∷ xs) h = elim (Bool-cases (p x)) [
  | inl e ↦ absurd (omega (arith, rw e at h))
  | inr e ↦ (e, count-All p xs (omega (arith, rw e at h)))
]

All-unwanted :
    (agent_type : AgentType) (xs : List WorkerAgent)
    → All (λ a. fits agent_type a ≡ false) xs
    → All (λ a. ¬ Wanted agent_type a) xs
All-unwanted agent_type [] h = tt
All-unwanted agent_type (x ∷ xs) h =
    (λ wanted. cc (h.0, (fits_iff agent_type x).1 wanted), All-unwanted agent_type xs h.1)

-- What `GetIdleAgent` promises, whatever the order of the loop.
abbrev pub IdleSpec : AgentType → PoolState → Option WorkerAgent × PoolState → Type 0
IdleSpec agent_type s (none, s') = All (λ a. ¬ Wanted agent_type a) s.agents × (s' ≡ s)
IdleSpec agent_type s (some agent, s') =
    (before : WorkerAgent) × Mem before s.agents
    × Wanted agent_type before
    × (agent ≡ record before { status = busy })
    × (s' ≡ record s {
      agents = update_where (has_id before.id) (λ a. record a { status = busy }) s.agents;
    })

-- Whatever the order in which the loop meets the agents, `GetIdleAgent` yields none exactly when no
-- agent of the pool is idle and of the type asked for, and then changes nothing; otherwise it yields
-- an agent of the pool that was, now busy, and the pool's agent under its id is busy too.
pub get_idle_agent-IdleSpec :
    (agent_type : AgentType) (order : List WorkerAgent) (s : PoolState)
    → Perm order s.agents
    → IdleSpec agent_type s (get_idle_agent agent_type order s)
unfolding get_idle_agent
get_idle_agent-IdleSpec agent_type order s same =
    elim (Option-cases (find (fits agent_type) order)) [
      | inl missing ↦ rw missing (
        All-unwanted agent_type s.agents (
            count-All (fits agent_type) s.agents (
              omega (
                arith,
                Perm-count_if (fits agent_type) same,
                find_count (fits agent_type) order missing,
              ))),
        refl,
      )
      | inr (agent, found) ↦
          let (good, there) = find-Mem (fits agent_type) order agent found in
          rw found (agent, (mem_iff same).0 there, (fits_iff agent_type agent).0 good, refl, refl)
    ]
