-- ===== src/Runtime/Coordinator/Passes.antt =====
-- runtime.go: what a pass of `workerLoop` leaves in the pool and on the queue's channel.
use catgirl.Base.{
  ℕ, ◌≡◌, ◌≢◌, refl, ap, sym, subst, ◌∙◌, Bool, true, false, not, List, [], ◌∷◌, ◌++◌, Option, none,
  some, ◌⊎◌, inl, inr, Error, Result, ok, err, find, keep, if◌then◌else◌, Bool-cases, Option-cases,
  append-nil, ◌≤◌, ◌<◌, length, any, pool_full, wrap, unavailable, duplicate_key,
}
use catgirl.Models.{Time, Uuid, AgentId, TaskInstance, TaskFamily, general_purpose}
use catgirl.Repository.{agent_eq, agent_eq_self, is_agent}
use catgirl.Docker.{ContainerInfo, get_or_create_container}
use catgirl.Workers.Agent.{AgentInput, WorkerAgent, send_input}
use catgirl.Workers.Pool.{PoolState, has_id, spawn_agent, remove_agent}
use catgirl.Workers.Pool.Spec.{SpawnSpec, spawn_agent-SpawnSpec}
use catgirl.Runtime.Sessions.{LiveSession}
use catgirl.Runtime.WorkerContext.{load_history}
use catgirl.Runtime.Context.{new_context_manager}
use catgirl.Runtime.Callbacks.{register_agent_for_callback}
use catgirl.Runtime.Coordinator.{
  DockerService, External, RuntimeState, WorkerEnv, Work, on_agent, on_containers, on_context,
}
use catgirl.Runtime.Coordinator.Loop.{Progress, going, returned, panicked}
use catgirl.Runtime.Coordinator.Execute.{
  WorkerConfig, prepared, first_input, env_of, container_of, get_container, set_up, start_loop,
  begin, run_in_session, in_session, in_family, execute_task, assigned_to, clean_up, with_agent,
  work_on,
}
use catgirl.Runtime.Coordinator.Frame.{ids, ids-update_where, ids-replace, send_input-id}
use catgirl.Runtime.Coordinator.Outcome.{map-append}
use catgirl.Runtime.Coordinator.Runs.{run_agent_loop-Left}

abbrev others : AgentId → List AgentId → List AgentId
others id = keep (λ i. not (agent_eq i id))

others-append :
    (id : AgentId) (xs ys : List AgentId) → others id (xs ++ ys) ≡ others id xs ++ others id ys
others-append id [] ys = refl
others-append id (x ∷ xs) ys = elim (Bool-cases (agent_eq x id)) [
  | inl e ↦ rw e (others-append id xs ys)
  | inr e ↦ rw e (ap (◌∷◌ x) (others-append id xs ys))
]

others-absent :
    (id : AgentId) (agents : List WorkerAgent)
    → find (has_id id) agents ≡ none
    → others id (ids agents) ≡ ids agents
others-absent id [] h = refl
others-absent id (a ∷ agents) h = elim (Bool-cases (agent_eq a.id id)) [
  | inl e ↦ cc (rw e at h)
  | inr e ↦ rw e (ap (◌∷◌ a.id) (others-absent id agents (rw e at h)))
]

others-keep :
    (id : AgentId) (agents : List WorkerAgent)
    → ids (keep (λ agent. not (has_id id agent)) agents) ≡ others id (ids agents)
others-keep id [] = refl
others-keep id (a ∷ agents) = elim (Bool-cases (agent_eq a.id id)) [
  | inl e ↦ rw e (others-keep id agents)
  | inr e ↦ rw e (ap (◌∷◌ a.id) (others-keep id agents))
]

others-added :
    (id : AgentId) (agents : List WorkerAgent)
    → find (has_id id) agents ≡ none
    → others id (ids agents ++ id ∷ []) ≡ ids agents
others-added id agents absent =
    others-append id (ids agents) (id ∷ [])
    ∙ ap (λ l. l ++ others id (id ∷ [])) (others-absent id agents absent)
    ∙ ap (λ b. ids agents ++ (if not b then id ∷ [] else [])) (agent_eq_self id)
    ∙ append-nil (ids agents)

remove_agent-ids :
    (id : AgentId) (s : PoolState) → ids (remove_agent id s).1.agents ≡ others id (ids s.agents)
unfolding remove_agent
remove_agent-ids id s = elim (Option-cases (find (has_id id) s.agents)) [
  | inl missing ↦ rw missing (sym (others-absent id s.agents missing))
  | inr (agent, found) ↦ rw found (others-keep id s.agents)
]

module _ {World : Type 0} (ext : External World) (cfg : WorkerConfig) (now : Time) where
  container_of-agents :
      (p : Result ContainerInfo × RuntimeState World)
      → (container_of ext cfg now p).1.agents ≡ p.1.agents
  container_of-agents (ok info, rt) = refl
  container_of-agents (err e, rt) = refl

  get_container-agents :
      (o : Option (DockerService World)) (id : Uuid) (rt : RuntimeState World)
      → (get_container ext cfg now o id rt).1.agents ≡ rt.agents
  get_container-agents none id rt = refl
  get_container-agents (some docker) id rt = container_of-agents (
      on_containers (get_or_create_container docker.client docker.registry docker.image now id "")
        rt)

  start_loop-ids :
      (env : WorkerEnv) (schedule : List (List AgentInput)) (answer : Bool × WorkerAgent)
      (agent : WorkerAgent) (w : Work World)
      → find (has_id env.agent_id) w.rt.agents ≡ some agent
      → answer.1.id ≡ agent.id
      → ids (start_loop ext cfg now env schedule answer w).1.rt.agents ≡ ids w.rt.agents
  start_loop-ids env schedule (false, agent') agent w found same = refl
  start_loop-ids env schedule (true, agent') agent w found same =
      (run_agent_loop-Left ext env schedule (on_agent env.agent_id (λ a. agent') w)).0
      ∙ ids-replace env.agent_id agent agent' w.rt.agents found same

  begin-ids :
      (env : WorkerEnv) (schedule : List (List AgentInput)) (w : Work World)
      → ids (begin ext cfg now env schedule w).1.rt.agents ≡ ids w.rt.agents
  begin-ids env schedule w = elim (Option-cases (find (has_id env.agent_id) w.rt.agents)) [
    | inl e ↦ rw e refl
    | inr (agent, e) ↦ rw e (
        start_loop-ids env schedule (send_input (first_input w.task) agent) agent w e
          (send_input-id (first_input w.task) agent))
  ]

  run_in_session-ids :
      (id : AgentId) (task : TaskInstance) (schedule : List (List AgentInput))
      (session : LiveSession) (rt : RuntimeState World)
      → ids (run_in_session ext cfg now id task schedule session rt).1.rt.agents ≡ ids rt.agents
  unfolding run_in_session register_agent_for_callback
  run_in_session-ids id task schedule session rt =
      let w1 : Work World = on_context load_history (
        on_agent id (prepared task) (record {
          rt = rt;
          task = task;
          context = new_context_manager task.instance_id;
          state_change = "";
        })) in
      begin-ids (env_of cfg id session now) schedule (set_up ext cfg now id w1)
      ∙ ap ids (get_container-agents ext.docker task.instance_id w1.rt)
      ∙ ids-update_where (has_id id) (prepared task) rt.agents (λ a e. refl)

  in_session-ids :
      (id : AgentId) (task : TaskInstance) (schedule : List (List AgentInput))
      (p : Result (Option LiveSession) × RuntimeState World)
      → ids (in_session ext cfg now id task schedule p).1.rt.agents ≡ ids p.1.agents
  in_session-ids id task schedule (ok (some session), rt) =
      run_in_session-ids id task schedule session rt
  in_session-ids id task schedule (ok none, rt) = refl
  in_session-ids id task schedule (err e, rt) = refl

  in_family-ids :
      (id : AgentId) (task : TaskInstance) (schedule : List (List AgentInput))
      (p : Result (Option TaskFamily) × RuntimeState World)
      → ids (in_family ext cfg now id task schedule p).1.rt.agents ≡ ids p.1.agents
  in_family-ids id task schedule (ok (some tf), rt) = in_session-ids id task schedule _
  in_family-ids id task schedule (ok none, rt) = refl
  in_family-ids id task schedule (err e, rt) = refl

  execute_task-ids :
      (id : AgentId) (task : TaskInstance) (schedule : List (List AgentInput))
      (rt : RuntimeState World)
      → ids (execute_task ext cfg now id task schedule rt).1.rt.agents ≡ ids rt.agents
  unfolding execute_task
  execute_task-ids id task schedule rt = in_family-ids id (assigned_to id now task) schedule _

  -- Why there is no agent for the task, and what it takes that there is one.
  abbrev pub Refusal : AgentId → RuntimeState World → Error → Type 0
  Refusal id rt e =
      ((e ≡ pool_full) × (cfg.max_agents ≤ length rt.agents))
      ⊎ (((e ≡ wrap "failed to persist agent" unavailable) × (rt.db.outage rt.db.calls ≡ true))
          ⊎ ((e ≡ wrap "failed to persist agent" duplicate_key)
              × (any (is_agent id) rt.db.agents ≡ true)))

  abbrev pub HasRoom : AgentId → RuntimeState World → Type 0
  HasRoom id rt =
      (length rt.agents < cfg.max_agents)
      × (any (is_agent id) rt.db.agents ≡ false)
      × (rt.db.outage rt.db.calls ≡ false)

  -- No agent can be spawned and the task is back at the end of the channel; or there was room, and
  -- the pool has the ids that it had, or the agent is still at work.
  abbrev pub PassSpec :
      AgentId → TaskInstance → RuntimeState World → Progress × RuntimeState World → Type 0
  PassSpec id task rt out =
      ((e : Error) × Refusal id rt e
        × (out.0 ≡ returned (err e))
        × (out.1.agents ≡ rt.agents)
        × (out.1.blocked_agents ≡ rt.blocked_agents)
        × (out.1.enqueue_ch ≡ rt.enqueue_ch ++ task ∷ []))
      ⊎ (HasRoom id rt
          × (((r : Result (Unit {0})) × (out.0 ≡ returned r) × (ids out.1.agents ≡ ids rt.agents))
              ⊎ (((r : Result (Unit {0})) → out.0 ≢ returned r)
                  × (ids out.1.agents ≡ ids rt.agents ++ id ∷ []))))

  clean_up-PassSpec :
      (id : AgentId) (task : TaskInstance) (rt : RuntimeState World) (out : Progress × Work World)
      → find (has_id id) rt.agents ≡ none
      → HasRoom id rt
      → ids out.1.rt.agents ≡ ids rt.agents ++ id ∷ []
      → PassSpec id task rt (clean_up ext cfg now id out)
  clean_up-PassSpec id task rt (going, w) absent room added = inr (room, inr (λ r e. cc, added))
  clean_up-PassSpec id task rt (panicked, w) absent room added = inr (room, inr (λ r e. cc, added))
  clean_up-PassSpec id task rt (returned r, w) absent room added = inr (
    room,
    inl (
      r,
      refl,
      remove_agent-ids id (record { db = w.rt.db; agents = w.rt.agents })
          ∙ ap (others id) added
          ∙ others-added id rt.agents absent,
    ),
  )

  spawned-PassSpec :
      (short : ℕ) (task : TaskInstance) (schedule : List (List AgentInput))
      (rt : RuntimeState World) (q : Result WorkerAgent × PoolState)
      → let id : AgentId = record { kind = general_purpose; short = short } in
        find (has_id id) rt.agents ≡ none
        → SpawnSpec cfg.max_agents now general_purpose short
            (record { db = rt.db; agents = rt.agents })
            q
        → PassSpec id task rt (
            with_agent ext cfg now task schedule
              (q.0, record rt { db = q.1.db; agents = q.1.agents }))
  spawned-PassSpec short task schedule rt (err e, t) absent s = inl (e, s.2, refl, s.0, refl, refl)
  spawned-PassSpec short task schedule rt (ok agent, t) absent s =
      let id : AgentId = record { kind = general_purpose; short = short } in
      let named : agent.id ≡ id = ap (λ a. a.id) s.0 in
      let clear : HasRoom id rt =
        (s.1, subst (λ i. any (is_agent i) rt.db.agents ≡ false) named s.2, s.5) in
      let rt1 : RuntimeState World = record rt { db = t.db; agents = t.agents } in
      subst
        (λ i.
          PassSpec id task rt
            (clean_up ext cfg now i (execute_task ext cfg now i task schedule rt1)))
        (sym named)
        (clean_up-PassSpec id task rt (execute_task ext cfg now id task schedule rt1) absent clear (
          execute_task-ids id task schedule rt1
          ∙ ap ids s.3
          ∙ map-append (λ (a : WorkerAgent). a.id) rt.agents (agent ∷ [])
          ∙ ap (λ i. ids rt.agents ++ i ∷ []) named))

  -- A pass of `workerLoop` for a task, where the pool has no agent with the id that is drawn: if no
  -- agent can be spawned, since the pool is full, the database does not answer or the id is taken in
  -- the table, the task goes back to the end of the channel, and pool and registry are as they were.
  -- Otherwise, once the task has ended in whatever way, the pool has agents of exactly the ids that it
  -- had before; while the agent waits for input it is one more.
  pub work_on-PassSpec :
      (short : ℕ) (task : TaskInstance) (schedule : List (List AgentInput))
      (rt : RuntimeState World)
      → let id : AgentId = record { kind = general_purpose; short = short } in
        find (has_id id) rt.agents ≡ none
        → PassSpec id task rt (work_on ext cfg now short task schedule rt)
  unfolding work_on
  work_on-PassSpec short task schedule rt absent =
      let pool : PoolState = record { db = rt.db; agents = rt.agents } in
      spawned-PassSpec short task schedule rt
        (spawn_agent cfg.max_agents now general_purpose short pool) absent
        (spawn_agent-SpawnSpec cfg.max_agents now general_purpose short pool)
