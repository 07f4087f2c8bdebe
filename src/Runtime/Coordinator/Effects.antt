-- ===== src/Runtime/Coordinator/Effects.antt =====
-- runtime.go: what the tools of an agent leave alone, and what SET_STATE changes.
use catgirl.Base.{
  ◌≡◌, ◌≢◌, refl, ap, sym, ◌∙◌, true, false, Option, none, some, inl, inr, String, str_eq, eq_iff,
  ◌==◌, Result, ok, err, find, if◌then◌else◌, Bool-cases,
}
use catgirl.Models.{Uuid, AgentId, TaskInstance}
use catgirl.Llm.Messages.{ToolCall}
use catgirl.Workers.Agent.{set_blocking}
use catgirl.Workers.Pool.{has_id}
use catgirl.Runtime.Callbacks.{BlockedAgentInfo, CallbackState, is_info, send_tool_result_to_agent}
use catgirl.Runtime.Coordinator.{
  DockerService, External, string_arg, WorkerEnv, Work, callbacks, on_agent, store_task,
}
use catgirl.Runtime.Coordinator.Tools.{
  set_state, sent, send_to_parent, send_up, send_parent, spawned, spawn_task, ran, run_in, execute,
  execute_cmd, dispatch, complete, give_up,
}
use catgirl.Runtime.Coordinator.Frame.{
  ids, ids-update_where, send_tool_result_to_agent-keeps, Keeps, Quiet, Keeps-refl, Quiet-refl,
  on_agent-Keeps, Agrees,
}

other_text : (s a b : String) → str_eq s a ≡ true → str_eq b a ≡ false → s ≢ b
other_text s a b e f h = cc (e, f, ap (λ t. str_eq t a) h)

module _ {World : Type 0} (ext : External World) (env : WorkerEnv) where
  sent-Quiet :
      (id : AgentId) (text : String) (w : Work World)
      → Quiet w
          (sent ext env
            (send_tool_result_to_agent id "" "ASYNC_CHILD_MESSAGE" text (callbacks w.rt))
            w).1
  sent-Quiet id text w =
      by (send_tool_result_to_agent id "" "ASYNC_CHILD_MESSAGE" text (callbacks w.rt))
        (send_tool_result_to_agent-keeps id "" "ASYNC_CHILD_MESSAGE" text (callbacks w.rt))
    where
      by :
          (p : Result (Unit {0}) × CallbackState)
          → (ids p.1.agents ≡ ids w.rt.agents) × (p.1.blocked_agents ≡ w.rt.blocked_agents)
          → Quiet w (sent ext env p w).1
      by (ok _, c) h = record {
        keeps = record { same_ids = h.0; same_registry = h.1 };
        same_context = refl;
        same_task = refl;
        same_change = refl;
      }
      by (err e, c) h = record {
        keeps = record { same_ids = h.0; same_registry = h.1 };
        same_context = refl;
        same_task = refl;
        same_change = refl;
      }

  send_parent-Quiet : (text : String) (w : Work World) → Quiet w (send_parent ext env text w).1
  unfolding send_parent
  send_parent-Quiet text w = elim (Bool-cases (str_eq text "")) [
    | inl e ↦ rw e (Quiet-refl w)
    | inr e ↦ rw e (up w.task.parent_instance_id)
  ]
    where
      to :
          (report : String) (o : Option BlockedAgentInfo)
          → Quiet w (send_to_parent ext env report o w).1
      to report none = record {
        keeps = record { same_ids = refl; same_registry = refl };
        same_context = refl;
        same_task = refl;
        same_change = refl;
      }
      to report (some info) = sent-Quiet info.agent_id report w

      up : (o : Option Uuid) → Quiet w (send_up ext env text o w).1
      up none = record {
        keeps = record { same_ids = refl; same_registry = refl };
        same_context = refl;
        same_task = refl;
        same_change = refl;
      }
      up (some parent) = to _ (find (λ info. info.instance_id == parent) w.rt.blocked_agents)

  pub spawned-state : (p : Result TaskInstance × Work World) → (spawned ext env p).1 ≡ p.1
  spawned-state (ok task, w) = refl
  spawned-state (err e, w) = refl

  ran-state : (p : Result String × Work World) → (ran ext env p).1 ≡ p.1
  ran-state (ok output, w) = refl
  ran-state (err e, w) = refl

  spawn_task-Quiet : (text : String) (w : Work World) → Quiet w (spawn_task ext env text w).1
  unfolding spawn_task
  spawn_task-Quiet text w = elim (Bool-cases (str_eq text "")) [
    | inl e ↦ rw e (Quiet-refl w)
    | inr e ↦
        rw (e, spawned-state)
          (record {
            keeps = record { same_ids = refl; same_registry = refl };
            same_context = refl;
            same_task = refl;
            same_change = refl;
          })
  ]

  execute_cmd-Quiet : (cmd : String) (w : Work World) → Quiet w (execute_cmd ext env cmd w).1
  unfolding execute_cmd
  execute_cmd-Quiet cmd w = elim (Bool-cases (str_eq cmd "")) [
    | inl e ↦ rw e (Quiet-refl w)
    | inr e ↦ rw e (on ext.docker)
  ]
    where
      inside :
          (docker : DockerService World) (o : Option BlockedAgentInfo)
          → Quiet w (run_in ext env docker cmd o w).1
      inside docker none = Quiet-refl w
      inside docker (some info) = elim (Bool-cases (str_eq info.container_id "")) [
        | inl e ↦ rw e (Quiet-refl w)
        | inr e ↦
            rw (e, ran-state)
              (record {
                keeps = record { same_ids = refl; same_registry = refl };
                same_context = refl;
                same_task = refl;
                same_change = refl;
              })
      ]

      on : (o : Option (DockerService World)) → Quiet w (execute ext env o cmd w).1
      on none = Quiet-refl w
      on (some docker) = inside docker (find (is_info env.agent_id) w.rt.blocked_agents)

  -- SET_STATE notes the state it is given, and agrees with what it does to the task.
  pub record Sets (state : String) (w w' : Work World) : Type 0 where
    pub keeps : Keeps w.rt w'.rt
    pub same_context : w'.context ≡ w.context
    pub changes : w'.state_change ≡ state
    pub agrees : Agrees w'

  set_state-Sets :
      (state result : String) (w : Work World) → Sets state w (set_state ext env state result w).1
  unfolding set_state
  set_state-Sets state result w = elim (Bool-cases (str_eq state "BLOCKING")) [
    | inl e ↦ rw e (record {
      keeps = on_agent-Keeps env.agent_id (set_blocking true) w (λ a. refl);
      same_context = refl;
      changes = refl;
      agrees = (
        λ h. absurd (other_text state "BLOCKING" "COMPLETED" e refl h),
        λ h. absurd (other_text state "BLOCKING" "FAILED" e refl h),
      );
    })
    | inr e ↦ elim (Bool-cases (str_eq state "COMPLETED")) [
      | inl f ↦
          rw (e, f)
            (record {
              keeps = stored (complete env.started (ext.summary_json result));
              same_context = refl;
              changes = refl;
              agrees = (λ h. refl, λ h. absurd (other_text state "COMPLETED" "FAILED" f refl h));
            })
      | inr f ↦ elim (Bool-cases (str_eq state "FAILED")) [
        | inl g ↦
            rw (e, f, g)
              (record {
                keeps = stored (give_up env.started result);
                same_context = refl;
                changes = refl;
                agrees = (λ h. absurd (other_text state "FAILED" "COMPLETED" g refl h), λ h. refl);
              })
        | inr g ↦
            rw (e, f, g)
              (record {
                keeps = Keeps-refl w.rt;
                same_context = refl;
                changes = refl;
                agrees = (
                  λ h. cc (f, (eq_iff state "COMPLETED").1 h),
                  λ h. cc (g, (eq_iff state "FAILED").1 h),
                );
              })
      ]
    ]
  ]
    where
      stored :
          (f : TaskInstance → TaskInstance)
          → Keeps w.rt (store_task env.agent_id f (on_agent env.agent_id (set_blocking false) w)).rt
      stored f =
          let free = on_agent env.agent_id (set_blocking false) w in
          let kept = on_agent-Keeps env.agent_id (set_blocking false) w (λ a. refl) in
          record {
            same_ids =
                ids-update_where (has_id env.agent_id)
                  (λ agent. record agent { current_task = some (f w.task) }) free.rt.agents
                  (λ a e. refl)
                ∙ kept.same_ids;
            same_registry = refl;
          }

  -- The state that a call asks for, if it is one of SET_STATE.
  abbrev pub asked_state : ToolCall → String → String
  asked_state tc before =
      if str_eq tc.name "SET_STATE" then string_arg ext tc.arguments "state" else before

  -- What every call does to the variables of the loop.
  pub record CallSpec (tc : ToolCall) (w w' : Work World) : Type 0 where
    pub keeps : Keeps w.rt w'.rt
    pub same_context : w'.context ≡ w.context
    pub changes : w'.state_change ≡ asked_state tc w.state_change
    pub agrees : Agrees w → Agrees w'

  of_Quiet : (w w' : Work World) → Quiet w w' → Agrees w → Agrees w'
  of_Quiet w w' q a = (
    λ h. ap (λ t. t.status) q.same_task ∙ a.0 (sym q.same_change ∙ h),
    λ h. ap (λ t. t.status) q.same_task ∙ a.1 (sym q.same_change ∙ h),
  )

  pub dispatch-CallSpec : (tc : ToolCall) (w : Work World) → CallSpec tc w (dispatch ext env tc w).1
  unfolding dispatch
  dispatch-CallSpec tc w = elim (Bool-cases (str_eq tc.name "SET_STATE")) [
    | inl e ↦
        let s =
          set_state-Sets (string_arg ext tc.arguments "state")
            (string_arg ext tc.arguments "result") w in
        rw e (record {
          keeps = s.keeps;
          same_context = s.same_context;
          changes = rw e s.changes;
          agrees = λ a. s.agrees;
        })
    | inr e ↦ elim (Bool-cases (str_eq tc.name "SEND_PARENT")) [
      | inl f ↦ rw (e, f) (quiet e _ (send_parent-Quiet _ w))
      | inr f ↦ elim (Bool-cases (str_eq tc.name "SPAWN_TASK")) [
        | inl g ↦ rw (e, f, g) (quiet e _ (spawn_task-Quiet _ w))
        | inr g ↦ elim (Bool-cases (str_eq tc.name "EXECUTE_CMD")) [
          | inl h ↦ rw (e, f, g, h) (quiet e _ (execute_cmd-Quiet _ w))
          | inr h ↦ rw (e, f, g, h) (quiet e w (Quiet-refl w))
        ]
      ]
    ]
  ]
    where
      quiet : str_eq tc.name "SET_STATE" ≡ false → (w' : Work World) → Quiet w w' → CallSpec tc w w'
      quiet e w' q = record {
        keeps = q.keeps;
        same_context = q.same_context;
        changes = rw e q.same_change;
        agrees = of_Quiet w w' q;
      }
