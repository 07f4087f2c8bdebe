-- ===== src/Tests/Runtime.antt =====
-- Configuration, choice of a model, contexts and sessions at work.
use catgirl.Base.{
  pos, negsuc, ◌≡◌, ◌⊎◌, refl, true, false, List, [], ◌∷◌, ◌++◌, some, String, ok, any,
}
use catgirl.Models.{ConversationTurn}
use catgirl.Repository.{add_task_instance_turn, add_session_turn}
use catgirl.Config.{ModelProviderConfig, RuntimeConfig}
use catgirl.Config.Validate.{valid, validate, with_defaults}
use catgirl.Config.Laws.{ConfigIsValid, validate-ConfigIsValid}
use catgirl.Llm.Messages.{ToolCall}
use catgirl.Llm.Choice.{ModelConfig, get_random_model, lists_model}
use catgirl.Llm.Choice.Laws.{offers, get_random_model-offers}
use catgirl.Workers.Agent.{assistant}
use catgirl.Runtime.Context.{ContextState, new_context_manager}
use catgirl.Runtime.WorkerContext
use catgirl.Runtime.WorkerContext.Laws as WorkerLaws
use catgirl.Runtime.OrchestratorContext
use catgirl.Runtime.OrchestratorContext.Laws as OrchestratorLaws
use catgirl.Runtime.WorkerContext.Laws.{worker_context-resumes, worker_answer-message}
use catgirl.Runtime.OrchestratorContext.Laws.{
  orchestrator_context-resumes, orchestrator_answer-message,
}
use catgirl.Runtime.Sessions.{SessionState, live, message_turn}
use catgirl.Tests.SampleCodec.{sample_codec, sample_codec-KeepsJson}
use catgirl.Tests.Fixtures.{a_db}

abbrev pub a_provider : ModelProviderConfig
a_provider = record { base_url = "http://llm"; api_key = "key"; models = "small" ∷ "large" ∷ [] }

abbrev a_config : RuntimeConfig
a_config = record {
  global = record {
    max_task_depth = pos 0;
    max_queue_size = negsuc 6;
    tools_dir = "";
    docker_registry = "";
    docker_image = "";
  };
  llm = record {
    providers = a_provider ∷ [];
    embedding_providers = a_provider ∷ [];
    embedding_dims = pos 0;
    max_tokens = pos 9;
    timeout_secs = pos 3;
  };
  agent_pool = record { min_agents = pos 0; max_agents = pos 2; idle_timeout_secs = pos 0 };
  snapshot = record {
    enabled = false;
    retention = record { completed = ""; failed = ""; exited = ""; interrupted = "" };
    storage_path = "";
    max_storage_bytes = pos 0;
  };
  telegram = record { bots = []; listen_addr = "" };
  auth = record { mtfpass_url = ""; allowed_memberships = [] };
  context = record {
    max_tokens = pos 0;
    compaction_threshold = pos 0;
    preserve_recent_turns = pos 0;
    compaction_agent_type = "";
  };
  rag = record {
    enabled = false;
    default_top_k = pos 0;
    auto_retrieve = record {
      enabled = false;
      on_llm_call = false;
      top_k = pos 0;
      max_results = pos 0;
    };
    min_similarity = pos 0;
  };
}

a_config-valid : validate a_config ≡ valid (with_defaults a_config)
unfolding validate
a_config-valid = refl

validate-ConfigIsValid_example :
    ConfigIsValid a_config (with_defaults a_config)
    × (validate (with_defaults a_config) ≡ valid (with_defaults a_config))
validate-ConfigIsValid_example =
    validate-ConfigIsValid a_config (with_defaults a_config) a_config-valid

abbrev preferred : String
preferred = "large"

get_random_model-offers_example :
    (m : ModelConfig) × (get_random_model 4 3 (a_provider ∷ []) preferred ≡ some m)
    × (any (offers m) (a_provider ∷ []) ≡ true)
    × ((m.model ≡ preferred)
        ⊎ ((preferred ≡ "") ⊎ (any (lists_model preferred) (a_provider ∷ []) ≡ false)))
get_random_model-offers_example =
    get_random_model-offers 4 3 (a_provider ∷ []) preferred (λ e. cc, (λ e. cc, tt))

abbrev a_call : ToolCall
a_call = record { id = "c1"; name = "SET_STATE"; arguments = "{}" }

abbrev a_worker : ContextState
a_worker = record { db = a_db; context = new_context_manager 1 }

abbrev an_orchestrator : ContextState
an_orchestrator = record { db = a_db; context = new_context_manager 5 }

abbrev worker_entries : List WorkerLaws.Entry
worker_entries =
    WorkerLaws.says 2 "go"
    ∷ WorkerLaws.answers 3 "" (a_call ∷ []) 4 5
    ∷ WorkerLaws.returns 4 "c1" "SET_STATE" "{}"
    ∷ []

abbrev session_entries : List OrchestratorLaws.Entry
session_entries =
    OrchestratorLaws.says 2 "go"
    ∷ OrchestratorLaws.answers 3 "" (a_call ∷ []) 4 5
    ∷ OrchestratorLaws.returns 4 "c1" "SPAWN_TASK" "{}"
    ∷ []

abbrev after_work : ContextState
after_work = (WorkerLaws.record_entries sample_codec worker_entries a_worker).1

abbrev after_talk : ContextState
after_talk = (OrchestratorLaws.record_entries sample_codec session_entries an_orchestrator).1

after_work-good : (WorkerLaws.record_entries sample_codec worker_entries a_worker).0 ≡ true
unfolding WorkerLaws.record_entries WorkerLaws.record_entry WorkerContext.add_user_turn
    WorkerContext.add_assistant_turn WorkerContext.add_tool_result_turn add_task_instance_turn
after_work-good = refl

after_work-up : after_work.db.outage after_work.db.calls ≡ false
unfolding WorkerLaws.record_entries WorkerLaws.record_entry WorkerContext.add_user_turn
    WorkerContext.add_assistant_turn WorkerContext.add_tool_result_turn add_task_instance_turn
after_work-up = refl

after_talk-good :
    (OrchestratorLaws.record_entries sample_codec session_entries an_orchestrator).0 ≡ true
unfolding OrchestratorLaws.record_entries OrchestratorLaws.record_entry
    OrchestratorContext.add_user_turn OrchestratorContext.add_assistant_turn
    OrchestratorContext.add_tool_result_turn add_session_turn
after_talk-good = refl

after_talk-up : after_talk.db.outage after_talk.db.calls ≡ false
unfolding OrchestratorLaws.record_entries OrchestratorLaws.record_entry
    OrchestratorContext.add_user_turn OrchestratorContext.add_assistant_turn
    OrchestratorContext.add_tool_result_turn add_session_turn
after_talk-up = refl

worker_context-resumes_example :
    let (r, s') =
      WorkerContext.load_history
        (record { db = after_work.db; context = new_context_manager after_work.context.owner }) in
    (r ≡ ok tt)
    × (s'.context.current_turn_id ≡ after_work.context.current_turn_id)
    × ((system_prompt additional : String)
        → WorkerContext.build_messages sample_codec system_prompt additional s'.context
          ≡ WorkerContext.build_messages sample_codec system_prompt additional after_work.context)
worker_context-resumes_example =
    worker_context-resumes sample_codec 1 a_db worker_entries sample_codec-KeepsJson refl
      after_work-good after_work-up

orchestrator_context-resumes_example :
    let (r, s') =
      OrchestratorContext.load_history
        (record { db = after_talk.db; context = new_context_manager after_talk.context.owner }) in
    (r ≡ ok tt)
    × (s'.context.current_turn_id ≡ after_talk.context.current_turn_id)
    × ((system_prompt additional : String)
        → OrchestratorContext.build_messages sample_codec system_prompt additional s'.context
          ≡ OrchestratorContext.build_messages sample_codec system_prompt additional
              after_talk.context)
orchestrator_context-resumes_example =
    orchestrator_context-resumes sample_codec 5 a_db session_entries sample_codec-KeepsJson refl
      after_talk-good after_talk-up

worker_answer-message_example :
    WorkerContext.build_messages sample_codec "be kind" ""
      (WorkerContext.add_assistant_turn sample_codec 3 "two"
        (a_call ∷ a_call ∷ [])
        4
        5
        a_worker).1.context
    ≡ WorkerContext.build_messages sample_codec "be kind" "" a_worker.context
      ++ (record {
        role = assistant;
        content = "two";
        tool_calls = WorkerLaws.shown_calls (a_call ∷ a_call ∷ []);
        tool_call_id = "";
      })
        ∷ []
worker_answer-message_example =
    worker_answer-message sample_codec 3 "two" (a_call ∷ a_call ∷ []) 4 5 a_worker "be kind" ""

abbrev hello_turn : ConversationTurn
hello_turn = record (message_turn (λ text. text) 8 "hello") { turn_id = 1 }

-- After a restart: the session is in the table, with one turn in its history.
abbrev restarted : SessionState
restarted = record {
  db = record a_db { conversation_history = (5, record hello_turn { action = "old" }) ∷ [] };
  sessions = [];
}

abbrev running : SessionState
running = record { db = a_db; sessions = live 5 9 "token" 1 1 ∷ [] }
