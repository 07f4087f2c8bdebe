-- ===== src/Tests/Coordinator.antt =====
-- The workers and the orchestrator at work, with a model that completes its task at once.
use catgirl.Base.{
  ℕ, ◌≡◌, ◌≤◌, refl, false, [], ◌∷◌, ◌++◌, Option, none, some, String, str_eq, Result, ok, err,
  unavailable, length, map, if◌then◌else◌,
}
use catgirl.Models.{Priority, AgentId, TaskInstance, general_purpose}
use catgirl.Repository.{Db, create_task_instance, update_task_instance}
use catgirl.Llm.Messages.{ToolCall, ChatMessage, ChatResponse}
use catgirl.Workers.Agent.{AgentInput, InputType, assistant, new_worker_agent}
use catgirl.Runtime.Context.{new_context_manager}
use catgirl.Runtime.WorkerContext.{add_user_turn}
use catgirl.Runtime.Sessions.{live}
use catgirl.Runtime.ParentDepth.{count_parents}
use catgirl.Runtime.ParentDepth.Laws.{ParentsFirst, Depth, count_parents-ends}
use catgirl.Runtime.ParentDepth.Order.{task_statements-ParentsFirst}
use catgirl.Runtime.Coordinator.{External, RuntimeState, WorkerEnv, Work}
use catgirl.Runtime.Coordinator.Tools.{spawn_task}
use catgirl.Runtime.Coordinator.Depths.{DepthSpec, tasks_of, spawn_task-DepthSpec}
use catgirl.Runtime.Coordinator.Loop.{process_calls, handle_input, run_agent_loop, user_message}
use catgirl.Runtime.Coordinator.Execute.{WorkerConfig, no_bot, work_on}
use catgirl.Runtime.Coordinator.Outcome.{Concludes, last_state, call_ids, process_calls-Concludes}
use catgirl.Runtime.Coordinator.Runs.{Left, run_agent_loop-Left}
use catgirl.Runtime.Coordinator.Failures.{GivesUp, handle_input-GivesUp}
use catgirl.Runtime.Coordinator.Passes.{PassSpec, work_on-PassSpec}
use catgirl.Runtime.Orchestrator.{SessionEnv, Talk, first_answer, handle_message}
use catgirl.Runtime.Orchestrator.Laws.{said, course, handle_message-replies, handle_message-course}
use catgirl.Tests.SampleCodec.{sample_codec}
use catgirl.Tests.Fixtures.{a_db, a_task, an_id}
use catgirl.Tests.Runtime.{a_provider}

-- A task, a sub-task of it and one of that.
abbrev deep_db : Db
deep_db = record a_db {
  task_instances =
      a_task 1 Priority.normal 3
      ∷ record (a_task 2 Priority.normal 4) { parent_instance_id = some 1 }
      ∷ record (a_task 3 Priority.normal 5) { parent_instance_id = some 2 }
      ∷ [];
}

deep_db-ParentsFirst : ParentsFirst [] deep_db.task_instances
deep_db-ParentsFirst = (refl, (refl, (refl, tt)))

count_parents-ends_example :
    let rows = length deep_db.task_instances in
    (d : ℕ) × Depth deep_db.task_instances (some 2) d
    × (d ≤ rows)
    × ((fuel : ℕ)
        → rows ≤ fuel
        → count_parents fuel (some 2) 0 deep_db ≡ count_parents rows (some 2) 0 deep_db)
    × ((count_parents rows (some 2) 0 deep_db).0 ≤ d)
    × (((n : ℕ) → deep_db.outage n ≡ false) → (count_parents rows (some 2) 0 deep_db).0 ≡ d)
count_parents-ends_example = count_parents-ends (some 2) deep_db deep_db-ParentsFirst refl

abbrev a_child : TaskInstance
a_child = record (a_task 4 Priority.normal 6) { parent_instance_id = some 3 }

task_statements-ParentsFirst_example :
    ParentsFirst [] (create_task_instance a_child deep_db).1.task_instances
    × ParentsFirst [] (update_task_instance a_child deep_db).1.task_instances
task_statements-ParentsFirst_example =
    task_statements-ParentsFirst a_child deep_db deep_db-ParentsFirst

abbrev done_call : ToolCall
done_call = record { id = "c1"; name = "SET_STATE"; arguments = "done" }

abbrev reply_call : ToolCall
reply_call = record { id = "c2"; name = "SEND_MESSAGE"; arguments = "hello" }

abbrev an_answer : ChatMessage
an_answer = record {
  role = assistant;
  content = "thinking";
  tool_calls = reply_call ∷ done_call ∷ [];
  tool_call_id = "";
}

abbrev a_response : ChatResponse
a_response = record {
  model = "small";
  choices = an_answer ∷ [];
  prompt_tokens = 4;
  completion_tokens = 5;
}

abbrev argument : String → String → Option String
argument arguments key =
    if str_eq key "state"
    then some "COMPLETED"
    else if str_eq key "message"
    then some arguments
    else none

abbrev outside : External (Unit {0})
outside = record {
  chat = λ model messages tools world. (ok a_response, world);
  docker = none;
  draws = λ world. (4, 3, world);
  fresh = λ world. (8, world);
  codec = sample_codec;
  by_key = λ entries. entries;
  as_text = λ j. some j;
  text_arg = argument;
  show_user = λ n. "user";
  summary_json = λ text. text;
  escape = λ text. text;
  text_json = λ text. text;
  show_id = λ id. "id";
  error_text = λ e. "error";
}

abbrev no_answer : External (Unit {0})
no_answer = record outside { chat = λ model messages tools world. (err unavailable, world) }

abbrev a_runtime : RuntimeState (Unit {0})
a_runtime = record {
  db = a_db;
  enqueue_ch = [];
  sessions = live 5 9 "token" 1 1 ∷ [];
  agents = new_worker_agent an_id general_purpose 2 ∷ [];
  blocked_agents = (record { agent_id = an_id; instance_id = 1; container_id = "" }) ∷ [];
  released = [];
  containers = [];
  world = tt;
}

abbrev an_env : WorkerEnv
an_env = record {
  agent_id = an_id;
  session_id = 5;
  bot = no_bot;
  providers = a_provider ∷ [];
  tools = [];
  max_task_depth = 3;
  started = 6;
  now = 7;
}

abbrev a_work : Work (Unit {0})
a_work = record {
  rt = a_runtime;
  task = a_task 1 Priority.normal 3;
  context = new_context_manager 1;
  state_change = "";
}

abbrev go : AgentInput
go = record { kind = InputType.task_start; content = "go"; tool_id = ""; tool_name = "" }

process_calls-Concludes_example :
    let out = process_calls outside an_env (reply_call ∷ done_call ∷ []) a_work in
    Concludes outside an_env (last_state outside an_env (reply_call ∷ done_call ∷ []) "") a_work out
    × (call_ids out.1.context
        ≡ call_ids a_work.context ++ map (λ c. some c.id) (reply_call ∷ done_call ∷ []))
process_calls-Concludes_example =
    process_calls-Concludes outside an_env reply_call (done_call ∷ []) a_work

abbrev deep_work : Work (Unit {0})
deep_work = record a_work {
  rt = record a_runtime { db = deep_db };
  task = record (a_task 3 Priority.normal 5) { parent_instance_id = some 2 };
}

spawn_task-DepthSpec_example :
    (d : ℕ) × Depth deep_db.task_instances (some 3) d
    × DepthSpec 3 d
        (tasks_of outside an_env deep_work)
        (tasks_of outside an_env (spawn_task outside an_env "look it up" deep_work).1)
spawn_task-DepthSpec_example =
    spawn_task-DepthSpec outside an_env "look it up" deep_work (λ n. refl) deep_db-ParentsFirst refl
      refl

run_agent_loop-Left_example :
    Left outside an_env a_work (run_agent_loop outside an_env ((go ∷ []) ∷ []) a_work)
run_agent_loop-Left_example = run_agent_loop-Left outside an_env ((go ∷ []) ∷ []) a_work

handle_input-GivesUp_example :
    GivesUp no_answer an_env unavailable a_work (handle_input no_answer an_env go a_work)
handle_input-GivesUp_example =
    handle_input-GivesUp no_answer an_env unavailable go a_work
      (user_message "go", add_user_turn 7 "go") (λ e. cc, (λ e. cc, tt))
      (λ model messages tools world. refl) refl

abbrev a_worker_config : WorkerConfig
a_worker_config = record {
  bots = [];
  providers = a_provider ∷ [];
  tools = [];
  max_task_depth = 3;
  max_agents = 2;
}

abbrev second_id : AgentId
second_id = record { kind = general_purpose; short = 6 }

work_on-PassSpec_example :
    PassSpec outside a_worker_config 7 second_id
      (a_task 1 Priority.normal 3)
      a_runtime
      (work_on outside a_worker_config 7 6 (a_task 1 Priority.normal 3) ([] ∷ []) a_runtime)
work_on-PassSpec_example =
    work_on-PassSpec outside a_worker_config 7 6 (a_task 1 Priority.normal 3) ([] ∷ []) a_runtime
      refl

abbrev a_session_env : SessionEnv
a_session_env = record {
  session_id = 5;
  telegram_user_id = 9;
  bot = no_bot;
  providers = a_provider ∷ [];
  tools = [];
  max_task_depth = 3;
  now = 7;
}

abbrev a_talk : Talk (Unit {0})
a_talk = record {
  db = a_db;
  enqueue_ch = [];
  context = new_context_manager 5;
  replies = [];
  world = tt;
}

handle_message-replies_example :
    (handle_message outside a_session_env "hi" a_talk).1.replies
    ≡ a_talk.replies
      ++ said outside a_session_env (first_answer outside a_session_env "hi" a_talk).0
handle_message-replies_example = handle_message-replies outside a_session_env "hi" a_talk

handle_message-course_example :
    ((handle_message outside a_session_env "hi" a_talk).0
      ≡ course outside a_session_env (first_answer outside a_session_env "hi" a_talk).0)
    × ((r : Result ChatResponse) × ((first_answer outside a_session_env "hi" a_talk).0 ≡ some r))
handle_message-course_example =
    handle_message-course outside a_session_env "hi" a_talk (λ e. cc, (λ e. cc, tt))
