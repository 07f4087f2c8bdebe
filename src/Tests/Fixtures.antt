-- ===== src/Tests/Fixtures.antt =====
-- Test data: a session with a family of tasks, an agent, and the database that holds them.
use catgirl.Base.{false, [], ◌∷◌, none, some, pos}
use catgirl.Models.{
  Uuid, Time, TaskStatus, Priority, general_purpose, TaskInstance, TaskFamily, Session,
  SessionStatus, AgentId,
}
use catgirl.Repository.{Db}

abbrev pub a_task : Uuid → Priority → Time → TaskInstance
a_task id priority created = record {
  instance_id = id;
  task_id = 7;
  description = "a task";
  agent_type = general_purpose;
  status = TaskStatus.pending;
  priority = priority;
  priority_score = pos 0;
  assigned_agent_id = none;
  parent_instance_id = none;
  created_at = created;
  started_at = none;
  completed_at = none;
  result = "";
  error = none;
  constraints = "";
}

abbrev pub a_family : TaskFamily
a_family = record {
  task_id = 7;
  session_id = 5;
  container_id = "";
  root_description = "a family";
  status = TaskStatus.in_progress;
  max_depth_reached = 0;
  created_at = 1;
  completed_at = none;
  container_snapshot_id = none;
}

abbrev pub a_session : Session
a_session = record {
  id = 5;
  telegram_user_id = 9;
  bot_token = "token";
  name = "session_5";
  status = SessionStatus.active;
  created_at = 1;
  updated_at = 1;
  orchestrator_state = "";
  metadata = "";
}

abbrev pub a_db : Db
a_db = record {
  sessions = a_session ∷ [];
  telegram_users = [];
  task_families = a_family ∷ [];
  task_instances = a_task 1 Priority.normal 3 ∷ [];
  task_owner_channels = [];
  container_snapshots = [];
  agents = [];
  working_memory = [];
  long_term_memories = [];
  usage_records = [];
  conversation_history = [];
  session_turns = [];
  task_instance_turns = [];
  calls = 0;
  outage = λ n. false;
  as_jsonb = λ j. some j;
}

abbrev pub an_id : AgentId
an_id = record { kind = general_purpose; short = 4 }
