-- ===== src/Config.antt =====
-- config.go: the configuration that the services read, and its validation. Fractions are in
-- millionths. Numbers may be negative. `viper` reads the file; what it yields is the argument of `validate`.
pub mod Validate
pub mod Laws
use catgirl.Base.{ℤ, String, List, Bool}

pub record ModelProviderConfig : Type 0 where
  pub base_url : String
  pub api_key : String
  pub models : List String

pub record GlobalConfig : Type 0 where
  pub max_task_depth : ℤ
  pub max_queue_size : ℤ
  pub tools_dir : String
  pub docker_registry : String
  pub docker_image : String

pub record LlmConfig : Type 0 where
  pub providers : List ModelProviderConfig
  pub embedding_providers : List ModelProviderConfig
  pub embedding_dims : ℤ
  pub max_tokens : ℤ
  pub timeout_secs : ℤ

pub record AgentPoolConfig : Type 0 where
  pub min_agents : ℤ
  pub max_agents : ℤ
  pub idle_timeout_secs : ℤ

pub record RetentionConfig : Type 0 where
  pub completed : String
  pub failed : String
  pub exited : String
  pub interrupted : String

pub record SnapshotConfig : Type 0 where
  pub enabled : Bool
  pub retention : RetentionConfig
  pub storage_path : String
  pub max_storage_bytes : ℤ

pub record TelegramBotConfig : Type 0 where
  pub bot_token : String
  pub webhook_url : String
  pub orchestrator_system_prompt : String
  pub agent_system_prompt : String
  pub allowed_orchestrator_tools : List String
  pub allowed_agent_tools : List String
  pub gp_model : String
  pub reasoner_model : String

pub record TelegramConfig : Type 0 where
  pub bots : List TelegramBotConfig
  pub listen_addr : String

pub record AuthConfig : Type 0 where
  pub mtfpass_url : String
  pub allowed_memberships : List String

pub record ContextConfig : Type 0 where
  pub max_tokens : ℤ
  pub compaction_threshold : ℤ
  pub preserve_recent_turns : ℤ
  pub compaction_agent_type : String

pub record AutoRetrieveConfig : Type 0 where
  pub enabled : Bool
  pub on_llm_call : Bool
  pub top_k : ℤ
  pub max_results : ℤ

pub record RagConfig : Type 0 where
  pub enabled : Bool
  pub default_top_k : ℤ
  pub auto_retrieve : AutoRetrieveConfig
  pub min_similarity : ℤ

pub record RuntimeConfig : Type 0 where
  pub global : GlobalConfig
  pub llm : LlmConfig
  pub agent_pool : AgentPoolConfig
  pub snapshot : SnapshotConfig
  pub telegram : TelegramConfig
  pub auth : AuthConfig
  pub context : ContextConfig
  pub rag : RagConfig
