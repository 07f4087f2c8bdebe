-- ===== src/Config/Validate.antt =====
-- config.go: `RuntimeConfig.Validate`. It fills the defaults in only after every check has passed.
use catgirl.Base.{ℕ, zero, ℤ, pos, ◌+◌, List, [], ◌∷◌, String, str_eq, if◌then◌else◌}
use catgirl.Config.{ModelProviderConfig, TelegramBotConfig, RuntimeConfig}

-- Each constructor is one of the messages, with the index that it prints.
pub data ConfigError : Type 0 where
  no_providers no_embedding_providers : ConfigError
  provider_without_models embedding_provider_without_models : ℕ → ConfigError
  bot_without_token bot_without_webhook : ℕ → ConfigError

pub data Checked : Type 0 where
  passes : Checked
  refused : ConfigError → Checked

abbrev pub also : Checked → Checked → Checked
also passes next = next
also (refused e) next = refused e

abbrev pub check_models : (ℕ → ConfigError) → ℕ → List String → Checked
check_models problem i [] = refused (problem i)
check_models problem i (m ∷ ms) = passes

abbrev pub check_each : (ℕ → ConfigError) → ℕ → List ModelProviderConfig → Checked
check_each problem i [] = passes
check_each problem i (p ∷ ps) =
    also (check_models problem i p.models) (check_each problem (i + 1) ps)

abbrev pub check_providers : ConfigError → (ℕ → ConfigError) → List ModelProviderConfig → Checked
check_providers missing problem [] = refused missing
check_providers missing problem (p ∷ ps) = check_each problem 0 (p ∷ ps)

abbrev pub check_bots : ℕ → List TelegramBotConfig → Checked
check_bots i [] = passes
check_bots i (b ∷ bs) =
    if str_eq b.bot_token ""
    then refused (bot_without_token i)
    else if str_eq b.webhook_url ""
    then refused (bot_without_webhook i)
    else check_bots (i + 1) bs

abbrev pub check : RuntimeConfig → Checked
check c = also (check_providers no_providers provider_without_models c.llm.providers) (
    also
      (check_providers no_embedding_providers embedding_provider_without_models
        c.llm.embedding_providers)
      (check_bots 0 c.telegram.bots))

abbrev pub or_default : ℤ → ℕ → ℤ
or_default (pos zero) default = pos default
or_default value default = value

abbrev pub or_text : String → String → String
or_text value default = if str_eq value "" then default else value

unfoldable pub with_defaults : RuntimeConfig → RuntimeConfig
with_defaults c = record c {
  global = record c.global {
    max_task_depth = or_default c.global.max_task_depth 3;
    max_queue_size = or_default c.global.max_queue_size 1000;
    tools_dir = or_text c.global.tools_dir "/var/catgirl/tools";
    docker_image = or_text c.global.docker_image "catgirl-runtime:latest";
  };
  agent_pool = record c.agent_pool {
    max_agents = or_default c.agent_pool.max_agents 50;
    min_agents = or_default c.agent_pool.min_agents 5;
  };
  context = record c.context {
    max_tokens = or_default c.context.max_tokens 128_000;
    compaction_threshold = or_default c.context.compaction_threshold 800_000;
    preserve_recent_turns = or_default c.context.preserve_recent_turns 20;
    compaction_agent_type = or_text c.context.compaction_agent_type "reasoner";
  };
  rag = record c.rag {
    default_top_k = or_default c.rag.default_top_k 5;
    auto_retrieve = record c.rag.auto_retrieve {
      top_k = or_default c.rag.auto_retrieve.top_k 3;
      max_results = or_default c.rag.auto_retrieve.max_results 10;
    };
  };
  llm = record c.llm { embedding_dims = or_default c.llm.embedding_dims 1024 };
}

pub data Validation : Type 0 where
  valid : RuntimeConfig → Validation
  invalid : ConfigError → Validation

abbrev pub conclude : RuntimeConfig → Checked → Validation
conclude c passes = valid (with_defaults c)
conclude c (refused e) = invalid e

unfoldable pub validate : RuntimeConfig → Validation
validate c = conclude c (check c)
