-- ===== src/Config/Laws.antt =====
-- config.go: what a validated configuration guarantees.
use catgirl.Base.{
  zero, suc, ℤ, pos, negsuc, ◌⊎◌, ℕ, ◌+◌, ◌≡◌, ◌≢◌, refl, ap, List, [], ◌∷◌, String, str_eq,
  Bool-cases, inl, inr, All, eq_iff, subst,
}
use catgirl.Config.{ModelProviderConfig, TelegramBotConfig, RuntimeConfig}
use catgirl.Config.Validate.{
  ConfigError, Checked, passes, refused, also, check_models, check_each, check_providers,
  check_bots, check, or_default, or_text, with_defaults, Validation, valid, invalid, conclude,
  validate, no_providers, no_embedding_providers, provider_without_models,
  embedding_provider_without_models,
}

abbrev pub HasModels : ModelProviderConfig → Type 0
HasModels p = p.models ≢ []

abbrev pub Serves : List ModelProviderConfig → Type 0
Serves providers = (providers ≢ []) × All HasModels providers

abbrev pub IsComplete : TelegramBotConfig → Type 0
IsComplete b = (b.bot_token ≢ "") × (b.webhook_url ≢ "")

also-passes : (a b : Checked) → also a b ≡ passes → (a ≡ passes) × (b ≡ passes)
also-passes passes b h = (refl, h)
also-passes (refused e) b h = cc

check_models-passes :
    (problem : ℕ → ConfigError) (i : ℕ) (models : List String)
    → check_models problem i models ≡ passes
    → models ≢ []
check_models-passes problem i [] h = λ e. cc
check_models-passes problem i (m ∷ ms) h = λ e. cc

check_each-passes :
    (problem : ℕ → ConfigError) (i : ℕ) (ps : List ModelProviderConfig)
    → check_each problem i ps ≡ passes
    → All HasModels ps
check_each-passes problem i [] h = tt
check_each-passes problem i (p ∷ ps) h =
    let both = also-passes (check_models problem i p.models) (check_each problem (i + 1) ps) h in
    (check_models-passes problem i p.models both.0, check_each-passes problem (i + 1) ps both.1)

check_providers-passes :
    (missing : ConfigError) (problem : ℕ → ConfigError) (ps : List ModelProviderConfig)
    → check_providers missing problem ps ≡ passes
    → Serves ps
check_providers-passes missing problem [] h = cc
check_providers-passes missing problem (p ∷ ps) h =
    (λ e. cc, check_each-passes problem 0 (p ∷ ps) h)

check_bots-passes :
    (i : ℕ) (bs : List TelegramBotConfig) → check_bots i bs ≡ passes → All IsComplete bs
check_bots-passes i [] h = tt
check_bots-passes i (b ∷ bs) h = elim (Bool-cases (str_eq b.bot_token "")) [
  | inl e ↦ absurd (refused≢passes (rw e at h))
  | inr token ↦ elim (Bool-cases (str_eq b.webhook_url "")) [
    | inl e ↦ absurd (refused≢passes (rw (token, e) at h))
    | inr url ↦ (
      (λ e. cc (token, (eq_iff b.bot_token "").1 e), λ e. cc (url, (eq_iff b.webhook_url "").1 e)),
      check_bots-passes (i + 1) bs (rw (token, url) at h),
    )
  ]
]
  where
    refused≢passes : {e : ConfigError} → refused e ≢ passes
    refused≢passes h = cc

or_default-stable :
    (value : ℤ) (default : ℕ)
    → or_default (or_default value default) default ≡ or_default value default
or_default-stable (pos zero) zero = refl
or_default-stable (pos zero) (suc d) = refl
or_default-stable (pos (suc n)) default = refl
or_default-stable (negsuc n) default = refl

or_text-stable :
    (value default : String) → or_text (or_text value default) default ≡ or_text value default
or_text-stable value default = elim (Bool-cases (str_eq value "")) [
  | inl e ↦ elim (Bool-cases (str_eq default "")) [
    | inl k ↦ rw (e, k) refl
    | inr k ↦ rw (e, k) refl
  ]
  | inr e ↦ rw (e, e) refl
]

-- A limit after validation: the default for one that was 0 or left out, and otherwise, also below 0,
-- what it was.
abbrev pub Settled : ℤ → ℕ → ℤ → Type 0
Settled value default value' =
    ((value ≡ pos 0) × (value' ≡ pos default)) ⊎ ((value ≢ pos 0) × (value' ≡ value))

or_default-Settled : (value : ℤ) (default : ℕ) → Settled value default (or_default value default)
or_default-Settled (pos zero) default = inl (refl, refl)
or_default-Settled (pos (suc n)) default = inr (λ e. cc, refl)
or_default-Settled (negsuc n) default = inr (λ e. cc, refl)

-- What validation makes of a configuration: models to choose from, bots that can be reached, and
-- limits that are settled.
pub record ConfigIsValid (before c : RuntimeConfig) : Type 0 where
  pub serves : Serves c.llm.providers
  pub serves_embeddings : Serves c.llm.embedding_providers
  pub bots_complete : All IsComplete c.telegram.bots
  pub depth : Settled before.global.max_task_depth 3 c.global.max_task_depth
  pub queue : Settled before.global.max_queue_size 1000 c.global.max_queue_size
  pub most_agents : Settled before.agent_pool.max_agents 50 c.agent_pool.max_agents
  pub least_agents : Settled before.agent_pool.min_agents 5 c.agent_pool.min_agents
  pub tokens : Settled before.context.max_tokens 128_000 c.context.max_tokens
  pub top_k : Settled before.rag.default_top_k 5 c.rag.default_top_k
  pub compaction :
      Settled before.context.compaction_threshold 800_000 c.context.compaction_threshold
  pub recent : Settled before.context.preserve_recent_turns 20 c.context.preserve_recent_turns
  pub retrieved : Settled before.rag.auto_retrieve.top_k 3 c.rag.auto_retrieve.top_k
  pub results : Settled before.rag.auto_retrieve.max_results 10 c.rag.auto_retrieve.max_results
  pub dims : Settled before.llm.embedding_dims 1024 c.llm.embedding_dims

conclude-valid :
    (c c' : RuntimeConfig) (r : Checked)
    → conclude c r ≡ valid c'
    → (r ≡ passes) × (with_defaults c ≡ c')
conclude-valid c c' passes h = (refl, valid-injective h)
  where
    valid_of : Validation → RuntimeConfig
    valid_of (valid d) = d
    valid_of (invalid e) = c'

    valid-injective : {a b : RuntimeConfig} → valid a ≡ valid b → a ≡ b
    valid-injective h = ap valid_of h
conclude-valid c c' (refused e) h = cc

with_defaults_idem : (c : RuntimeConfig) → with_defaults (with_defaults c) ≡ with_defaults c
unfolding with_defaults
with_defaults_idem c =
    rw
      (
        or_default-stable c.global.max_task_depth 3,
        or_default-stable c.global.max_queue_size 1000,
        or_text-stable c.global.tools_dir "/var/catgirl/tools",
        or_text-stable c.global.docker_image "catgirl-runtime:latest",
        or_default-stable c.agent_pool.max_agents 50,
        or_default-stable c.agent_pool.min_agents 5,
        or_default-stable c.context.max_tokens 128_000,
        or_default-stable c.context.compaction_threshold 800_000,
        or_default-stable c.context.preserve_recent_turns 20,
        or_text-stable c.context.compaction_agent_type "reasoner",
        or_default-stable c.rag.default_top_k 5,
        or_default-stable c.rag.auto_retrieve.top_k 3,
        or_default-stable c.rag.auto_retrieve.max_results 10,
        or_default-stable c.llm.embedding_dims 1024,
      )
      refl

check-with_defaults : (c : RuntimeConfig) → check (with_defaults c) ≡ check c
unfolding with_defaults
check-with_defaults c = refl

with_defaults-ConfigIsValid :
    (c : RuntimeConfig) → check c ≡ passes → ConfigIsValid c (with_defaults c)
unfolding with_defaults
with_defaults-ConfigIsValid c h =
    let first =
      also-passes (check_providers no_providers provider_without_models c.llm.providers) _ h in
    let second =
      also-passes
        (check_providers no_embedding_providers embedding_provider_without_models
          c.llm.embedding_providers)
        (check_bots 0 c.telegram.bots) first.1 in
    record {
      serves = check_providers-passes no_providers provider_without_models c.llm.providers first.0;
      serves_embeddings =
          check_providers-passes no_embedding_providers embedding_provider_without_models
            c.llm.embedding_providers second.0;
      bots_complete = check_bots-passes 0 c.telegram.bots second.1;
      depth = or_default-Settled c.global.max_task_depth 3;
      queue = or_default-Settled c.global.max_queue_size 1000;
      most_agents = or_default-Settled c.agent_pool.max_agents 50;
      least_agents = or_default-Settled c.agent_pool.min_agents 5;
      tokens = or_default-Settled c.context.max_tokens 128_000;
      top_k = or_default-Settled c.rag.default_top_k 5;
      compaction = or_default-Settled c.context.compaction_threshold 800_000;
      recent = or_default-Settled c.context.preserve_recent_turns 20;
      retrieved = or_default-Settled c.rag.auto_retrieve.top_k 3;
      results = or_default-Settled c.rag.auto_retrieve.max_results 10;
      dims = or_default-Settled c.llm.embedding_dims 1024;
    }

-- A configuration that passes validation has a model at each of its providers of either kind, a
-- token and a webhook for each bot, the default for each limit that was 0, and its own value, which
-- may be negative, for each other limit; validating it again changes nothing.
pub validate-ConfigIsValid :
    (c c' : RuntimeConfig) → validate c ≡ valid c' → ConfigIsValid c c' × (validate c' ≡ valid c')
unfolding validate
validate-ConfigIsValid c c' h =
    let r = conclude-valid c c' (check c) h in
    (
      subst (ConfigIsValid c) r.1 (with_defaults-ConfigIsValid c r.0),
      subst (λ d. conclude d (check d) ≡ valid d) r.1
          (rw (check-with_defaults c, r.0) (ap valid (with_defaults_idem c))),
    )
