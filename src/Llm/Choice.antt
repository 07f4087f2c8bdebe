-- ===== src/Llm/Choice.antt =====
-- llm.go: `GetRandomModel`. What `rand.Intn` draws is an argument; `rand.Intn(0)` panics, and so
-- does an index that is out of range: both are `none`.
pub mod Laws
use catgirl.Base.{
  ℕ, zero, suc, ◌+◌, ◌<◌, ◌≡◌, refl, ap, sym, ◌∙◌, Bool, true, false, List, [], ◌∷◌, Option, none,
  some, String, str_eq, eq_iff, if◌then◌else◌, length, get_elem?, Mem, Bool-cases, inl, inr, arith,
  All, any, ◌⊎◌, ◌==◌, ◌%◌,
}
use catgirl.Config.{ModelProviderConfig}

pub record ModelConfig : Type 0 where
  pub model : String
  pub base_url : String
  pub api_key : String

abbrev pub no_model : ModelConfig
no_model = record { model = ""; base_url = ""; api_key = "" }

abbrev pub of_provider : ModelProviderConfig → String → ModelConfig
of_provider provider m = record {
  model = m;
  base_url = provider.base_url;
  api_key = provider.api_key;
}

abbrev pub lists_model : String → ModelProviderConfig → Bool
lists_model preferred provider = any (λ m. str_eq m preferred) provider.models

-- The two loops that look for the preferred model.
abbrev pub search_preferred : String → List ModelProviderConfig → Option ModelConfig
search_preferred preferred [] = none
search_preferred preferred (provider ∷ rest) =
    if lists_model preferred provider
    then some (of_provider provider preferred)
    else search_preferred preferred rest

-- `rand.Intn(n)`, from the number that the generator yields.
abbrev pub intn : ℕ → ℕ → Option ℕ
intn draw zero = none
intn draw (suc n) = some (draw % suc n)

abbrev pub pick {ℓ} : {A : Type ℓ} → List A → Option ℕ → Option A
pick xs none = none
pick xs (some i) = get_elem? xs i

abbrev pub chosen : ModelProviderConfig → Option String → Option ModelConfig
chosen provider none = none
chosen provider (some m) = some (of_provider provider m)

abbrev pub pick_model : ℕ → Option ModelProviderConfig → Option ModelConfig
pick_model draw none = none
pick_model draw (some provider) =
    chosen provider (pick provider.models (intn draw (length provider.models)))

abbrev pub or_random : Option ModelConfig → Option ModelConfig → Option ModelConfig
or_random (some m) random = some m
or_random none random = random

unfoldable pub get_random_model : ℕ → ℕ → List ModelProviderConfig → String → Option ModelConfig
get_random_model draw draw' [] preferred = some no_model
get_random_model draw draw' providers preferred =
    or_random (if str_eq preferred "" then none else search_preferred preferred providers)
      (pick_model draw' (pick providers (intn draw (length providers))))
