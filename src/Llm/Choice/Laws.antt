-- ===== src/Llm/Choice/Laws.antt =====
-- llm.go: what `GetRandomModel` returns.
use catgirl.Base.{
  ℕ, ◌<◌, ◌≡◌, ◌≢◌, refl, ap, ◌∙◌, Bool, true, false, ◌&&◌, List, [], ◌∷◌, Option, none, some,
  String, str_eq, eq_iff, length, get_elem?, any, All, Bool-cases, inl, inr, arith, ◌%◌, zero, suc,
  subst, Option-cases, ◌⊎◌,
}
use native.Mathlib.Nat.{mod-lt, zero-lt-suc}
use catgirl.Config.{ModelProviderConfig}
use catgirl.Config.Laws.{HasModels, Serves}
use catgirl.Llm.Choice.{
  ModelConfig, of_provider, lists_model, search_preferred, intn, pick, pick_model, chosen,
  get_random_model,
}

-- The provider lists the model, and it is its address and its key that are used.
abbrev pub offers : ModelConfig → ModelProviderConfig → Bool
offers m p = lists_model m.model p && (str_eq p.base_url m.base_url && str_eq p.api_key m.api_key)

str_eq_self : (s : String) → str_eq s s ≡ true
str_eq_self s = (eq_iff s s).1 refl

get_elem-lt :
    {A : Type 0} (xs : List A) (i : ℕ) → i < length xs → (x : A) × (get_elem? xs i ≡ some x)
get_elem-lt [] i h = absurd (omega (arith, h))
get_elem-lt (x ∷ xs) zero h = (x, refl)
get_elem-lt (x ∷ xs) (suc i) h = get_elem-lt xs i (omega (arith, h))

-- A draw from a list that is not empty lands in it.
pick-intn :
    {A : Type 0} (draw : ℕ) (xs : List A)
    → xs ≢ []
    → (x : A) × (pick xs (intn draw (length xs)) ≡ some x)
pick-intn draw [] h = absurd (h refl)
pick-intn draw (x ∷ xs) h =
    get_elem-lt (x ∷ xs) (draw % length (x ∷ xs)) (mod-lt draw (zero-lt-suc (length xs)))

get_elem-any :
    {A : Type 0} (p : A → Bool) (xs : List A) (i : ℕ) (x : A)
    → get_elem? xs i ≡ some x
    → p x ≡ true
    → any p xs ≡ true
get_elem-any p [] i x h e = cc
get_elem-any p (y ∷ ys) zero x h e = ground arith
get_elem-any p (y ∷ ys) (suc i) x h e = rw (get_elem-any p ys i x h e) (ground arith)

pick-any :
    {A : Type 0} (p : A → Bool) (xs : List A) (o : Option ℕ) (x : A)
    → pick xs o ≡ some x
    → p x ≡ true
    → any p xs ≡ true
pick-any p xs none x h e = cc
pick-any p xs (some i) x h e = get_elem-any p xs i x h e

pick-All :
    {A : Type 0} (P : A → Type 0) (xs : List A) (o : Option ℕ) (x : A)
    → pick xs o ≡ some x
    → All P xs
    → P x
pick-All P xs none x h all = cc
pick-All P [] (some i) x h all = cc
pick-All P (y ∷ ys) (some zero) x h all = subst P (some-injective h) all.0
  where
    some-injective : some y ≡ some x → y ≡ x
    some-injective e = cc
pick-All P (y ∷ ys) (some (suc i)) x h all = pick-All P ys (some i) x h all.1

-- The model that a draw gives is on offer.
pick_model-offers :
    (draw : ℕ) (providers : List ModelProviderConfig) (o : Option ℕ) (p : ModelProviderConfig)
    → pick providers o ≡ some p
    → All HasModels providers
    → (m : ModelConfig) × (pick_model draw (some p) ≡ some m) × (any (offers m) providers ≡ true)
pick_model-offers draw providers o p picked all =
    let (model, drawn) = pick-intn draw p.models (pick-All HasModels providers o p picked all) in
    let listed : lists_model model p ≡ true =
      pick-any (λ m. str_eq m model) p.models _ model drawn (str_eq_self model) in
    (
      of_provider p model,
      ap (chosen p) drawn,
      pick-any (offers (of_provider p model)) providers o p picked
          (rw (listed, str_eq_self p.base_url, str_eq_self p.api_key) refl),
    )

search_preferred-offers :
    (preferred : String) (providers : List ModelProviderConfig) (m : ModelConfig)
    → search_preferred preferred providers ≡ some m
    → (m.model ≡ preferred) × (any (offers m) providers ≡ true)
search_preferred-offers preferred [] m h = cc
search_preferred-offers preferred (p ∷ ps) m h = elim (Bool-cases (lists_model preferred p)) [
  | inl e ↦
      let same : of_provider p preferred ≡ m = some-injective (rw e at h) in
      subst (λ n. (n.model ≡ preferred) × (any (offers n) (p ∷ ps) ≡ true)) same
        (refl, rw (e, str_eq_self p.base_url, str_eq_self p.api_key) refl)
  | inr e ↦
      let rest = search_preferred-offers preferred ps m (rw e at h) in
      (rest.0, rw (rest.1) (ground arith))
]
  where
    some-injective : {a b : ModelConfig} → some a ≡ some b → a ≡ b
    some-injective e = cc

search_preferred-missing :
    (preferred : String) (providers : List ModelProviderConfig)
    → search_preferred preferred providers ≡ none
    → any (lists_model preferred) providers ≡ false
search_preferred-missing preferred [] h = refl
search_preferred-missing preferred (p ∷ ps) h = elim (Bool-cases (lists_model preferred p)) [
  | inl e ↦ absurd (some≢none (rw e at h))
  | inr e ↦ rw e (search_preferred-missing preferred ps (rw e at h))
]
  where
    some≢none : {m : ModelConfig} → some m ≢ none
    some≢none e = cc

random-offers :
    (draw draw' : ℕ) (providers : List ModelProviderConfig)
    → Serves providers
    → (m : ModelConfig) × (pick_model draw' (pick providers (intn draw (length providers)))
        ≡ some m)
      × (any (offers m) providers ≡ true)
random-offers draw draw' providers h =
    let (p, picked) = pick-intn draw providers h.0 in
    let (m, drawn, offered) = pick_model-offers draw' providers _ p picked h.1 in
    (m, ap (pick_model draw') picked ∙ drawn, offered)

-- Whatever is drawn, with at least one provider and models at each: there is a model, a provider
-- offers it with its own address and key, and it is the preferred one, unless none is preferred or
-- no provider lists that.
pub get_random_model-offers :
    (draw draw' : ℕ) (providers : List ModelProviderConfig) (preferred : String)
    → Serves providers
    → (m : ModelConfig) × (get_random_model draw draw' providers preferred ≡ some m)
      × (any (offers m) providers ≡ true)
      × ((m.model ≡ preferred)
          ⊎ ((preferred ≡ "") ⊎ (any (lists_model preferred) providers ≡ false)))
unfolding get_random_model
get_random_model-offers draw draw' [] preferred h = absurd (h.0 refl)
get_random_model-offers draw draw' (p ∷ ps) preferred h =
    let (m, drawn, offered) = random-offers draw draw' (p ∷ ps) h in
    elim (Bool-cases (str_eq preferred "")) [
      | inl e ↦ rw e (m, drawn, offered, inr (inl ((eq_iff preferred "").0 e)))
      | inr e ↦ elim (Option-cases (search_preferred preferred (p ∷ ps))) [
        | inl missing ↦
            let unlisted = search_preferred-missing preferred (p ∷ ps) missing in
            rw (e, missing) (m, drawn, offered, inr (inr unlisted))
        | inr (found, searched) ↦
            let good = search_preferred-offers preferred (p ∷ ps) found searched in
            rw (e, searched) (found, refl, good.1, inl good.0)
      ]
    ]
