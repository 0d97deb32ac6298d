-- ===== src/Wiring/Known.antt =====
-- Every provider that a chain names can be built.
use llm_gateway_fallback_rou.Base.{
  ◌≡◌, ◌≢◌, refl, String, Bool, true, Option, none, some, List, [], ◌∷◌, ◌||◌, arith, All, str_eq,
  Option-cases, inl, inr,
}
use llm_gateway_fallback_rou.Chains.{Hop, Chain, fallback_chains, resolve_chain}
use llm_gateway_fallback_rou.Chains.Table.{everywhere, find_chain-every, every-All}
use llm_gateway_fallback_rou.Chains.Resolve.{resolve_chain_lem}
use llm_gateway_fallback_rou.Config.{Settings}
use llm_gateway_fallback_rou.Wiring.{
  Registry, Link, construct, get_provider, get_breaker, attach, build_chain, build_router,
}

is_known : Hop → Bool
is_known h =
    str_eq h.provider "openai" || str_eq h.provider "anthropic" || str_eq h.provider "ollama"

fallback_chains_known : everywhere is_known fallback_chains ≡ true
unfolding is_known
fallback_chains_known = refl

abbrev IsKnown : Settings → Hop → Type 0
IsKnown s h = construct s h.provider ≢ none

is_known-IsKnown : (s : Settings) (h : Hop) → is_known h ≡ true → IsKnown s h
unfolding is_known construct
is_known-IsKnown s h p = ground (arith, p)

get_provider_known :
    (s : Settings) (h : Hop) (r : Registry) → IsKnown s h → (get_provider s h.provider r).0 ≢ none
unfolding get_provider
get_provider_known s h r known = ground (arith, known)

attach_some :
    (l : Link) (built : Option (List Link) × Registry) → built.0 ≢ none → (attach l built).0 ≢ none
attach_some l (some ls, r) h = λ e. cc e
attach_some l (none, r) h = absurd (h refl)

build_chain_known :
    (s : Settings) (chain : Chain) (r : Registry)
    → All (IsKnown s) chain
    → (build_chain s chain r).0 ≢ none
unfolding build_chain
build_chain_known s [] r known = λ e. cc e
build_chain_known s (h ∷ hs) r known =
    let (p, r₁) = get_provider s h.provider r in
    let (i, r₂) = get_breaker s h.provider r₁ in
    elim (Option-cases p) [
      | inl missing ↦ absurd (get_provider_known s h r known.0 missing)
      | inr (provider, e) ↦
          rw (e, build_chain)
            (attach_some (record { provider = provider; model = h.model; breaker = i })
              (build_chain s hs r₂) (build_chain_known s hs r₂ known.1))
    ]

-- `build_router` raises nothing, whatever model is asked for and whatever keys are set or missing,
-- although a client that is constructed without a key raises, and so does an unknown provider: it
-- answers under the name that the model resolves to.
pub build_router_total :
    (s : Settings) (requested : String) (r : Registry)
    → (links : List Link) × ((build_router s requested r).0
        ≡ some ((resolve_chain requested).0, links))
unfolding build_router
build_router_total s requested r =
    let (name, chain) = resolve_chain requested in
    let known = every-All is_known (is_known-IsKnown s) chain (
      find_chain-every is_known name fallback_chains fallback_chains_known
        (resolve_chain_lem requested).0) in
    elim (Option-cases (build_chain s chain r).0) [
      | inl raised ↦ absurd (build_chain_known s chain r known raised)
      | inr (links, e) ↦ (links, rw (e, build_router) refl)
    ]
