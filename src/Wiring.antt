-- ===== src/Wiring.antt =====
-- app/routing/dependencies.py: the providers and breakers that a process keeps, and how a router
-- is built from them. A breaker is an object that requests share, so it is kept by reference.
use llm_gateway_fallback_rou.Base.{
  ℕ, ◌+◌, String, Bool, true, false, not, Option, none, some, List, [], ◌∷◌, ◌==◌, str_eq,
  if◌then◌else◌,
}
use llm_gateway_fallback_rou.Breaker.{CircuitBreaker, new_breaker}
use llm_gateway_fallback_rou.Chains.{Hop, Chain, resolve_chain}
use llm_gateway_fallback_rou.Config.{Settings, is_given}
pub mod Sharing
pub mod Known
pub mod Soundness

-- the objects of `_PROVIDER_INSTANCES`: the stand-in, or an adapter with its key
pub data Provider : Type 0 where
  unconfigured : String → Provider
  openai_provider anthropic_provider : Option String → Provider
  ollama_provider : Provider

-- The two dicts, and the breaker objects by their references.
pub record Registry : Type 0 where
  pub instances : List (String × Provider)
  pub breakers : List (String × ℕ)
  pub objects : ℕ → CircuitBreaker
  pub allocated : ℕ

-- `d[name]`; `none` if the name is not in the dict
unfoldable pub find_name : {A : Type 0} → String → List (String × A) → Option A
find_name name [] = none
find_name name ((n, a) ∷ rest) = if str_eq name n then some a else find_name name rest

-- `OpenAIProvider(…)` and `AnthropicProvider(…)`: the constructor of the SDK's client is relied on
-- with a key that is set, and is taken to raise without one, as that of OpenAI does; `none` is its
-- exception
abbrev pub connect : (Option String → Provider) → Option String → Option Provider
connect make key = if is_given key then some (make key) else none

-- the branches of `_get_provider` on a name that is not there; `none` is the ValueError, or the
-- exception of a client
unfoldable pub construct : Settings → String → Option Provider
construct s name =
    if str_eq name "openai"
    then if not (is_given s.openai_api_key)
      then some (unconfigured name)
      else connect openai_provider s.openai_api_key
    else if str_eq name "anthropic"
    then if not (is_given s.anthropic_api_key)
      then some (unconfigured name)
      else connect anthropic_provider s.anthropic_api_key
    else if str_eq name "ollama"
    then some ollama_provider
    else none

-- `_get_provider`
unfoldable pub get_provider : Settings → String → Registry → Option Provider × Registry
unfolding find_name construct
get_provider s name r = elim (find_name name r.instances) [
  | some p ↦ (some p, r)
  | none ↦ elim (construct s name) [
    | some p ↦ (some p, record r { instances = (name, p) ∷ r.instances })
    | none ↦ (none, r)
  ]
]

-- `_BREAKERS[name] = CircuitBreaker(…)`
abbrev pub add_breaker : String → CircuitBreaker → Registry → Registry
add_breaker name fresh r = record r {
  breakers = (name, r.allocated) ∷ r.breakers;
  objects = λ i. if i == r.allocated then fresh else r.objects i;
  allocated = r.allocated + 1;
}

-- `_get_breaker`
unfoldable pub get_breaker : Settings → String → Registry → ℕ × Registry
unfolding find_name new_breaker
get_breaker s name r = elim (find_name name r.breakers) [
  | some i ↦ (i, r)
  | none ↦ (
    r.allocated,
    add_breaker name
        (new_breaker s.circuit_breaker_failure_threshold s.circuit_breaker_cooldown_seconds) r,
  )
]

-- one triple of a router's chain
pub record Link : Type 0 where
  pub provider : Provider
  pub model : String
  pub breaker : ℕ

abbrev pub attach : Link → Option (List Link) × Registry → Option (List Link) × Registry
attach l (none, r) = (none, r)
attach l (some ls, r) = (some (l ∷ ls), r)

-- The comprehension of `build_router`.
unfoldable pub build_chain : Settings → Chain → Registry → Option (List Link) × Registry
unfolding get_provider get_breaker
build_chain s [] r = (some [], r)
build_chain s (h ∷ hs) r =
    let (p, r₁) = get_provider s h.provider r in
    let (i, r₂) = get_breaker s h.provider r₁ in
    let rest = build_chain s hs r₂ in
    elim p [
      | none ↦ (none, r₁)
      | some provider ↦ attach (record { provider = provider; model = h.model; breaker = i }) rest
    ]

-- `build_router`; `none` is an exception of `_get_provider`
unfoldable pub build_router : Settings → String → Registry → Option (String × List Link) × Registry
unfolding build_chain
build_router s requested r =
    let (name, chain) = resolve_chain requested in
    let (links, r') = build_chain s chain r in
    (elim links [ some ls ↦ some (name, ls) | none ↦ none ], r')
