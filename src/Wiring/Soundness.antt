-- ===== src/Wiring/Soundness.antt =====
-- The breakers of a process are consistent, whatever it has served.
use llm_gateway_fallback_rou.Base.{
  ℕ, ◌<◌, ◌≡◌, String, refl, sym, subst, Option, none, some, List, [], ◌∷◌, ◌==◌, arith, Bool-cases,
  Option-cases, inl, inr, if◌then◌else◌,
}
use llm_gateway_fallback_rou.Breaker.{CircuitBreaker, new_breaker, Event, step}
use llm_gateway_fallback_rou.Breaker.Sound.{IsSound, new_breaker-IsSound, step-IsSound}
use llm_gateway_fallback_rou.Chains.{Chain, resolve_chain}
use llm_gateway_fallback_rou.Config.{Settings}
use llm_gateway_fallback_rou.Config.Ranges.{Numbers, with_numbers}
use llm_gateway_fallback_rou.Wiring.{
  Registry, Provider, Link, find_name, get_provider, add_breaker, get_breaker, attach, build_chain,
  build_router,
}
use llm_gateway_fallback_rou.Wiring.Sharing.{get_provider-instances}

-- What happens to the breakers of a process: a router is built, or a method of one is called.
pub data RouterTurn : Type 0 where
  build_for : String → RouterTurn
  call_breaker : ℕ → Event → RouterTurn

abbrev on_object : ℕ → Event → Registry → Registry
on_object i e r = record r { objects = λ j. if j == i then step (r.objects j) e else r.objects j }

abbrev pub take_turn : Settings → RouterTurn → Registry → Registry
take_turn s (build_for requested) r = (build_router s requested r).1
take_turn s (call_breaker i e) r = on_object i e r

abbrev pub take_turns : Settings → List RouterTurn → Registry → Registry
take_turns s [] r = r
take_turns s (t ∷ ts) r = take_turns s ts (take_turn s t r)

abbrev pub AreSound : Registry → Type 0
AreSound r = (i : ℕ) → i < r.allocated → IsSound (r.objects i)

-- the dicts at the start of the process
abbrev pub new_registry : CircuitBreaker → Registry
new_registry b = record { instances = []; breakers = []; objects = λ i. b; allocated = 0 }

attach-registry : (l : Link) (built : Option (List Link) × Registry) → (attach l built).1 ≡ built.1
attach-registry l (some ls, r) = refl
attach-registry l (none, r) = refl

add_breaker-AreSound :
    (name : String) (fresh : CircuitBreaker) (r : Registry)
    → IsSound fresh
    → AreSound r
    → AreSound (add_breaker name fresh r)
add_breaker-AreSound name fresh r new old i h = elim (Bool-cases (i == r.allocated)) [
  | inl e ↦ rw e new
  | inr e ↦ rw e (old i (ground (arith, h, e)))
]

get_provider-AreSound :
    (s : Settings) (name : String) (r : Registry) → AreSound r → AreSound (get_provider s name r).1
get_provider-AreSound s name r old =
    let (instances, e) = get_provider-instances s name r in subst AreSound (sym e) old

module _ (s : Settings) (positive : 0 < s.circuit_breaker_failure_threshold) where
  get_breaker-AreSound :
      (name : String) (r : Registry) → AreSound r → AreSound (get_breaker s name r).1
  unfolding get_breaker
  get_breaker-AreSound name r old = elim (Option-cases (find_name name r.breakers)) [
    | inl e ↦
        let fresh =
          new_breaker s.circuit_breaker_failure_threshold s.circuit_breaker_cooldown_seconds in
        rw (e, get_breaker)
          (add_breaker-AreSound name fresh r
            (new_breaker-IsSound s.circuit_breaker_failure_threshold
              s.circuit_breaker_cooldown_seconds positive)
            old)
    | inr (i, e) ↦ rw (e, get_breaker) old
  ]

  build_chain-AreSound :
      (chain : Chain) (r : Registry) → AreSound r → AreSound (build_chain s chain r).1
  unfolding build_chain
  build_chain-AreSound [] r old = old
  build_chain-AreSound (h ∷ hs) r old =
      let (p, r₁) = get_provider s h.provider r in
      let (i, r₂) = get_breaker s h.provider r₁ in
      let old₁ = get_provider-AreSound s h.provider r old in
      by_provider p r₁ i r₂ old₁
        (build_chain-AreSound hs r₂ (get_breaker-AreSound h.provider r₁ old₁))
    where
      by_provider :
          (p : Option Provider) (r₁ : Registry) (i : ℕ) (r₂ : Registry)
          → AreSound r₁
          → AreSound (build_chain s hs r₂).1
          → AreSound
              (elim p as (λ _. Option (List Link) × Registry) [
                | none ↦ (none, r₁)
                | some provider ↦
                    attach
                      (record { provider = provider; model = h.model; breaker = i })
                      (build_chain s hs r₂)
              ]).1
      by_provider none r₁ i r₂ old₁ rest = old₁
      by_provider (some p) r₁ i r₂ old₁ rest =
          subst AreSound
            (sym (
              attach-registry (record { provider = p; model = h.model; breaker = i })
                (build_chain s hs r₂)))
            rest

  take_turn-AreSound : (t : RouterTurn) (r : Registry) → AreSound r → AreSound (take_turn s t r)
  unfolding build_router
  take_turn-AreSound (build_for requested) r old =
      let (name, chain) = resolve_chain requested in build_chain-AreSound chain r old
  take_turn-AreSound (call_breaker i e) r old = λ j h. elim (Bool-cases (j == i)) [
    | inl same ↦ rw same (step-IsSound (r.objects j) e (old j h))
    | inr other ↦ rw other (old j h)
  ]

  take_turns-AreSound :
      (ts : List RouterTurn) (r : Registry) → AreSound r → AreSound (take_turns s ts r)
  take_turns-AreSound [] r old = old
  take_turns-AreSound (t ∷ ts) r old =
      take_turns-AreSound ts (take_turn s t r) (take_turn-AreSound t r old)

accepted-positive :
    (n : Numbers) (s s' : Settings)
    → with_numbers n s ≡ some s'
    → 0 < s'.circuit_breaker_failure_threshold
unfolding with_numbers
accepted-positive n s s' e = ground (arith, e)

-- A process that has started, so that its numbers are in their ranges, keeps every breaker that it
-- has made consistent: from empty dicts, through any sequence of routers built, for whatever
-- models, and of calls of the methods of its breakers, at any readings of the clock.
pub breakers_stay_sound :
    (n : Numbers) (s s' : Settings) (b : CircuitBreaker) (ts : List RouterTurn)
    → with_numbers n s ≡ some s'
    → AreSound (take_turns s' ts (new_registry b))
breakers_stay_sound n s s' b ts e =
    take_turns-AreSound s' (accepted-positive n s s' e) ts (new_registry b)
      (λ i h. absurd (omega (arith, h)))
