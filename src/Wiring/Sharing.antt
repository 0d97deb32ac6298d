-- ===== src/Wiring/Sharing.antt =====
-- Each name has one breaker, for good.
use llm_gateway_fallback_rou.Base.{
  ℕ, ◌+◌, ◌<◌, ◌≤◌, String, ◌≡◌, refl, sym, subst, str_eq_refl, ◌∙◌, ◌⊎◌, Bool-cases, true, Option,
  none, some, List, [], ◌∷◌, str_eq, arith, eq_iff, Option-cases, inl, inr,
}
use llm_gateway_fallback_rou.Breaker.{CircuitBreaker, new_breaker}
use llm_gateway_fallback_rou.Chains.{Hop, Chain, resolve_chain}
use llm_gateway_fallback_rou.Config.{Settings}
use llm_gateway_fallback_rou.Wiring.{
  Registry, Provider, Link, find_name, construct, get_provider, add_breaker, get_breaker, attach,
  build_chain, build_router,
}

-- Every reference in the dict has an object, and no two names share one.
pub record IsRegistry (r : Registry) : Type 0 where
  pub live : (p : String) (i : ℕ) → find_name p r.breakers ≡ some i → i < r.allocated
  pub own :
      (p q : String) (i : ℕ)
      → find_name p r.breakers ≡ some i
      → find_name q r.breakers ≡ some i
      → str_eq p q ≡ true

-- What was there stays there, in the state that it is in.
pub record Extends (r r' : Registry) : Type 0 where
  pub more : r.allocated ≤ r'.allocated
  pub kept :
      (p : String) (i : ℕ) → find_name p r.breakers ≡ some i → find_name p r'.breakers ≡ some i
  pub untouched : (i : ℕ) → i < r.allocated → r'.objects i ≡ r.objects i

Extends-refl : (r : Registry) → Extends r r
Extends-refl r = record { more = omega arith; kept = λ p i e. e; untouched = λ i h. refl }

Extends-trans : {r₁ r₂ r₃ : Registry} → Extends r₁ r₂ → Extends r₂ r₃ → Extends r₁ r₃
Extends-trans a b = record {
  more = omega (arith, a.more, b.more);
  kept = λ p i e. b.kept p i (a.kept p i e);
  untouched = λ i h. b.untouched i (omega (arith, h, a.more)) ∙ a.untouched i h;
}

module _ (name : String) (fresh : CircuitBreaker) (r : Registry)
    (new : find_name name r.breakers ≡ none) where
  add_breaker-kept :
      (p : String) (i : ℕ)
      → find_name p r.breakers ≡ some i
      → find_name p (add_breaker name fresh r).breakers ≡ some i
  unfolding find_name
  add_breaker-kept p i e = elim (Bool-cases (str_eq p name)) [
    | inl same ↦ cc (e, new, (eq_iff p name).0 same)
    | inr other ↦ rw (other, find_name) e
  ]

  add_breaker-found :
      (p : String) (i : ℕ)
      → find_name p (add_breaker name fresh r).breakers ≡ some i
      → ((str_eq p name ≡ true) × (i ≡ r.allocated)) ⊎ (find_name p r.breakers ≡ some i)
  unfolding find_name
  add_breaker-found p i e = ground arith

  add_breaker-Extends : Extends r (add_breaker name fresh r)
  add_breaker-Extends = record {
    more = omega arith;
    kept = add_breaker-kept;
    untouched = λ i h. ground (arith, h);
  }

  add_breaker-live :
      IsRegistry r
      → (p : String) (i : ℕ) → find_name p (add_breaker name fresh r).breakers ≡ some i
      → i < r.allocated + 1
  add_breaker-live w p i e = elim (add_breaker-found p i e) [
    | inl (same, at) ↦ omega (arith, at)
    | inr old ↦ omega (arith, w.live p i old)
  ]

  add_breaker-own :
      IsRegistry r
      → (p q : String) (i : ℕ) → find_name p (add_breaker name fresh r).breakers ≡ some i
      → find_name q (add_breaker name fresh r).breakers ≡ some i
      → str_eq p q ≡ true
  add_breaker-own w p q i e f = elim (add_breaker-found p i e) [
    | inl (same, at) ↦ elim (add_breaker-found q i f) [
      | inl (same', at') ↦ ground (arith, same, same', eq_iff p name, eq_iff q name, eq_iff p q)
      | inr old ↦ absurd (omega (arith, w.live q i old, at))
    ]
    | inr old ↦ elim (add_breaker-found q i f) [
      | inl (same', at') ↦ absurd (omega (arith, w.live p i old, at'))
      | inr old' ↦ w.own p q i old old'
    ]
  ]

  add_breaker-IsRegistry : IsRegistry r → IsRegistry (add_breaker name fresh r)
  add_breaker-IsRegistry w = record { live = add_breaker-live w; own = add_breaker-own w }

-- What `_get_breaker` answers is the breaker of the name, now and from now on.
abbrev Gets : String → Registry → ℕ × Registry → Type 0
Gets name r (i, r') = (find_name name r'.breakers ≡ some i) × IsRegistry r' × Extends r r'

added-Gets :
    (name : String) (fresh : CircuitBreaker) (r : Registry)
    → find_name name r.breakers ≡ none
    → IsRegistry r
    → Gets name r (r.allocated, add_breaker name fresh r)
unfolding find_name
added-Gets name fresh r new w = (
  ground (arith, str_eq_refl name),
  add_breaker-IsRegistry name fresh r new w,
  add_breaker-Extends name fresh r new,
)

get_breaker-Gets :
    (s : Settings) (name : String) (r : Registry)
    → IsRegistry r
    → Gets name r (get_breaker s name r)
unfolding get_breaker
get_breaker-Gets s name r w = elim (Option-cases (find_name name r.breakers)) [
  | inl e ↦
      rw (e, get_breaker)
        (added-Gets name
          (new_breaker s.circuit_breaker_failure_threshold s.circuit_breaker_cooldown_seconds) r e
          w)
  | inr (i, e) ↦ rw (e, get_breaker) (e, w, Extends-refl r)
]

-- `_get_provider` changes nothing but its own dict.
pub get_provider-instances :
    (s : Settings) (name : String) (r : Registry)
    → (instances : List (String × Provider)) × ((get_provider s name r).1
        ≡ record r { instances = instances })
unfolding get_provider
get_provider-instances s name r = elim (Option-cases (find_name name r.instances)) [
  | inl e ↦ elim (Option-cases (construct s name)) [
    | inl f ↦ rw (e, get_provider) (rw f (r.instances, refl))
    | inr (p, f) ↦ rw (e, get_provider) (rw f ((name, p) ∷ r.instances, refl))
  ]
  | inr (p, e) ↦ rw (e, get_provider) (r.instances, refl)
]

get_provider-Extends :
    (s : Settings) (name : String) (r : Registry) → Extends r (get_provider s name r).1
get_provider-Extends s name r =
    let (instances, e) = get_provider-instances s name r in
    subst (Extends r) (sym e)
      (record { more = omega arith; kept = λ p i found. found; untouched = λ i h. refl })

get_provider-IsRegistry :
    (s : Settings) (name : String) (r : Registry)
    → IsRegistry r
    → IsRegistry (get_provider s name r).1
get_provider-IsRegistry s name r w =
    let (instances, e) = get_provider-instances s name r in
    subst IsRegistry (sym e) (record { live = w.live; own = w.own })

-- Each link has the model of its hop, and the breaker that the registry keeps for its provider.
abbrev pub Linked : Registry → Chain → List Link → Type 0
Linked r [] [] = Unit
Linked r [] (l ∷ ls) = ⊥
Linked r (h ∷ hs) [] = ⊥
Linked r (h ∷ hs) (l ∷ ls) =
    (l.model ≡ h.model) × (find_name h.provider r.breakers ≡ some l.breaker) × Linked r hs ls

-- What building a chain from `r` leaves, if it raises nothing.
abbrev Built : Chain → Registry → Option (List Link) × Registry → Type 0
Built chain r (some ls, r') = IsRegistry r' × Extends r r' × Linked r' chain ls
Built chain r (none, r') = IsRegistry r' × Extends r r'

attach-Built :
    (h : Hop) (hs : Chain) (l : Link) (r₁ r₂ : Registry) (rest : Option (List Link) × Registry)
    → l.model ≡ h.model
    → Extends r₁ r₂
    → find_name h.provider r₂.breakers ≡ some l.breaker
    → Built hs r₂ rest
    → Built (h ∷ hs) r₁ (attach l rest)
attach-Built h hs l r₁ r₂ (some ls, r') m x f (w, y, linked) =
    (w, Extends-trans x y, (m, y.kept h.provider l.breaker f, linked))
attach-Built h hs l r₁ r₂ (none, r') m x f (w, y) = (w, Extends-trans x y)

build_chain-Built :
    (s : Settings) (chain : Chain) (r : Registry)
    → IsRegistry r
    → Built chain r (build_chain s chain r)
unfolding build_chain
build_chain-Built s [] r w = (w, Extends-refl r, tt)
build_chain-Built s (h ∷ hs) r w =
    let (p, r₁) = get_provider s h.provider r in
    let w₁ = get_provider-IsRegistry s h.provider r w in
    let x₁ = get_provider-Extends s h.provider r in
    let (i, r₂) = get_breaker s h.provider r₁ in
    let got = get_breaker-Gets s h.provider r₁ w₁ in
    by_provider p r₁ i r₂ w₁ x₁ got (build_chain-Built s hs r₂ got.1)
  where
    by_provider :
        (p : Option Provider) (r₁ : Registry) (i : ℕ) (r₂ : Registry)
        → IsRegistry r₁
        → Extends r r₁
        → Gets h.provider r₁ (i, r₂)
        → Built hs r₂ (build_chain s hs r₂)
        → Built (h ∷ hs) r (elim p as (λ _. Option (List Link) × Registry) [
          | none ↦ (none, r₁)
          | some provider ↦
              attach
                (record { provider = provider; model = h.model; breaker = i })
                (build_chain s hs r₂)
        ])
    by_provider none r₁ i r₂ w₁ x₁ got rest = (w₁, x₁)
    by_provider (some p) r₁ i r₂ w₁ x₁ (f, w₂, x₂) rest =
        attach-Built h hs (record { provider = p; model = h.model; breaker = i }) r r₂
          (build_chain s hs r₂) refl (Extends-trans x₁ x₂) f rest

-- What `build_router` leaves from `r`, for a chain.
abbrev pub Wired : Chain → Registry → Option (String × List Link) × Registry → Type 0
Wired chain r (some (name, links), r') = IsRegistry r' × Extends r r' × Linked r' chain links
Wired chain r (none, r') = IsRegistry r' × Extends r r'

build_router-Wired_by :
    (chain : Chain) (r : Registry) (name : String) (built : Option (List Link) × Registry)
    → Built chain r built
    → Wired chain r (elim built.0 [ some ls ↦ some (name, ls) | none ↦ none ], built.1)
build_router-Wired_by chain r name (some ls, r') b = b
build_router-Wired_by chain r name (none, r') b = b

-- However many routers have been built: the next one gets, for each hop of its chain in order,
-- the hop's model and the one breaker of the hop's provider. No two names share a breaker, and
-- every breaker that was there is kept under its name and in its state.
pub build_router-Wired :
    (s : Settings) (requested : String) (r : Registry)
    → IsRegistry r
    → Wired (resolve_chain requested).1 r (build_router s requested r)
unfolding build_router
build_router-Wired s requested r w =
    let (name, chain) = resolve_chain requested in
    build_router-Wired_by chain r name (build_chain s chain r) (build_chain-Built s chain r w)
