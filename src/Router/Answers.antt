-- ===== src/Router/Answers.antt =====
-- What a router returns: an answer of a hop that it was allowed to use, or an account of every
-- hop of the chain.
use llm_gateway_fallback_rou.Base.{
  ℕ, zero, suc, ◌+◌, String, ◌≡◌, refl, sym, Bool, true, false, Option, none, some, List, [], ◌∷◌,
  ◌++◌, map, member, if◌then◌else◌, Bool-cases, inl, inr, ◌⊎◌, ◌∙◌, append_assoc, append-nil,
  map-append,
}
use llm_gateway_fallback_rou.Chains.{Hop, Chain}
use llm_gateway_fallback_rou.Providers.{ChatResponse}
use llm_gateway_fallback_rou.Router.{
  Upstream, Router, CallResult, responded, provider_error, raised, ask_breaker, call, count_error,
  backoff, try_provider, TryResult, answered, gave_up, crashed, after_tries, visit, walk, chat,
  HopResult, done, skipped, RouteError, out_of_budget, circuit_open, exhausted, RouterResult,
  served, all_failed, other_exception,
}

-- the provider that an entry of `errors` is about
abbrev pub subject : RouteError → String
subject (out_of_budget p) = p
subject (circuit_open p) = p
subject (exhausted p last) = p

abbrev pub Among : Hop → Chain → Type 0
Among h [] = ⊥
Among h (g ∷ gs) = (h ≡ g) ⊎ Among h gs

-- `x` is what some provider call answered for the hop `h`, under the model of the hop.
abbrev pub AnswerOf : Upstream → Hop → ChatResponse → Type 0
AnswerOf up h x =
    (n : ℕ) × (y : ChatResponse) × (up.answer n h ≡ responded y)
    × (x ≡ record y { model = h.model })

abbrev TryAnswers : Upstream → Hop → TryResult → Type 0
TryAnswers up h (answered x) = AnswerOf up h x
TryAnswers up h _ = Unit

-- What a result owes to the hops that were walked.
abbrev pub Accounts : Upstream → List String → Chain → List String → RouterResult → Type 0
Accounts up skip chain before (served x) =
    (h : Hop) × Among h chain × (member h.provider skip ≡ false) × AnswerOf up h x
Accounts up skip chain before (all_failed errors) =
    map subject errors ≡ before ++ map (λ h. h.provider) chain
Accounts up skip chain before (other_exception interrupted) = Unit

-- How a call ended, with the equation.
data Ended (r : CallResult) : Type 0 where
  well : (x : ChatResponse) → r ≡ responded x → Ended r
  badly : (text : String) (retryable : Bool) → r ≡ provider_error text retryable → Ended r
  otherwise : (interrupted : Bool) → r ≡ raised interrupted → Ended r

ended : (r : CallResult) → Ended r
ended (responded x) = well x refl
ended (provider_error text retryable) = badly text retryable refl
ended (raised interrupted) = otherwise interrupted refl

TryAnswers-if :
    (up : Upstream) (h : Hop) (b : Bool) (x y : TryResult × Router)
    → TryAnswers up h x.0
    → TryAnswers up h y.0
    → TryAnswers up h (if b then x else y).0
TryAnswers-if up h true x y a b = a
TryAnswers-if up h false x y a b = b

module _ (up : Upstream) where
  try_provider-TryAnswers :
      (h : Hop) (attempt left retry : ℕ) (last : Option String) (s : Router)
      → TryAnswers up h (try_provider up h attempt left retry last s).0
  unfolding try_provider call
  try_provider-TryAnswers h attempt zero retry last s = tt
  try_provider-TryAnswers h attempt (suc left) retry last s = elim (ended (up.answer s.awaits h)) [
    | well x e ↦ rw (e, try_provider) (s.awaits, x, e, refl)
    | badly text retryable e ↦
        let s' = count_error h (call up h attempt retry s).1 in
        rw (e, try_provider)
          (TryAnswers-if up h retryable
            (try_provider up h attempt left (retry + 1) (some text) (backoff up left s'))
            (gave_up (some text), s')
            (try_provider-TryAnswers h attempt left (retry + 1) (some text) (backoff up left s'))
            tt)
    | otherwise interrupted e ↦ rw (e, try_provider) tt
  ]

  -- What visiting one hop yields.
  abbrev HopAnswers : List String → Hop → HopResult → Type 0
  HopAnswers skip h (done (served x)) = (member h.provider skip ≡ false) × AnswerOf up h x
  HopAnswers skip h (done (all_failed errors)) = ⊥
  HopAnswers skip h (done (other_exception interrupted)) = Unit
  HopAnswers skip h (skipped e) = subject e ≡ h.provider

  after_tries-HopAnswers :
      (skip : List String) (h : Hop) (r : TryResult) (s : Router)
      → member h.provider skip ≡ false
      → TryAnswers up h r
      → HopAnswers skip h (after_tries up h r s).0
  unfolding after_tries
  after_tries-HopAnswers skip h (answered x) s m a = (m, a)
  after_tries-HopAnswers skip h (crashed interrupted) s m a = tt
  after_tries-HopAnswers skip h (gave_up last) s m a = refl

  visit-HopAnswers :
      (skip : List String) (attempt : ℕ) (h : Hop) (s : Router)
      → HopAnswers skip h (visit up skip attempt h s).0
  unfolding visit
  visit-HopAnswers skip attempt h s = elim (Bool-cases (member h.provider skip)) [
    | inl dropped ↦ rw (dropped, visit) refl
    | inr kept ↦
        let (allowed, s₁) = ask_breaker up h.provider s in
        let (r, s₂) = try_provider up h attempt (up.retry_attempts + 1) 0 none s₁ in
        elim (Bool-cases allowed) [
          | inl closed_circuit ↦
              rw (kept, visit)
                (rw closed_circuit (
                  after_tries-HopAnswers skip h r s₂ kept
                    (try_provider-TryAnswers h attempt (up.retry_attempts + 1) 0 none s₁)))
          | inr refused ↦ rw (kept, visit) (rw refused refl)
        ]
  ]

module _ (up : Upstream) (skip : List String) where
  step-Accounts :
      (h : Hop) (hs : Chain) (errors : List RouteError) (e : RouteError) (result : RouterResult)
      → subject e ≡ h.provider
      → Accounts up skip hs (map subject (errors ++ (e ∷ []))) result
      → Accounts up skip (h ∷ hs) (map subject errors) result
  step-Accounts h hs errors e (served x) same (g, among, kept, answer) =
      (g, inr among, kept, answer)
  step-Accounts h hs errors e (all_failed all) same accounts =
      accounts ∙ simp (map-append, append_assoc, same)
  step-Accounts h hs errors e (other_exception interrupted) same accounts = tt

  walk-Accounts :
      (attempt : ℕ) (hs : Chain) (errors : List RouteError) (s : Router)
      → Accounts up skip hs (map subject errors) (walk up skip attempt hs errors s).0
  unfolding walk
  walk-Accounts attempt [] errors s = sym (append-nil (map subject errors))
  walk-Accounts attempt (h ∷ hs) errors s =
      let (r, s') = visit up skip attempt h s in
      next r s' (visit-HopAnswers up skip attempt h s)
        (λ e. walk-Accounts (attempt + 1) hs (errors ++ (e ∷ [])) s')
    where
      next :
          (r : HopResult) (s' : Router)
          → HopAnswers up skip h r
          → ((e : RouteError)
              → Accounts up skip hs
                  (map subject (errors ++ (e ∷ [])))
                  (walk up skip (attempt + 1) hs (errors ++ (e ∷ [])) s').0)
          → Accounts up skip
              (h ∷ hs)
              (map subject errors)
              (elim r as (λ _. RouterResult × Router) [
                | done result ↦ (result, s')
                | skipped e ↦ walk up skip (attempt + 1) hs (errors ++ (e ∷ [])) s'
              ]).0
      next (done (served x)) s' a ih = (h, inl refl, a.0, a.1)
      next (done (all_failed es)) s' a ih = absurd a
      next (done (other_exception interrupted)) s' a ih = tt
      next (skipped e) s' a ih =
          step-Accounts h hs errors e (walk up skip (attempt + 1) hs (errors ++ (e ∷ [])) s').0 a
            (ih e)

  -- An answer that `chat` returns is what some call answered for a hop of the chain that is not
  -- skipped, under the model of that hop. If it reports failure, the errors account for every
  -- hop of the chain, in order and once each.
  pub chat-Accounts :
      (chain : Chain) (s : Router) → Accounts up skip chain [] (chat up skip chain s).0
  unfolding chat
  chat-Accounts chain s = walk-Accounts 0 chain [] s
