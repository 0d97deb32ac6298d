-- ===== src/Endpoints/Handler.antt =====
-- What the handler of a request that is not streamed costs, behind the dependencies.
use llm_gateway_fallback_rou.Base.{
  ℕ, String, ◌≡◌, ◌⊎◌, refl, sym, subst, ap, ◌∙◌, Bool, true, false, not, Option, some, List, [],
  str_eq, pos, ◌+ℤ◌, arith, All, inl, inr, int_laws, parts_of_eq,
}
use llm_gateway_fallback_rou.Chains.{Hop, Chain, find_chain, fallback_chains, resolve_chain}
use llm_gateway_fallback_rou.Chains.Table.{everywhere, find_chain-every, every-All}
use llm_gateway_fallback_rou.Chains.Resolve.{resolve_chain_lem}
use llm_gateway_fallback_rou.Providers.{ChatMessage, ChatResponse, SamplingParams, total_chars}
use llm_gateway_fallback_rou.Ledger.{
  Env, Store, Exc, failure, cancellation, provider_exhausted, key_exhausted, key_error, http,
  Result, ok, err, Quiet,
}
use llm_gateway_fallback_rou.ProviderBudget.Outcomes.{charge}
use llm_gateway_fallback_rou.KeyBudget.Outcomes.{OnePeriod, share}
use llm_gateway_fallback_rou.Settlement.BestEffort.{is_cancelled, Uncancelled, settle_chain_ok}
use llm_gateway_fallback_rou.Settlement.{Reservations, settle_chain}
use llm_gateway_fallback_rou.Reservation.{reserve_chain, reserve_hops, max_output}
use llm_gateway_fallback_rou.Reservation.Conservation.{Conserved, reserve_hops-Conserved}
use llm_gateway_fallback_rou.Router.{
  Upstream, Router, RouterResult, RouteError, served, all_failed, other_exception, chat,
}
use llm_gateway_fallback_rou.Router.Answers.{Accounts, chat-Accounts}
use llm_gateway_fallback_rou.Serving.{
  serve_chat, cost_of, route, run_router, chat_endpoint, audit_row, count_request,
}
use llm_gateway_fallback_rou.Serving.BestEffort.{served_stays_served, record_audit_log_ok}
use llm_gateway_fallback_rou.Serving.Costs.{
  Named, All-Among, request_costs, billed_provider, billed_cost,
}
use llm_gateway_fallback_rou.Endpoints.{answer}

-- By the response: an answer has moved its provider's total and the caller's month by its price,
-- a refusal with a status has moved nothing. An exception or a cancellation promises nothing.
abbrev pub Billed :
    Env → String → ℕ → Store → String → String → ℕ → Result ChatResponse × Store × Router → Type 0
Billed env k now s q h m (ok x, s', r) =
    (s'.providers q ≡ s.providers q +ℤ pos (charge x.provider (cost_of x) q))
    × (s'.months h m ≡ s.months h m +ℤ pos (share env k now (cost_of x) h m))
Billed env k now s q h m (err (http status detail), s', r) =
    (s'.providers q ≡ s.providers q) × (s'.months h m ≡ s.months h m)
Billed env k now s q h m (err _, s', r) = Unit

pub Billed-err :
    (env : Env) (k : String) (now : ℕ) (s : Store) (q h : String) (m : ℕ) (e : Exc) (s' : Store)
    (r : Router)
    → (s'.providers q ≡ s.providers q) × (s'.months h m ≡ s.months h m)
    → Billed env k now s q h m (err e, s', r)
Billed-err env k now s q h m (http status detail) s' r same = same
Billed-err env k now s q h m failure s' r same = tt
Billed-err env k now s q h m cancellation s' r same = tt
Billed-err env k now s q h m (provider_exhausted p a b) s' r same = tt
Billed-err env k now s q h m (key_exhausted a b) s' r same = tt
Billed-err env k now s q h m key_error s' r same = tt

has_name : Hop → Bool
has_name h = not (str_eq h.provider "")

fallback_chains_named : everywhere has_name fallback_chains ≡ true
unfolding has_name
fallback_chains_named = refl

pub nothing_charged : (q : String) → charge "" 0 q ≡ 0
nothing_charged q = ground arith

pub nothing_shared :
    (env : Env) (k : String) (now : ℕ) (h : String) (m : ℕ) → share env k now 0 h m ≡ 0
nothing_shared env k now h m = ground arith

-- With Redis answering, inside one period, and no audit transaction cancelled.
pub record Calm (env : Env) (now : ℕ) : Type 0 where
  pub quiet : Quiet env
  pub one : OnePeriod env now
  pub database : (n : ℕ) → is_cancelled (env.database n) ≡ false

pub reserve_chain_found :
    (env : Env) (k name : String) (chain : Chain) (messages : List ChatMessage)
    (params : Option SamplingParams) (s : Store)
    → find_chain name fallback_chains ≡ some chain
    → reserve_chain env name messages params k s
      ≡ reserve_hops env k chain (total_chars messages) (max_output params) s
unfolding reserve_chain
reserve_chain_found env k name chain messages params s e = rw (e, reserve_chain) refl

pub route_cases :
    (env : Env) (requested : String) (strict : Option Bool)
    → (route env requested strict ≡ err (http 404 "unknown model"))
      ⊎ (route env requested strict ≡ ok (resolve_chain requested))
unfolding route
route_cases env requested strict = ground arith

module _ (env : Env) (now : ℕ) (calm : Calm env now) where
  wires : Uncancelled env
  wires n = rw (calm.quiet n) refl

  failed_answer :
      (k : String) (res : Reservations) (errors : List RouteError) (s : Store)
      → (serve_chat env k res (all_failed errors) s).0 ≡ err (http 502 "all providers failed")
  unfolding serve_chat
  failed_answer k res errors s =
      let s₁ = count_request "error" (settle_chain env k res "" 0 s).1 in
      rw (settle_chain_ok env wires k res "" 0 s)
        (rw (record_audit_log_ok env (audit_row "error" "" 0 0 0) s₁ calm.database) refl)

  served-Billed :
      (k q h : String) (m : ℕ) (chain : Chain) (chars max_out : ℕ) (s : Store) (res : Reservations)
      (skip : List String) (outcome : RouterResult) (router : Router)
      → (reserve_hops env k chain chars max_out s).0 ≡ ok (res, skip)
      → (str_eq (billed_provider outcome) "" ≡ true → billed_cost outcome ≡ 0)
      → let (r, s₂) = serve_chat env k res outcome (reserve_hops env k chain chars max_out s).1 in
        Billed env k now s q h m (r, s₂, router)
  unfolding serve_chat
  served-Billed k q h m chain chars max_out s res skip (served x) router e nothing =
      let s₁ = (reserve_hops env k chain chars max_out s).1 in
      let s₂ = (serve_chat env k res (served x) s₁).1 in
      subst (λ r. Billed env k now s q h m (r, s₂, router))
        (sym (served_stays_served env k res x s₁ wires calm.database))
        (request_costs env calm.quiet now calm.one k s chain chars max_out q h m res skip (served x)
          e (λ b d. cc d) nothing)
  served-Billed k q h m chain chars max_out s res skip (all_failed errors) router e nothing =
      let s₁ = (reserve_hops env k chain chars max_out s).1 in
      let s₂ = (serve_chat env k res (all_failed errors) s₁).1 in
      let exact =
        request_costs env calm.quiet now calm.one k s chain chars max_out q h m res skip
          (all_failed errors) e (λ b d. cc d) nothing in
      subst (λ r. Billed env k now s q h m (r, s₂, router)) (sym (failed_answer k res errors s₁))
        (
          omega (int_laws, parts_of_eq exact.0, nothing_charged q),
          omega (int_laws, parts_of_eq exact.1, nothing_shared env k now h m),
        )
  served-Billed k q h m chain chars max_out s res skip (other_exception true) router e nothing = tt
  served-Billed k q h m chain chars max_out s res skip (other_exception false) router e nothing = tt

  -- with a router whose adapters answer under their own names
  module _ (up : Upstream) (named : Named up) where
    chat-billed_cost :
        (skip : List String) (chain : Chain) (outcome : RouterResult)
        → All (λ h. has_name h ≡ true) chain
        → Accounts up skip chain [] outcome
        → str_eq (billed_provider outcome) "" ≡ true
        → billed_cost outcome ≡ 0
    unfolding has_name
    chat-billed_cost skip chain (served x) names (hop, among, kept, (n, y, answer, same)) e =
        let p : x.provider ≡ hop.provider =
          ap (λ (r : ChatResponse). r.provider) same ∙ named n hop y answer in
        let has = All-Among (λ h. has_name h ≡ true) hop chain names among in
        absurd (ground (arith, has, p, e))
    chat-billed_cost skip chain (all_failed errors) names account e = refl
    chat-billed_cost skip chain (other_exception interrupted) names account e = refl

    reserved-Billed :
        (k q h : String) (m : ℕ) (chain : Chain) (chars max_out : ℕ) (s : Store) (router : Router)
        (claims : Result (Reservations × List String))
        → All (λ h. has_name h ≡ true) chain
        → (reserve_hops env k chain chars max_out s).0 ≡ claims
        → let s₁ = (reserve_hops env k chain chars max_out s).1 in
          Billed env k now s q h m (elim claims as (λ _. Result ChatResponse × Store × Router) [
            | err e ↦ (err e, s₁, router)
            | ok c ↦ run_router env up k chain c router s₁
          ])
    unfolding run_router
    reserved-Billed k q h m chain chars max_out s router (err x) names e =
        let s₁ = (reserve_hops env k chain chars max_out s).1 in
        Billed-err env k now s q h m x s₁ router (
          subst (λ c. Conserved env k now s q h m (c, s₁)) e
            (reserve_hops-Conserved env calm.quiet now calm.one k s chain chars max_out q h m))
    reserved-Billed k q h m chain chars max_out s router (ok (res, skip)) names e =
        let (outcome, router') = chat up skip chain router in
        served-Billed k q h m chain chars max_out s res skip outcome router' e
          (chat-billed_cost skip chain outcome names (chat-Accounts up skip chain router))

    claimed-Billed :
        (k q h : String) (m : ℕ) (chain : Chain) (chars max_out : ℕ) (s : Store) (router : Router)
        (p : Result (Reservations × List String) × Store)
        → All (λ h. has_name h ≡ true) chain
        → reserve_hops env k chain chars max_out s ≡ p
        → Billed env k now s q h m (elim p.0 as (λ _. Result ChatResponse × Store × Router) [
          | err e ↦ (err e, p.1, router)
          | ok c ↦ run_router env up k chain c router p.1
        ])
    claimed-Billed k q h m chain chars max_out s router p names e =
        subst
          (λ p. Billed env k now s q h m (elim p.0 as (λ _. Result ChatResponse × Store × Router) [
            | err e ↦ (err e, p.1, router)
            | ok c ↦ run_router env up k chain c router p.1
          ]))
          e
          (reserved-Billed k q h m chain chars max_out s router
            (reserve_hops env k chain chars max_out s).0 names refl)

    pub chat_endpoint-Billed :
        (k q h : String) (m : ℕ) (requested : String) (strict : Option Bool)
        (messages : List ChatMessage) (params : Option SamplingParams) (router : Router) (s : Store)
        → Billed env k now s q h m
            (chat_endpoint env up requested strict messages params k router s)
    unfolding chat_endpoint
    chat_endpoint-Billed k q h m requested strict messages params router s =
        let (name, chain) = resolve_chain requested in
        let there = (resolve_chain_lem requested).0 in
        let names =
          every-All has_name (λ h e. e) chain
            (find_chain-every has_name name fallback_chains fallback_chains_named there) in
        elim (route_cases env requested strict) [
          | inl refused ↦ rw (refused, chat_endpoint) (refl, refl)
          | inr routed ↦
              rw (routed, chat_endpoint)
                (claimed-Billed k q h m chain (total_chars messages) (max_output params) s router
                  (reserve_chain env name messages params k s) names
                  (sym (reserve_chain_found env k name chain messages params s there)))
        ]
