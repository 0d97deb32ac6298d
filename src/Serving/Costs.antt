-- ===== src/Serving/Costs.antt =====
-- What a request that is not streamed costs, end to end.
use native.Mathlib.Nat.{le_trans, le-mul_of_pos_right}
use llm_gateway_fallback_rou.Base.{
  Bool, ℕ, ◌+◌, ◌*◌, ◌≤◌, String, ◌≡◌, ◌≢◌, refl, sym, true, false, ◌⊎◌, inl, inr, List, [], ◌∷◌,
  str_eq, member, arith, pos, ◌+ℤ◌, int_laws, parts_of_eq, ◌∙◌, ap, subst, All,
}
use llm_gateway_fallback_rou.Chains.{Chain, Hop, is_free}
use llm_gateway_fallback_rou.Pricing.{estimate_cost, chars_per_token}
use llm_gateway_fallback_rou.Pricing.Bounds.{worst_case_bounds}
use llm_gateway_fallback_rou.Providers.{ChatResponse}
use llm_gateway_fallback_rou.Ledger.{Env, Store, ok, Quiet}
use llm_gateway_fallback_rou.Ledger.Commands.{Quiet-Lands, SameTotals}
use llm_gateway_fallback_rou.ProviderBudget.Outcomes.{charge}
use llm_gateway_fallback_rou.KeyBudget.Outcomes.{OnePeriod, share}
use llm_gateway_fallback_rou.Settlement.{Reservations, has_claim, settle_chain}
use llm_gateway_fallback_rou.Settlement.Refunds.{settle_chain_exact}
use llm_gateway_fallback_rou.Reservation.{reserve_hops}
use llm_gateway_fallback_rou.Reservation.Conservation.{Conserved, reserve_hops-Conserved}
use llm_gateway_fallback_rou.Reservation.Coverage.{claim_of, IsCovered, reserve_hops-IsCovered}
use llm_gateway_fallback_rou.Router.{
  Upstream, Router, responded, RouterResult, served, all_failed, other_exception, chat,
}
use llm_gateway_fallback_rou.Router.Answers.{Among, Accounts, chat-Accounts}
use llm_gateway_fallback_rou.Serving.{serve_chat, count_request, cost_of}

-- the provider and the cost that a request is settled with
abbrev pub billed_provider : RouterResult → String
billed_provider (served x) = x.provider
billed_provider _ = ""

abbrev pub billed_cost : RouterResult → ℕ
billed_cost (served x) = cost_of x
billed_cost _ = 0

abbrev counted : RouterResult → Store → Store
counted (served x) s = count_request "success" s
counted _ s = s

counted_same :
    (outcome : RouterResult) (s : Store)
    → ((counted outcome s).providers ≡ s.providers) × ((counted outcome s).months ≡ s.months)
counted_same (served x) s = (refl, refl)
counted_same (all_failed errors) s = (refl, refl)
counted_same (other_exception interrupted) s = (refl, refl)

-- After the settlement no total moves.
serve_chat-SameTotals :
    (env : Env) (k : String) (res : Reservations) (outcome : RouterResult) (s : Store)
    → ((interrupted : Bool) → outcome ≢ other_exception interrupted)
    → SameTotals
        (settle_chain env k res
          (billed_provider outcome)
          (billed_cost outcome)
          (counted outcome s)).1
        (serve_chat env k res outcome s).1
unfolding serve_chat
serve_chat-SameTotals env k res (served x) s h = ground arith
serve_chat-SameTotals env k res (all_failed errors) s h = ground arith
serve_chat-SameTotals env k res (other_exception interrupted) s h = absurd (h interrupted refl)

module _ (env : Env) (quiet : Quiet env) (now : ℕ) (one : OnePeriod env now) (k : String)
    (s : Store) where
  settled-exact :
      (res : Reservations) (skip : List String) (s₁ : Store) (outcome : RouterResult) (q h : String)
      (m : ℕ)
      → Conserved env k now s q h m (ok (res, skip), s₁)
      → (str_eq (billed_provider outcome) "" ≡ true → billed_cost outcome ≡ 0)
      → let s₂ =
          (settle_chain env k res
            (billed_provider outcome)
            (billed_cost outcome)
            (counted outcome s₁)).1 in
        (s₂.providers q
          ≡ s.providers q +ℤ pos (charge (billed_provider outcome) (billed_cost outcome) q))
        × (s₂.months h m ≡ s.months h m +ℤ pos (share env k now (billed_cost outcome) h m))
  settled-exact res skip s₁ outcome q h m claim nothing =
      let paid =
        settle_chain_exact env (billed_provider outcome) (billed_cost outcome) res
          (counted outcome s₁) k now q h m (Quiet-Lands env quiet) one claim.0 nothing in
      let same : ((counted outcome s₁).providers ≡ s₁.providers)
          × ((counted outcome s₁).months ≡ s₁.months) =
        counted_same outcome s₁ in
      (
        omega
            (int_laws, parts_of_eq claim.1, parts_of_eq paid.0, parts_of_eq (ap (λ g. g q) same.0)),
        omega (
          int_laws,
          parts_of_eq claim.2,
          parts_of_eq paid.1,
          parts_of_eq (ap (λ g. g h m) same.1),
        ),
      )

  -- With every Redis command answered and one period: an admitted request whose router returns or reports failure has moved, when it is over,
  -- exactly two totals: that of the provider that answered and that of its caller's month, each
  -- by the price of the answer. If every provider failed it has moved none.
  pub request_costs :
      (chain : Chain) (chars max_out : ℕ) (q h : String) (m : ℕ) (res : Reservations)
      (skip : List String) (outcome : RouterResult)
      → (reserve_hops env k chain chars max_out s).0 ≡ ok (res, skip)
      → ((interrupted : Bool) → outcome ≢ other_exception interrupted)
      → (str_eq (billed_provider outcome) "" ≡ true → billed_cost outcome ≡ 0)
      → let s₁ = (reserve_hops env k chain chars max_out s).1 in
        let s₂ = (serve_chat env k res outcome s₁).1 in
        (s₂.providers q
          ≡ s.providers q +ℤ pos (charge (billed_provider outcome) (billed_cost outcome) q))
        × (s₂.months h m ≡ s.months h m +ℤ pos (share env k now (billed_cost outcome) h m))
  request_costs chain chars max_out q h m res skip outcome admitted plain nothing =
      let (r, s₁) = reserve_hops env k chain chars max_out s in
      let claim : Conserved env k now s q h m (ok (res, skip), s₁) =
        subst (λ x. Conserved env k now s q h m (x, s₁)) admitted
          (reserve_hops-Conserved env quiet now one k s chain chars max_out q h m) in
      let same = serve_chat-SameTotals env k res outcome s₁ plain in
      let exact = settled-exact res skip s₁ outcome q h m claim nothing in
      (ap (λ g. g q) same.providers ∙ exact.0, ap (λ g. g h m) same.months ∙ exact.1)

-- Every answer carries the name of the provider that was called, as every adapter sets it.
abbrev pub Named : Upstream → Type 0
Named up =
    (n : ℕ) (h : Hop) (x : ChatResponse) → up.answer n h ≡ responded x → x.provider ≡ h.provider

pub All-Among : (P : Hop → Type 0) (h : Hop) (chain : Chain) → All P chain → Among h chain → P h
All-Among P h [] all among = absurd among
All-Among P h (g ∷ gs) all (inl e) = subst P (sym e) all.0
All-Among P h (g ∷ gs) all (inr among) = All-Among P h gs all.1 among

pub covered_cost :
    (env : Env) (chars max_out : ℕ) (res : Reservations) (skip : List String) (h : Hop)
    (input output : ℕ)
    → IsCovered env chars max_out res skip h
    → member h.provider skip ≡ false
    → chars_per_token * input ≤ chars
    → output ≤ max_out
    → (is_free h.provider ≡ true)
      ⊎ ((has_claim h.provider res ≡ true)
          × (estimate_cost h.provider h.model input output ≤ claim_of h.provider res))
covered_cost env chars max_out res skip h input output (inl free) kept i o = inl free
covered_cost env chars max_out res skip h input output (inr (inl gone)) kept i o = cc
covered_cost env chars max_out res skip h input output (inr (inr (worst, has, e, le))) kept i o =
    let bound = worst_case_bounds h.provider h.model chars max_out input output worst e i o in
    let more : worst ≤ worst * (env.provider_retry_attempts + 1) =
      le-mul_of_pos_right worst (omega arith) in
    inr (has, le_trans bound (le_trans more le))

-- If every adapter answers under its own name, what `chat` answers on an admitted chain was
-- reserved for: its provider is free, or holds a
-- claim of at least its price, for a prompt of at most one token for each three characters and
-- an answer within the output limit.
pub cost_within_claim :
    (env : Env) (up : Upstream) (k : String) (chain : Chain) (chars max_out : ℕ) (s : Store)
    (router : Router) (res : Reservations) (skip : List String) (x : ChatResponse)
    → Named up
    → (reserve_hops env k chain chars max_out s).0 ≡ ok (res, skip)
    → (chat up skip chain router).0 ≡ served x
    → chars_per_token * x.input_tokens ≤ chars
    → x.output_tokens ≤ max_out
    → (is_free x.provider ≡ true)
      ⊎ ((has_claim x.provider res ≡ true) × (cost_of x ≤ claim_of x.provider res))
cost_within_claim env up k chain chars max_out s router res skip x named admitted answered i o =
    let all = reserve_hops-IsCovered env chars max_out chain k s res skip admitted in
    let account : Accounts up skip chain [] (served x) =
      subst (λ r. Accounts up skip chain [] r) answered (chat-Accounts up skip chain router) in
    from_account account all
  where
    from_account :
        Accounts up skip chain [] (served x)
        → All (IsCovered env chars max_out res skip) chain
        → (is_free x.provider ≡ true)
          ⊎ ((has_claim x.provider res ≡ true) × (cost_of x ≤ claim_of x.provider res))
    from_account (h, among, kept, (n, y, answer, same)) all =
        let p : x.provider ≡ h.provider =
          ap (λ (r : ChatResponse). r.provider) same ∙ named n h y answer in
        let m : x.model ≡ h.model = ap (λ (r : ChatResponse). r.model) same in
        rw (p, m)
          (covered_cost env chars max_out res skip h x.input_tokens x.output_tokens
            (All-Among (IsCovered env chars max_out res skip) h chain all among) kept i o)
