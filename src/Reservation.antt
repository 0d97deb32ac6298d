-- ===== src/Reservation.antt =====
-- app/main.py, `_reserve_chain`: claiming the worst case of a request on both ledgers before any
-- provider is called.
use llm_gateway_fallback_rou.Base.{
  ℕ, zero, suc, ◌+◌, ◌*◌, String, Bool, true, false, not, ◌&&◌, ◌||◌, Option, none, some, List, [],
  ◌∷◌, ◌==◌, length, member, add_member, str_eq, if◌then◌else◌,
}
use llm_gateway_fallback_rou.Chains.{
  Hop, Chain, is_free, find_chain, fallback_chains, billable_providers,
}
use llm_gateway_fallback_rou.Providers.{
  ChatMessage, SamplingParams, default_max_output_tokens, total_chars,
}
use llm_gateway_fallback_rou.Pricing.{worst_case_cost}
use llm_gateway_fallback_rou.Ledger.{
  Env, Store, Exc, provider_exhausted, key_exhausted, key_error, http, Result, ok, err, Action,
}
use llm_gateway_fallback_rou.ProviderBudget
use llm_gateway_fallback_rou.ProviderBudget.{snapshot}
use llm_gateway_fallback_rou.KeyBudget
use llm_gateway_fallback_rou.Settlement.{Reservations, total_reserved, settle_providers}
pub mod Loop
pub mod Rest
pub mod Conservation
pub mod Coverage

-- the local variables of `_reserve_chain`
pub record Claims : Type 0 where
  pub reservations : Reservations
  pub skip : List String
  pub unpriced : List String
  pub billable : ℕ

abbrev pub no_claims : Claims
no_claims = record { reservations = []; skip = []; unpriced = []; billable = 0 }

-- `reservations[provider] = reservations.get(provider, 0.0) + cost`
unfoldable pub add_claim : String → ℕ → Reservations → Reservations
add_claim p n [] = (p, n) ∷ []
add_claim p n ((q, r) ∷ rest) =
    if str_eq p q then (q, r + n) ∷ rest else (q, r) ∷ add_claim p n rest

-- `except ProviderBudgetExhausted: skip.add(provider)`
abbrev pub after_reserve : String → ℕ → Claims → Result (Unit {0}) → Claims × Result (Unit {0})
after_reserve p cost c (ok _) = (record c { reservations = add_claim p cost c.reservations }, ok tt)
after_reserve p cost c (err (provider_exhausted q spent cap)) =
    (record c { skip = add_member p c.skip }, ok tt)
after_reserve p cost c (err e) = (c, err e)

-- one round of the loop, on a billable hop
unfoldable pub claim_billable :
    Env → ℕ → ℕ → Hop → Claims → Store → Claims × Result (Unit {0}) × Store
unfolding add_claim
claim_billable env chars max_out h c s = elim (worst_case_cost h.provider h.model chars max_out) [
  | none ↦ (
    record c { skip = add_member h.provider c.skip; unpriced = add_member h.provider c.unpriced },
    ok tt,
    s,
  )
  | some worst ↦
      let cost = worst * (env.provider_retry_attempts + 1) in
      let (r, s') = ProviderBudget.reserve env h.provider cost s in
      let (c', r') = after_reserve h.provider cost c r in (c', r', s')
]

unfoldable pub claim_hop : Env → ℕ → ℕ → Hop → Claims → Store → Claims × Result (Unit {0}) × Store
claim_hop env chars max_out h c s =
    if is_free h.provider
    then (c, ok tt, s)
    else claim_billable env chars max_out h (record c { billable = c.billable + 1 }) s

-- The loop. The claims come back beside an exception too, for the unwinding.
unfoldable pub claim_hops :
    Env → ℕ → ℕ → Chain → Claims → Store → Claims × Result (Unit {0}) × Store
claim_hops env chars max_out [] c s = (c, ok tt, s)
claim_hops env chars max_out (h ∷ hs) c s =
    let (c', r, s') = claim_hop env chars max_out h c s in
    elim r [ ok _ ↦ claim_hops env chars max_out hs c' s' | err e ↦ (c', err e, s') ]

-- `any(p in FREE_PROVIDERS for p, _ in chain)`
unfoldable pub has_free_hop : Chain → Bool
has_free_hop [] = false
has_free_hop (h ∷ hs) = is_free h.provider || has_free_hop hs

-- `billable and len(skip) == billable and not has_free_hop`
unfoldable pub no_usable_hop : Chain → Claims → Bool
unfolding has_free_hop
no_usable_hop chain c =
    not (c.billable == 0) && (length c.skip == c.billable) && not (has_free_hop chain)

-- `skip - unpriced`, as a test for a member
unfoldable pub some_exhausted : List String → List String → Bool
some_exhausted [] unpriced = false
some_exhausted (p ∷ ps) unpriced = not (member p unpriced) || some_exhausted ps unpriced

abbrev pub refuse : String → Store → Store
refuse reason s = record s { refused = reason ∷ s.refused }

-- the refusal of a chain with no usable hop; the snapshot of the ledgers goes into its body
unfoldable pub refuse_chain : Env → Claims → Action (Unit {0})
unfolding some_exhausted
refuse_chain env c s =
    let exhausted = some_exhausted c.skip c.unpriced in
    let (r, s') =
      snapshot env billable_providers
        (refuse (if exhausted then "provider_budget_exhausted" else "no_pricing_configured") s) in
    elim r [
      | ok body ↦ (
        err (
            if exhausted
            then http 402 "provider budget exhausted"
            else http 503 "no pricing configured"),
        s',
      )
      | err e ↦ (err e, s')
    ]

-- `except KeyBudgetExhausted`
abbrev pub after_key : Result (Unit {0}) → Store → Result (Unit {0}) × Store
after_key (ok _) s = (ok tt, s)
after_key (err (key_exhausted spent cap)) s =
    (err (http 402 "monthly budget exceeded for this API key"), refuse "key_budget_exhausted" s)
after_key (err e) s = (err e, s)

-- the caller's own share
unfoldable pub claim_key : Env → String → ℕ → Action (Unit {0})
claim_key env api_key amount s =
    if amount == 0
    then (ok tt, s)
    else let (r, s') = KeyBudget.reserve env api_key amount s in after_key r s'

-- the body of the `try`, after the loop
unfoldable pub claim_rest : Env → String → Chain → Claims → Action (Unit {0})
unfolding refuse_chain claim_key no_usable_hop
claim_rest env api_key chain c s =
    if no_usable_hop chain c
    then refuse_chain env c s
    else claim_key env api_key (total_reserved c.reservations) s

abbrev pub and_then :
    Claims × Result (Unit {0}) × Store
    → (Claims → Action (Unit {0}))
    → Claims × Result (Unit {0}) × Store
and_then (c, ok _, s) k = let (r, s') = k c s in (c, r, s')
and_then (c, err e, s) k = (c, err e, s)

-- `except BaseException`: everything claimed goes back, and the exception goes on, unless the
-- refunds raise one of their own
abbrev pub unwind :
    Env → Claims × Result (Unit {0}) × Store → Result (Reservations × List String) × Store
unwind env (c, ok _, s) = (ok (c.reservations, c.skip), s)
unwind env (c, err e, s) =
    let (r, s') = settle_providers env c.reservations "" 0 s in
    elim r [ ok _ ↦ (err e, s') | err e' ↦ (err e', s') ]

-- `params.max_tokens if params and params.max_tokens else MAX_OUTPUT_TOKENS`
abbrev pub max_output : Option SamplingParams → ℕ
max_output none = default_max_output_tokens
max_output (some p) = elim p.max_tokens [
  | some (suc n) ↦ suc n
  | some zero ↦ default_max_output_tokens
  | none ↦ default_max_output_tokens
]

-- `_reserve_chain`, over the chain found
unfoldable pub reserve_hops : Env → String → Chain → ℕ → ℕ → Action (Reservations × List String)
unfolding claim_hops claim_hop claim_billable claim_rest
reserve_hops env api_key chain chars max_out s =
    unwind env
      (and_then (claim_hops env chars max_out chain no_claims s) (claim_rest env api_key chain))

-- `_reserve_chain`
unfoldable pub reserve_chain :
    Env
    → String
    → List ChatMessage
    → Option SamplingParams
    → String
    → Action (Reservations × List String)
unfolding find_chain
reserve_chain env chain_name messages params api_key s =
    elim (find_chain chain_name fallback_chains) [
      | none ↦ (err key_error, s)
      | some chain ↦ reserve_hops env api_key chain (total_chars messages) (max_output params) s
    ]
