-- ===== src/Tests/Money.antt =====
-- Prices, ledgers, reservations and settlements at concrete inputs. The caps are 4 and 5 USD.
use llm_gateway_fallback_rou.Base.{
  true, ◌+◌, ◌≤◌, ◌<◌, ◌≡◌, refl, false, [], ◌∷◌, arith, pos, ◌+ℤ◌, ◌-ℤ◌, ◌≤ℤ◌, str_eq,
  if◌then◌else◌,
}
use llm_gateway_fallback_rou.Chains.{default_chain}
use llm_gateway_fallback_rou.Pricing.{price_of, find_price, worst_case_cost, estimate_cost}
use llm_gateway_fallback_rou.Pricing.Bounds.{worst_case_bounds, worst_case_exceeded}
use llm_gateway_fallback_rou.Providers.{ChatResponse}
use llm_gateway_fallback_rou.Ledger.{Env, Store, answered, failed, cancellation, ok, err, Quiet}
use llm_gateway_fallback_rou.ProviderBudget
use llm_gateway_fallback_rou.ProviderBudget.Outcomes.{Reserved, reserve-Reserved}
use llm_gateway_fallback_rou.KeyBudget
use llm_gateway_fallback_rou.KeyBudget.Outcomes.{Capped, reserve-Capped, OnePeriod}
use llm_gateway_fallback_rou.Settlement.{Reservations, settle_providers, settle_chain}
use llm_gateway_fallback_rou.Settlement.Refunds.{settle_providers_safe}
use llm_gateway_fallback_rou.Reservation.{reserve_hops}
use llm_gateway_fallback_rou.Reservation.Conservation.{reserve_then_settle}
use llm_gateway_fallback_rou.ProviderBudget.{admits}
use llm_gateway_fallback_rou.Breaker.{new_breaker, allow_request}
use llm_gateway_fallback_rou.Router.{
  Upstream, Router, responded, provider_error, raised, ask_breaker,
}
use llm_gateway_fallback_rou.Serving.{run_router}
use llm_gateway_fallback_rou.Serving.Costs.{Named}
use llm_gateway_fallback_rou.Serving.Leak.{crash_keeps_claims}

-- Redis answers every command, at a time in the second period.
abbrev pub calm : Env
calm = record {
  wire = λ n. answered;
  time = λ n. 5000000;
  database = λ n. answered;
  hash_key = λ k. k;
  provider_lifetime_budget = 1200000000;
  monthly_budget_per_key = 1500000000;
  provider_retry_attempts = 1;
  strict_model_routing = false;
}

-- Redis is down.
abbrev down : Env
down = record calm { wire = λ n. failed false }

abbrev pub start : Store
start = record {
  providers = λ p. pos 0;
  months = λ h m. pos 0;
  sent = 0;
  spent_gauge = λ p. pos 0;
  remaining_gauge = λ p. 0;
  leaked_key = 0;
  leaked_provider = 0;
  refused = [];
  requests = [];
  usage = [];
  audit = [];
  audit_writes = 0;
  unhandled = 0;
}

pub calm-Quiet : Quiet calm
calm-Quiet n = refl

pub calm-OnePeriod : OnePeriod calm 1
calm-OnePeriod n = refl

-- 300 characters and 2048 tokens on the default chain, each with one retry
abbrev holds : Reservations
holds = ("openai", 746280) ∷ ("anthropic", 6204000) ∷ []

admitted_run : (reserve_hops calm "alice" default_chain 300 2048 start).0 ≡ ok (holds, [])
unfolding reserve_hops ProviderBudget.reserve KeyBudget.reserve worst_case_cost price_of find_price
    ◌+ℤ◌ ◌-ℤ◌
admitted_run = refl

worst_case_bounds_example : estimate_cost "openai" "gpt-4o-mini" 100 9 ≤ 373140
unfolding worst_case_cost price_of find_price
worst_case_bounds_example =
    worst_case_bounds "openai" "gpt-4o-mini" 300 2048 100 9 373140 refl (omega arith) (omega arith)

worst_case_exceeded_example : 373140 < estimate_cost "openai" "gpt-4o-mini" 101 2048
unfolding worst_case_cost price_of find_price
worst_case_exceeded_example =
    worst_case_exceeded "openai" "gpt-4o-mini" 300 2048 101 373140
      (record { input_price = 15; output_price = 60 }) refl (omega arith) refl (omega arith)

reserve-Reserved_example :
    Reserved calm "openai" 500 start (ProviderBudget.reserve calm "openai" 500 start)
reserve-Reserved_example = reserve-Reserved calm "openai" 500 start refl refl

reserve-Capped_example : Capped calm "alice" 500 start (KeyBudget.reserve calm "alice" 500 start)
reserve-Capped_example = reserve-Capped calm "alice" 500 start refl

reserve_then_settle_example :
    let s₁ = (reserve_hops calm "alice" default_chain 300 2048 start).1 in
    let s₂ = (settle_chain calm "alice" holds "anthropic" 9000 s₁).1 in
    (s₂.providers "anthropic" ≡ pos 0 +ℤ pos 9000) × (s₂.months "alice" 1 ≡ pos 0 +ℤ pos 9000)
reserve_then_settle_example =
    reserve_then_settle calm calm-Quiet 1 calm-OnePeriod "alice" start default_chain 300 2048
      "anthropic" "alice" 1 holds [] "anthropic" 9000 admitted_run (λ e. cc e)

settle_providers_safe_example :
    pos 0 +ℤ pos 9000
    ≤ℤ (settle_providers down holds "anthropic" 9000 start).1.providers "anthropic" +ℤ pos 6204000
settle_providers_safe_example =
    settle_providers_safe down "anthropic" 9000 holds start "anthropic" (refl, (refl, tt)) refl
      ((λ e. cc e), ((λ e. omega arith), tt))

abbrev reply : ChatResponse
reply = record {
  content = "hello";
  provider = "anthropic";
  model = "claude-haiku-4-5";
  input_tokens = 40;
  output_tokens = 9;
}

abbrev caller : Upstream
caller = record {
  clock = λ n. 100 + n;
  answer = λ n h.
      if str_eq h.provider "openai"
      then provider_error "bad key" false
      else responded (record reply { provider = h.provider });
  others = λ n b. b;
  retry_attempts = 1;
}

abbrev router : Router
router = record {
  breakers = λ p. new_breaker 3 30;
  readings = 0;
  awaits = 0;
  calls = [];
  attempts_ok = [];
  attempts_error = [];
  circuit_gauge = λ p. 0;
  fallback_triggered = 0;
}

caller-Named : Named caller
caller-Named n h x e = ground (arith, e)

-- the task is cancelled in its first call
abbrev hung_up : Upstream
hung_up = record caller { answer = λ n h. raised true }

asked_first : (ask_breaker hung_up "openai" router).0 ≡ true
unfolding ask_breaker new_breaker allow_request
asked_first = refl

crash_keeps_claims_example :
    let s₁ = (reserve_hops calm "alice" default_chain 300 2048 start).1 in
    let (r, s₂, router') = run_router calm hung_up "alice" default_chain (holds, []) router s₁ in
    (r ≡ err cancellation)
    × (s₂.providers "openai" ≡ pos 0 +ℤ pos 746280)
    × (s₂.months "alice" 1 ≡ pos 0 +ℤ pos 6950280)
crash_keeps_claims_example =
    crash_keeps_claims calm 1 "alice" start (record { provider = "openai"; model = "gpt-4o-mini" })
      (record { provider = "anthropic"; model = "claude-haiku-4-5" }
        ∷ record { provider = "ollama"; model = "llama3" }
        ∷ [])
      300 2048 "openai" "alice" 1 holds [] hung_up router true calm-Quiet calm-OnePeriod
      admitted_run refl asked_first (λ n. refl)
