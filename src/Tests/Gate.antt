-- ===== src/Tests/Gate.antt =====
-- The token bucket and the dependencies at concrete inputs: 20 tokens, one per tick.
use llm_gateway_fallback_rou.Base.{
  false, ◌+◌, ◌*◌, ◌≤◌, ◌≡◌, refl, none, some, List, [], ◌∷◌, pos, arith,
}
use llm_gateway_fallback_rou.Ledger.{Store, answered, ok}
use llm_gateway_fallback_rou.KeyBudget.{spent_usd}
use llm_gateway_fallback_rou.Texts.{strip_left, strip_right, starts_with_lower, compare_digest}
use llm_gateway_fallback_rou.Gate.Keys.{Headers, bearer, extract_key, find_allowed}
use llm_gateway_fallback_rou.Gate.{
  Gate, missing, require_api_key, take_token, enforce_rate_limit, check_budget, enforce_budget,
}
use llm_gateway_fallback_rou.Gate.Admission.{Admitted, enforce_budget-Admitted}
use llm_gateway_fallback_rou.RateLimit.{
  TokenBucketLimiter, Buckets, Ask, allow, check, take_tokens, refill, time_to_live,
}
use llm_gateway_fallback_rou.RateLimit.Allowance.{admitted_for, rate_bounds, expired_is_full}

abbrev limiter : TokenBucketLimiter
limiter = record { capacity = 20; refill_rate = 1; hash_key = λ k. k }

abbrev asks : List Ask
asks =
    record { at = 100; key = "alice"; cost = 15 }
    ∷ record { at = 101; key = "alice"; cost = 15 }
    ∷ record { at = 112; key = "alice"; cost = 15 }
    ∷ []

abbrev empty : Buckets
empty k = none

second_refused : admitted_for limiter "alice" asks empty ≡ 30
unfolding allow check take_tokens refill
second_refused = refl

rate_bounds_example : admitted_for limiter "alice" asks empty + 100 * 1 ≤ 20 + 112 * 1
rate_bounds_example =
    rate_bounds limiter "alice" 100 asks empty (omega arith, (omega arith, (omega arith, tt)))

expired_is_full_example :
    refill 20 1 1000 (some (record { tokens = 3; updated_at = 100 })) ≡ refill 20 1 1000 none
unfolding time_to_live
expired_is_full_example =
    expired_is_full 20 1 1 1000 (record { tokens = 3; updated_at = 100 }) (omega arith)
      (omega arith) (omega arith)

abbrev door : Gate
door = record {
  env = record {
    wire = λ n. answered;
    time = λ n. 5000000;
    database = λ n. answered;
    hash_key = λ k. k;
    provider_lifetime_budget = 1200000000;
    monthly_budget_per_key = 1500000000;
    provider_retry_attempts = 1;
    strict_model_routing = false;
  };
  allowed = "alice" ∷ [];
  db_key = λ k. missing;
  limiter = limiter;
  now = 100;
  script = answered;
}

abbrev alice : Headers
alice = record { authorization = some "Bearer alice "; x_api_key = none }

abbrev mallory : Headers
mallory = record { authorization = some "Bearer alice"; x_api_key = some "mallory" }

abbrev start : Store
start = record {
  providers = λ p. pos 0;
  months = λ h m. pos 0;
  sent = 0;
  spent_gauge = λ p. pos 0;
  remaining_gauge = λ p. 0;
  leaked_key = 0;
  leaked_provider = 0;
  refused = [];
  requests = [];
  usage = [];
  audit = [];
  audit_writes = 0;
  unhandled = 0;
}

alice_passes : (enforce_budget door alice empty start).0 ≡ ok "alice"
unfolding enforce_budget enforce_rate_limit require_api_key extract_key bearer starts_with_lower
    strip_left strip_right find_allowed compare_digest take_token check_budget check take_tokens
    refill spent_usd
alice_passes = refl

enforce_budget-Admitted_example :
    Admitted door alice empty start (enforce_budget door alice empty start)
enforce_budget-Admitted_example = enforce_budget-Admitted door alice empty start
