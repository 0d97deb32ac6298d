-- ===== src/Config/Ranges.antt =====
-- app/core/config.py: the numbers of `Settings`, the ranges that their fields ask for, and their
-- defaults. A number is exact, in thousandths where the field is a float; a value that is outside
-- its range is pydantic's ValidationError, and the process does not start.
use llm_gateway_fallback_rou.Base.{
  Bool, ◌&&◌, ℤ, pos, pos_part, leb_ℤ, ltb_ℤ, Option, none, some, if◌then◌else◌,
}
use llm_gateway_fallback_rou.Config.{Settings}

-- the fields of `Settings` with a range
pub record Numbers : Type 0 where
  pub redis_connect_timeout_seconds : ℤ
  pub redis_socket_timeout_seconds : ℤ
  pub database_connect_timeout_seconds : ℤ
  pub database_command_timeout_seconds : ℤ
  pub rate_limit_capacity : ℤ
  pub rate_limit_refill_per_sec : ℤ
  pub monthly_budget_usd_per_key : ℤ
  pub provider_lifetime_budget_usd : ℤ
  pub circuit_breaker_failure_threshold : ℤ
  pub circuit_breaker_cooldown_seconds : ℤ
  pub provider_retry_attempts : ℤ
  pub provider_retry_backoff_seconds : ℤ
  pub provider_request_timeout_seconds : ℤ
  pub ollama_request_timeout_seconds : ℤ

-- the defaults
abbrev pub default_numbers : Numbers
default_numbers = record {
  redis_connect_timeout_seconds = pos 5000;
  redis_socket_timeout_seconds = pos 5000;
  database_connect_timeout_seconds = pos 5000;
  database_command_timeout_seconds = pos 10000;
  rate_limit_capacity = pos 20;
  rate_limit_refill_per_sec = pos 500;
  monthly_budget_usd_per_key = pos 5000;
  provider_lifetime_budget_usd = pos 4000;
  circuit_breaker_failure_threshold = pos 3;
  circuit_breaker_cooldown_seconds = pos 30000;
  provider_retry_attempts = pos 1;
  provider_retry_backoff_seconds = pos 500;
  provider_request_timeout_seconds = pos 30000;
  ollama_request_timeout_seconds = pos 60000;
}

-- `gt=0` and `ge=0`
abbrev pub is_positive : ℤ → Bool
is_positive x = ltb_ℤ (pos 0) x

abbrev pub is_not_negative : ℤ → Bool
is_not_negative x = leb_ℤ (pos 0) x

-- the timeouts, all positive
unfoldable pub are_timeouts : Numbers → Bool
are_timeouts n =
    is_positive n.redis_connect_timeout_seconds
    && (is_positive n.redis_socket_timeout_seconds
        && (is_positive n.database_connect_timeout_seconds
            && (is_positive n.database_command_timeout_seconds
                && (is_positive n.provider_request_timeout_seconds
                    && is_positive n.ollama_request_timeout_seconds))))

-- the amounts that may be zero
unfoldable pub are_amounts : Numbers → Bool
are_amounts n =
    is_not_negative n.rate_limit_refill_per_sec
    && (is_not_negative n.monthly_budget_usd_per_key
        && (is_not_negative n.provider_lifetime_budget_usd
            && (is_not_negative n.circuit_breaker_cooldown_seconds
                && (is_not_negative n.provider_retry_attempts
                    && is_not_negative n.provider_retry_backoff_seconds))))

-- whether `Settings` accepts the numbers
unfoldable pub are_accepted : Numbers → Bool
unfolding are_timeouts are_amounts
are_accepted n =
    is_positive n.rate_limit_capacity
    && (is_positive n.circuit_breaker_failure_threshold && (are_timeouts n && are_amounts n))

-- The settings with these numbers; `none` is the ValidationError. The cooldown is in thousandths.
unfoldable pub with_numbers : Numbers → Settings → Option Settings
unfolding are_accepted
with_numbers n s =
    if are_accepted n
    then some (record s {
      circuit_breaker_failure_threshold = pos_part n.circuit_breaker_failure_threshold;
      circuit_breaker_cooldown_seconds = pos_part n.circuit_breaker_cooldown_seconds;
    })
    else none
