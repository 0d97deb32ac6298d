-- ===== src/RateLimit.antt =====
-- app/ratelimit/token_bucket.py: the refill-and-take script, which Redis runs atomically, and the
-- limiter over it. Tokens are counted in a unit of which the rate gives a whole number per tick
-- of the clock, so that nothing is rounded.
use llm_gateway_fallback_rou.Base.{
  ℕ, ◌+◌, ◌-◌, ◌*◌, ◌/◌, min, String, Bool, true, false, Option, none, some, List, [], ◌∷◌, leb,
  ltb, if◌then◌else◌,
}
use llm_gateway_fallback_rou.Ledger.{update}
pub mod Allowance

-- the fields `tokens` and `updated_at` of a key; a missing key has none
pub record Bucket : Type 0 where
  pub tokens : ℕ
  pub updated_at : ℕ

-- the script's first part: what is in the bucket after the refill. A clock that runs backwards
-- refills nothing: the difference stops at 0.
unfoldable pub refill : ℕ → ℕ → ℕ → Option Bucket → ℕ
refill capacity rate now none = min capacity (capacity + (now - now) * rate)
refill capacity rate now (some b) = min capacity (b.tokens + (now - b.updated_at) * rate)

-- `_LUA_TOKEN_BUCKET`: the answer, the tokens left, and the bucket written back
unfoldable pub take_tokens : ℕ → ℕ → ℕ → ℕ → Option Bucket → Bool × ℕ × Bucket
unfolding refill
take_tokens capacity rate now requested bucket =
    let tokens = refill capacity rate now bucket in
    let allowed = leb requested tokens in
    let rest = if allowed then tokens - requested else tokens in
    (allowed, rest, record { tokens = rest; updated_at = now })

-- `ttl_seconds`, in ticks; `per_second` ticks make a second
unfoldable pub time_to_live : ℕ → ℕ → ℕ → ℕ
time_to_live capacity rate per_second =
    if ltb 0 rate
    then (capacity + (rate * per_second - 1)) / (rate * per_second) * per_second + 60 * per_second
    else 3600 * per_second

abbrev pub Buckets : Type 0
Buckets = String → Option Bucket

-- `TokenBucketLimiter`, less the clock, with `hash_key` of app/security/api_keys.py
pub record TokenBucketLimiter : Type 0 where
  pub capacity : ℕ
  pub refill_rate : ℕ
  pub hash_key : String → String

-- `TokenBucketLimiter.check`
unfoldable pub check : TokenBucketLimiter → ℕ → String → ℕ → Buckets → (Bool × ℕ) × Buckets
unfolding take_tokens
check l now key cost buckets =
    let (allowed, remaining, b) =
      take_tokens l.capacity l.refill_rate now cost (buckets (l.hash_key key)) in
    ((allowed, remaining), update buckets (l.hash_key key) (some b))

-- `TokenBucketLimiter.allow`
unfoldable pub allow : TokenBucketLimiter → ℕ → String → ℕ → Buckets → Bool × Buckets
unfolding check
allow l now key cost buckets = let (r, buckets') = check l now key cost buckets in (r.0, buckets')

-- Calls of the limiter, each with its time, its key and its cost, and the cost admitted for one
-- key.
pub record Ask : Type 0 where
  pub at : ℕ
  pub key : String
  pub cost : ℕ
