-- ===== src/RateLimit/Allowance.antt =====
-- What a token bucket admits over time.
use native.Mathlib.Nat.{mul-le-mul_right, mul-pos, lt-div-mul-add}
use llm_gateway_fallback_rou.Base.{
  ℕ, ◌+◌, ◌-◌, ◌*◌, ◌/◌, ◌≤◌, ◌<◌, String, ◌≡◌, Option, none, some, List, [], ◌∷◌, str_eq, eq_iff,
  if◌then◌else◌, arith,
}
use llm_gateway_fallback_rou.RateLimit.{
  Bucket, refill, take_tokens, time_to_live, Buckets, TokenBucketLimiter, check, allow, Ask,
}

steps : (x t u : ℕ) → t ≤ u → (u - x) + t ≤ (t - x) + u
steps x t u h = omega (arith, h)

refill_later :
    (capacity rate t u : ℕ) (b : Option Bucket)
    → t ≤ u
    → refill capacity rate u b + t * rate ≤ refill capacity rate t b + u * rate
unfolding refill
refill_later capacity rate t u none h = omega (arith, mul-le-mul_right rate h)
refill_later capacity rate t u (some b) h =
    omega (arith, mul-le-mul_right rate (steps b.updated_at t u h), mul-le-mul_right rate h)

refill_full : (capacity rate t : ℕ) (b : Option Bucket) → refill capacity rate t b ≤ capacity
unfolding refill
refill_full capacity rate t none = omega arith
refill_full capacity rate t (some b) = omega arith

-- Taking at a time leaves what it did not grant.
take_tokens_rest :
    (capacity rate now requested : ℕ) (bucket : Option Bucket)
    → let (allowed, rest, b) = take_tokens capacity rate now requested bucket in
      (if allowed then requested else 0) + refill capacity rate now (some b)
      ≤ refill capacity rate now bucket
unfolding take_tokens refill
take_tokens_rest capacity rate now requested bucket =
    ground (arith, refill_full capacity rate now bucket)

-- the cost admitted for one hashed key, over calls in order
abbrev pub admitted_for : TokenBucketLimiter → String → List Ask → Buckets → ℕ
admitted_for l h [] buckets = 0
admitted_for l h (a ∷ asks) buckets =
    let (allowed, buckets') = allow l a.at a.key a.cost buckets in
    (if str_eq (l.hash_key a.key) h then if allowed then a.cost else 0 else 0)
    + admitted_for l h asks buckets'

-- the time of the last call
abbrev pub last_at : ℕ → List Ask → ℕ
last_at t [] = t
last_at t (a ∷ asks) = last_at a.at asks

-- The clock does not run backwards.
abbrev pub Ascending : ℕ → List Ask → Type 0
Ascending t [] = Unit
Ascending t (a ∷ asks) = (t ≤ a.at) × Ascending a.at asks

module _ (l : TokenBucketLimiter) (h : String) where
  one_ask :
      (a : Ask) (buckets : Buckets)
      → let (allowed, buckets') = allow l a.at a.key a.cost buckets in
        (if str_eq (l.hash_key a.key) h then if allowed then a.cost else 0 else 0)
          + refill l.capacity l.refill_rate a.at (buckets' h)
        ≤ refill l.capacity l.refill_rate a.at (buckets h)
  unfolding allow check
  one_ask a buckets = grind (
    arith,
    take_tokens_rest l.capacity l.refill_rate a.at a.cost (buckets h),
    eq_iff (l.hash_key a.key) h,
  )

  admitted_within :
      (t : ℕ) (asks : List Ask) (buckets : Buckets)
      → Ascending t asks
      → admitted_for l h asks buckets + t * l.refill_rate
        ≤ refill l.capacity l.refill_rate t (buckets h) + last_at t asks * l.refill_rate
  admitted_within t [] buckets up = omega arith
  admitted_within t (a ∷ asks) buckets up =
      let (allowed, buckets') = allow l a.at a.key a.cost buckets in
      omega (
        arith,
        admitted_within a.at asks buckets' up.1,
        one_ask a buckets,
        refill_later l.capacity l.refill_rate t a.at (buckets h) up.0,
      )

  -- However many calls the limiter gets, for this key and for others, and whatever is in its
  -- buckets: as long as the clock does not run backwards, what it admits for one key from a time
  -- on is at most one full bucket and the refill since then.
  pub rate_bounds :
      (t : ℕ) (asks : List Ask) (buckets : Buckets)
      → Ascending t asks
      → admitted_for l h asks buckets + t * l.refill_rate
        ≤ l.capacity + last_at t asks * l.refill_rate
  rate_bounds t asks buckets up =
      omega (
        arith,
        admitted_within t asks buckets up,
        refill_full l.capacity l.refill_rate t (buckets h),
      )

ceil_covers : (n d : ℕ) → 0 < d → n ≤ (n + (d - 1)) / d * d
ceil_covers n d h = omega (arith, lt-div-mul-add {a = n + (d - 1)} {b = d} h)

-- A bucket that Redis expires was full: once the script's time to live is over, what a kept
-- bucket would hold is what a missing one holds, whatever it held, if the rate is not zero.
pub expired_is_full :
    (capacity rate per_second now : ℕ) (b : Bucket)
    → 0 < rate
    → 0 < per_second
    → b.updated_at + time_to_live capacity rate per_second ≤ now
    → refill capacity rate now (some b) ≡ refill capacity rate now none
unfolding refill time_to_live
expired_is_full capacity rate per_second now b r p late =
    let rounds : ℕ = (capacity + (rate * per_second - 1)) / (rate * per_second) in
    let waited : rounds * per_second ≤ now - b.updated_at = ground (arith, late) in
    omega
      (arith, ceil_covers capacity (rate * per_second) (mul-pos r p), mul-le-mul_right rate waited)
