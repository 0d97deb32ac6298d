-- ===== src/Admin/Door.antt =====
-- app/ratelimit/dependency.py, `enforce_admin_rate_limit`, and app/admin/auth.py: what stands
-- before every route of the admin API, in the order in which the dependencies resolve.
use llm_gateway_fallback_rou.Base.{
  ℕ, ◌+◌, ◌*◌, ◌≤◌, String, ◌≡◌, refl, Bool, false, ◌==◌, Option, none, some, List, [], ◌∷◌,
  str_eq_refl, arith, if◌then◌else◌,
}
use llm_gateway_fallback_rou.Config.{is_given}
use llm_gateway_fallback_rou.Texts.{compare_digest}
use llm_gateway_fallback_rou.Ledger.{
  Store, Wire, answered, failed, cancelled, failure, cancellation, http, Result, ok, err,
}
use llm_gateway_fallback_rou.RateLimit.{TokenBucketLimiter, Buckets, Ask, check, allow}
use llm_gateway_fallback_rou.RateLimit.Allowance.{admitted_for, last_at, Ascending, rate_bounds}
use llm_gateway_fallback_rou.Reservation.{refuse}

-- the setting, and the limiter that the client routes use too
pub record Door : Type 0 where
  pub admin_api_key : Option String
  pub limiter : TokenBucketLimiter
  pub script : Wire

abbrev pub admin_label : String
admin_label = "admin-api"

-- `enforce_admin_rate_limit`
unfoldable pub enforce_admin_rate_limit :
    Door → ℕ → Buckets → Store → Result (Unit {0}) × Buckets × Store
enforce_admin_rate_limit d now buckets s =
    let (r, buckets') = check d.limiter now admin_label 1 buckets in
    elim d.script [
      | answered ↦ if r.0 then (ok tt, buckets', s) else (
        err (http 429 "admin API rate limit exceeded"),
        buckets',
        refuse "admin_rate_limit" s,
      )
      | failed took ↦ (err failure, if took then buckets' else buckets, s)
      | cancelled took ↦ (err cancellation, if took then buckets' else buckets, s)
    ]

-- the comparison of `require_admin_key`
abbrev pub compare_key : String → String → Result String
compare_key presented expected = elim (compare_digest presented expected) [
  | some same ↦ if same then ok presented else err (http 401 "invalid admin key")
  | none ↦ err failure
]

abbrev pub check_key : Option String → String → Result String
check_key none expected = err (http 401 "invalid admin key")
check_key (some presented) expected =
    if is_given (some presented)
    then compare_key presented expected
    else err (http 401 "invalid admin key")

-- `require_admin_key`
unfoldable pub require_admin_key : Door → Option String → Result String
unfolding compare_digest
require_admin_key d presented = elim d.admin_api_key [
  | none ↦ err (http 503 "admin API is not configured")
  | some expected ↦
      if is_given (some expected)
      then check_key presented expected
      else err (http 503 "admin API is not configured")
]

abbrev pub then_key :
    Door → Option String → Result (Unit {0}) × Buckets × Store → Result String × Buckets × Store
then_key d presented (ok _, buckets, s) = (require_admin_key d presented, buckets, s)
then_key d presented (err e, buckets, s) = (err e, buckets, s)

-- both dependencies of the router
unfoldable pub enter : Door → ℕ → Option String → Buckets → Store → Result String × Buckets × Store
unfolding enforce_admin_rate_limit require_admin_key
enter d now presented buckets s = then_key d presented (enforce_admin_rate_limit d now buckets s)

-- One attempt, with its time and its header.
pub record Attempt : Type 0 where
  pub at : ℕ
  pub header : Option String

abbrev pub is_limited : Result String → Bool
is_limited (err (http status detail)) = status == 429
is_limited _ = false

-- the attempts, in order, whose key was looked at
abbrev pub looked_at : Door → List Attempt → Buckets → Store → ℕ
looked_at d [] buckets s = 0
looked_at d (a ∷ rest) buckets s =
    let (r, buckets', s') = enter d a.at a.header buckets s in
    (if is_limited r then 0 else 1) + looked_at d rest buckets' s'

abbrev pub asks : List Attempt → List Ask
asks [] = []
asks (a ∷ rest) = record { at = a.at; key = admin_label; cost = 1 } ∷ asks rest

require_admin_key-limited :
    (d : Door) (presented : Option String) → is_limited (require_admin_key d presented) ≡ false
unfolding require_admin_key compare_digest
require_admin_key-limited d none = ground arith
require_admin_key-limited d (some presented) = ground arith

entered :
    (d : Door) (now : ℕ) (presented : Option String) (buckets : Buckets) (s : Store)
    → d.script ≡ answered
    → let (r, buckets', s') = enter d now presented buckets s in
      let (allowed, buckets'') = allow d.limiter now admin_label 1 buckets in
      let looked : ℕ = if is_limited r then 0 else 1 in
      (buckets' ≡ buckets'') × (looked ≡ (if allowed then 1 else 0))
unfolding enter enforce_admin_rate_limit allow
entered d now presented buckets s quiet =
    ground (arith, quiet, require_admin_key-limited d presented)

looked_at_admitted :
    (d : Door) (attempts : List Attempt) (buckets : Buckets) (s : Store)
    → d.script ≡ answered
    → looked_at d attempts buckets s
      ≡ admitted_for d.limiter (d.limiter.hash_key admin_label) (asks attempts) buckets
looked_at_admitted d [] buckets s quiet = refl
looked_at_admitted d (a ∷ rest) buckets s quiet =
    let (r, buckets', s') = enter d a.at a.header buckets s in
    let first = entered d a.at a.header buckets s quiet in
    let later = looked_at_admitted d rest buckets' s' quiet in
    rw (later, first.0, first.1, str_eq_refl (d.limiter.hash_key admin_label)) refl

-- However an attempt ends, it has cost the caller a token first: of attempts in the order of
-- their times, right keys or wrong ones, no more are looked at than the one bucket for all of
-- them holds, full at the start, and what is refilled meanwhile, if Redis answers.
pub guesses_bounds :
    (d : Door) (t : ℕ) (attempts : List Attempt) (buckets : Buckets) (s : Store)
    → d.script ≡ answered
    → Ascending t (asks attempts)
    → looked_at d attempts buckets s + t * d.limiter.refill_rate
      ≤ d.limiter.capacity + last_at t (asks attempts) * d.limiter.refill_rate
guesses_bounds d t attempts buckets s quiet up =
    rw (looked_at_admitted d attempts buckets s quiet)
      (rate_bounds d.limiter (d.limiter.hash_key admin_label) t (asks attempts) buckets up)
