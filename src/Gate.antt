-- ===== src/Gate.antt =====
-- app/security/auth.py, app/ratelimit/dependency.py and app/budget/dependency.py: what stands
-- before a route, in the order in which the dependencies resolve. The answer of the key table is
-- given.
use llm_gateway_fallback_rou.Base.{
  ℕ, ◌+◌, String, Bool, true, false, not, Option, none, some, List, [], ◌∷◌, member, str_eq, ℤ, pos,
  leb_ℤ, if◌then◌else◌,
}
use llm_gateway_fallback_rou.Ledger.{
  Env, Store, Wire, answered, failed, cancelled, Exc, failure, cancellation, http, Result, ok, err,
}
use llm_gateway_fallback_rou.KeyBudget.{spent_usd}
use llm_gateway_fallback_rou.Texts.{is_blank}
use llm_gateway_fallback_rou.Gate.Keys.{Headers, extract_key, find_allowed}
use llm_gateway_fallback_rou.RateLimit.{TokenBucketLimiter, Buckets, check}
use llm_gateway_fallback_rou.Reservation.{refuse}
pub mod Keys
pub mod Admission

-- How the query of `_is_valid_db_key` ends.
pub data Lookup : Type 0 where
  found missing : Lookup
  broken : Exc → Lookup

-- What surrounds one request: the settings, the key table, the time, and the end of the script.
pub record Gate : Type 0 where
  pub env : Env
  pub allowed : List String
  pub db_key : String → Lookup
  pub limiter : TokenBucketLimiter
  pub now : ℕ
  pub script : Wire

abbrev pub is_empty_list : List String → Bool
is_empty_list [] = true
is_empty_list (x ∷ xs) = false

-- `require_api_key` where no key of the settings is the caller's
abbrev pub ask_table : Gate → String → Result String
ask_table g key = elim (g.db_key key) [
  | found ↦ ok key
  | missing ↦
      if is_empty_list g.allowed
      then err (http 503 "gateway API key auth is not configured")
      else err (http 401 "invalid API key")
  | broken e ↦ err e
]

-- `require_api_key`, on a key that was presented
abbrev pub authenticate : Gate → String → Result String
authenticate g key =
    if is_blank key then err (http 401 "missing API key") else elim (find_allowed key g.allowed) [
      | some listed ↦ if listed then ok key else ask_table g key
      | none ↦ err failure
    ]

-- `require_api_key`
unfoldable pub require_api_key : Gate → Headers → Result String
unfolding extract_key find_allowed
require_api_key g headers = elim (extract_key headers) [
  | some key ↦ authenticate g key
  | none ↦ err (http 401 "missing API key")
]

-- the bucket of an authenticated caller
unfoldable pub take_token : Gate → String → Buckets → Store → Result String × Buckets × Store
take_token g key buckets s =
    let (r, buckets') = check g.limiter g.now key 1 buckets in
    elim g.script [
      | answered ↦
          if r.0
          then (ok key, buckets', s)
          else (err (http 429 "rate limit exceeded, slow down"), buckets', refuse "rate_limit" s)
      | failed took ↦ (err failure, if took then buckets' else buckets, s)
      | cancelled took ↦ (err cancellation, if took then buckets' else buckets, s)
    ]

-- `enforce_rate_limit`
unfoldable pub enforce_rate_limit :
    Gate → Headers → Buckets → Store → Result String × Buckets × Store
unfolding require_api_key take_token
enforce_rate_limit g headers buckets s = elim (require_api_key g headers) [
  | ok key ↦ take_token g key buckets s
  | err e ↦ (err e, buckets, s)
]

-- the refusal of a caller at its cap
unfoldable pub check_budget : Gate → String → Store → Result String × Store
check_budget g key s =
    let (r, s') = spent_usd g.env key s in
    elim r [
      | ok spent ↦
          if leb_ℤ (pos g.env.monthly_budget_per_key) spent
          then (
            err (http 402 "monthly budget exceeded for this API key"),
            refuse "key_budget_exhausted" s',
          )
          else (ok key, s')
      | err e ↦ (err e, s')
    ]

-- the body of `enforce_budget`, behind its dependency
abbrev pub then_budget : Gate → Result String × Buckets × Store → Result String × Buckets × Store
then_budget g (ok key, buckets, s) = let (r, s') = check_budget g key s in (r, buckets, s')
then_budget g (err e, buckets, s) = (err e, buckets, s)

-- `enforce_budget`
unfoldable pub enforce_budget : Gate → Headers → Buckets → Store → Result String × Buckets × Store
unfolding enforce_rate_limit
enforce_budget g headers buckets s = then_budget g (enforce_rate_limit g headers buckets s)
