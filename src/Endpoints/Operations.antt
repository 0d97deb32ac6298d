-- ===== src/Endpoints/Operations.antt =====
-- app/main.py and app/observability/request_id.py: readiness, metrics, the list of models and
-- the request id.
use llm_gateway_fallback_rou.Base.{
  ℕ, ◌≤◌, String, ◌≡◌, Bool, true, false, ◌&&◌, Option, none, some, List, [], ◌∷◌, map, leb, str_eq,
  eq_iff, arith, if◌then◌else◌,
}
use llm_gateway_fallback_rou.Chains.{Hop, Chain, find_chain, fallback_chains, routable_models}
use llm_gateway_fallback_rou.Config.{is_given}
use llm_gateway_fallback_rou.Texts.{compare_digest}
use llm_gateway_fallback_rou.Providers.{len}
use llm_gateway_fallback_rou.Ledger.{
  Wire, answered, failed, cancelled, failure, cancellation, http, Result, ok, err, key_error,
}
use llm_gateway_fallback_rou.Gate.Keys.{bearer}

-- `_check_redis` and `_check_database`, by the end of the ping or the query
abbrev pub check_dependency : Wire → Result String
check_dependency answered = ok "ok"
check_dependency (failed took) = ok "error"
check_dependency (cancelled took) = err cancellation

-- The answer of `/readyz`: its status and the two checks.
pub record Readiness : Type 0 where
  pub status_code : ℕ
  pub redis : String
  pub database : String

abbrev pub both_checks : Result String → Result String → Result Readiness
both_checks (ok redis) (ok database) = ok (record {
  status_code = if str_eq redis "ok" && str_eq database "ok" then 200 else 503;
  redis = redis;
  database = database;
})
both_checks (err e) database = err e
both_checks (ok redis) (err e) = err e

-- `readyz`
unfoldable pub readyz : Wire → Wire → Result Readiness
readyz redis database = both_checks (check_dependency redis) (check_dependency database)

-- the token that a scraper presents
abbrev pub metrics_token : Option String → Option String → Option String
metrics_token x_metrics_token authorization =
    if is_given x_metrics_token
    then x_metrics_token
    else elim (bearer authorization) [ some token ↦ some token | none ↦ x_metrics_token ]

abbrev pub matches : Option String → String → Result Bool
matches none expected = ok false
matches (some presented) expected =
    if is_given (some presented)
    then elim (compare_digest presented expected) [ some same ↦ ok same | none ↦ err failure ]
    else ok false

abbrev pub allow_scrape : Result Bool → Result (Unit {0})
allow_scrape (ok true) = ok tt
allow_scrape (ok false) = err (http 401 "invalid metrics token")
allow_scrape (err e) = err e

abbrev pub guard_metrics : Option String → Option String → Result (Unit {0})
guard_metrics none presented = ok tt
guard_metrics (some expected) presented =
    if is_given (some expected) then allow_scrape (matches presented expected) else ok tt

-- `metrics`, before the page itself
unfoldable pub metrics : Option String → Option String → Option String → Result (Unit {0})
unfolding bearer compare_digest
metrics expected x_metrics_token authorization =
    guard_metrics expected (metrics_token x_metrics_token authorization)

abbrev pub providers_of : Chain → List String
providers_of chain = map (λ (h : Hop). h.provider) chain

abbrev pub list_each : List String → Result (List (String × List String))
list_each [] = ok []
list_each (name ∷ names) = elim (find_chain name fallback_chains) [
  | none ↦ err key_error
  | some chain ↦ elim (list_each names) [
    | ok rest ↦ ok ((name, providers_of chain) ∷ rest)
    | err e ↦ err e
  ]
]

-- `list_models`, behind its dependency
unfoldable pub list_models : Result (List (String × List String))
unfolding routable_models find_chain
list_models = list_each routable_models

-- `_MAX_REQUEST_ID_LENGTH`
abbrev pub max_request_id_length : ℕ
max_request_id_length = 64

-- the choice of the id in `dispatch`; the new one is a UUID in hex
unfoldable pub request_id : Option String → String → String
request_id none fresh = fresh
request_id (some incoming) fresh =
    if is_given (some incoming) && leb (len incoming) max_request_id_length then incoming else fresh

-- Whatever a client sends, the id fits the column of the audit log, if the generated one does.
request_id_fits :
    (incoming : Option String) (fresh : String)
    → len fresh ≤ max_request_id_length
    → len (request_id incoming fresh) ≤ max_request_id_length
unfolding request_id
request_id_fits none fresh h = h
request_id_fits (some incoming) fresh h = ground (arith, h)

allowed_scrape :
    (presented : Option String) (expected : String)
    → allow_scrape (matches presented expected) ≡ ok tt
    → presented ≡ some expected
unfolding compare_digest
allowed_scrape none expected e = cc e
allowed_scrape (some p) expected e = grind (arith, e, eq_iff p expected)

-- Once a token is set, only a scraper that presents that token gets the page.
metrics_guarded :
    (expected : String) (x_metrics_token authorization : Option String)
    → is_given (some expected) ≡ true
    → metrics (some expected) x_metrics_token authorization ≡ ok tt
    → metrics_token x_metrics_token authorization ≡ some expected
unfolding metrics
metrics_guarded expected x_metrics_token authorization set e =
    allowed_scrape (metrics_token x_metrics_token authorization) expected (rw (set, metrics) at e)
