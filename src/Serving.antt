-- ===== src/Serving.antt =====
-- app/main.py, `_serve_chat` and what it calls, and app/db/audit.py: the bookkeeping of a request
-- that is not streamed, from the router's result to the response.
use llm_gateway_fallback_rou.Base.{
  ℕ, ◌+◌, String, Bool, true, false, Option, none, some, List, [], ◌∷◌, str_eq, if◌then◌else◌,
}
use llm_gateway_fallback_rou.Chains.{Chain, is_routable, resolve_chain}
use llm_gateway_fallback_rou.Pricing.{estimate_cost}
use llm_gateway_fallback_rou.Providers.{ChatMessage, ChatResponse, SamplingParams}
use llm_gateway_fallback_rou.Ledger.{
  Env, Store, AuditRow, Usage, Wire, answered, failed, cancelled, Exc, failure, cancellation, http,
  Result, ok, err, Action, pure, raise, ◌>>=◌, ◌>>◌, modify,
}
use llm_gateway_fallback_rou.Settlement.{Reservations, settle_chain}
use llm_gateway_fallback_rou.Reservation.{reserve_chain}
use llm_gateway_fallback_rou.Router
use llm_gateway_fallback_rou.Router.{
  Upstream, Router, RouterResult, served, all_failed, other_exception,
}
pub mod Costs
pub mod Leak
pub mod BestEffort

-- `_record_usage`
unfoldable pub record_usage : String → String → ℕ → ℕ → ℕ → Store → Store
record_usage provider model input output cost s = if str_eq provider "" then s else record s {
  usage =
      record {
        provider = provider;
        model = model;
        input_tokens = input;
        output_tokens = output;
        cost_usd = cost;
      }
      ∷ s.usage;
}

abbrev pub audit_row : String → String → ℕ → ℕ → ℕ → AuditRow
audit_row outcome provider input output cost = record {
  outcome = outcome;
  provider = provider;
  input_tokens = input;
  output_tokens = output;
  cost_usd = cost;
}

-- `record_audit_log`: an `Exception` of the database is logged and swallowed
unfoldable pub record_audit_log : Env → AuditRow → Action (Unit {0})
record_audit_log env row s =
    let lost : Store = record s { audit_writes = s.audit_writes + 1 } in
    let written : Store = record lost { audit = row ∷ s.audit } in
    elim (env.database s.audit_writes) [
      | answered ↦ (ok tt, written)
      | failed took ↦ (ok tt, if took then written else lost)
      | cancelled took ↦ (err cancellation, if took then written else lost)
    ]

-- `REQUEST_COUNT.labels(status=…).inc()`
abbrev pub count_request : String → Store → Store
count_request status s = record s { requests = status ∷ s.requests }

-- the price of a response
abbrev pub cost_of : ChatResponse → ℕ
cost_of x = estimate_cost x.provider x.model x.input_tokens x.output_tokens

-- `_serve_chat`, from the end of `router.chat`
unfoldable pub serve_chat : Env → String → Reservations → RouterResult → Action ChatResponse
unfolding record_audit_log record_usage
serve_chat env api_key reservations (all_failed errors) = do
  settle_chain env api_key reservations "" 0
  modify (count_request "error")
  record_audit_log env (audit_row "error" "" 0 0 0)
  raise (http 502 "all providers failed")
serve_chat env api_key reservations (other_exception interrupted) =
    raise (if interrupted then cancellation else failure)
serve_chat env api_key reservations (served x) = do
  modify (count_request "success")
  settle_chain env api_key reservations x.provider (cost_of x)
  modify (record_usage x.provider x.model x.input_tokens x.output_tokens (cost_of x))
  record_audit_log env (audit_row "success" x.provider x.input_tokens x.output_tokens (cost_of x))
  pure x

-- `_route`; `build_router` gives the chain's hops their providers and breakers
unfoldable pub route : Env → String → Option Bool → Result (String × Chain)
route env requested strict =
    let reject : Bool = elim strict [ none ↦ env.strict_model_routing | some b ↦ b ] in
    if is_routable requested
    then ok (resolve_chain requested)
    else if reject
    then err (http 404 "unknown model")
    else ok (resolve_chain requested)

-- `settle … serve`, with the state of the router beside the store
unfoldable pub run_router :
    Env
    → Upstream
    → String
    → Chain
    → Reservations × List String
    → Router
    → Store
    → Result ChatResponse × Store × Router
run_router env up api_key chain (reservations, skip) router s =
    let (outcome, router') = Router.chat up skip chain router in
    let (r, s') = serve_chat env api_key reservations outcome s in (r, s', router')

-- the handler of `POST /v1/chat`, behind its dependencies, and the branch of
-- `POST /v1/chat/completions` that does not stream
unfoldable pub chat_endpoint :
    Env
    → Upstream
    → String
    → Option Bool
    → List ChatMessage
    → Option SamplingParams
    → String
    → Router
    → Store
    → Result ChatResponse × Store × Router
chat_endpoint env up requested strict messages params api_key router s =
    elim (route env requested strict) [
      | err e ↦ (err e, s, router)
      | ok (name, chain) ↦
          let (r, s') = reserve_chain env name messages params api_key s in
          elim r [
            | err e ↦ (err e, s', router)
            | ok claims ↦ run_router env up api_key chain claims router s'
          ]
    ]
