-- ===== src/Streaming/Leak.antt =====
-- An exit of a stream that settles nothing.
use llm_gateway_fallback_rou.Base.{String, ◌≡◌, Bool, List, arith}
use llm_gateway_fallback_rou.Providers.{StreamChunk}
use llm_gateway_fallback_rou.Ledger.{Env, Store, cancelled}
use llm_gateway_fallback_rou.Ledger.Commands.{SameTotals}
use llm_gateway_fallback_rou.Settlement.{Reservations}
use llm_gateway_fallback_rou.Router.{RouteError}
use llm_gateway_fallback_rou.Router.Stream.{all_failed}
use llm_gateway_fallback_rou.Serving.{record_audit_log}
use llm_gateway_fallback_rou.Streaming.{native, event_stream, close, close_failed}

-- On the native surface the report that all providers failed writes its audit row first: if the
-- request is cancelled in that write, nothing is settled, and both ledgers keep its reservation.
pub cancelled_audit_leaks :
    (env : Env) (k : String) (res : Reservations) (chunks : List StreamChunk)
    (errors : List RouteError) (s : Store) (landed : Bool)
    → env.database s.audit_writes ≡ cancelled landed
    → SameTotals s (event_stream env native k res (chunks, all_failed errors) s).1
unfolding event_stream close close_failed record_audit_log
cancelled_audit_leaks env k res chunks errors s landed e = ground (arith, e)
