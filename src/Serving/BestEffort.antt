-- ===== src/Serving/BestEffort.antt =====
-- A served request stays served, whatever fails in its bookkeeping.
use llm_gateway_fallback_rou.Base.{ℕ, String, ◌≡◌, refl, false, arith}
use llm_gateway_fallback_rou.Providers.{ChatResponse}
use llm_gateway_fallback_rou.Ledger.{Env, Store, ok, AuditRow}
use llm_gateway_fallback_rou.Settlement.{Reservations, settle_chain}
use llm_gateway_fallback_rou.Settlement.BestEffort.{is_cancelled, Uncancelled, settle_chain_ok}
use llm_gateway_fallback_rou.Router.{served}
use llm_gateway_fallback_rou.Serving.{
  serve_chat, record_audit_log, count_request, cost_of, audit_row, record_usage,
}

pub record_audit_log_ok :
    (env : Env) (row : AuditRow) (s : Store)
    → ((n : ℕ) → is_cancelled (env.database n) ≡ false)
    → (record_audit_log env row s).0 ≡ ok tt
unfolding record_audit_log
record_audit_log_ok env row s calm = ground (arith, calm s.audit_writes)

-- However many Redis commands and audit transactions fail, as long as none is cancelled: a
-- request that a provider answered returns that answer.
pub served_stays_served :
    (env : Env) (k : String) (res : Reservations) (x : ChatResponse) (s : Store)
    → Uncancelled env
    → ((n : ℕ) → is_cancelled (env.database n) ≡ false)
    → (serve_chat env k res (served x) s).0 ≡ ok x
unfolding serve_chat
served_stays_served env k res x s calm database =
    let s₁ = (settle_chain env k res x.provider (cost_of x) (count_request "success" s)).1 in
    rw (settle_chain_ok env calm k res x.provider (cost_of x) (count_request "success" s)) (
      rw
        (record_audit_log_ok env
          (audit_row "success" x.provider x.input_tokens x.output_tokens (cost_of x))
          (record_usage x.provider x.model x.input_tokens x.output_tokens (cost_of x) s₁) database)
        refl)
