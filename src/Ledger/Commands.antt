-- ===== src/Ledger/Commands.antt =====
-- What holds of every Redis command.
use llm_gateway_fallback_rou.Base.{◌≡◌}
use llm_gateway_fallback_rou.Ledger.{Env, Store, Lands, Quiet}

pub Quiet-Lands : (env : Env) → Quiet env → Lands env
Quiet-Lands env quiet n = rw (quiet n)

-- Two states with the same totals.
pub record SameTotals (s s' : Store) : Type 0 where
  pub providers : s'.providers ≡ s.providers
  pub months : s'.months ≡ s.months
