-- ===== src/Process/Stop.antt =====
-- How the process ends.
use llm_gateway_fallback_rou.Base.{◌≡◌, false, [], ◌∷◌, arith}
use llm_gateway_fallback_rou.Ledger.{Wire}
use llm_gateway_fallback_rou.Settlement.BestEffort.{is_cancelled}
use llm_gateway_fallback_rou.Process.{Pool, redis, database, close_pools, shut_down}

-- Unless a closing is cancelled, both pools are closed, the one whatever becomes of the other.
pub shut_down_tries :
    (close : Pool → Wire)
    → is_cancelled (close redis) ≡ false
    → ((shut_down close).tried ≡ redis ∷ database ∷ [])
      × ((shut_down close).interrupted ≡ is_cancelled (close database))
unfolding shut_down close_pools
shut_down_tries close calm = ground (arith, calm)
