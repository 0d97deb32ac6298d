-- ===== src/KeyBudget.antt =====
-- app/budget/tracker.py: the monthly share of each client key. A period's total lives under the
-- hashed key and the number of the period at the moment of the command.
use llm_gateway_fallback_rou.Base.{
  ℕ, ◌+◌, String, Bool, ◌||◌, ◌==◌, ℤ, pos, ◌-ℤ◌, leb_ℤ, ltb_ℤ, if◌then◌else◌,
}
use llm_gateway_fallback_rou.Ledger.{
  Env, Store, Exc, Result, ok, err, key_exhausted, is_exception, Action, pure, raise, catch, ◌>>=◌,
  ◌>>◌, incr_month, get_month, minus,
}
use llm_gateway_fallback_rou.ProviderBudget.{is_zero}
pub mod Outcomes
pub mod Straddle

-- `spent_usd`
unfoldable pub spent_usd : Env → String → Action ℤ
unfolding get_month
spent_usd env api_key = get_month env api_key

-- `has_budget`
unfoldable pub has_budget : Env → String → Action Bool
unfolding spent_usd
has_budget env api_key = do
  spent ← spent_usd env api_key
  pure (ltb_ℤ spent (pos env.monthly_budget_per_key))

-- The hand-back of a refused claim. A failure is logged, counted as a leak and swallowed; a
-- cancellation goes on its way.
unfoldable pub hand_back : Env → String → ℕ → Action (Unit {0})
unfolding incr_month
hand_back env api_key worst = catch (incr_month env api_key (minus worst) >> pure tt) (λ e s.
    if is_exception e then (ok tt, record s { leaked_key = s.leaked_key + worst }) else (err e, s))

-- the test of `reserve` on the total after the claim
abbrev pub within_cap : Env → ℤ → Bool
within_cap env total = leb_ℤ total (pos env.monthly_budget_per_key)

-- `reserve`, after the claim
unfoldable pub decide : Env → String → ℕ → ℤ → Action (Unit {0})
unfolding hand_back
decide env api_key worst total s =
    if within_cap env total
    then pure tt s
    else (hand_back env api_key worst
          >> raise (key_exhausted (total -ℤ pos worst) env.monthly_budget_per_key))
        s

-- `reserve`
unfoldable pub reserve : Env → String → ℕ → Action (Unit {0})
unfolding incr_month decide
reserve env api_key worst s =
    if worst == 0
    then pure tt s
    else (incr_month env api_key (pos worst) >>= decide env api_key worst) s

-- `_apply_best_effort`
unfoldable pub apply_best_effort : Env → String → ℤ → Action (Unit {0})
unfolding incr_month
apply_best_effort env api_key delta =
    catch (incr_month env api_key delta >> pure tt)
      (λ e s. if is_exception e then (ok tt, s) else (err e, s))

-- `settle`
unfoldable pub settle : Env → String → ℕ → ℕ → Action (Unit {0})
unfolding apply_best_effort
settle env api_key reserved actual s =
    let delta = pos actual -ℤ pos reserved in
    if is_zero delta then pure tt s else apply_best_effort env api_key delta s
