-- ===== src/ProviderBudget.antt =====
-- app/budget/provider_budget.py: the lifetime spend ceiling of each provider. A method is an
-- action on the shared `Store`; every `await` of Redis is one `command` of the ledger.
use llm_gateway_fallback_rou.Base.{
  ℕ, ◌+◌, String, Bool, true, false, ◌||◌, Option, none, some, List, [], ◌∷◌, ◌==◌, ℤ, pos, negsuc,
  pos_part, ◌-ℤ◌, leb_ℤ, add_member, if◌then◌else◌,
}
use llm_gateway_fallback_rou.Chains.{is_free}
use llm_gateway_fallback_rou.Ledger.{
  Env, Store, Exc, ok, err, provider_exhausted, is_exception, Action, pure, raise, catch, ◌>>=◌,
  ◌>>◌, modify, update, incr_provider, get_provider, minus,
}
pub mod Outcomes

-- `_publish`
unfoldable pub publish : Env → String → ℤ → Store → Store
publish env p total s = if is_free p then s else record s {
  spent_gauge = update s.spent_gauge p total;
  remaining_gauge =
      update s.remaining_gauge p (pos_part (pos env.provider_lifetime_budget -ℤ total));
}

-- `spent`
unfoldable pub spent : Env → String → Action ℤ
unfolding get_provider publish
spent env p = do total ← get_provider env p; modify (publish env p total); pure total

-- `remaining`; `none` is the infinite headroom of a free provider
unfoldable pub remaining : Env → String → Action (Option ℕ)
unfolding spent
remaining env p =
    if is_free p
    then pure none
    else do total ← spent env p; pure (some (pos_part (pos env.provider_lifetime_budget -ℤ total)))

-- `is_exhausted`
unfoldable pub is_exhausted : Env → String → Action Bool
unfolding spent
is_exhausted env p =
    if is_free p
    then pure false
    else do total ← spent env p; pure (leb_ℤ (pos env.provider_lifetime_budget) total)

exhausted_from : Env → List String → List String → Action (List String)
unfolding is_exhausted
exhausted_from env [] out = pure out
exhausted_from env (p ∷ ps) out = do
  gone ← is_exhausted env p
  exhausted_from env ps (if gone then add_member p out else out)

-- `exhausted_providers`
unfoldable pub exhausted_providers : Env → List String → Action (List String)
unfolding exhausted_from
exhausted_providers env ps = exhausted_from env ps []

-- the test of `reserve` on the total after the claim
abbrev pub admits : Env → ℤ → Bool
admits env total = leb_ℤ total (pos env.provider_lifetime_budget)

-- The hand-back of a refused claim. A failure is logged, counted as a leak and swallowed; a
-- cancellation is no `Exception` and goes on its way.
unfoldable pub hand_back : Env → String → ℕ → ℤ → Action (Unit {0})
unfolding incr_provider publish
hand_back env p worst total =
    catch (do incr_provider env p (minus worst); modify (publish env p (total -ℤ pos worst)))
      (λ e s.
        if is_exception e
        then (ok tt, publish env p total (record s { leaked_provider = s.leaked_provider + worst }))
        else (err e, s))

-- `reserve`, after the claim
unfoldable pub decide : Env → String → ℕ → ℤ → Action (Unit {0})
unfolding publish hand_back
decide env p worst total =
    if admits env total
    then modify (publish env p total)
    else (hand_back env p worst total
        >> raise (provider_exhausted p (total -ℤ pos worst) env.provider_lifetime_budget))

-- `reserve`
unfoldable pub reserve : Env → String → ℕ → Action (Unit {0})
unfolding incr_provider decide
reserve env p worst s =
    if is_free p || worst == 0
    then pure tt s
    else (incr_provider env p (pos worst) >>= decide env p worst) s

abbrev pub is_zero : ℤ → Bool
is_zero (pos n) = n == 0
is_zero (negsuc n) = false

-- `settle`
unfoldable pub settle : Env → String → ℕ → ℕ → Action (Unit {0})
unfolding incr_provider publish
settle env p reserved actual s =
    let delta = pos actual -ℤ pos reserved in
    if is_free p || is_zero delta
    then pure tt s
    else (do total ← incr_provider env p delta; modify (publish env p total)) s

-- `record_unreserved`
unfoldable pub record_unreserved : Env → String → ℕ → Action (Unit {0})
unfolding incr_provider publish
record_unreserved env p actual s =
    if is_free p || actual == 0
    then pure tt s
    else (do total ← incr_provider env p (pos actual); modify (publish env p total)) s

-- `snapshot`
unfoldable pub snapshot : Env → List String → Action (List (String × ℤ))
unfolding spent
snapshot env [] = pure []
snapshot env (p ∷ ps) = do total ← spent env p; rest ← snapshot env ps; pure ((p, total) ∷ rest)
