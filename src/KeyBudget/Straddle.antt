-- ===== src/KeyBudget/Straddle.antt =====
-- A request that is settled in another period than it was claimed in.
use llm_gateway_fallback_rou.Base.{
  ℕ, String, ◌≡◌, ◌≢◌, pos, ◌+ℤ◌, int_laws, parts_of_eq, ap, arith, str_eq_refl, sym,
}
use llm_gateway_fallback_rou.Ledger.{Env, Store, ok, Lands, period}
use llm_gateway_fallback_rou.KeyBudget.{reserve, settle}
use llm_gateway_fallback_rou.KeyBudget.Outcomes.{share, reserve-share, settle-share}

share_now : (env : Env) (k : String) (now n : ℕ) → share env k now n (env.hash_key k) now ≡ n
share_now env k now n = ground (arith, str_eq_refl (env.hash_key k))

share_later :
    (env : Env) (k : String) (now n m : ℕ) → now ≢ m → share env k now n (env.hash_key k) m ≡ 0
share_later env k now n m other = ground (arith, other)

-- With every command taking effect: a claim that is admitted in one period and settled in another
-- stays in the month of the first in full, whatever the request cost; and the month of the second,
-- which never held the claim, has the claim taken off and the cost put on.
pub straddle_shifts :
    (env : Env) (k : String) (worst actual : ℕ) (s s' : Store)
    → Lands env
    → (reserve env k worst s).0 ≡ ok tt
    → s'.months ≡ (reserve env k worst s).1.months
    → period env s ≢ period env s'
    → let h = env.hash_key k in
      let t = (settle env k worst actual s').1 in
      (t.months h (period env s) ≡ s.months h (period env s) +ℤ pos worst)
      × (t.months h (period env s') +ℤ pos worst ≡ s.months h (period env s') +ℤ pos actual)
straddle_shifts env k worst actual s s' lands admitted kept other =
    let h = env.hash_key k in
    let a = period env s in
    let b = period env s' in
    let back : b ≢ a = λ e. other (sym e) in
    (
      omega (
        int_laws,
        parts_of_eq (reserve-share env k worst s h a admitted),
        parts_of_eq (settle-share env k worst actual s' h a lands),
        parts_of_eq (ap (λ f. f h a) kept),
        share_now env k a worst,
        share_later env k b worst a back,
        share_later env k b actual a back,
      ),
      omega (
        int_laws,
        parts_of_eq (reserve-share env k worst s h b admitted),
        parts_of_eq (settle-share env k worst actual s' h b lands),
        parts_of_eq (ap (λ f. f h b) kept),
        share_later env k a worst b other,
        share_now env k b worst,
        share_now env k b actual,
      ),
    )
