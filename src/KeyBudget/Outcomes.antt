-- ===== src/KeyBudget/Outcomes.antt =====
-- What `reserve` and `settle` do to the total of a key's period, however Redis answers.
use llm_gateway_fallback_rou.Base.{
  ℕ, ◌+◌, ◌/◌, String, ◌≡◌, false, ◌==◌, pos, ◌+ℤ◌, ◌≤ℤ◌, if◌then◌else◌, arith, int_laws, eq_iff,
  str_eq, str_eq_refl,
}
use llm_gateway_fallback_rou.Ledger.{
  Env, Store, Exc, Result, ok, err, Lands, Quiet, period, seconds_per_month,
}
use llm_gateway_fallback_rou.KeyBudget.{reserve, settle}

-- Every command of the request falls into one period.
abbrev pub OnePeriod : Env → ℕ → Type 0
OnePeriod env now = (n : ℕ) → env.time n / seconds_per_month ≡ now

-- What `n` claimed for `api_key` in period `now` weighs on the total of a hash in a period.
abbrev pub share : Env → String → ℕ → ℕ → String → ℕ → ℕ
share env api_key now n h m =
    if str_eq (env.hash_key api_key) h then if now == m then n else 0 else 0

-- An admitted claim.
pub reserve-share :
    (env : Env) (api_key : String) (worst : ℕ) (s : Store) (h : String) (m : ℕ)
    → (reserve env api_key worst s).0 ≡ ok tt
    → (reserve env api_key worst s).1.months h m
      ≡ s.months h m +ℤ pos (share env api_key (period env s) worst h m)
unfolding reserve
reserve-share env k worst s h m e = grind (int_laws, eq_iff (env.hash_key k) h)

-- By how a claim ended, where the total of its month stands.
abbrev pub Capped : Env → String → ℕ → Store → Result (Unit {0}) × Store → Type 0
Capped env k worst s (ok _, s') =
    s'.months (env.hash_key k) (period env s) ≤ℤ pos env.monthly_budget_per_key
Capped env k worst s (err e, s') =
    s.months (env.hash_key k) (period env s) ≤ℤ s'.months (env.hash_key k) (period env s)

-- However Redis answers: an admitted claim leaves the total of the key's current period within
-- the monthly cap, and a claim that raises never lowers that total.
pub reserve-Capped :
    (env : Env) (k : String) (worst : ℕ) (s : Store)
    → (worst == 0) ≡ false
    → Capped env k worst s (reserve env k worst s)
unfolding reserve
reserve-Capped env k worst s w = rw (w, reserve) (grind (int_laws, str_eq_refl (env.hash_key k)))

pub reserve_refused :
    (env : Env) (api_key : String) (now worst : ℕ) (s : Store) (h : String) (m : ℕ) (e : Exc)
    → Quiet env
    → OnePeriod env now
    → (reserve env api_key worst s).0 ≡ err e
    → (reserve env api_key worst s).1.months h m ≡ s.months h m
unfolding reserve
reserve_refused env k now worst s h m e quiet one_period r = grind (
  int_laws,
  quiet,
  one_period s.sent,
  one_period (s.sent + 1),
  eq_iff (env.hash_key k) h,
  str_eq_refl (env.hash_key k),
)

pub settle-share :
    (env : Env) (api_key : String) (reserved actual : ℕ) (s : Store) (h : String) (m : ℕ)
    → Lands env
    → (settle env api_key reserved actual s).1.months h m
        +ℤ pos (share env api_key (period env s) reserved h m)
      ≡ s.months h m +ℤ pos (share env api_key (period env s) actual h m)
unfolding settle
settle-share env k reserved actual s h m lands =
    grind (int_laws, lands s.sent, eq_iff (env.hash_key k) h)

-- The methods on a key leave the provider totals alone.
pub reserve-providers :
    (env : Env) (k : String) (worst : ℕ) (s : Store)
    → (reserve env k worst s).1.providers ≡ s.providers
unfolding reserve
reserve-providers env k worst s = ground arith

pub settle-providers :
    (env : Env) (k : String) (reserved actual : ℕ) (s : Store)
    → (settle env k reserved actual s).1.providers ≡ s.providers
unfolding settle
settle-providers env k reserved actual s = ground arith
