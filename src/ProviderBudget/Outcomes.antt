-- ===== src/ProviderBudget/Outcomes.antt =====
-- What `reserve` and `settle` do to the ledger, however Redis answers.
use llm_gateway_fallback_rou.Base.{
  ℕ, ◌+◌, ◌≤◌, String, ◌≡◌, false, ◌||◌, ◌==◌, pos, ◌+ℤ◌, ◌≤ℤ◌, if◌then◌else◌, arith, int_laws,
  +ℤ-zero, eq_iff, str_eq, str_eq_refl, Bool-cases, inl, inr,
}
use llm_gateway_fallback_rou.Chains.{is_free}
use llm_gateway_fallback_rou.Ledger.{
  Env, Store, Exc, provider_exhausted, Result, ok, err, add_provider, answered, Lands, Quiet,
}
use llm_gateway_fallback_rou.ProviderBudget.{record_unreserved, reserve, decide, settle}

-- How far a refused or admitted claim has moved the total of its provider.
abbrev pub Reserved : Env → String → ℕ → Store → Result (Unit {0}) × Store → Type 0
Reserved env p worst s (ok _, s') =
    (s'.providers p ≡ s.providers p +ℤ pos worst)
    × (s'.providers p ≤ℤ pos env.provider_lifetime_budget)
Reserved env p worst s (err e, s') = s.providers p ≤ℤ s'.providers p

-- However Redis answers, and for any positive amount on a provider that charges: an admitted
-- claim stands in the ledger in full and leaves the total within the ceiling, and a claim that
-- raises never lowers the total.
pub reserve-Reserved :
    (env : Env) (p : String) (worst : ℕ) (s : Store)
    → is_free p ≡ false
    → (worst == 0) ≡ false
    → Reserved env p worst s (reserve env p worst s)
unfolding reserve
reserve-Reserved env p worst s f w = rw (f, w, reserve) (grind (int_laws, str_eq_refl p))

-- What `n` claimed against `p` weighs on the total of `q`.
abbrev pub charge : String → ℕ → String → ℕ
charge p n q = if is_free p then 0 else if str_eq p q then n else 0

-- An admitted claim stands in the ledger in full, on its own provider alone.
pub reserve-charge :
    (env : Env) (p : String) (worst : ℕ) (s : Store) (q : String)
    → (reserve env p worst s).0 ≡ ok tt
    → (reserve env p worst s).1.providers q ≡ s.providers q +ℤ pos (charge p worst q)
unfolding reserve
reserve-charge env p worst s q h = grind (int_laws, eq_iff p q)

pub reserve_refused :
    (env : Env) (p : String) (worst : ℕ) (s : Store) (q : String) (e : Exc)
    → Quiet env
    → (reserve env p worst s).0 ≡ err e
    → ((reserve env p worst s).1.providers q ≡ s.providers q)
unfolding reserve
reserve_refused env p worst s q e quiet h = grind (int_laws, quiet, eq_iff p q)

pub settle-charge :
    (env : Env) (p : String) (reserved actual : ℕ) (s : Store) (q : String)
    → Lands env
    → (settle env p reserved actual s).1.providers q +ℤ pos (charge p reserved q)
      ≡ s.providers q +ℤ pos (charge p actual q)
unfolding settle
settle-charge env p reserved actual s q lands = grind (int_laws, lands s.sent, eq_iff p q)

-- However the command ends, replacing a reservation by a smaller real cost never lets the total
-- fall below what it should be.
pub settle_safe :
    (env : Env) (p : String) (reserved actual : ℕ) (s : Store) (q : String)
    → actual ≤ reserved
    → s.providers q +ℤ pos (charge p actual q)
      ≤ℤ (settle env p reserved actual s).1.providers q +ℤ pos (charge p reserved q)
unfolding settle
settle_safe env p reserved actual s q h = grind (int_laws, eq_iff p q)

pub record_unreserved-charge :
    (env : Env) (p : String) (actual : ℕ) (s : Store) (q : String)
    → Lands env
    → (record_unreserved env p actual s).1.providers q ≡ s.providers q +ℤ pos (charge p actual q)
unfolding record_unreserved
record_unreserved-charge env p actual s q lands = grind (int_laws, lands s.sent, eq_iff p q)

-- The provider methods leave the monthly totals alone.
pub settle-months :
    (env : Env) (p : String) (reserved actual : ℕ) (s : Store)
    → (settle env p reserved actual s).1.months ≡ s.months
unfolding settle
settle-months env p reserved actual s = ground arith

pub reserve-months :
    (env : Env) (p : String) (worst : ℕ) (s : Store) → (reserve env p worst s).1.months ≡ s.months
unfolding reserve
reserve-months env p worst s = ground arith

pub record_unreserved-months :
    (env : Env) (p : String) (actual : ℕ) (s : Store)
    → (record_unreserved env p actual s).1.months ≡ s.months
unfolding record_unreserved
record_unreserved-months env p actual s = ground arith

-- With every command answered, a claim is admitted in full or refused without a trace.
abbrev pub Settled : String → ℕ → String → Store → Result (Unit {0}) × Store → Type 0
Settled p worst q s (ok _, s') = s'.providers q ≡ s.providers q +ℤ pos (charge p worst q)
Settled p worst q s (err (provider_exhausted x spent cap), s') = s'.providers q ≡ s.providers q
Settled p worst q s (err e, s') = ⊥

decide-Settled :
    (env : Env) (p : String) (worst : ℕ) (s : Store) (q : String)
    → Quiet env
    → is_free p ≡ false
    → let total = s.providers p +ℤ pos worst in
      Settled p worst q s
        (decide env p worst total (record (add_provider p (pos worst) s) { sent = s.sent + 1 }))
unfolding decide
decide-Settled env p worst s q quiet paid =
    grind (int_laws, quiet (s.sent + 1), eq_iff p q, str_eq_refl p)

pub reserve_answered :
    (env : Env) (p : String) (worst : ℕ) (s : Store)
    → env.wire s.sent ≡ answered
    → (is_free p || worst == 0) ≡ false
    → reserve env p worst s
      ≡ decide env p worst
          (s.providers p +ℤ pos worst)
          (record (add_provider p (pos worst) s) { sent = s.sent + 1 })
unfolding reserve
reserve_answered env p worst s a needed = ground arith

pub reserve-Settled :
    (env : Env) (p : String) (worst : ℕ) (s : Store) (q : String)
    → Quiet env
    → Settled p worst q s (reserve env p worst s)
unfolding reserve
reserve-Settled env p worst s q quiet = elim (Bool-cases (is_free p || worst == 0)) [
  | inl none_needed ↦ rw (none_needed, reserve) (ground (arith, +ℤ-zero (s.providers q)))
  | inr needed ↦
      rw (reserve_answered env p worst s (quiet s.sent) needed)
        (decide-Settled env p worst s q quiet (ground (arith, needed)))
]
