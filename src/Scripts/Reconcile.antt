-- ===== src/Scripts/Reconcile.antt =====
-- scripts/reconcile.py: the ledger of the providers against the audit log.
use llm_gateway_fallback_rou.Base.{
  ℕ, ◌+◌, ◌≤◌, max, String, ◌≡◌, refl, ap, ◌∙◌, true, none, some, List, [], ◌∷◌, map, member,
  str_eq, ltb, ℤ, pos, pos_part, neg_part, ◌-ℤ◌, ◌↔◌, ◌⊎◌, arith, All, eq_iff, if◌then◌else◌,
}
use llm_gateway_fallback_rou.Chains.{billable_providers}
use llm_gateway_fallback_rou.Ledger.{
  Env, Store, AuditRow, Wire, answered, failed, cancelled, cancellation, is_exception, Result, ok,
  err, Quiet,
}
use llm_gateway_fallback_rou.ProviderBudget.{spent, snapshot}
use llm_gateway_fallback_rou.Wiring.{find_name}

-- the cost column of `_audit_totals`, for one provider
unfoldable pub audit_total : String → List AuditRow → ℕ
audit_total p [] = 0
audit_total p (row ∷ rows) =
    (if str_eq row.provider p then row.cost_usd else 0) + audit_total p rows

-- `ledger.get(provider, 0.0)`
abbrev pub ledger_total : String → List (String × ℤ) → ℤ
ledger_total p ledger = elim (find_name p ledger) [ some total ↦ total | none ↦ pos 0 ]

-- `abs(x)`
abbrev pub size : ℤ → ℕ
size x = pos_part x + neg_part x

abbrev pub gap : ℤ → String → List AuditRow → ℕ
gap total p rows = size (total -ℤ pos (audit_total p rows))

-- `worst`, after the loop over the providers
unfoldable pub worst_gap : List (String × ℤ) → List AuditRow → List String → ℕ
worst_gap ledger rows [] = 0
worst_gap ledger rows (p ∷ ps) = max (gap (ledger_total p ledger) p rows) (worst_gap ledger rows ps)

abbrev pub exit_code : ℕ → ℕ → ℕ
exit_code tolerance worst = if ltb tolerance worst then 1 else 0

-- the query of the audit log
abbrev pub read_audit : Wire → ℕ → List String → List (String × ℤ) → Store → Result ℕ × Store
read_audit answered tolerance ps ledger s =
    (ok (exit_code tolerance (worst_gap ledger s.audit ps)), s)
read_audit (failed took) tolerance ps ledger s = (ok 2, s)
read_audit (cancelled took) tolerance ps ledger s = (err cancellation, s)

abbrev pub read_ledger :
    Wire → ℕ → List String → Result (List (String × ℤ)) × Store → Result ℕ × Store
read_ledger query tolerance ps (ok ledger, s) = read_audit query tolerance ps ledger s
read_ledger query tolerance ps (err e, s) = if is_exception e then (ok 2, s) else (err e, s)

-- `reconcile`, after `init_db`
unfoldable pub reconcile : Env → Wire → ℕ → Store → Result ℕ × Store
reconcile env query tolerance s =
    read_ledger query tolerance billable_providers (snapshot env billable_providers s)

module _ (env : Env) (quiet : Quiet env) where
  spent_quiet :
      (p : String) (s : Store)
      → ((spent env p s).0 ≡ ok (s.providers p))
        × ((spent env p s).1.providers ≡ s.providers)
        × ((spent env p s).1.audit ≡ s.audit)
  unfolding spent
  spent_quiet p s = ground (arith, quiet s.sent)

  snapshot_quiet :
      (ps : List String) (s : Store)
      → ((snapshot env ps s).0 ≡ ok (map (λ p. (p, s.providers p)) ps))
        × ((snapshot env ps s).1.audit ≡ s.audit)
  unfolding snapshot
  snapshot_quiet [] s = (refl, refl)
  snapshot_quiet (p ∷ ps) s =
      let (r, s₁) = spent env p s in
      let first = spent_quiet p s in
      let rest = snapshot_quiet ps s₁ in rw (first.0, rest.0, first.1) (refl, rest.1 ∙ first.2)

find_name-map :
    (g : String → ℤ) (p : String) (ps : List String)
    → member p ps ≡ true
    → find_name p (map (λ q. (q, g q)) ps) ≡ some (g p)
unfolding find_name
find_name-map g p [] h = cc h
find_name-map g p (q ∷ ps) h = grind (arith, h, find_name-map g p ps, eq_iff p q)

ledger_total-map :
    (g : String → ℤ) (p : String) (ps : List String)
    → member p ps ≡ true
    → ledger_total p (map (λ q. (q, g q)) ps) ≡ g p
ledger_total-map g p ps h = rw (find_name-map g p ps h, ledger_total) refl

-- Every provider's total is within the tolerance of what the audit log has for it.
abbrev pub Agree : ℕ → Store → List String → Type 0
Agree tolerance s ps = All (λ p. gap (s.providers p) p s.audit ≤ tolerance) ps

worst_gap-Agree :
    (tolerance : ℕ) (s : Store) (all ps : List String)
    → All (λ p. member p all ≡ true) ps
    → let worst = worst_gap (map (λ p. (p, s.providers p)) all) s.audit ps in
      (worst ≤ tolerance) ↔ Agree tolerance s ps
unfolding worst_gap
worst_gap-Agree tolerance s all [] known = ((λ h. tt), (λ h. omega arith))
worst_gap-Agree tolerance s all (p ∷ ps) known =
    let rest = worst_gap-Agree tolerance s all ps known.1 in
    let same : gap (ledger_total p (map (λ p. (p, s.providers p)) all)) p s.audit
        ≡ gap (s.providers p) p s.audit =
      ap (λ x. gap x p s.audit) (ledger_total-map s.providers p all known.0) in
    (
      (λ h. (omega (arith, h, same), rest.0 (omega (arith, h)))),
      (λ h. omega (arith, h.0, same, rest.1 h.1)),
    )

billable_known : All (λ p. member p billable_providers ≡ true) billable_providers
unfolding billable_providers
billable_known = (refl, (refl, tt))

exit_code_zero : (tolerance worst : ℕ) → (exit_code tolerance worst ≡ 0) ↔ (worst ≤ tolerance)
exit_code_zero tolerance worst = ((λ h. ground (arith, h)), (λ h. ground (arith, h)))

-- If both stores answer: the script exits with 0 exactly if every billable provider's total in
-- the ledger is within the tolerance of the sum of its rows in the audit log, and with 1
-- otherwise.
pub reconcile_lem :
    (env : Env) (quiet : Quiet env) (tolerance : ℕ) (s : Store)
    → (code : ℕ) × ((reconcile env answered tolerance s).0 ≡ ok code)
      × ((code ≡ 0) ↔ Agree tolerance s billable_providers)
      × ((code ≡ 0) ⊎ (code ≡ 1))
unfolding reconcile
reconcile_lem env quiet tolerance s =
    let (r, s₁) = snapshot env billable_providers s in
    let read = snapshot_quiet env quiet billable_providers s in
    let worst : ℕ =
      worst_gap (map (λ p. (p, s.providers p)) billable_providers) s.audit billable_providers in
    let agree = worst_gap-Agree tolerance s billable_providers billable_providers billable_known in
    let zero_iff = exit_code_zero tolerance worst in
    (
      exit_code tolerance worst,
      rw (read.0, read.1) refl,
      ((λ h. agree.0 (zero_iff.0 h)), (λ h. zero_iff.1 (agree.1 h))),
      ground arith,
    )
