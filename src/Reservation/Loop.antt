-- ===== src/Reservation/Loop.antt =====
-- The loop of `_reserve_chain`: what stands in the ledgers is what the claims say.
use llm_gateway_fallback_rou.Base.{
  ℕ, ◌+◌, ◌*◌, String, ◌≡◌, refl, false, [], ◌∷◌, str_eq, arith, eq_iff, pos, ◌+ℤ◌, int_laws,
  parts_of_eq, ◌∙◌, Option-cases, Bool-cases, inl, inr,
}
use llm_gateway_fallback_rou.Chains.{is_free, Hop, Chain}
use llm_gateway_fallback_rou.Pricing.{worst_case_cost}
use llm_gateway_fallback_rou.Ledger.{Env, Store, provider_exhausted, Result, ok, err, Quiet}
use llm_gateway_fallback_rou.ProviderBudget
use llm_gateway_fallback_rou.ProviderBudget.Outcomes.{
  charge, reserve-Settled, Settled, reserve-months,
}
use llm_gateway_fallback_rou.Settlement.{Reservations, has_claim}
use llm_gateway_fallback_rou.Settlement.Claims.{claimed, Distinct}
use llm_gateway_fallback_rou.Reservation.{
  Claims, add_claim, after_reserve, claim_billable, claim_hop, claim_hops,
}

claimed-add_claim :
    (p : String) (n : ℕ) (res : Reservations) (q : String)
    → claimed (add_claim p n res) q ≡ charge p n q + claimed res q
unfolding add_claim
claimed-add_claim p n [] q = omega arith
claimed-add_claim p n ((x, r) ∷ rest) q = ground (arith, claimed-add_claim p n rest q, eq_iff p x)

has_claim-add_claim :
    (x p : String) (n : ℕ) (res : Reservations)
    → has_claim x res ≡ false
    → str_eq x p ≡ false
    → has_claim x (add_claim p n res) ≡ false
unfolding add_claim
has_claim-add_claim x p n [] h k = ground arith
has_claim-add_claim x p n ((y, r) ∷ rest) h k = ground (arith, has_claim-add_claim x p n rest)

add_claim-Distinct :
    (p : String) (n : ℕ) (res : Reservations) → Distinct res → Distinct (add_claim p n res)
unfolding add_claim
add_claim-Distinct p n [] d = (refl, tt)
add_claim-Distinct p n ((x, r) ∷ rest) d = ground (
  arith,
  add_claim-Distinct p n rest d.1,
  has_claim-add_claim x p n rest d.0,
  eq_iff p x,
  eq_iff x p,
)

-- From `c` at `s` to `c'` at `s'`, the total of each provider has moved by what was claimed, and
-- the monthly totals have not moved.
pub record Follows (c : Claims) (s : Store) (c' : Claims) (s' : Store) : Type 0 where
  pub ledger :
      (q : String)
      → s'.providers q +ℤ pos (claimed c.reservations q)
        ≡ s.providers q +ℤ pos (claimed c'.reservations q)
  pub months : s'.months ≡ s.months
  pub distinct : Distinct c.reservations → Distinct c'.reservations

abbrev pub FollowsOk : Claims → Store → Claims × Result (Unit {0}) × Store → Type 0
FollowsOk c s (c', r, s') = (r ≡ ok tt) × Follows c s c' s'

Follows-refl : (c : Claims) (s : Store) → Follows c s c s
Follows-refl c s = record { ledger = λ q. refl; months = refl; distinct = λ d. d }

Follows-trans :
    {c c' c'' : Claims} {s s' s'' : Store}
    → Follows c s c' s'
    → Follows c' s' c'' s''
    → Follows c s c'' s''
Follows-trans f g = record {
  ledger = λ q. omega (int_laws, parts_of_eq (f.ledger q), parts_of_eq (g.ledger q));
  months = g.months ∙ f.months;
  distinct = λ d. g.distinct (f.distinct d);
}

after_reserve-Follows :
    (p : String) (cost : ℕ) (c : Claims) (s : Store) (r : Result (Unit {0})) (s' : Store)
    → ((q : String) → Settled p cost q s (r, s'))
    → s'.months ≡ s.months
    → let (c', r') = after_reserve p cost c r in FollowsOk c s (c', r', s')
after_reserve-Follows p cost c s (ok _) s' h m = (
  refl,
  record {
    ledger = λ q. omega (int_laws, parts_of_eq (h q), claimed-add_claim p cost c.reservations q);
    months = m;
    distinct = add_claim-Distinct p cost c.reservations;
  },
)
after_reserve-Follows p cost c s (err (provider_exhausted x a b)) s' h m =
    (refl, record { ledger = λ q. rw (h q); months = m; distinct = λ d. d })
after_reserve-Follows p cost c s (err e) s' h m = absurd (h "")

module _ (env : Env) (quiet : Quiet env) (chars max_out : ℕ) where
  claim_billable-Follows :
      (h : Hop) (c : Claims) (s : Store) → FollowsOk c s (claim_billable env chars max_out h c s)
  unfolding claim_billable
  claim_billable-Follows h c s =
      elim (Option-cases (worst_case_cost h.provider h.model chars max_out)) [
        | inl e ↦
            rw (e, claim_billable)
              (refl, record { ledger = λ q. refl; months = refl; distinct = λ d. d })
        | inr (worst, e) ↦
            let cost = worst * (env.provider_retry_attempts + 1) in
            let (r, s') = ProviderBudget.reserve env h.provider cost s in
            rw (e, claim_billable)
              (after_reserve-Follows h.provider cost c s r s'
                (λ q. reserve-Settled env h.provider cost s q quiet)
                (reserve-months env h.provider cost s))
      ]

  claim_hop-Follows :
      (h : Hop) (c : Claims) (s : Store) → FollowsOk c s (claim_hop env chars max_out h c s)
  unfolding claim_hop
  claim_hop-Follows h c s = elim (Bool-cases (is_free h.provider)) [
    | inl free ↦ rw (free, claim_hop) (refl, Follows-refl c s)
    | inr paid ↦
        let f = claim_billable-Follows h (record c { billable = c.billable + 1 }) s in
        rw (paid, claim_hop)
          (f.0, record { ledger = f.1.ledger; months = f.1.months; distinct = f.1.distinct })
  ]

  pub claim_hops-Follows :
      (hs : Chain) (c : Claims) (s : Store) → FollowsOk c s (claim_hops env chars max_out hs c s)
  unfolding claim_hops
  claim_hops-Follows [] c s = (refl, Follows-refl c s)
  claim_hops-Follows (h ∷ hs) c s =
      let (c₁, r₁, s₁) = claim_hop env chars max_out h c s in
      let first = claim_hop-Follows h c s in
      let later = claim_hops-Follows hs c₁ s₁ in
      rw (first.0, claim_hops) (later.0, Follows-trans first.1 later.1)
