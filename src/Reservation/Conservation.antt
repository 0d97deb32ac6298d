-- ===== src/Reservation/Conservation.antt =====
-- A request conserves both ledgers: refused, it leaves no trace; admitted, it holds exactly its
-- claims; and once settled it has cost exactly what it cost.
use llm_gateway_fallback_rou.Base.{
  ℕ, String, ◌≡◌, refl, true, List, str_eq, arith, pos, ◌+ℤ◌, int_laws, parts_of_eq, ◌∙◌, ap, subst,
}
use llm_gateway_fallback_rou.Chains.{Chain}
use llm_gateway_fallback_rou.Ledger.{Env, Store, Exc, Result, ok, err, Quiet}
use llm_gateway_fallback_rou.Ledger.Commands.{Quiet-Lands}
use llm_gateway_fallback_rou.ProviderBudget.Outcomes.{charge}
use llm_gateway_fallback_rou.KeyBudget.Outcomes.{OnePeriod, share}
use llm_gateway_fallback_rou.Settlement.{
  Reservations, total_reserved, settle_providers, settle_chain,
}
use llm_gateway_fallback_rou.Settlement.Claims.{claimed, Distinct}
use llm_gateway_fallback_rou.Settlement.Refunds.{
  settle_providers-charge, settle_providers-months, settle_chain_exact,
}
use llm_gateway_fallback_rou.Reservation.{
  Claims, no_claims, claim_hops, claim_rest, and_then, unwind, reserve_hops,
}
use llm_gateway_fallback_rou.Reservation.Loop.{Follows, FollowsOk, claim_hops-Follows}
use llm_gateway_fallback_rou.Reservation.Rest.{KeyMoved, claim_rest-KeyMoved, claim_rest-providers}

-- What an attempt to reserve from `s` has done to the total of `q` and to a month, by how it ended.
abbrev pub Conserved :
    Env
    → String
    → ℕ
    → Store
    → String
    → String
    → ℕ
    → Result (Reservations × List String) × Store
    → Type 0
Conserved env k now s q h m (ok (res, skip), s') =
    Distinct res
    × (s'.providers q ≡ s.providers q +ℤ pos (claimed res q))
    × (s'.months h m ≡ s.months h m +ℤ pos (share env k now (total_reserved res) h m))
Conserved env k now s q h m (err e, s') =
    (s'.providers q ≡ s.providers q) × (s'.months h m ≡ s.months h m)

charge_nobody : (q : String) → charge "" 0 q ≡ 0
charge_nobody q = ground arith

-- Whether or not the refunds raise, the state is the one that they leave.
raised-Conserved :
    (env : Env) (k : String) (now : ℕ) (s : Store) (q h : String) (m : ℕ) (e : Exc)
    (r : Result (Unit {0})) (s' : Store)
    → s'.providers q ≡ s.providers q
    → s'.months h m ≡ s.months h m
    → Conserved env k now s q h m (elim r [ ok _ ↦ (err e, s') | err e' ↦ (err e', s') ])
raised-Conserved env k now s q h m e (ok _) s' a b = (a, b)
raised-Conserved env k now s q h m e (err e') s' a b = (a, b)

module _ (env : Env) (quiet : Quiet env) (now : ℕ) (one : OnePeriod env now) (k : String)
    (s : Store) where
  unwind-Conserved :
      (c : Claims) (r : Result (Unit {0})) (s₁ s₂ : Store) (q h : String) (m : ℕ)
      → Follows no_claims s c s₁
      → s₂.providers ≡ s₁.providers
      → KeyMoved env k now (total_reserved c.reservations) s₁ h m (r, s₂)
      → Conserved env k now s q h m (unwind env (c, r, s₂))
  unwind-Conserved c (ok _) s₁ s₂ q h m f same moved = (
    f.distinct tt,
    omega (int_laws, parts_of_eq (f.ledger q), parts_of_eq (ap (λ g. g q) same)),
    omega (int_laws, parts_of_eq moved, parts_of_eq (ap (λ g. g h m) f.months)),
  )
  unwind-Conserved c (err e) s₁ s₂ q h m f same moved =
      let (r, s₃) = settle_providers env c.reservations "" 0 s₂ in
      let refund =
        settle_providers-charge env "" 0 c.reservations s₂ q (Quiet-Lands env quiet) (f.distinct tt)
          (λ _. refl) in
      raised-Conserved env k now s q h m e r s₃
        (omega (
          int_laws,
          parts_of_eq (f.ledger q),
          parts_of_eq (ap (λ g. g q) same),
          parts_of_eq refund,
          charge_nobody q,
        ))
        (ap (λ g. g h m) (settle_providers-months env "" 0 c.reservations s₂)
          ∙ moved
          ∙ ap (λ g. g h m) f.months)

  rest-Conserved :
      (chain : Chain) (c : Claims) (r : Result (Unit {0})) (s₁ : Store) (q h : String) (m : ℕ)
      → FollowsOk no_claims s (c, r, s₁)
      → Conserved env k now s q h m (unwind env (and_then (c, r, s₁) (claim_rest env k chain)))
  rest-Conserved chain c (ok _) s₁ q h m f =
      let (r', s₂) = claim_rest env k chain c s₁ in
      unwind-Conserved c r' s₁ s₂ q h m f.1 (claim_rest-providers env k chain c s₁)
        (claim_rest-KeyMoved env quiet now one k chain c s₁ h m)
  rest-Conserved chain c (err e) s₁ q h m f = cc (f.0)

  -- With every Redis command answered and the request inside one period: an admitted request has
  -- claimed on each provider, and on its caller's month, exactly what its reservations say, one
  -- entry for each provider; a refused request, for whatever reason, has moved no total at all.
  pub reserve_hops-Conserved :
      (chain : Chain) (chars max_out : ℕ) (q h : String) (m : ℕ)
      → Conserved env k now s q h m (reserve_hops env k chain chars max_out s)
  unfolding reserve_hops
  reserve_hops-Conserved chain chars max_out q h m =
      let (c, r, s₁) = claim_hops env chars max_out chain no_claims s in
      rest-Conserved chain c r s₁ q h m
        (claim_hops-Follows env quiet chars max_out chain no_claims s)

  -- With every Redis command answered and the request inside one period: whatever was admitted,
  -- once settled for `actual` on the provider that served (for nothing if none did), leaves the
  -- ledgers moved by exactly that cost: on that provider (a free one costs nothing), and on the
  -- caller's month. No other total has moved.
  pub reserve_then_settle :
      (chain : Chain) (chars max_out : ℕ) (q h : String) (m : ℕ) (res : Reservations)
      (skip : List String) (served : String) (actual : ℕ)
      → (reserve_hops env k chain chars max_out s).0 ≡ ok (res, skip)
      → (str_eq served "" ≡ true → actual ≡ 0)
      → let s₁ = (reserve_hops env k chain chars max_out s).1 in
        let s₂ = (settle_chain env k res served actual s₁).1 in
        (s₂.providers q ≡ s.providers q +ℤ pos (charge served actual q))
        × (s₂.months h m ≡ s.months h m +ℤ pos (share env k now actual h m))
  reserve_then_settle chain chars max_out q h m res skip served actual admitted nothing =
      let (r, s₁) = reserve_hops env k chain chars max_out s in
      let claim : Conserved env k now s q h m (ok (res, skip), s₁) =
        subst (λ x. Conserved env k now s q h m (x, s₁)) admitted
          (reserve_hops-Conserved chain chars max_out q h m) in
      let paid =
        settle_chain_exact env served actual res s₁ k now q h m (Quiet-Lands env quiet) one claim.0
          nothing in
      (
        omega (int_laws, parts_of_eq claim.1, parts_of_eq paid.0),
        omega (int_laws, parts_of_eq claim.2, parts_of_eq paid.1),
      )
