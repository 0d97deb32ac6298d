-- ===== src/Reservation/Coverage.antt =====
-- After an admitted reservation, every hop that the router may call is paid for in advance.
use llm_gateway_fallback_rou.Base.{
  ℕ, ◌+◌, ◌*◌, ◌≤◌, String, ◌≡◌, ◌≢◌, subst₂, ◌⊎◌, inl, inr, refl, true, some, List, [], ◌∷◌,
  str_eq, str_eq_refl, member, add_member, if◌then◌else◌, arith, Option-cases, Bool-cases, All,
}
use llm_gateway_fallback_rou.Chains.{is_free, Hop, Chain}
use llm_gateway_fallback_rou.Pricing.{worst_case_cost}
use llm_gateway_fallback_rou.Ledger.{Env, Store, Exc, provider_exhausted, Result, ok, err}
use llm_gateway_fallback_rou.ProviderBudget
use llm_gateway_fallback_rou.Settlement.{Reservations, has_claim, settle_providers}
use llm_gateway_fallback_rou.Reservation.{
  Claims, no_claims, add_claim, after_reserve, claim_billable, claim_hop, claim_hops, claim_rest,
  and_then, unwind, reserve_hops,
}

-- `reservations.get(provider, 0.0)`
abbrev pub claim_of : String → Reservations → ℕ
claim_of p [] = 0
claim_of p ((q, r) ∷ rest) = if str_eq p q then r else claim_of p rest

-- The hop is free, or dropped, or reserved for the worst case of every attempt.
abbrev pub IsCovered : Env → ℕ → ℕ → Reservations → List String → Hop → Type 0
IsCovered env chars max_out res skip h =
    (is_free h.provider ≡ true)
    ⊎ ((member h.provider skip ≡ true)
        ⊎ ((worst : ℕ) × (has_claim h.provider res ≡ true)
            × (worst_case_cost h.provider h.model chars max_out ≡ some worst)
            × (worst * (env.provider_retry_attempts + 1) ≤ claim_of h.provider res)))

-- Claims only grow.
pub record Grows (c c' : Claims) : Type 0 where
  pub kept : (p : String) → has_claim p c.reservations ≡ true → has_claim p c'.reservations ≡ true
  pub more : (p : String) → claim_of p c.reservations ≤ claim_of p c'.reservations
  pub dropped : (p : String) → member p c.skip ≡ true → member p c'.skip ≡ true

Grows-trans : {c c' c'' : Claims} → Grows c c' → Grows c' c'' → Grows c c''
Grows-trans f g = record {
  kept = λ p h. g.kept p (f.kept p h);
  more = λ p. omega (arith, f.more p, g.more p);
  dropped = λ p h. g.dropped p (f.dropped p h);
}

has_claim-add_claim :
    (x p : String) (n : ℕ) (res : Reservations)
    → has_claim x res ≡ true
    → has_claim x (add_claim p n res) ≡ true
unfolding add_claim
has_claim-add_claim x p n [] h = ground arith
has_claim-add_claim x p n ((q, r) ∷ rest) h = ground (arith, has_claim-add_claim x p n rest)

claim_of-add_claim :
    (x p : String) (n : ℕ) (res : Reservations) → claim_of x res ≤ claim_of x (add_claim p n res)
unfolding add_claim
claim_of-add_claim x p n [] = ground arith
claim_of-add_claim x p n ((q, r) ∷ rest) = ground (arith, claim_of-add_claim x p n rest)

add_claim_self :
    (p : String) (n : ℕ) (res : Reservations)
    → (has_claim p (add_claim p n res) ≡ true) × (n ≤ claim_of p (add_claim p n res))
unfolding add_claim
add_claim_self p n [] = ground (arith, str_eq_refl p)
add_claim_self p n ((q, r) ∷ rest) = ground (arith, add_claim_self p n rest)

member-add_member :
    (x p : String) (xs : List String) → member x xs ≡ true → member x (add_member p xs) ≡ true
member-add_member x p xs h = ground arith

member_self : (p : String) (xs : List String) → member p (add_member p xs) ≡ true
member_self p xs = ground (arith, str_eq_refl p)

module _ (env : Env) (chars max_out : ℕ) where
  IsCovered-Grows :
      (h : Hop) {c c' : Claims}
      → Grows c c'
      → IsCovered env chars max_out c.reservations c.skip h
      → IsCovered env chars max_out c'.reservations c'.skip h
  IsCovered-Grows h g (inl free) = inl free
  IsCovered-Grows h g (inr (inl gone)) = inr (inl (g.dropped h.provider gone))
  IsCovered-Grows h g (inr (inr (worst, has, e, le))) =
      inr (inr (worst, g.kept h.provider has, e, omega (arith, le, g.more h.provider)))

  -- What one round establishes, unless it raises.
  abbrev Covers : Hop → Claims → Claims × Result (Unit {0}) × Store → Type 0
  Covers h c (c', ok _, s') = Grows c c' × IsCovered env chars max_out c'.reservations c'.skip h
  Covers h c (c', err e, s') = Unit

  after_reserve-Covers :
      (h : Hop) (worst : ℕ) (c : Claims) (r : Result (Unit {0})) (s' : Store)
      → worst_case_cost h.provider h.model chars max_out ≡ some worst
      → let (c', r') = after_reserve h.provider (worst * (env.provider_retry_attempts + 1)) c r in
        Covers h c (c', r', s')
  after_reserve-Covers h worst c (ok _) s' e =
      let cost = worst * (env.provider_retry_attempts + 1) in
      let self = add_claim_self h.provider cost c.reservations in
      (
        record {
          kept = λ p. has_claim-add_claim p h.provider cost c.reservations;
          more = λ p. claim_of-add_claim p h.provider cost c.reservations;
          dropped = λ p x. x;
        },
        inr (inr (worst, self.0, e, self.1)),
      )
  after_reserve-Covers h worst c (err (provider_exhausted x a b)) s' e = (
    record {
      kept = λ p x. x;
      more = λ p. omega arith;
      dropped = λ p x. member-add_member p h.provider c.skip x;
    },
    inr (inl (member_self h.provider c.skip)),
  )
  after_reserve-Covers h worst c (err e) s' eq = tt

  claim_billable-Covers :
      (h : Hop) (c : Claims) (s : Store) → Covers h c (claim_billable env chars max_out h c s)
  unfolding claim_billable
  claim_billable-Covers h c s =
      elim (Option-cases (worst_case_cost h.provider h.model chars max_out)) [
        | inl e ↦
            rw (e, claim_billable)
              (
                record {
                  kept = λ p x. x;
                  more = λ p. omega arith;
                  dropped = λ p x. member-add_member p h.provider c.skip x;
                },
                inr (inl (member_self h.provider c.skip)),
              )
        | inr (worst, e) ↦
            let cost = worst * (env.provider_retry_attempts + 1) in
            let (r, s') = ProviderBudget.reserve env h.provider cost s in
            rw (e, claim_billable) (after_reserve-Covers h worst c r s' e)
      ]

  -- counting a billable hop changes nothing that the claims cover
  Covers-billable :
      (h : Hop) (c c₁ : Claims) (x : Claims × Result (Unit {0}) × Store)
      → c₁.reservations ≡ c.reservations
      → c₁.skip ≡ c.skip
      → Covers h c₁ x
      → Covers h c x
  Covers-billable h c c₁ (c', ok _, s') a b (g, covered) = (
    record {
      kept = λ p x. g.kept p (rw a x);
      more = λ p. rw a at (g.more p);
      dropped = λ p x. g.dropped p (rw b x);
    },
    covered,
  )
  Covers-billable h c c₁ (c', err e, s') a b x = tt

  claim_hop-Covers :
      (h : Hop) (c : Claims) (s : Store) → Covers h c (claim_hop env chars max_out h c s)
  unfolding claim_hop
  claim_hop-Covers h c s = elim (Bool-cases (is_free h.provider)) [
    | inl free ↦
        rw (free, claim_hop)
          (record { kept = λ p x. x; more = λ p. omega arith; dropped = λ p x. x }, inl free)
    | inr paid ↦
        let c₁ = record c { billable = c.billable + 1 } in
        rw (paid, claim_hop)
          (Covers-billable h c c₁ (claim_billable env chars max_out h c₁ s) refl refl
            (claim_billable-Covers h c₁ s))
  ]

  -- What the loop establishes, unless it raises.
  abbrev CoversAll : Chain → Claims → Claims × Result (Unit {0}) × Store → Type 0
  CoversAll hs c (c', ok _, s') =
      Grows c c' × All (IsCovered env chars max_out c'.reservations c'.skip) hs
  CoversAll hs c (c', err e, s') = Unit

  CoversAll-cons :
      (h : Hop) (hs : Chain) (c c₁ : Claims) (x : Claims × Result (Unit {0}) × Store)
      → Grows c c₁
      → IsCovered env chars max_out c₁.reservations c₁.skip h
      → CoversAll hs c₁ x
      → CoversAll (h ∷ hs) c x
  CoversAll-cons h hs c c₁ (c', ok _, s') g covered (g', rest) =
      (Grows-trans g g', (IsCovered-Grows h g' covered, rest))
  CoversAll-cons h hs c c₁ (c', err e, s') g covered x = tt

  claim_hops-CoversAll :
      (hs : Chain) (c : Claims) (s : Store) → CoversAll hs c (claim_hops env chars max_out hs c s)
  unfolding claim_hops
  claim_hops-CoversAll [] c s =
      (record { kept = λ p x. x; more = λ p. omega arith; dropped = λ p x. x }, tt)
  claim_hops-CoversAll (h ∷ hs) c s =
      let (c₁, r₁, s₁) = claim_hop env chars max_out h c s in
      next c₁ r₁ s₁ (claim_hop-Covers h c s) (claim_hops-CoversAll hs c₁ s₁)
    where
      next :
          (c₁ : Claims) (r₁ : Result (Unit {0})) (s₁ : Store)
          → Covers h c (c₁, r₁, s₁)
          → CoversAll hs c₁ (claim_hops env chars max_out hs c₁ s₁)
          → CoversAll (h ∷ hs) c (elim r₁ as (λ _. Claims × Result (Unit {0}) × Store) [
            | ok _ ↦ claim_hops env chars max_out hs c₁ s₁
            | err e ↦ (c₁, err e, s₁)
          ])
      next c₁ (ok _) s₁ (g, covered) ih =
          CoversAll-cons h hs c c₁ (claim_hops env chars max_out hs c₁ s₁) g covered ih
      next c₁ (err e) s₁ x ih = tt

  -- Only the loop's own claims come out of an admitted reservation.
  unwind_raised :
      (e : Exc) (r : Result (Unit {0})) (s : Store) (x : Reservations × List String)
      → (elim r as (λ _. Result (Reservations × List String) × Store) [
        | ok _ ↦ (err e, s)
        | err e' ↦ (err e', s)
      ]).0
        ≢ ok x
  unwind_raised e (ok _) s x h = cc
  unwind_raised e (err e') s x h = cc

  unwind_ok :
      (c c' : Claims) (r : Result (Unit {0})) (s : Store) (hs : Chain) (res : Reservations)
      (skip : List String)
      → All (IsCovered env chars max_out c'.reservations c'.skip) hs
      → (unwind env (c', r, s)).0 ≡ ok (res, skip)
      → All (IsCovered env chars max_out res skip) hs
  unwind_ok c c' (ok _) s hs res skip all e =
      let same : (c'.reservations ≡ res) × (c'.skip ≡ skip) = ground (arith, e) in
      subst₂ (λ a b. All (IsCovered env chars max_out a b) hs) same.0 same.1 all
  unwind_ok c c' (err e') s hs res skip all e =
      let (r, s') = settle_providers env c'.reservations "" 0 s in
      absurd (unwind_raised e' r s' (res, skip) e)

  rest_ok :
      (x : Claims × Result (Unit {0}) × Store) (c : Claims) (k : String) (hs : Chain)
      (res : Reservations) (skip : List String)
      → CoversAll hs c x
      → (unwind env (and_then x (claim_rest env k hs))).0 ≡ ok (res, skip)
      → All (IsCovered env chars max_out res skip) hs
  rest_ok (c', ok _, s) c k hs res skip all e =
      let (r, s') = claim_rest env k hs c' s in unwind_ok c c' r s' hs res skip all.1 e
  rest_ok (c', err e', s) c k hs res skip all e =
      let (r, s') = settle_providers env c'.reservations "" 0 s in
      absurd (unwind_raised e' r s' (res, skip) e)

  -- However Redis answers, a reservation that is admitted covers every hop of the chain: each is
  -- free, or dropped, or holds the worst case of one call, times the calls that retries allow.
  pub reserve_hops-IsCovered :
      (chain : Chain) (k : String) (s : Store) (res : Reservations) (skip : List String)
      → (reserve_hops env k chain chars max_out s).0 ≡ ok (res, skip)
      → All (IsCovered env chars max_out res skip) chain
  unfolding reserve_hops
  reserve_hops-IsCovered chain k s res skip e =
      rest_ok (claim_hops env chars max_out chain no_claims s) no_claims k chain res skip
        (claim_hops-CoversAll chain no_claims s) e
