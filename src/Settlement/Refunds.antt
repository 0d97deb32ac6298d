-- ===== src/Settlement/Refunds.antt =====
-- Settling a finished request: exact when the commands take effect, and never short otherwise.
use llm_gateway_fallback_rou.Base.{
  ℕ, ◌+◌, String, ◌≡◌, refl, Bool, true, Option, none, [], ◌∷◌, str_eq, if◌then◌else◌, arith, pos,
  ◌+ℤ◌, ◌≤ℤ◌, int_laws, parts_of_eq, +ℤ-zero, ap, ◌∙◌,
}
use llm_gateway_fallback_rou.Ledger.{Env, Store, Exc, Lands}
use llm_gateway_fallback_rou.ProviderBudget
use llm_gateway_fallback_rou.ProviderBudget.Outcomes.{
  charge, settle-charge, settle_safe, settle-months, record_unreserved-charge,
  record_unreserved-months,
}
use llm_gateway_fallback_rou.KeyBudget.Outcomes.{OnePeriod, share, settle-share, settle-providers}
use llm_gateway_fallback_rou.Settlement.{
  Reservations, has_claim, total_reserved, hold, settle_each, settle_unreserved, settle_providers,
  settle_chain,
}
use llm_gateway_fallback_rou.Settlement.Claims.{claimed, paid, Distinct, paid-charge, Covers}

module _ (env : Env) (served : String) (actual : ℕ) where
  settle_each-claimed :
      (res : Reservations) (held : Option Exc) (s : Store) (q : String)
      → Lands env
      → (settle_each env served actual res held s).1.providers q +ℤ pos (claimed res q)
        ≡ s.providers q +ℤ pos (paid served actual res q)
  unfolding settle_each
  settle_each-claimed [] held s q lands = refl
  settle_each-claimed ((p, r) ∷ rest) held s q lands =
      let a = if str_eq p served then actual else 0 in
      let (x, s') = ProviderBudget.settle env p r a s in
      omega (
        int_laws,
        parts_of_eq (settle_each-claimed rest (hold x held) s' q lands),
        parts_of_eq (settle-charge env p r a s q lands),
      )

  settle_each_safe :
      (res : Reservations) (held : Option Exc) (s : Store) (q : String)
      → Covers res served actual
      → s.providers q +ℤ pos (paid served actual res q)
        ≤ℤ (settle_each env served actual res held s).1.providers q +ℤ pos (claimed res q)
  unfolding settle_each
  settle_each_safe [] held s q c = omega arith
  settle_each_safe ((p, r) ∷ rest) held s q c =
      let a = if str_eq p served then actual else 0 in
      let (x, s') = ProviderBudget.settle env p r a s in
      omega (
        int_laws,
        settle_each_safe rest (hold x held) s' q c.1,
        settle_safe env p r a s q (ground (arith, c.0)),
      )

  settle_each-months :
      (res : Reservations) (held : Option Exc) (s : Store)
      → (settle_each env served actual res held s).1.months ≡ s.months
  unfolding settle_each
  settle_each-months [] held s = refl
  settle_each-months ((p, r) ∷ rest) held s =
      let a = if str_eq p served then actual else 0 in
      let (x, s') = ProviderBudget.settle env p r a s in
      settle_each-months rest (hold x held) s' ∙ settle-months env p r a s

  settle_unreserved-charge :
      (res : Reservations) (s : Store) (q : String)
      → Lands env
      → (str_eq served "" ≡ true → actual ≡ 0)
      → (settle_unreserved env res served actual s).1.providers q
        ≡ s.providers q +ℤ pos (if has_claim served res then 0 else charge served actual q)
  unfolding settle_unreserved
  settle_unreserved-charge res s q lands nothing =
      ground (arith, record_unreserved-charge env served actual s q lands, +ℤ-zero (s.providers q))

  settle_unreserved-months :
      (res : Reservations) (s : Store)
      → (settle_unreserved env res served actual s).1.months ≡ s.months
  unfolding settle_unreserved
  settle_unreserved-months res s = ground (arith, record_unreserved-months env served actual s)

-- The loop and the charge without a reservation together charge the cost once.
either_way : (b : Bool) (n : ℕ) {k : ℕ} → k ≡ (if b then n else 0) → k + (if b then 0 else n) ≡ n
either_way b n h = ground arith

module _ (env : Env) (served : String) (actual : ℕ) (res : Reservations) (s : Store) where
  pub settle_providers-charge :
      (q : String)
      → Lands env
      → Distinct res
      → (str_eq served "" ≡ true → actual ≡ 0)
      → (settle_providers env res served actual s).1.providers q +ℤ pos (claimed res q)
        ≡ s.providers q +ℤ pos (charge served actual q)
  unfolding settle_providers
  settle_providers-charge q lands d nothing =
      let (held, s₁) = settle_each env served actual res none s in
      omega (
        int_laws,
        parts_of_eq (settle_each-claimed env served actual res none s q lands),
        parts_of_eq (settle_unreserved-charge env served actual res s₁ q lands nothing),
        either_way (has_claim served res) (charge served actual q)
            (paid-charge served actual res q d),
      )

  pub settle_providers-months : (settle_providers env res served actual s).1.months ≡ s.months
  unfolding settle_providers
  settle_providers-months =
      let (held, s₁) = settle_each env served actual res none s in
      settle_unreserved-months env served actual res s₁
      ∙ settle_each-months env served actual res none s

  -- If every command takes effect, interrupted or not, inside one period, settling a request replaces its
  -- reservations by its real cost on the provider that served, gives the other reservations back
  -- in full, and moves the caller's month by the same amounts.
  pub settle_chain_exact :
      (api_key : String) (now : ℕ) (q h : String) (m : ℕ)
      → Lands env
      → OnePeriod env now
      → Distinct res
      → (str_eq served "" ≡ true → actual ≡ 0)
      → let s' = (settle_chain env api_key res served actual s).1 in
        (s'.providers q +ℤ pos (claimed res q) ≡ s.providers q +ℤ pos (charge served actual q))
        × (s'.months h m +ℤ pos (share env api_key now (total_reserved res) h m)
            ≡ s.months h m +ℤ pos (share env api_key now actual h m))
  unfolding settle_chain
  settle_chain_exact api_key now q h m lands one d nothing =
      let s₁ = (settle_providers env res served actual s).1 in
      let k = settle-share env api_key (total_reserved res) actual s₁ h m lands in
      (
        rw (settle-providers env api_key (total_reserved res) actual s₁)
            (settle_providers-charge q lands d nothing),
        rw settle_providers-months at (rw (one s₁.sent) at k),
      )

  settle_unreserved_none :
      (t : Store) → has_claim served res ≡ true → (settle_unreserved env res served actual t).1 ≡ t
  unfolding settle_unreserved
  settle_unreserved_none t h = ground arith

  -- However Redis answers, as long as the provider that served holds a reservation and the real
  -- cost is within it, no provider's total ends below its exact value.
  pub settle_providers_safe :
      (q : String)
      → Distinct res
      → has_claim served res ≡ true
      → Covers res served actual
      → s.providers q +ℤ pos (charge served actual q)
        ≤ℤ (settle_providers env res served actual s).1.providers q +ℤ pos (claimed res q)
  unfolding settle_providers
  settle_providers_safe q d reserved c =
      let (held, s₁) = settle_each env served actual res none s in
      rw (settle_unreserved_none s₁ reserved) (
        omega (
          int_laws,
          settle_each_safe env served actual res none s q c,
          paid-charge served actual res q d,
          ap (λ b. if b then charge served actual q else 0) reserved,
        ))
