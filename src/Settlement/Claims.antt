-- ===== src/Settlement/Claims.antt =====
-- The weight of a request's reservations on the total of one provider.
use llm_gateway_fallback_rou.Base.{
  ℕ, ◌+◌, ◌≤◌, String, ◌≡◌, refl, true, false, [], ◌∷◌, str_eq, if◌then◌else◌, arith, eq_iff,
}
use llm_gateway_fallback_rou.ProviderBudget.Outcomes.{charge}
use llm_gateway_fallback_rou.Settlement.{Reservations, has_claim}

abbrev pub claimed : Reservations → String → ℕ
claimed [] q = 0
claimed ((p, r) ∷ rest) q = charge p r q + claimed rest q

-- What the loop charges, entry by entry.
abbrev pub paid : String → ℕ → Reservations → String → ℕ
paid served actual [] q = 0
paid served actual ((p, r) ∷ rest) q =
    charge p (if str_eq p served then actual else 0) q + paid served actual rest q

-- A dict holds each key once.
abbrev pub Distinct : Reservations → Type 0
Distinct [] = Unit
Distinct ((p, r) ∷ rest) = (has_claim p rest ≡ false) × Distinct rest

paid_absent :
    (served : String) (actual : ℕ) (res : Reservations) (q : String)
    → has_claim served res ≡ false
    → paid served actual res q ≡ 0
paid_absent served actual [] q h = refl
paid_absent served actual ((p, r) ∷ rest) q h =
    ground (arith, paid_absent served actual rest q, eq_iff p served, eq_iff served p)

pub paid-charge :
    (served : String) (actual : ℕ) (res : Reservations) (q : String)
    → Distinct res
    → paid served actual res q ≡ (if has_claim served res then charge served actual q else 0)
paid-charge served actual [] q d = refl
paid-charge served actual ((p, r) ∷ rest) q d = ground (
  arith,
  paid-charge served actual rest q d.1,
  paid_absent served actual rest q,
  eq_iff p served,
  eq_iff served p,
)

-- The real cost is within what the serving provider reserved.
abbrev pub Covers : Reservations → String → ℕ → Type 0
Covers [] served actual = Unit
Covers ((p, r) ∷ rest) served actual =
    (str_eq p served ≡ true → actual ≤ r) × Covers rest served actual
