-- ===== src/Gate/Admission.antt =====
-- Who passes the dependencies, and what a caller who does not costs.
use llm_gateway_fallback_rou.Base.{
  String, ◌≡◌, refl, true, false, some, inl, inr, Option-cases, member, pos, leb_ℤ, subst, ◌⊎◌,
  arith,
}
use llm_gateway_fallback_rou.Ledger.{Store, Exc, Result, ok, err, month_total}
use llm_gateway_fallback_rou.KeyBudget.{spent_usd}
use llm_gateway_fallback_rou.RateLimit.{Buckets, check}
use llm_gateway_fallback_rou.Texts.{is_blank}
use llm_gateway_fallback_rou.Gate.Keys.{Headers, extract_key, find_allowed-member}
use llm_gateway_fallback_rou.Gate.{
  authenticate, Gate, found, require_api_key, take_token, enforce_rate_limit, check_budget,
  then_budget, enforce_budget,
}

-- The key is one that the caller presented, and the settings or the key table know it.
abbrev pub IsKnown : Gate → Headers → String → Type 0
IsKnown g headers key =
    (extract_key headers ≡ some key)
    × (is_blank key ≡ false)
    × ((member key g.allowed ≡ true) ⊎ (g.db_key key ≡ found))

-- By how the dependencies end: what they have checked, or what they have left alone.
abbrev pub Admitted : Gate → Headers → Buckets → Store → Result String × Buckets × Store → Type 0
Admitted g headers buckets s (ok key, buckets', s') =
    IsKnown g headers key
    × ((check g.limiter g.now key 1 buckets).0.0 ≡ true)
    × (leb_ℤ (pos g.env.monthly_budget_per_key) (month_total g.env key s) ≡ false)
    × (s'.providers ≡ s.providers)
    × (s'.months ≡ s.months)
Admitted g headers buckets s (err e, buckets', s') =
    (s'.providers ≡ s.providers) × (s'.months ≡ s.months)

authenticate_known :
    (g : Gate) (key key' : String)
    → authenticate g key ≡ ok key'
    → (key ≡ key')
      × (is_blank key ≡ false)
      × ((member key g.allowed ≡ true) ⊎ (g.db_key key ≡ found))
authenticate_known g key key' e = grind (arith, e, find_allowed-member key g.allowed)

pub require_api_key-IsKnown :
    (g : Gate) (headers : Headers) (key : String)
    → require_api_key g headers ≡ ok key
    → IsKnown g headers key
unfolding require_api_key
require_api_key-IsKnown g headers key e = elim (Option-cases (extract_key headers)) [
  | inl nothing ↦ cc (rw (nothing, require_api_key) at e)
  | inr (k, presented) ↦
      let known = authenticate_known g k key (rw (presented, require_api_key) at e) in
      subst (λ x. IsKnown g headers x) known.0 (presented, known.1, known.2)
]

check_budget-Admitted :
    (g : Gate) (headers : Headers) (key : String) (buckets buckets' : Buckets) (s : Store)
    → IsKnown g headers key
    → (check g.limiter g.now key 1 buckets).0.0 ≡ true
    → Admitted g headers buckets s (then_budget g (ok key, buckets', s))
unfolding check_budget spent_usd
check_budget-Admitted g headers key buckets buckets' s known took = ground (arith, known, took)

take_token-Admitted :
    (g : Gate) (headers : Headers) (key : String) (buckets : Buckets) (s : Store)
    → IsKnown g headers key
    → Admitted g headers buckets s (then_budget g (take_token g key buckets s))
unfolding take_token
take_token-Admitted g headers key buckets s known = ground (
  arith,
  check_budget-Admitted g headers key buckets (check g.limiter g.now key 1 buckets).1 s known,
)

enforce_budget-from :
    (g : Gate) (headers : Headers) (buckets : Buckets) (s : Store) (r : Result String)
    → require_api_key g headers ≡ r
    → Admitted g headers buckets s (enforce_budget g headers buckets s)
unfolding enforce_budget enforce_rate_limit
enforce_budget-from g headers buckets s (ok key) e =
    rw (e, enforce_budget, enforce_rate_limit)
      (take_token-Admitted g headers key buckets s (require_api_key-IsKnown g headers key e))
enforce_budget-from g headers buckets s (err x) e =
    rw (e, enforce_budget, enforce_rate_limit) (refl, refl)

-- Only a caller who presents a known key, whose bucket has a token, and whose month stands below
-- its cap passes the dependencies; neither passing, nor a refusal, nor a failure on the way moves
-- a total.
pub enforce_budget-Admitted :
    (g : Gate) (headers : Headers) (buckets : Buckets) (s : Store)
    → Admitted g headers buckets s (enforce_budget g headers buckets s)
enforce_budget-Admitted g headers buckets s =
    enforce_budget-from g headers buckets s (require_api_key g headers) refl

-- A caller who is not authenticated takes no token and leaves no trace.
pub unknown_caller :
    (g : Gate) (headers : Headers) (buckets : Buckets) (s : Store) (e : Exc)
    → require_api_key g headers ≡ err e
    → enforce_budget g headers buckets s ≡ (err e, buckets, s)
unfolding enforce_budget enforce_rate_limit
unknown_caller g headers buckets s x e = rw (e, enforce_budget, enforce_rate_limit) refl
