-- ===== src/Settlement/BestEffort.antt =====
-- Settling is best-effort: a failing Redis never turns a finished request into an error.
use llm_gateway_fallback_rou.Base.{
  ℕ, String, ◌≡◌, refl, Bool, true, false, none, [], ◌∷◌, str_eq, if◌then◌else◌, arith,
}
use llm_gateway_fallback_rou.Ledger.{Env, Store, Result, ok, err, Wire, cancelled, is_exception}
use llm_gateway_fallback_rou.ProviderBudget
use llm_gateway_fallback_rou.ProviderBudget.{record_unreserved}
use llm_gateway_fallback_rou.KeyBudget
use llm_gateway_fallback_rou.Settlement.{
  Reservations, hold, settle_each, settle_unreserved, settle_providers, settle_chain,
}

abbrev pub is_cancelled : Wire → Bool
is_cancelled (cancelled took) = true
is_cancelled _ = false

-- No Redis command is cancelled; each may fail.
abbrev pub Uncancelled : Env → Type 0
Uncancelled env = (n : ℕ) → is_cancelled (env.wire n) ≡ false

-- not an interruption
abbrev IsMild : Result (Unit {0}) → Type 0
IsMild (ok _) = Unit
IsMild (err e) = is_exception e ≡ true

module _ (env : Env) (calm : Uncancelled env) where
  settle-IsMild :
      (p : String) (reserved actual : ℕ) (s : Store)
      → IsMild (ProviderBudget.settle env p reserved actual s).0
  unfolding ProviderBudget.settle
  settle-IsMild p reserved actual s = ground (arith, calm s.sent)

  hold-none : (r : Result (Unit {0})) → IsMild r → hold r none ≡ none
  hold-none (ok _) m = refl
  hold-none (err e) m = ground (arith, m)

  settle_each-held :
      (served : String) (actual : ℕ) (res : Reservations) (s : Store)
      → (settle_each env served actual res none s).0 ≡ none
  unfolding settle_each
  settle_each-held served actual [] s = refl
  settle_each-held served actual ((p, r) ∷ rest) s =
      let a = if str_eq p served then actual else 0 in
      let (x, s') = ProviderBudget.settle env p r a s in
      rw (hold-none x (settle-IsMild p r a s), settle_each) (settle_each-held served actual rest s')

  settle_unreserved_ok :
      (res : Reservations) (served : String) (actual : ℕ) (s : Store)
      → (settle_unreserved env res served actual s).0 ≡ ok tt
  unfolding settle_unreserved record_unreserved
  settle_unreserved_ok res served actual s = ground (arith, calm s.sent)

  pub settle_providers_ok :
      (res : Reservations) (served : String) (actual : ℕ) (s : Store)
      → (settle_providers env res served actual s).0 ≡ ok tt
  unfolding settle_providers
  settle_providers_ok res served actual s =
      let (held, s₁) = settle_each env served actual res none s in
      rw (settle_each-held served actual res s, settle_unreserved_ok res served actual s₁) refl

  key_settle_ok :
      (k : String) (reserved actual : ℕ) (s : Store)
      → (KeyBudget.settle env k reserved actual s).0 ≡ ok tt
  unfolding KeyBudget.settle
  key_settle_ok k reserved actual s = ground (arith, calm s.sent)

  pub settle_chain_ok :
      (k : String) (res : Reservations) (served : String) (actual : ℕ) (s : Store)
      → (settle_chain env k res served actual s).0 ≡ ok tt
  unfolding settle_chain
  settle_chain_ok k res served actual s =
      rw (settle_providers_ok res served actual s, key_settle_ok) refl
