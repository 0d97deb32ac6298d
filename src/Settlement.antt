-- ===== src/Settlement.antt =====
-- app/main.py, `_settle_providers` and `_settle_chain`: swapping the reservations of a request
-- for its real cost on both ledgers.
use llm_gateway_fallback_rou.Base.{
  ℕ, ◌+◌, String, Bool, true, false, not, ◌&&◌, Option, none, some, List, [], ◌∷◌, str_eq,
  if◌then◌else◌,
}
use llm_gateway_fallback_rou.Ledger.{
  Env, Store, Exc, Result, ok, err, is_exception, Action, pure, catch,
}
use llm_gateway_fallback_rou.ProviderBudget
use llm_gateway_fallback_rou.ProviderBudget.{record_unreserved}
use llm_gateway_fallback_rou.KeyBudget
pub mod Claims
pub mod Refunds
pub mod BestEffort

-- the dict `reservations`, in insertion order
abbrev pub Reservations : Type 0
Reservations = List (String × ℕ)

-- `provider in reservations`
abbrev pub has_claim : String → Reservations → Bool
has_claim p [] = false
has_claim p ((q, r) ∷ rest) = if str_eq p q then true else has_claim p rest

-- `sum(reservations.values())`
abbrev pub total_reserved : Reservations → ℕ
total_reserved [] = 0
total_reserved ((q, r) ∷ rest) = r + total_reserved rest

-- An interruption is held until the loop is done, the first one; an `Exception` is only logged.
abbrev pub hold : Result (Unit {0}) → Option Exc → Option Exc
hold (ok _) held = held
hold (err e) (some first) = some first
hold (err e) none = if is_exception e then none else some e

-- the loop of `_settle_providers`
unfoldable pub settle_each :
    Env → String → ℕ → Reservations → Option Exc → Store → Option Exc × Store
settle_each env served actual [] held s = (held, s)
settle_each env served actual ((p, reserved) ∷ rest) held s =
    let (r, s') = ProviderBudget.settle env p reserved (if str_eq p served then actual else 0) s in
    settle_each env served actual rest (hold r held) s'

abbrev pub swallow : Exc → Action (Unit {0})
swallow e s = if is_exception e then (ok tt, s) else (err e, s)

-- real spend with no reservation behind it
unfoldable pub settle_unreserved : Env → Reservations → String → ℕ → Action (Unit {0})
settle_unreserved env reservations served actual s =
    if not (str_eq served "") && not (has_claim served reservations)
    then catch (record_unreserved env served actual) swallow s
    else (ok tt, s)

-- `if cancellation is not None: raise cancellation`
abbrev pub propagate : Option Exc → Result (Unit {0}) → Result (Unit {0})
propagate held (err e) = err e
propagate none (ok _) = ok tt
propagate (some e) (ok _) = err e

-- `_settle_providers`
unfoldable pub settle_providers : Env → Reservations → String → ℕ → Action (Unit {0})
unfolding settle_each settle_unreserved
settle_providers env reservations served actual s =
    let (held, s₁) = settle_each env served actual reservations none s in
    let (r, s₂) = settle_unreserved env reservations served actual s₁ in (propagate held r, s₂)

-- `try: … finally: …`: an exception of the second part replaces that of the first
abbrev pub after_finally : Result (Unit {0}) → Result (Unit {0}) → Result (Unit {0})
after_finally first (err e) = err e
after_finally first (ok _) = first

-- `_settle_chain`
unfoldable pub settle_chain : Env → String → Reservations → String → ℕ → Action (Unit {0})
settle_chain env api_key reservations served actual s =
    let (first, s₁) = settle_providers env reservations served actual s in
    let (last, s₂) = KeyBudget.settle env api_key (total_reserved reservations) actual s₁ in
    (after_finally first last, s₂)
