-- ===== src/Reservation/Rest.antt =====
-- The part of `_reserve_chain` after the loop: the refusal of a chain, and the caller's share.
use llm_gateway_fallback_rou.Base.{
  ℕ, String, ◌≡◌, ◌≢◌, refl, List, [], ◌∷◌, ◌==◌, if◌then◌else◌, arith, pos, ◌+ℤ◌, +ℤ-zero,
  Bool-cases, inl, inr,
}
use llm_gateway_fallback_rou.Chains.{Chain, billable_providers}
use llm_gateway_fallback_rou.Ledger.{Env, Store, Exc, key_exhausted, Result, ok, err, Quiet}
use llm_gateway_fallback_rou.Ledger.Commands.{SameTotals}
use llm_gateway_fallback_rou.ProviderBudget.{spent, snapshot}
use llm_gateway_fallback_rou.KeyBudget
use llm_gateway_fallback_rou.KeyBudget.Outcomes.{
  OnePeriod, share, reserve-share, reserve_refused, reserve-providers,
}
use llm_gateway_fallback_rou.Settlement.{total_reserved}
use llm_gateway_fallback_rou.Reservation.{
  Claims, no_usable_hop, refuse, some_exhausted, refuse_chain, claim_key, claim_rest, after_key,
}

spent-SameTotals : (env : Env) (p : String) (s : Store) → SameTotals s (spent env p s).1
unfolding spent
spent-SameTotals env p s = ground arith

snapshot-SameTotals :
    (env : Env) (ps : List String) (s : Store) → SameTotals s (snapshot env ps s).1
unfolding snapshot
snapshot-SameTotals env [] s = record { providers = refl; months = refl }
snapshot-SameTotals env (p ∷ ps) s =
    ground (arith, spent-SameTotals env p s, snapshot-SameTotals env ps (spent env p s).1)

refuse_chain-SameTotals :
    (env : Env) (c : Claims) (s : Store) → SameTotals s (refuse_chain env c s).1
unfolding refuse_chain
refuse_chain-SameTotals env c s = ground (
  arith,
  snapshot-SameTotals env billable_providers (
      refuse
        (if some_exhausted c.skip c.unpriced
          then "provider_budget_exhausted"
          else "no_pricing_configured")
        s),
)

refuse_chain_raises : (env : Env) (c : Claims) (s : Store) → (refuse_chain env c s).0 ≢ ok tt
unfolding refuse_chain
refuse_chain_raises env c s = ground arith

-- By how the rest ended: the caller's month holds the claim, or is as it was.
abbrev pub KeyMoved : Env → String → ℕ → ℕ → Store → String → ℕ → Result (Unit {0}) × Store → Type 0
KeyMoved env k now total s h m (ok _, s') =
    s'.months h m ≡ s.months h m +ℤ pos (share env k now total h m)
KeyMoved env k now total s h m (err e, s') = s'.months h m ≡ s.months h m

key_unmoved :
    (env : Env) (k : String) (now total : ℕ) (s : Store) (h : String) (m : ℕ)
    (x : Result (Unit {0}) × Store)
    → x.0 ≢ ok tt
    → x.1.months ≡ s.months
    → KeyMoved env k now total s h m x
key_unmoved env k now total s h m (ok _, s') raises same = absurd (raises refl)
key_unmoved env k now total s h m (err e, s') raises same = rw same

after_key-KeyMoved :
    (env : Env) (k : String) (now n : ℕ) (s : Store) (h : String) (m : ℕ) (r : Result (Unit {0}))
    (s' : Store)
    → (r ≡ ok tt → s'.months h m ≡ s.months h m +ℤ pos (share env k now n h m))
    → ((e : Exc) → r ≡ err e → s'.months h m ≡ s.months h m)
    → KeyMoved env k now n s h m (after_key r s')
after_key-KeyMoved env k now n s h m (ok _) s' kept gone = kept refl
after_key-KeyMoved env k now n s h m (err (key_exhausted a b)) s' kept gone =
    gone (key_exhausted a b) refl
after_key-KeyMoved env k now n s h m (err e) s' kept gone = gone e refl

module _ (env : Env) (quiet : Quiet env) (now : ℕ) (one : OnePeriod env now) (k : String) where
  claim_key-KeyMoved :
      (n : ℕ) (s : Store) (h : String) (m : ℕ) → KeyMoved env k now n s h m (claim_key env k n s)
  unfolding claim_key
  claim_key-KeyMoved n s h m = elim (Bool-cases (n == 0)) [
    | inl none_claimed ↦ rw (none_claimed, claim_key) (ground (arith, +ℤ-zero (s.months h m)))
    | inr some_claimed ↦
        let (r, s') = KeyBudget.reserve env k n s in
        rw (some_claimed, claim_key)
          (after_key-KeyMoved env k now n s h m r s'
            (λ e. rw (one s.sent) at (reserve-share env k n s h m e))
            (λ e. reserve_refused env k now n s h m e quiet one))
  ]

  pub claim_rest-KeyMoved :
      (chain : Chain) (c : Claims) (s : Store) (h : String) (m : ℕ)
      → KeyMoved env k now (total_reserved c.reservations) s h m (claim_rest env k chain c s)
  unfolding claim_rest
  claim_rest-KeyMoved chain c s h m = elim (Bool-cases (no_usable_hop chain c)) [
    | inl none_left ↦
        rw (none_left, claim_rest)
          (key_unmoved env k now (total_reserved c.reservations) s h m (refuse_chain env c s)
            (refuse_chain_raises env c s) (refuse_chain-SameTotals env c s).months)
    | inr usable ↦
        rw (usable, claim_rest) (claim_key-KeyMoved (total_reserved c.reservations) s h m)
  ]

claim_key-providers :
    (env : Env) (k : String) (n : ℕ) (s : Store) → (claim_key env k n s).1.providers ≡ s.providers
unfolding claim_key
claim_key-providers env k n s = ground (arith, reserve-providers env k n s)

pub claim_rest-providers :
    (env : Env) (k : String) (chain : Chain) (c : Claims) (s : Store)
    → (claim_rest env k chain c s).1.providers ≡ s.providers
unfolding claim_rest
claim_rest-providers env k chain c s = ground (
  arith,
  claim_key-providers env k (total_reserved c.reservations) s,
  refuse_chain-SameTotals env c s,
)
