-- ===== src/Serving/Leak.antt =====
-- What `_serve_chat` leaves behind when the router raises anything but its own failure.
use llm_gateway_fallback_rou.Base.{
  ℕ, ◌+◌, String, ◌≡◌, refl, Bool, true, false, Option, none, List, ◌∷◌, pos, ◌+ℤ◌, member, subst,
  arith, if◌then◌else◌,
}
use llm_gateway_fallback_rou.Chains.{Hop, Chain}
use llm_gateway_fallback_rou.Ledger.{Env, Store, ok, err, failure, cancellation, Quiet}
use llm_gateway_fallback_rou.KeyBudget.Outcomes.{OnePeriod, share}
use llm_gateway_fallback_rou.Settlement.{Reservations, total_reserved}
use llm_gateway_fallback_rou.Settlement.Claims.{claimed}
use llm_gateway_fallback_rou.Reservation.{reserve_hops}
use llm_gateway_fallback_rou.Reservation.Conservation.{Conserved, reserve_hops-Conserved}
use llm_gateway_fallback_rou.Router.{
  Upstream, Router, raised, call, TryResult, crashed, try_provider, after_tries, visit, walk, chat,
  ask_breaker, other_exception, done,
}
use llm_gateway_fallback_rou.Serving.{serve_chat, run_router}

try_provider-crashed :
    (up : Upstream) (h : Hop) (attempt left retry : ℕ) (last : Option String) (s : Router)
    (interrupted : Bool)
    → ((n : ℕ) → up.answer n h ≡ raised interrupted)
    → (try_provider up h attempt (left + 1) retry last s).0 ≡ crashed interrupted
unfolding try_provider call
try_provider-crashed up h attempt left retry last s interrupted raises =
    ground (arith, raises s.awaits)

after_tries-other_exception :
    (up : Upstream) (h : Hop) (r : TryResult) (s : Router) (interrupted : Bool)
    → r ≡ crashed interrupted
    → (after_tries up h r s).0 ≡ done (other_exception interrupted)
unfolding after_tries
after_tries-other_exception up h r s interrupted e = rw e refl

visit-other_exception :
    (up : Upstream) (skip : List String) (attempt : ℕ) (h : Hop) (s : Router) (interrupted : Bool)
    → member h.provider skip ≡ false
    → (ask_breaker up h.provider s).0 ≡ true
    → ((n : ℕ) → up.answer n h ≡ raised interrupted)
    → (visit up skip attempt h s).0 ≡ done (other_exception interrupted)
unfolding visit
visit-other_exception up skip attempt h s interrupted kept asked raises =
    let s₁ = (ask_breaker up h.provider s).1 in
    let (r, s₂) = try_provider up h attempt (up.retry_attempts + 1) 0 none s₁ in
    rw (kept, visit)
      (rw asked (
        after_tries-other_exception up h r s₂ interrupted
          (try_provider-crashed up h attempt up.retry_attempts 0 none s₁ interrupted raises)))

chat-other_exception :
    (up : Upstream) (skip : List String) (h : Hop) (hs : Chain) (s : Router) (interrupted : Bool)
    → member h.provider skip ≡ false
    → (ask_breaker up h.provider s).0 ≡ true
    → ((n : ℕ) → up.answer n h ≡ raised interrupted)
    → (chat up skip (h ∷ hs) s).0 ≡ other_exception interrupted
unfolding chat walk
chat-other_exception up skip h hs s interrupted kept asked raises =
    rw (visit-other_exception up skip 0 h s interrupted kept asked raises, walk) refl

-- With every Redis command answered and the request inside one period: if the first provider of
-- an admitted request's chain was reserved for, its breaker lets the request through, and its
-- calls end in a cancellation or in any exception but a `ProviderError`, then so does the request,
-- and nothing is settled: every provider and the caller's month keep the whole reservation of a
-- request that is over.
pub crash_keeps_claims :
    (env : Env) (now : ℕ) (k : String) (s : Store) (hop : Hop) (hops : Chain) (chars max_out : ℕ)
    (q h : String) (m : ℕ) (res : Reservations) (skip : List String) (up : Upstream)
    (router : Router) (interrupted : Bool)
    → Quiet env
    → OnePeriod env now
    → (reserve_hops env k (hop ∷ hops) chars max_out s).0 ≡ ok (res, skip)
    → member hop.provider skip ≡ false
    → (ask_breaker up hop.provider router).0 ≡ true
    → ((n : ℕ) → up.answer n hop ≡ raised interrupted)
    → let s₁ = (reserve_hops env k (hop ∷ hops) chars max_out s).1 in
      let (r, s₂, router') = run_router env up k (hop ∷ hops) (res, skip) router s₁ in
      (r ≡ err (if interrupted then cancellation else failure))
      × (s₂.providers q ≡ s.providers q +ℤ pos (claimed res q))
      × (s₂.months h m ≡ s.months h m +ℤ pos (share env k now (total_reserved res) h m))
unfolding run_router serve_chat
crash_keeps_claims env now k s hop hops chars max_out q h m res skip up router interrupted quiet one
      admitted kept asked raises =
    let (r, s₁) = reserve_hops env k (hop ∷ hops) chars max_out s in
    let claim : Conserved env k now s q h m (ok (res, skip), s₁) =
      subst (λ x. Conserved env k now s q h m (x, s₁)) admitted
        (reserve_hops-Conserved env quiet now one k s (hop ∷ hops) chars max_out q h m) in
    rw (chat-other_exception up skip hop hops router interrupted kept asked raises, run_router)
      (refl, claim.1, claim.2)
