-- ===== src/Streaming/Costs.antt =====
-- What a streamed request costs, end to end.
use llm_gateway_fallback_rou.Base.{
  ℕ, String, ◌≡◌, refl, true, false, List, str_eq, arith, pos, ◌+ℤ◌, int_laws, parts_of_eq, ap,
  subst,
}
use llm_gateway_fallback_rou.Chains.{Chain}
use llm_gateway_fallback_rou.Ledger.{Env, Store, ok, Quiet}
use llm_gateway_fallback_rou.Ledger.Commands.{Quiet-Lands}
use llm_gateway_fallback_rou.ProviderBudget.Outcomes.{charge}
use llm_gateway_fallback_rou.KeyBudget.Outcomes.{OnePeriod, share}
use llm_gateway_fallback_rou.Settlement.{Reservations}
use llm_gateway_fallback_rou.Settlement.BestEffort.{is_cancelled, Uncancelled}
use llm_gateway_fallback_rou.Settlement.Refunds.{settle_chain_exact}
use llm_gateway_fallback_rou.Reservation.{reserve_hops}
use llm_gateway_fallback_rou.Reservation.Conservation.{Conserved, reserve_hops-Conserved}
use llm_gateway_fallback_rou.Router.Stream.{
  Stream, StreamEnd, completed, all_failed, failed_midway, other,
}
use llm_gateway_fallback_rou.Streaming.{
  Progress, no_progress, see_all, Surface, close, event_stream,
}
use llm_gateway_fallback_rou.Streaming.Exits.{billed, IsSettled, close-IsSettled}

pub billed_nobody :
    (g : Progress) (end : StreamEnd) → str_eq g.final_provider "" ≡ true → billed g end ≡ 0
billed_nobody g completed e = ground (arith, e)
billed_nobody g (all_failed errors) e = ground (arith, e)
billed_nobody g (failed_midway p text) e = ground (arith, e)
billed_nobody g (other interrupted) e = ground (arith, e)

Quiet-Uncancelled : (env : Env) → Quiet env → Uncancelled env
Quiet-Uncancelled env quiet n = rw (quiet n) refl

module _ (env : Env) (quiet : Quiet env) (now : ℕ) (one : OnePeriod env now) (k : String)
    (s : Store) where
  settled_once :
      (res : Reservations) (skip : List String) (s₁ t : Store) (served : String) (actual : ℕ)
      (q h : String) (m : ℕ)
      → Conserved env k now s q h m (ok (res, skip), s₁)
      → (str_eq served "" ≡ true → actual ≡ 0)
      → IsSettled env k res served actual s₁ t
      → (t.providers q ≡ s.providers q +ℤ pos (charge served actual q))
        × (t.months h m ≡ s.months h m +ℤ pos (share env k now actual h m))
  settled_once res skip s₁ t served actual q h m claim nothing (s', before, after) =
      let paid =
        settle_chain_exact env served actual res s' k now q h m (Quiet-Lands env quiet) one claim.0
          nothing in
      (
        omega (
          int_laws,
          parts_of_eq claim.1,
          parts_of_eq paid.0,
          parts_of_eq (ap (λ f. f q) before.providers),
          parts_of_eq (ap (λ f. f q) after.providers),
        ),
        omega (
          int_laws,
          parts_of_eq claim.2,
          parts_of_eq paid.1,
          parts_of_eq (ap (λ f. f h m) before.months),
          parts_of_eq (ap (λ f. f h m) after.months),
        ),
      )

  -- With every Redis command answered, one period, and no audit write cancelled: on either
  -- surface and whatever its end, a hang-up, a crash and a provider that breaks off among them,
  -- a streamed request that was admitted has moved exactly two totals when it is over, that of
  -- the provider it streamed from and that of its caller's month, each by the billed amount:
  -- the price of the reported tokens if the stream completed, the estimate otherwise, and
  -- nothing if no chunk named a provider.
  pub stream_costs :
      (chain : Chain) (chars max_out : ℕ) (q h : String) (m : ℕ) (res : Reservations)
      (skip : List String) (surface : Surface) (stream : Stream)
      → ((n : ℕ) → is_cancelled (env.database n) ≡ false)
      → (reserve_hops env k chain chars max_out s).0 ≡ ok (res, skip)
      → let g = see_all stream.0 no_progress in
        let s₁ = (reserve_hops env k chain chars max_out s).1 in
        let s₂ = (event_stream env surface k res stream s₁).1 in
        (s₂.providers q ≡ s.providers q +ℤ pos (charge g.final_provider (billed g stream.1) q))
        × (s₂.months h m ≡ s.months h m +ℤ pos (share env k now (billed g stream.1) h m))
  unfolding event_stream
  stream_costs chain chars max_out q h m res skip surface (chunks, end) kept admitted =
      let (r, s₁) = reserve_hops env k chain chars max_out s in
      let claim : Conserved env k now s q h m (ok (res, skip), s₁) =
        subst (λ x. Conserved env k now s q h m (x, s₁)) admitted
          (reserve_hops-Conserved env quiet now one k s chain chars max_out q h m) in
      let g : Progress = see_all chunks no_progress in
      settled_once res skip s₁ (close env surface k res g end s₁).1 g.final_provider (billed g end)
        q h m claim (billed_nobody g end)
        (close-IsSettled env k res g (Quiet-Uncancelled env quiet) kept surface end s₁)
