-- ===== src/Streaming/Exits.antt =====
-- Each exit of a stream settles its request once.
use llm_gateway_fallback_rou.Base.{
  ℕ, String, ◌≡◌, refl, true, false, str_eq, if◌then◌else◌, arith, ◌∙◌, subst, Bool-cases, inl, inr,
  eq_iff,
}
use llm_gateway_fallback_rou.Ledger.{
  ◌>>◌, handled, continue, Action, pure, raise, cancellation, Env, Store, Result, ok, err,
  is_exception, AuditRow,
}
use llm_gateway_fallback_rou.Ledger.Commands.{SameTotals}
use llm_gateway_fallback_rou.Settlement.{Reservations, settle_chain}
use llm_gateway_fallback_rou.Settlement.BestEffort.{is_cancelled, Uncancelled, settle_chain_ok}
use llm_gateway_fallback_rou.Router.Stream.{StreamEnd, completed, all_failed, failed_midway, other}
use llm_gateway_fallback_rou.Serving.{record_usage, audit_row, record_audit_log, count_request}
use llm_gateway_fallback_rou.Serving.BestEffort.{record_audit_log_ok}
use llm_gateway_fallback_rou.Streaming.{
  Progress, settle_on_abort, try_settle_on_abort, settle_spend, stream_cost, abort_cost, Surface,
  native, openai, count_unhandled, close_settled, close_well, close_failed, close, failed_frame,
  error_frame,
}

-- What a stream is settled with, by its end: the totals of its last chunk if it completed, and an
-- estimate otherwise.
abbrev pub billed : Progress → StreamEnd → ℕ
billed g completed = stream_cost g
billed g _ = if str_eq g.final_provider "" then 0 else abort_cost g

-- Between `s` and `t` lies one settlement, and nothing else that moves a total.
abbrev pub IsSettled : Env → String → Reservations → String → ℕ → Store → Store → Type 0
IsSettled env k res p cost s t =
    (s' : Store) × SameTotals s s' × SameTotals (settle_chain env k res p cost s').1 t

same_refl : (s : Store) → SameTotals s s
same_refl s = record { providers = refl; months = refl }

same_trans : {s t u : Store} → SameTotals s t → SameTotals t u → SameTotals s u
same_trans a b = record { providers = b.providers ∙ a.providers; months = b.months ∙ a.months }

record_audit_log-SameTotals :
    (env : Env) (row : AuditRow) (s : Store) → SameTotals s (record_audit_log env row s).1
unfolding record_audit_log
record_audit_log-SameTotals env row s = ground arith

-- What follows a step without moving a total, and is left out if the step raises.
then_state :
    {A : Type 0} (r : Result (Unit {0})) (k : Action A) (s : Store)
    → SameTotals s (k s).1
    → SameTotals s (continue r (λ _. k) s).1
then_state (ok _) k s same = same
then_state (err e) k s same = same_refl s

then_pure :
    {A : Type 0} (r : Result (Unit {0})) (a : A) (s : Store)
    → r ≡ ok tt
    → continue r (λ _. pure a) s ≡ (ok a, s)
then_pure r a s e = rw e refl

catch_state :
    (r : Result (Unit {0})) (s : Store)
    → (handled r (λ e t. if is_exception e then (ok tt, t) else (err e, t)) s).1 ≡ s
catch_state (ok _) s = refl
catch_state (err e) s = ground arith

module _ (env : Env) (k : String) (res : Reservations) (g : Progress) where
  on_abort-SameTotals :
      (s : Store)
      → SameTotals
          (settle_chain env k res g.final_provider (billed g (other true)) s).1
          (settle_on_abort env k res g s).1
  unfolding settle_on_abort record_audit_log record_usage
  on_abort-SameTotals s = elim (Bool-cases (str_eq g.final_provider "")) [
    | inl nobody ↦
        rw (nobody, settle_on_abort) (rw ((eq_iff g.final_provider "").0 nobody) (same_refl _))
    | inr somebody ↦ rw (somebody, settle_on_abort) (ground arith)
  ]

  on_abort_then :
      {A : Type 0} (m : Action A) (s : Store)
      → ((t : Store) → SameTotals t (m t).1)
      → SameTotals
          (settle_chain env k res g.final_provider (billed g (other true)) s).1
          ((settle_on_abort env k res g >> m) s).1
  on_abort_then m s same =
      let (r, s') = settle_on_abort env k res g s in
      same_trans (on_abort-SameTotals s) (then_state r m s' (same s'))

  try_settle-state :
      (s : Store) → (try_settle_on_abort env k res g s).1 ≡ (settle_on_abort env k res g s).1
  unfolding try_settle_on_abort
  try_settle-state s = let (r, s') = settle_on_abort env k res g s in catch_state r s'

  module _ (calm : Uncancelled env) (kept : (n : ℕ) → is_cancelled (env.database n) ≡ false) where
    close_settled-SameTotals :
        (cost : ℕ) (s : Store) → SameTotals s (close_settled env k res g cost s).1
    unfolding close_settled
    close_settled-SameTotals cost s =
        let row = audit_row "success" g.final_provider g.input_tokens g.output_tokens cost in
        rw (record_audit_log_ok env row s kept, close_settled)
          (let same = record_audit_log-SameTotals env row s in
            record { providers = same.providers; months = same.months })

    with_usage : Store → Store
    with_usage =
        record_usage g.final_provider g.final_model g.input_tokens g.output_tokens (stream_cost g)

    settle_spend_ok :
        (s : Store)
        → settle_spend env k res g s ≡ (
          ok (stream_cost g),
          (settle_chain env k res g.final_provider (stream_cost g) (with_usage s)).1,
        )
    unfolding settle_spend with_usage
    settle_spend_ok s =
        let (r, s₁) = settle_chain env k res g.final_provider (stream_cost g) (with_usage s) in
        then_pure r (stream_cost g) s₁
          (settle_chain_ok env calm k res g.final_provider (stream_cost g) (with_usage s))

    with_usage-SameTotals : (s : Store) → SameTotals s (with_usage s)
    unfolding with_usage record_usage
    with_usage-SameTotals s = ground arith

    close_well-IsSettled :
        (s : Store)
        → IsSettled env k res g.final_provider (stream_cost g) s (close_well env k res g s).1
    unfolding close_well
    close_well-IsSettled s = (
      with_usage s,
      with_usage-SameTotals s,
      rw (settle_spend_ok s, close_well)
          (rw (settle_spend_ok s) (
            close_settled-SameTotals (stream_cost g)
              (settle_chain env k res g.final_provider (stream_cost g) (with_usage s)).1)),
    )

    close_failed-IsSettled :
        (surface : Surface) (s : Store)
        → IsSettled env k res g.final_provider
            (billed g (other true))
            s
            (close_failed env surface k res g s).1
    unfolding close_failed
    close_failed-IsSettled native s =
        let s₁ : Store = count_request "error" s in
        let row = audit_row "error" "" 0 0 0 in
        let (_, s₂) = record_audit_log env row s₁ in
        let same = record_audit_log-SameTotals env row s₁ in
        (
          s₂,
          record { providers = same.providers; months = same.months },
          rw (record_audit_log_ok env row s₁ kept) (on_abort_then (pure failed_frame) s₂ same_refl),
        )
    close_failed-IsSettled openai s =
        let s₁ : Store = count_request "error" s in
        (
          s₁,
          record { providers = refl; months = refl },
          on_abort_then (pure failed_frame) s₁ same_refl,
        )

    -- Between the beginning and the end of any exit lies one settlement, of the billed amount.
    pub close-IsSettled :
        (surface : Surface) (end : StreamEnd) (s : Store)
        → IsSettled env k res g.final_provider (billed g end) s (close env surface k res g end s).1
    unfolding close
    close-IsSettled surface completed s = close_well-IsSettled s
    close-IsSettled surface (all_failed errors) s = close_failed-IsSettled surface s
    close-IsSettled surface (failed_midway p text) s = close_failed-IsSettled surface s
    close-IsSettled surface (other true) s =
        let s₁ : Store = count_request "aborted" s in
        (
          s₁,
          record { providers = refl; months = refl },
          on_abort_then (raise cancellation) s₁ same_refl,
        )
    close-IsSettled surface (other false) s =
        let s₁ : Store = count_request "error" (count_unhandled s) in
        let (r, s₂) = try_settle_on_abort env k res g s₁ in
        (
          s₁,
          record { providers = refl; months = refl },
          same_trans (on_abort-SameTotals s₁) (
              same_trans (subst (λ t. SameTotals t s₂) (try_settle-state s₁) (same_refl s₂))
                (then_state r (pure error_frame) s₂ (same_refl s₂))),
        )
