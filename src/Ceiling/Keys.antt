-- ===== src/Ceiling/Keys.antt =====
-- The monthly share of app/budget/tracker.py under concurrency: any number of requests of one key
-- are in flight within one period, and their steps between two awaits fall in any order.
use llm_gateway_fallback_rou.Base.{
  ℕ, ◌+◌, ◌≤◌, String, ◌≡◌, List, ◌∷◌, ◌++◌, ℤ, pos, ◌+ℤ◌, arith, int_laws, parts_of_eq,
  str_eq_refl, sym, subst,
}
use llm_gateway_fallback_rou.Account.{
  Phase, admitted, refused, phase_of, Account, Move, grant, release, conclude, rest, IsWithin,
  Move-IsWithin,
}
use llm_gateway_fallback_rou.Ledger.{Env, Store, Quiet, incr_month, month_total, period}
use llm_gateway_fallback_rou.Ledger.Commands.{Quiet-Lands}
use llm_gateway_fallback_rou.KeyBudget.{within_cap, hand_back, settle}
use llm_gateway_fallback_rou.KeyBudget.Outcomes.{OnePeriod, share, settle-share}
use llm_gateway_fallback_rou.Ceiling.{World}

pub data KeyStep (env : Env) (k : String) (now : ℕ) (x : World) : World → Type 0 where
  claim_share :
      (w : ℕ)
      → KeyStep env k now x (record {
        store = (incr_month env k (pos w) x.store).1;
        requests = phase_of (within_cap env (month_total env k x.store +ℤ pos w)) w ∷ x.requests;
        spent = x.spent;
      })
  return_share :
      (before after : List Phase) (w : ℕ)
      → x.requests ≡ before ++ (refused w ∷ after)
      → KeyStep env k now x (record {
        store = (hand_back env k w x.store).1;
        requests = before ++ after;
        spent = x.spent;
      })
  settle_share :
      (before after : List Phase) (w actual : ℕ)
      → x.requests ≡ before ++ (admitted w ∷ after)
      → actual ≤ w
      → KeyStep env k now x (record {
        store = (settle env k w actual x.store).1;
        requests = before ++ after;
        spent = x.spent + actual;
      })
  -- anything else that the process does: other keys, the providers' ledgers, metrics
  beside :
      (s : Store)
      → s.months (env.hash_key k) now ≡ x.store.months (env.hash_key k) now
      → KeyStep env k now x (record { store = s; requests = x.requests; spent = x.spent })

pub data KeyReach (env : Env) (k : String) (now : ℕ) (x : World) : World → Type 0 where
  start : KeyReach env k now x x
  onward : {y z : World} → KeyReach env k now x y → KeyStep env k now y z → KeyReach env k now x z

-- the account that the month of one key is
abbrev pub month_view : Env → String → ℕ → World → Account
month_view env k now x = record {
  total = x.store.months (env.hash_key k) now;
  requests = x.requests;
  spent = x.spent;
}

incr_month_self :
    (env : Env) (k : String) (now : ℕ) (d : ℤ) (s : Store)
    → Quiet env
    → OnePeriod env now
    → (incr_month env k d s).1.months (env.hash_key k) now ≡ s.months (env.hash_key k) now +ℤ d
unfolding incr_month
incr_month_self env k now d s quiet one =
    ground (arith, quiet s.sent, one s.sent, str_eq_refl (env.hash_key k))

hand_back_self :
    (env : Env) (k : String) (now w : ℕ) (s : Store)
    → Quiet env
    → OnePeriod env now
    → (hand_back env k w s).1.months (env.hash_key k) now +ℤ pos w ≡ s.months (env.hash_key k) now
unfolding hand_back
hand_back_self env k now w s quiet one =
    grind (int_laws, quiet s.sent, one s.sent, str_eq_refl (env.hash_key k))

share_self : (env : Env) (k : String) (now n : ℕ) → share env k now n (env.hash_key k) now ≡ n
share_self env k now n = ground (arith, str_eq_refl (env.hash_key k))

settle_self :
    (env : Env) (k : String) (now w actual : ℕ) (s : Store)
    → Quiet env
    → OnePeriod env now
    → (settle env k w actual s).1.months (env.hash_key k) now +ℤ pos w
      ≡ s.months (env.hash_key k) now +ℤ pos actual
settle_self env k now w actual s quiet one =
    let h = env.hash_key k in
    let moved = settle-share env k w actual s h now (Quiet-Lands env quiet) in
    let p : period env s ≡ now = one s.sent in
    omega (
      int_laws,
      parts_of_eq (
          subst
            (λ n.
              (settle env k w actual s).1.months h now +ℤ pos (share env k n w h now)
              ≡ s.months h now +ℤ pos (share env k n actual h now))
            p moved),
      share_self env k now w,
      share_self env k now actual,
    )

module _ (env : Env) (quiet : Quiet env) (k : String) (now : ℕ) (one : OnePeriod env now) where
  -- Every step is a move of the account of the key's month.
  pub KeyStep-Move :
      {x y : World}
      → KeyStep env k now x y
      → Move env.monthly_budget_per_key (month_view env k now x) (month_view env k now y)
  KeyStep-Move {x} (claim_share w) =
      let h = env.hash_key k in
      let p : period env x.store ≡ now = one x.store.sent in
      subst
        (λ n. Move env.monthly_budget_per_key (month_view env k now x) (record {
          total = (incr_month env k (pos w) x.store).1.months h now;
          requests = phase_of (within_cap env (x.store.months h n +ℤ pos w)) w ∷ x.requests;
          spent = x.spent;
        }))
        (sym p)
        (grant w ((incr_month env k (pos w) x.store).1.months h now)
          (incr_month_self env k now (pos w) x.store quiet one))
  KeyStep-Move {x} (return_share before after w e) =
      release before after w ((hand_back env k w x.store).1.months (env.hash_key k) now) e
        (hand_back_self env k now w x.store quiet one)
  KeyStep-Move {x} (settle_share before after w actual e le) =
      conclude before after w actual ((settle env k w actual x.store).1.months (env.hash_key k) now)
        e le (settle_self env k now w actual x.store quiet one)
  KeyStep-Move (beside s e) = rest (s.months (env.hash_key k) now) e

  -- However many requests of one key race within one period, and in whatever order their steps
  -- fall: if the month starts exact and within the cap, every command is answered, and each
  -- request is settled at no more than it claimed, then the month stays exact, and the money
  -- spent and the claims of all requests let through never exceed the monthly cap.
  pub KeyReach-IsWithin :
      {x y : World}
      → IsWithin env.monthly_budget_per_key (month_view env k now x)
      → KeyReach env k now x y
      → IsWithin env.monthly_budget_per_key (month_view env k now y)
  KeyReach-IsWithin i start = i
  KeyReach-IsWithin i (onward r st) =
      Move-IsWithin env.monthly_budget_per_key (KeyStep-Move st) (KeyReach-IsWithin i r)
