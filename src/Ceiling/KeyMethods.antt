-- ===== src/Ceiling/KeyMethods.antt =====
-- The methods of `BudgetTracker` are made of the steps of the concurrent system.
use llm_gateway_fallback_rou.Base.{
  ℕ, String, ◌≡◌, refl, sym, Bool, true, false, [], ◌∷◌, ◌==◌, ℤ, pos, ◌+ℤ◌, ◌-ℤ◌, arith, subst,
  ◌∙◌,
}
use llm_gateway_fallback_rou.Account.{phase_of, admitted}
use llm_gateway_fallback_rou.Ledger.{Env, Store, key_exhausted, Quiet, incr_month, month_total}
use llm_gateway_fallback_rou.KeyBudget.{within_cap, hand_back, decide, reserve}
use llm_gateway_fallback_rou.Ceiling.{World}
use llm_gateway_fallback_rou.Ceiling.Methods.{raise_state, with_claim}
use llm_gateway_fallback_rou.Ceiling.Keys.{KeyReach, start, onward, claim_share, return_share}

module _ (env : Env) (quiet : Quiet env) (k : String) (now w : ℕ) where
  reserve-decide :
      (s : Store)
      → (w == 0) ≡ false
      → (reserve env k w s).1
        ≡ (decide env k w (month_total env k s +ℤ pos w) (incr_month env k (pos w) s).1).1
  unfolding reserve incr_month
  reserve-decide s needed = ground (arith, quiet s.sent)

  decide-hand_back :
      (total : ℤ) (t : Store)
      → within_cap env total ≡ false
      → (decide env k w total t).1 ≡ (hand_back env k w t).1
  unfolding decide
  decide-hand_back total t over =
      let (r, t') = hand_back env k w t in
      rw (over, decide)
        (raise_state r (key_exhausted (total -ℤ pos w) env.monthly_budget_per_key) t')

  decide_admits :
      (total : ℤ) (t : Store) → within_cap env total ≡ true → (decide env k w total t).1 ≡ t
  unfolding decide
  decide_admits total t room = rw (room, decide) refl

  claimed :
      (x : World) (b : Bool)
      → within_cap env (month_total env k x.store +ℤ pos w) ≡ b
      → KeyReach env k now x (record {
        store = (incr_month env k (pos w) x.store).1;
        requests = phase_of b w ∷ x.requests;
        spent = x.spent;
      })
  claimed x b e =
      subst
        (λ c. KeyReach env k now x (record {
          store = (incr_month env k (pos w) x.store).1;
          requests = phase_of c w ∷ x.requests;
          spent = x.spent;
        }))
        e (onward start (claim_share w))

  reserve-KeyReach_by :
      (x : World) (b : Bool)
      → within_cap env (month_total env k x.store +ℤ pos w) ≡ b
      → (w == 0) ≡ false
      → KeyReach env k now x (record {
        store = (reserve env k w x.store).1;
        requests = with_claim w b x.requests;
        spent = x.spent;
      })
  reserve-KeyReach_by x true room needed =
      let s₁ : Store = (incr_month env k (pos w) x.store).1 in
      let total : ℤ = month_total env k x.store +ℤ pos w in
      subst
        (λ t.
          KeyReach env k now x
            (record { store = t; requests = admitted w ∷ x.requests; spent = x.spent }))
        (sym (reserve-decide x.store needed ∙ decide_admits total s₁ room)) (claimed x true room)
  reserve-KeyReach_by x false over needed =
      let s₁ : Store = (incr_month env k (pos w) x.store).1 in
      let total : ℤ = month_total env k x.store +ℤ pos w in
      subst
        (λ t. KeyReach env k now x (record { store = t; requests = x.requests; spent = x.spent }))
        (sym (reserve-decide x.store needed ∙ decide-hand_back total s₁ over))
        (onward (claimed x false over) (return_share [] x.requests w refl))

  -- With every command answered, a whole `reserve` that claims anything is a run of the
  -- concurrent system of its key, at the end of which the request is in flight exactly if the
  -- month with its claim is within the cap.
  pub reserve-KeyReach :
      (x : World)
      → (w == 0) ≡ false
      → KeyReach env k now x (record {
        store = (reserve env k w x.store).1;
        requests = with_claim w (within_cap env (month_total env k x.store +ℤ pos w)) x.requests;
        spent = x.spent;
      })
  reserve-KeyReach x needed =
      reserve-KeyReach_by x (within_cap env (month_total env k x.store +ℤ pos w)) refl needed
