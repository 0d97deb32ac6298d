-- ===== src/Ceiling/Methods.antt =====
-- The methods of `ProviderBudget` are made of the steps of the concurrent system.
use llm_gateway_fallback_rou.Base.{
  ℕ, ◌+◌, String, ◌≡◌, refl, sym, Bool, true, false, List, [], ◌∷◌, ◌||◌, ◌==◌, ℤ, pos, ◌+ℤ◌, ◌-ℤ◌,
  arith, subst, ◌∙◌, ap,
}
use llm_gateway_fallback_rou.Account.{Phase, phase_of, admitted}
use llm_gateway_fallback_rou.Chains.{is_free}
use llm_gateway_fallback_rou.Ledger.{
  Env, Store, Result, ok, err, Exc, provider_exhausted, Quiet, incr_provider, add_provider, raise,
  continue,
}
use llm_gateway_fallback_rou.ProviderBudget.{admits, hand_back, decide, reserve, publish}
use llm_gateway_fallback_rou.ProviderBudget.Outcomes.{reserve_answered}
use llm_gateway_fallback_rou.Ceiling.{World, Reach, here, next, claim, give_back, elsewhere}

pub raise_state :
    (r : Result (Unit {0})) (e : Exc) (t : Store)
    → (continue r (λ _. raise {A = Unit {0}} e) t).1 ≡ t
raise_state (ok _) e t = refl
raise_state (err f) e t = refl

-- the requests in flight after a `reserve` of `w`, by whether it admits
abbrev pub with_claim : ℕ → Bool → List Phase → List Phase
with_claim w true requests = admitted w ∷ requests
with_claim w false requests = requests

module _ (env : Env) (quiet : Quiet env) (p : String) (w : ℕ) where
  incr_provider_answered :
      (s : Store)
      → (incr_provider env p (pos w) s).1 ≡ record (add_provider p (pos w) s) { sent = s.sent + 1 }
  unfolding incr_provider
  incr_provider_answered s = ground (arith, quiet s.sent)

  reserve-decide :
      (s : Store)
      → (is_free p || w == 0) ≡ false
      → (reserve env p w s).1
        ≡ (decide env p w (s.providers p +ℤ pos w) (incr_provider env p (pos w) s).1).1
  reserve-decide s needed =
      rw (incr_provider_answered s)
        (ap (λ r. r.1) (reserve_answered env p w s (quiet s.sent) needed))

  publish_same : (total : ℤ) (s : Store) → (publish env p total s).providers p ≡ s.providers p
  unfolding publish
  publish_same total s = ground arith

  decide-publish :
      (total : ℤ) (t : Store)
      → admits env total ≡ true
      → (decide env p w total t).1 ≡ publish env p total t
  unfolding decide
  decide-publish total t fits = rw (fits, decide) refl

  decide-hand_back :
      (total : ℤ) (t : Store)
      → admits env total ≡ false
      → (decide env p w total t).1 ≡ (hand_back env p w total t).1
  unfolding decide
  decide-hand_back total t over =
      let (r, t') = hand_back env p w total t in
      rw (over, decide)
        (raise_state r (provider_exhausted p (total -ℤ pos w) env.provider_lifetime_budget) t')

  claimed :
      (x : World) (b : Bool)
      → admits env (x.store.providers p +ℤ pos w) ≡ b
      → Reach env p x (record {
        store = (incr_provider env p (pos w) x.store).1;
        requests = phase_of b w ∷ x.requests;
        spent = x.spent;
      })
  claimed x b e =
      subst
        (λ c. Reach env p x (record {
          store = (incr_provider env p (pos w) x.store).1;
          requests = phase_of c w ∷ x.requests;
          spent = x.spent;
        }))
        e (next here (claim w))

  reserve-Reach_by :
      (x : World) (b : Bool)
      → admits env (x.store.providers p +ℤ pos w) ≡ b
      → (is_free p || w == 0) ≡ false
      → Reach env p x (record {
        store = (reserve env p w x.store).1;
        requests = with_claim w b x.requests;
        spent = x.spent;
      })
  reserve-Reach_by x true fits needed =
      let s₁ : Store = (incr_provider env p (pos w) x.store).1 in
      let total : ℤ = x.store.providers p +ℤ pos w in
      subst
        (λ t.
          Reach env p x (record { store = t; requests = admitted w ∷ x.requests; spent = x.spent }))
        (sym (reserve-decide x.store needed ∙ decide-publish total s₁ fits))
        (next (claimed x true fits) (elsewhere (publish env p total s₁) (publish_same total s₁)))
  reserve-Reach_by x false over needed =
      let s₁ : Store = (incr_provider env p (pos w) x.store).1 in
      let total : ℤ = x.store.providers p +ℤ pos w in
      subst (λ t. Reach env p x (record { store = t; requests = x.requests; spent = x.spent }))
        (sym (reserve-decide x.store needed ∙ decide-hand_back total s₁ over))
        (next (claimed x false over) (give_back [] x.requests w total refl))

  -- With every command answered, a whole `reserve` that claims anything is a run of the
  -- concurrent system, of a claim and what follows from its test, at the end of which the request
  -- is in flight exactly if the total with its claim is within the ceiling.
  pub reserve-Reach :
      (x : World)
      → (is_free p || w == 0) ≡ false
      → Reach env p x (record {
        store = (reserve env p w x.store).1;
        requests = with_claim w (admits env (x.store.providers p +ℤ pos w)) x.requests;
        spent = x.spent;
      })
  reserve-Reach x needed =
      reserve-Reach_by x (admits env (x.store.providers p +ℤ pos w)) refl needed
