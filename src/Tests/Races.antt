-- ===== src/Tests/Races.antt =====
-- Requests that race for one ledger, at concrete inputs.
use llm_gateway_fallback_rou.Base.{◌≡◌, refl, [], ◌∷◌, pos, ◌+ℤ◌, arith, ◌≢◌, ◌==◌, if◌then◌else◌}
use llm_gateway_fallback_rou.Ledger.{Env, Store, ok, incr_provider, incr_month, month_total, period}
use llm_gateway_fallback_rou.Account.{admitted, refused, IsWithin}
use llm_gateway_fallback_rou.KeyBudget.Straddle.{straddle_shifts}
use llm_gateway_fallback_rou.ProviderBudget.{admits}
use llm_gateway_fallback_rou.ProviderBudget
use llm_gateway_fallback_rou.KeyBudget
use llm_gateway_fallback_rou.Ceiling.{
  World, Reach, IsBounded, Reach-IsBounded, here, next, claim, give_back, finish,
}
use llm_gateway_fallback_rou.Ceiling.Methods.{with_claim, reserve-Reach}
use llm_gateway_fallback_rou.Ceiling.KeyMethods.{reserve-KeyReach}
use llm_gateway_fallback_rou.Ceiling.Keys.{
  KeyReach, start, onward, claim_share, return_share, settle_share, month_view, KeyReach-IsWithin,
}
use llm_gateway_fallback_rou.Tests.Money.{calm, calm-Quiet, calm-OnePeriod}
use llm_gateway_fallback_rou.Tests.Money.{start as empty}

-- two requests race for more than the ceiling; one is refused, hands back, and the other finishes
abbrev nobody : World
nobody = record { store = empty; requests = []; spent = 0 }

abbrev one_in : World
one_in = record {
  store = (incr_provider calm "openai" (pos 900000000) empty).1;
  requests = admitted 900000000 ∷ [];
  spent = 0;
}

abbrev both : World
both = record {
  store = (incr_provider calm "openai" (pos 900000000) one_in.store).1;
  requests = refused 900000000 ∷ admitted 900000000 ∷ [];
  spent = 0;
}

abbrev one_left : World
one_left = record {
  store = (ProviderBudget.hand_back calm "openai" 900000000 (pos 1800000000) both.store).1;
  requests = admitted 900000000 ∷ [];
  spent = 0;
}

abbrev over : World
over = record {
  store = (ProviderBudget.settle calm "openai" 900000000 7000 one_left.store).1;
  requests = [];
  spent = 7000;
}

race : Reach calm "openai" nobody over
unfolding incr_provider ◌+ℤ◌
race =
    next
      (next (next (next here (claim 900000000)) (claim 900000000))
        (give_back [] (admitted 900000000 ∷ []) 900000000 (pos 1800000000) refl))
      (finish [] [] 900000000 7000 refl (omega arith))

Reach-IsBounded_example : IsBounded calm "openai" over
Reach-IsBounded_example =
    Reach-IsBounded calm calm-Quiet "openai" refl (record { ledger = refl; ceiling = omega arith })
      race

reserve-Reach_example : Reach calm "openai" nobody (record {
  store = (ProviderBudget.reserve calm "openai" 500 empty).1;
  requests = with_claim 500 (admits calm (empty.providers "openai" +ℤ pos 500)) [];
  spent = 0;
})
reserve-Reach_example = reserve-Reach calm calm-Quiet "openai" 500 nobody refl

-- two requests of one key race for more than its month holds
abbrev key_in : World
key_in = record {
  store = (incr_month calm "alice" (pos 900000000) empty).1;
  requests = admitted 900000000 ∷ [];
  spent = 0;
}

abbrev both_in : World
both_in = record {
  store = (incr_month calm "alice" (pos 900000000) key_in.store).1;
  requests = refused 900000000 ∷ admitted 900000000 ∷ [];
  spent = 0;
}

abbrev key_left : World
key_left = record {
  store = (KeyBudget.hand_back calm "alice" 900000000 both_in.store).1;
  requests = admitted 900000000 ∷ [];
  spent = 0;
}

abbrev settled : World
settled = record {
  store = (KeyBudget.settle calm "alice" 900000000 7000 key_left.store).1;
  requests = [];
  spent = 7000;
}

key_race : KeyReach calm "alice" 1 nobody settled
unfolding incr_month ◌+ℤ◌
key_race =
    onward
      (onward (onward (onward start (claim_share 900000000)) (claim_share 900000000))
        (return_share [] (admitted 900000000 ∷ []) 900000000 refl))
      (settle_share [] [] 900000000 7000 refl (omega arith))

KeyReach-IsWithin_example : IsWithin calm.monthly_budget_per_key (month_view calm "alice" 1 settled)
KeyReach-IsWithin_example =
    KeyReach-IsWithin calm calm-Quiet "alice" 1 calm-OnePeriod
      (record { ledger = refl; ceiling = omega arith }) key_race

-- the second command comes two periods after the first
abbrev passing : Env
passing = record calm { time = λ n. if n == 0 then 5000000 else 8000000 }

abbrev claimed_early : Store
claimed_early = (KeyBudget.reserve passing "alice" 500 empty).1

early_admitted : (KeyBudget.reserve passing "alice" 500 empty).0 ≡ ok tt
unfolding KeyBudget.reserve ◌+ℤ◌
early_admitted = refl

other_period : period passing empty ≢ period passing claimed_early
unfolding KeyBudget.reserve ◌+ℤ◌
other_period e = cc e

straddle_shifts_example :
    let t = (KeyBudget.settle passing "alice" 500 20 claimed_early).1 in
    (t.months "alice" (period passing empty) ≡ pos 0 +ℤ pos 500)
    × (t.months "alice" (period passing claimed_early) +ℤ pos 500 ≡ pos 0 +ℤ pos 20)
straddle_shifts_example =
    straddle_shifts passing "alice" 500 20 empty claimed_early (λ n. refl) early_admitted refl
      other_period

reserve-KeyReach_example : KeyReach calm "alice" 1 nobody (record {
  store = (KeyBudget.reserve calm "alice" 500 empty).1;
  requests =
      with_claim 500 (KeyBudget.within_cap calm (month_total calm "alice" empty +ℤ pos 500)) [];
  spent = 0;
})
reserve-KeyReach_example = reserve-KeyReach calm calm-Quiet "alice" 1 500 nobody refl
