-- ===== src/Ceiling.antt =====
-- The lifetime ceiling of app/budget/provider_budget.py under concurrency. Any number of requests
-- are in flight against one provider; a step is what one of them does between two awaits, in any
-- order: the atomic claim and its test, the hand-back of a refused claim, and the settlement of
-- an admitted one. They act on the shared `Store` by the methods of `ProviderBudget`.
use llm_gateway_fallback_rou.Base.{
  ℕ, ◌+◌, ◌≤◌, String, ◌≡◌, refl, false, List, [], ◌∷◌, ◌++◌, ℤ, pos, ◌+ℤ◌, arith, int_laws,
  parts_of_eq, ap, ◌∙◌, str_eq_refl, Bool, true, leb→le,
}
use llm_gateway_fallback_rou.Account.{
  Phase, admitted, refused, phase_of, Account, Move, grant, release, conclude, rest, IsWithin,
  Move-IsWithin,
}
use llm_gateway_fallback_rou.Chains.{is_free}
use llm_gateway_fallback_rou.Ledger.{Env, Store, Quiet, incr_provider}
use llm_gateway_fallback_rou.Ledger.Commands.{Quiet-Lands}
use llm_gateway_fallback_rou.ProviderBudget.{admits, hand_back, settle}
use llm_gateway_fallback_rou.ProviderBudget.Outcomes.{charge, settle-charge}
pub mod Methods
pub mod Keys
pub mod KeyMethods

pub record World : Type 0 where
  pub store : Store
  pub requests : List Phase
  pub spent : ℕ  -- the real cost of the settled requests, and what was spent before

pub data Step (env : Env) (p : String) (x : World) : World → Type 0 where
  claim :
      (w : ℕ)
      → Step env p x (record {
        store = (incr_provider env p (pos w) x.store).1;
        requests = phase_of (admits env (x.store.providers p +ℤ pos w)) w ∷ x.requests;
        spent = x.spent;
      })
  give_back :
      (before after : List Phase) (w : ℕ) (total : ℤ)
      → x.requests ≡ before ++ (refused w ∷ after)
      → Step env p x (record {
        store = (hand_back env p w total x.store).1;
        requests = before ++ after;
        spent = x.spent;
      })
  finish :
      (before after : List Phase) (w actual : ℕ)
      → x.requests ≡ before ++ (admitted w ∷ after)
      → actual ≤ w
      → Step env p x (record {
        store = (settle env p w actual x.store).1;
        requests = before ++ after;
        spent = x.spent + actual;
      })
  -- anything else that the process does: other providers, other ledgers, metrics
  elsewhere :
      (s : Store)
      → s.providers p ≡ x.store.providers p
      → Step env p x (record { store = s; requests = x.requests; spent = x.spent })

pub data Reach (env : Env) (p : String) (x : World) : World → Type 0 where
  here : Reach env p x x
  next : {y z : World} → Reach env p x y → Step env p y z → Reach env p x z

-- the account that the ledger of one provider is
abbrev pub view : String → World → Account
view p x = record { total = x.store.providers p; requests = x.requests; spent = x.spent }

abbrev pub IsBounded : Env → String → World → Type 0
IsBounded env p x = IsWithin env.provider_lifetime_budget (view p x)

incr_provider_self :
    (env : Env) (p : String) (d : ℤ) (s : Store)
    → Quiet env
    → (incr_provider env p d s).1.providers p ≡ s.providers p +ℤ d
unfolding incr_provider
incr_provider_self env p d s quiet = ground (arith, quiet s.sent, str_eq_refl p)

hand_back_self :
    (env : Env) (p : String) (w : ℕ) (total : ℤ) (s : Store)
    → Quiet env
    → (hand_back env p w total s).1.providers p +ℤ pos w ≡ s.providers p
unfolding hand_back
hand_back_self env p w total s quiet = grind (int_laws, quiet s.sent, str_eq_refl p)

charge_self : (p : String) (n : ℕ) → is_free p ≡ false → charge p n p ≡ n
charge_self p n f = ground (arith, str_eq_refl p)

module _ (env : Env) (quiet : Quiet env) (p : String) (billable : is_free p ≡ false) where
  -- Every step is a move of the account of the provider: the ledger implements its contract.
  pub Step-Move :
      {x y : World} → Step env p x y → Move env.provider_lifetime_budget (view p x) (view p y)
  Step-Move {x} (claim w) =
      grant w ((incr_provider env p (pos w) x.store).1.providers p)
        (incr_provider_self env p (pos w) x.store quiet)
  Step-Move {x} (give_back before after w total e) =
      release before after w ((hand_back env p w total x.store).1.providers p) e
        (hand_back_self env p w total x.store quiet)
  Step-Move {x} (finish before after w actual e le) =
      conclude before after w actual ((settle env p w actual x.store).1.providers p) e le (
        omega (
          int_laws,
          parts_of_eq (settle-charge env p w actual x.store p (Quiet-Lands env quiet)),
          charge_self p w billable,
          charge_self p actual billable,
        ))
  Step-Move (elsewhere s e) = rest (s.providers p) e

  -- However many requests race for one provider that charges, and in whatever order their steps
  -- fall: if the ledger starts exact and within the ceiling, every command is answered, and each
  -- request is settled at no more than it reserved, then the ledger stays exact, and the money
  -- spent and the reservations of all requests let through never exceed the lifetime budget.
  pub Reach-IsBounded : {x y : World} → IsBounded env p x → Reach env p x y → IsBounded env p y
  Reach-IsBounded i here = i
  Reach-IsBounded i (next r st) =
      Move-IsWithin env.provider_lifetime_budget (Step-Move st) (Reach-IsBounded i r)
