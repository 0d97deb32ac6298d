-- ===== src/Endpoints/Billing.antt =====
-- What a request costs its caller and the gateway, from the door to the response.
use llm_gateway_fallback_rou.Base.{ℕ, String, ◌≡◌, ap, ◌∙◌, Bool, pos, ◌+ℤ◌, Bool-cases, inl, inr}
use llm_gateway_fallback_rou.Providers.{ChatResponse}
use llm_gateway_fallback_rou.Ledger.{
  Env, Store, Exc, failure, cancellation, provider_exhausted, key_exhausted, key_error, http,
  Result, ok, err,
}
use llm_gateway_fallback_rou.ProviderBudget.Outcomes.{charge}
use llm_gateway_fallback_rou.KeyBudget.Outcomes.{share}
use llm_gateway_fallback_rou.RateLimit.{Buckets}
use llm_gateway_fallback_rou.Gate.{Gate, enforce_budget}
use llm_gateway_fallback_rou.Gate.Keys.{Headers}
use llm_gateway_fallback_rou.Gate.Admission.{IsKnown, Admitted, enforce_budget-Admitted}
use llm_gateway_fallback_rou.Router.{Upstream, Router}
use llm_gateway_fallback_rou.Serving.{cost_of, chat_endpoint}
use llm_gateway_fallback_rou.Serving.Costs.{Named}
use llm_gateway_fallback_rou.Endpoints.{
  Order, answer, handle_chat, native_order, completion_order, chat_route, completions_route,
}
use llm_gateway_fallback_rou.Schemas.{
  ChatRequest, is_chat_request, ChatCompletionRequest, is_completion_request,
}
use llm_gateway_fallback_rou.Endpoints.Handler.{Billed, Billed-err, Calm, chat_endpoint-Billed}

-- Who is billed: the caller whose known key was presented.
abbrev pub BilledFor :
    Gate → Headers → ℕ → Store → String → String → ℕ → Result ChatResponse × Store × Router → Type 0
BilledFor g headers now s q h m (ok x, s', r) =
    (k : String) × IsKnown g headers k × Billed g.env k now s q h m (ok x, s', r)
BilledFor g headers now s q h m (err e, s', r) = Billed g.env "" now s q h m (err e, s', r)

-- what the handler did, seen from before the dependencies
later-err :
    (env : Env) (k : String) (now : ℕ) (s s' s₂ : Store) (q h : String) (m : ℕ) (e : Exc)
    (r : Router)
    → s'.providers ≡ s.providers
    → s'.months ≡ s.months
    → Billed env k now s' q h m (err e, s₂, r)
    → Billed env "" now s q h m (err e, s₂, r)
later-err env k now s s' s₂ q h m (http status detail) r a b same =
    (same.0 ∙ ap (λ f. f q) a, same.1 ∙ ap (λ f. f h m) b)
later-err env k now s s' s₂ q h m failure r a b same = tt
later-err env k now s s' s₂ q h m cancellation r a b same = tt
later-err env k now s s' s₂ q h m (provider_exhausted p c d) r a b same = tt
later-err env k now s s' s₂ q h m (key_exhausted c d) r a b same = tt
later-err env k now s s' s₂ q h m key_error r a b same = tt

from_handler :
    (g : Gate) (headers : Headers) (now : ℕ) (s s' : Store) (k q h : String) (m : ℕ)
    (p : Result ChatResponse × Store × Router)
    → IsKnown g headers k
    → s'.providers ≡ s.providers
    → s'.months ≡ s.months
    → Billed g.env k now s' q h m p
    → BilledFor g headers now s q h m p
from_handler g headers now s s' k q h m (ok x, s₂, r) known a b billed = (
  k,
  known,
  (
    billed.0 ∙ ap (λ f. f q +ℤ pos (charge x.provider (cost_of x) q)) a,
    billed.1 ∙ ap (λ f. f h m +ℤ pos (share g.env k now (cost_of x) h m)) b,
  ),
)
from_handler g headers now s s' k q h m (err e, s₂, r) known a b billed =
    later-err g.env k now s s' s₂ q h m e r a b billed

answer-BilledFor :
    (g : Gate) (headers : Headers) (now : ℕ)
    → Calm g.env now
    → (up : Upstream) → Named up
    → (o : Order) (valid : Bool) (router : Router) (buckets : Buckets) (s : Store) (q h : String)
      (m : ℕ)
    → BilledFor g headers now s q h m
        (answer (handle_chat g.env up o) valid router (enforce_budget g headers buckets s))
answer-BilledFor g headers now calm up named o valid router buckets s q h m =
    from_door (enforce_budget g headers buckets s) (enforce_budget-Admitted g headers buckets s)
  where
    from_door :
        (p : Result String × Buckets × Store)
        → Admitted g headers buckets s p
        → BilledFor g headers now s q h m (answer (handle_chat g.env up o) valid router p)
    from_door (err e, b', s') same =
        Billed-err g.env "" now s q h m e s' router (ap (λ f. f q) same.0, ap (λ f. f h m) same.1)
    from_door (ok k, b', s') seen = elim (Bool-cases valid) [
      | inl good ↦ rw good (
          from_handler g headers now s s' k q h m
            (chat_endpoint g.env up o.requested o.strict o.messages o.params k router s') seen.0
            seen.3 seen.4
            (chat_endpoint-Billed g.env now calm up named k q h m o.requested o.strict o.messages
              o.params router s'))
      | inr bad ↦ rw bad (ap (λ f. f q) seen.3, ap (λ f. f h m) seen.4)
    ]

-- From the door to the response, on both surfaces, for a request that is not streamed, with every
-- Redis command of the handler answered, inside one period, no audit transaction cancelled and
-- every adapter answering under its own name: a request that is answered has moved two totals,
-- its provider's and its caller's month, each by the price of the answer, for a caller whose key
-- is known; a request that ends in a refusal or a reported failure has moved none.
pub request-BilledFor :
    (g : Gate) (headers : Headers) (now : ℕ)
    → Calm g.env now
    → (up : Upstream) → Named up
    → (native : ChatRequest) (completion : ChatCompletionRequest) (router : Router)
      (buckets : Buckets) (s : Store) (q h : String) (m : ℕ)
    → BilledFor g headers now s q h m (chat_route g up headers native buckets router s)
      × BilledFor g headers now s q h m (completions_route g up headers completion buckets router s)
unfolding chat_route completions_route
request-BilledFor g headers now calm up named native completion router buckets s q h m = (
  answer-BilledFor g headers now calm up named (native_order native) (is_chat_request native) router
      buckets s q h m,
  answer-BilledFor g headers now calm up named (completion_order completion)
      (is_completion_request completion) router buckets s q h m,
)
