-- ===== src/Endpoints/Streams.antt =====
-- What a streamed request costs, from the door to its last frame.
use llm_gateway_fallback_rou.Base.{
  true, false, ℕ, String, ◌≡◌, refl, ap, ◌∙◌, ◌⊎◌, inl, inr, Bool, pos, ◌+ℤ◌,
}
use llm_gateway_fallback_rou.Chains.{Chain, resolve_chain}
use llm_gateway_fallback_rou.Ledger.{Store, Result, ok, err}
use llm_gateway_fallback_rou.ProviderBudget.Outcomes.{charge}
use llm_gateway_fallback_rou.KeyBudget.Outcomes.{share}
use llm_gateway_fallback_rou.RateLimit.{Buckets}
use llm_gateway_fallback_rou.Gate.{Gate, enforce_budget}
use llm_gateway_fallback_rou.Gate.Keys.{Headers}
use llm_gateway_fallback_rou.Gate.Admission.{IsKnown, Admitted, enforce_budget-Admitted}
use llm_gateway_fallback_rou.Schemas.{
  ChatRequest, is_chat_request, ChatCompletionRequest, is_completion_request,
}
use llm_gateway_fallback_rou.Router.{Router}
use llm_gateway_fallback_rou.Router.Stream.{Source, chat_stream}
use llm_gateway_fallback_rou.Streaming.{no_progress, see_all, Surface, native, openai, Closing}
use llm_gateway_fallback_rou.Streaming.Exits.{billed}
use llm_gateway_fallback_rou.Endpoints.{
  Order, answer, native_order, completion_order, stream_endpoint, chat_stream_route,
  completions_stream_route,
}
use llm_gateway_fallback_rou.Endpoints.Handler.{Calm}
use llm_gateway_fallback_rou.Endpoints.StreamHandler.{
  is_refused, Unmoved, Paid, Streamed, stream_endpoint-Streamed,
}

-- Refused with nothing moved, or paid for by the caller whose known key was presented.
abbrev pub StreamedFor :
    Gate
    → Source
    → Headers
    → ℕ
    → Chain
    → Router
    → Store
    → String
    → String
    → ℕ
    → Result Closing × Store × Router
    → Type 0
StreamedFor g src headers now chain router s q h m (r, s', router') =
    ((is_refused r ≡ true) × Unmoved s q h m s')
    ⊎ ((k : String) × IsKnown g headers k × Paid g.env src k now chain router s q h m s')

module _ (g : Gate) (headers : Headers) (now : ℕ) (calm : Calm g.env now) (src : Source) where
  from_stream :
      (chain : Chain) (router : Router) (s s' : Store) (k q h : String) (m : ℕ)
      (p : Result Closing × Store × Router)
      → IsKnown g headers k
      → s'.providers ≡ s.providers
      → s'.months ≡ s.months
      → Streamed g.env src k now chain router s' q h m p
      → StreamedFor g src headers now chain router s q h m p
  from_stream chain router s s' k q h m p known a b (inl (refused, same)) =
      inl (refused, (same.0 ∙ ap (λ f. f q) a, same.1 ∙ ap (λ f. f h m) b))
  from_stream chain router s s' k q h m p known a b (inr (skip, (priced, provider, month))) =
      let (chunks, end) = (chat_stream src skip chain router).0 in
      let c = see_all chunks no_progress in
      inr (
        k,
        known,
        (
          skip,
          (
            priced,
            provider ∙ ap (λ f. f q +ℤ pos (charge c.final_provider (billed c end) q)) a,
            month ∙ ap (λ f. f h m +ℤ pos (share g.env k now (billed c end) h m)) b,
          ),
        ),
      )

  from_door :
      (surface : Surface) (o : Order) (router : Router) (buckets : Buckets) (s : Store)
      (q h : String) (m : ℕ) (valid : Bool) (p : Result String × Buckets × Store)
      → Admitted g headers buckets s p
      → StreamedFor g src headers now
          (resolve_chain o.requested).1
          router
          s
          q
          h
          m
          (answer (stream_endpoint g.env src surface o) valid router p)
  from_door surface o router buckets s q h m valid (err e, b', s') same =
      inl (refl, (ap (λ f. f q) same.0, ap (λ f. f h m) same.1))
  from_door surface o router buckets s q h m false (ok k, b', s') seen =
      inl (refl, (ap (λ f. f q) seen.3, ap (λ f. f h m) seen.4))
  from_door surface o router buckets s q h m true (ok k, b', s') seen =
      from_stream (resolve_chain o.requested).1 router s s' k q h m
        (stream_endpoint g.env src surface o k router s') seen.0 seen.3 seen.4
        (stream_endpoint-Streamed g.env now calm src k q h m surface o router s')

  -- From the door to the last frame, on both surfaces, for a streamed request whose generator is
  -- started once it is admitted, with every Redis
  -- command of the handler answered, inside one period and no audit transaction cancelled: the
  -- request is refused, or ends in an exception, with no total moved, or the totals of one
  -- provider and of the month of one caller, whose key is known, have moved, each by the billed
  -- amount of the router's stream over the requested chain, however that stream ended; and that
  -- amount is zero or is priced by the provider and the model of one hop of the chain.
  pub streams-StreamedFor :
      (native_body : ChatRequest) (completion : ChatCompletionRequest) (router : Router)
      (buckets : Buckets) (s : Store) (q h : String) (m : ℕ)
      → StreamedFor g src headers now
          (resolve_chain native_body.model).1
          router
          s
          q
          h
          m
          (chat_stream_route g src headers native_body buckets router s)
        × StreamedFor g src headers now
            (resolve_chain completion.model).1
            router
            s
            q
            h
            m
            (completions_stream_route g src headers completion buckets router s)
  unfolding chat_stream_route completions_stream_route
  streams-StreamedFor native_body completion router buckets s q h m =
      let seen = enforce_budget-Admitted g headers buckets s in
      (
        from_door native (native_order native_body) router buckets s q h m
            (is_chat_request native_body) (enforce_budget g headers buckets s) seen,
        from_door openai (completion_order completion) router buckets s q h m
            (is_completion_request completion) (enforce_budget g headers buckets s) seen,
      )
