-- ===== src/Endpoints/Adapted.antt =====
-- What a request costs through the program's own adapters.
use llm_gateway_fallback_rou.Base.{ℕ, String, none, some}
use llm_gateway_fallback_rou.Config.{Settings}
use llm_gateway_fallback_rou.Ledger.{Store}
use llm_gateway_fallback_rou.RateLimit.{Buckets}
use llm_gateway_fallback_rou.Gate.{Gate}
use llm_gateway_fallback_rou.Gate.Keys.{Headers}
use llm_gateway_fallback_rou.Schemas.{ChatRequest, ChatCompletionRequest, sampling_params}
use llm_gateway_fallback_rou.Router.{Upstream, Router}
use llm_gateway_fallback_rou.Adapters.{Vendors}
use llm_gateway_fallback_rou.Adapters.Claims.{with_adapters}
use llm_gateway_fallback_rou.Adapters.Names.{with_adapters-Named}
use llm_gateway_fallback_rou.Endpoints.{chat_route, completions_route}
use llm_gateway_fallback_rou.Endpoints.Handler.{Calm}
use llm_gateway_fallback_rou.Endpoints.Billing.{BilledFor, request-BilledFor}

-- From the door to the response, on both surfaces, for a request that is not streamed, with every
-- Redis command of the handler answered, inside one period and no audit transaction cancelled:
-- through the adapters, whatever keys are set and whatever the vendors answer, a request that is
-- answered has moved two totals, its provider's and its caller's month, each by the price of the
-- answer, for a caller whose key is known; a request that ends in a refusal or a reported failure
-- has moved none.
pub adapted-BilledFor :
    (g : Gate) (headers : Headers) (now : ℕ)
    → Calm g.env now
    → (settings : Settings) (v : Vendors) (up : Upstream) (native : ChatRequest)
      (completion : ChatCompletionRequest) (router : Router) (buckets : Buckets) (s : Store)
      (q h : String) (m : ℕ)
    → let params = some (sampling_params completion) in
      BilledFor g headers now s q h m (
        chat_route g
          (with_adapters settings v native.messages none up)
          headers
          native
          buckets
          router
          s)
      × BilledFor g headers now s q h m (
          completions_route g
            (with_adapters settings v completion.messages params up)
            headers
            completion
            buckets
            router
            s)
adapted-BilledFor g headers now calm settings v up native completion router buckets s q h m =
    let params = some (sampling_params completion) in
    (
      (request-BilledFor g headers now calm (with_adapters settings v native.messages none up)
          (with_adapters-Named v native.messages none settings up) native completion router buckets
          s q h m).0,
      (request-BilledFor g headers now calm (with_adapters settings v completion.messages params up)
          (with_adapters-Named v completion.messages params settings up) native completion router
          buckets s q h m).1,
    )
