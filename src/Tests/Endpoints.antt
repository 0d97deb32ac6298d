-- ===== src/Tests/Endpoints.antt =====
-- A whole request at concrete inputs: the first provider fails, the second answers.
use llm_gateway_fallback_rou.Base.{
  ◌+◌, ◌≡◌, String, refl, false, none, some, [], ◌∷◌, pos, str_eq, if◌then◌else◌,
}
use llm_gateway_fallback_rou.Providers.{ChatResponse, StreamChunk, total_chars}
use llm_gateway_fallback_rou.Ledger.{failed, ok, Store, answered, err, http}
use llm_gateway_fallback_rou.RateLimit.{Buckets, check, take_tokens, refill}
use llm_gateway_fallback_rou.Texts.{starts_with_lower, strip_left, strip_right, compare_digest}
use llm_gateway_fallback_rou.Gate.{
  Gate, missing, require_api_key, take_token, enforce_rate_limit, check_budget, enforce_budget,
}
use llm_gateway_fallback_rou.Gate.Keys.{Headers, bearer, extract_key, find_allowed}
use llm_gateway_fallback_rou.KeyBudget.{spent_usd}
use llm_gateway_fallback_rou.Schemas.{
  ChatRequest, ChatCompletionRequest, is_completion_request, is_chat_message, cap_total_content,
  sampling_params,
}
use llm_gateway_fallback_rou.Router.{Upstream, Router, responded, provider_error}
use llm_gateway_fallback_rou.Breaker.{new_breaker}
use llm_gateway_fallback_rou.Serving.{route, chat_endpoint}
use llm_gateway_fallback_rou.Chains.{resolve_chain, routable_models, is_routable, find_chain}
use llm_gateway_fallback_rou.Endpoints.{
  chat_route, completions_route, chat_stream_route, completions_stream_route,
}
use llm_gateway_fallback_rou.Endpoints.Handler.{Calm}
use llm_gateway_fallback_rou.Endpoints.Operations.{readyz, metrics, list_models}
use llm_gateway_fallback_rou.Adapters.Streams.{
  finished, returned, openai_stream, text_chunk, usage_chunk,
}
use llm_gateway_fallback_rou.Endpoints.Billing.{BilledFor}
use llm_gateway_fallback_rou.Endpoints.Adapted.{adapted-BilledFor}
use llm_gateway_fallback_rou.Endpoints.Streams.{StreamedFor, streams-StreamedFor}
use llm_gateway_fallback_rou.Adapters.Claims.{with_adapters}
use llm_gateway_fallback_rou.Router.Stream.{Source, first_chunk, first_error, broke}
use llm_gateway_fallback_rou.Tests.Wiring.{settings, vendors}

abbrev gate : Gate
gate = record {
  env = record {
    wire = λ n. answered;
    time = λ n. 5000000;
    database = λ n. answered;
    hash_key = λ k. k;
    provider_lifetime_budget = 1200000000;
    monthly_budget_per_key = 1500000000;
    provider_retry_attempts = 1;
    strict_model_routing = false;
  };
  allowed = "k1" ∷ [];
  db_key = λ k. missing;
  limiter = record { capacity = 20; refill_rate = 1; hash_key = λ k. k };
  now = 100;
  script = answered;
}

gate-Calm : Calm gate.env 1
gate-Calm = record { quiet = λ n. refl; one = λ n. refl; database = λ n. refl }

abbrev presents_k1 : Headers
presents_k1 = record { authorization = none; x_api_key = some "k1" }

abbrev reply : ChatResponse
reply = record {
  content = "hello";
  provider = "anthropic";
  model = "claude-haiku-4-5";
  input_tokens = 40;
  output_tokens = 9;
}

abbrev caller : Upstream
caller = record {
  clock = λ n. 100 + n;
  answer = λ n h.
      if str_eq h.provider "openai"
      then provider_error "bad key" false
      else responded (record reply { provider = h.provider });
  others = λ n b. b;
  retry_attempts = 1;
}

abbrev native : ChatRequest
native = record {
  model = "fast";
  messages = record { role = "user"; content = "What is a ledger?" } ∷ [];
}

abbrev completion : ChatCompletionRequest
completion = record {
  model = "unheard-of";
  messages = native.messages;
  stream = false;
  temperature = none;
  top_p = none;
  max_tokens = some 64;
  stop = none;
  model_fields_set = "model" ∷ "messages" ∷ "max_tokens" ∷ [];
  model_extra = [];
}

abbrev router : Router
router = record {
  breakers = λ p. new_breaker 3 30;
  readings = 0;
  awaits = 0;
  calls = [];
  attempts_ok = [];
  attempts_error = [];
  circuit_gauge = λ p. 0;
  fallback_triggered = 0;
}

abbrev start : Store
start = record {
  providers = λ p. pos 0;
  months = λ h m. pos 0;
  sent = 0;
  spent_gauge = λ p. pos 0;
  remaining_gauge = λ p. 0;
  leaked_key = 0;
  leaked_provider = 0;
  refused = [];
  requests = [];
  usage = [];
  audit = [];
  audit_writes = 0;
  unhandled = 0;
}

abbrev empty : Buckets
empty k = none

-- the second surface refuses a model that it does not know
unknown_model :
    (completions_route gate caller presents_k1 completion empty router start).0
    ≡ err (http 404 "unknown model")
unfolding completions_route enforce_budget enforce_rate_limit require_api_key extract_key strip_left
    strip_right find_allowed compare_digest take_token check take_tokens refill check_budget
    spent_usd is_completion_request is_chat_message cap_total_content total_chars chat_endpoint
    route is_routable find_chain
unknown_model = refl

adapted-BilledFor_example :
    let params = some (sampling_params completion) in
    BilledFor gate presents_k1 1 start "anthropic" "k1" 1 (
      chat_route gate
        (with_adapters settings vendors native.messages none caller)
        presents_k1
        native
        empty
        router
        start)
    × BilledFor gate presents_k1 1 start "anthropic" "k1" 1 (
        completions_route gate
          (with_adapters settings vendors completion.messages params caller)
          presents_k1
          completion
          empty
          router
          start)
adapted-BilledFor_example =
    adapted-BilledFor gate presents_k1 1 gate-Calm settings vendors caller native completion router
      empty start "anthropic" "k1" 1

-- OpenAI refuses the key, Anthropic streams two chunks and breaks off.
abbrev piece : String → StreamChunk
piece t = record {
  content = t;
  done = false;
  input_tokens = 0;
  output_tokens = 0;
  provider = "";
  model = "";
}

abbrev breaking : Source
breaking = record {
  upstream = caller;
  opening = λ n h.
      if str_eq h.provider "openai" then first_error "bad key" false else first_chunk (piece "hel");
  following = λ n h. (piece "lo" ∷ [], broke "connection reset");
}

streams-StreamedFor_example :
    StreamedFor gate breaking presents_k1 1
      (resolve_chain "fast").1
      router
      start
      "anthropic"
      "k1"
      1
      (chat_stream_route gate breaking presents_k1 native empty router start)
    × StreamedFor gate breaking presents_k1 1
        (resolve_chain "unheard-of").1
        router
        start
        "anthropic"
        "k1"
        1
        (completions_stream_route gate breaking presents_k1 completion empty router start)
streams-StreamedFor_example =
    streams-StreamedFor gate presents_k1 1 gate-Calm breaking native completion router empty start
      "anthropic" "k1" 1

-- the operators' endpoints
redis_down :
    readyz (failed false) answered
    ≡ ok (record { status_code = 503; redis = "error"; database = "ok" })
unfolding readyz
redis_down = refl

scraped : metrics (some "s3cret") none (some "Bearer s3cret") ≡ ok tt
unfolding metrics bearer starts_with_lower strip_left strip_right compare_digest
scraped = refl

models_listed :
    list_models
    ≡ ok (
        ("default", "openai" ∷ "anthropic" ∷ "ollama" ∷ [])
        ∷ ("fast", "openai" ∷ "anthropic" ∷ "ollama" ∷ [])
        ∷ ("local", "ollama" ∷ [])
        ∷ ("smart", "anthropic" ∷ "openai" ∷ [])
        ∷ [])
unfolding list_models routable_models find_chain
models_listed = refl

-- an OpenAI stream of two pieces, and its usage
streamed :
    openai_stream (
      record { usage = none; delta = some "po" }
          ∷ record { usage = none; delta = none }
          ∷ record { usage = none; delta = some "ng" }
          ∷ record { usage = some (5, 2); delta = none }
          ∷ [],
      finished,
    )
    ≡ (text_chunk "po" ∷ text_chunk "ng" ∷ usage_chunk 5 2 ∷ [], returned)
unfolding openai_stream
streamed = refl
