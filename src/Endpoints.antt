-- ===== src/Endpoints.antt =====
-- app/main.py: the chat endpoints from the door to the response. A request passes the
-- dependencies, then the validation of its body, and then the handler.
use llm_gateway_fallback_rou.Base.{
  String, Bool, true, false, Option, none, some, List, if◌then◌else◌,
}
use llm_gateway_fallback_rou.Chains.{Chain}
use llm_gateway_fallback_rou.Providers.{ChatMessage, ChatResponse, SamplingParams}
use llm_gateway_fallback_rou.Ledger.{Env, Store, Exc, http, Result, ok, err}
use llm_gateway_fallback_rou.Reservation.{reserve_chain}
use llm_gateway_fallback_rou.Settlement.{Reservations}
use llm_gateway_fallback_rou.RateLimit.{Buckets}
use llm_gateway_fallback_rou.Gate.{Gate, enforce_budget}
use llm_gateway_fallback_rou.Gate.Keys.{Headers}
use llm_gateway_fallback_rou.Schemas.{
  ChatRequest, is_chat_request, ChatCompletionRequest, is_completion_request, sampling_params,
}
use llm_gateway_fallback_rou.Router.{Upstream, Router}
use llm_gateway_fallback_rou.Router.Stream.{Source, chat_stream}
use llm_gateway_fallback_rou.Serving.{route, chat_endpoint}
use llm_gateway_fallback_rou.Streaming.{Closing, Surface, native, openai, event_stream}
pub mod Handler
pub mod Billing
pub mod StreamHandler
pub mod Streams
pub mod Adapted
pub mod Operations

-- What the handlers take from a body that has passed its validation.
pub record Order : Type 0 where
  pub requested : String
  pub strict : Option Bool
  pub messages : List ChatMessage
  pub params : Option SamplingParams

abbrev pub native_order : ChatRequest → Order
native_order r = record { requested = r.model; strict = none; messages = r.messages; params = none }

abbrev pub completion_order : ChatCompletionRequest → Order
completion_order r = record {
  requested = r.model;
  strict = some true;
  messages = r.messages;
  params = some (sampling_params r);
}

-- a handler behind the dependencies, on a body that is valid or not
abbrev pub answer :
    {A : Type 0}
    → (String → Router → Store → Result A × Store × Router)
    → Bool
    → Router
    → Result String × Buckets × Store
    → Result A × Store × Router
answer handler valid router (err e, buckets, s) = (err e, s, router)
answer handler valid router (ok key, buckets, s) =
    if valid then handler key router s else (err (http 422 "validation error"), s, router)

abbrev pub handle_chat :
    Env → Upstream → Order → String → Router → Store → Result ChatResponse × Store × Router
handle_chat env up o key router s =
    chat_endpoint env up o.requested o.strict o.messages o.params key router s

-- `POST /v1/chat`
unfoldable pub chat_route :
    Gate
    → Upstream
    → Headers
    → ChatRequest
    → Buckets
    → Router
    → Store
    → Result ChatResponse × Store × Router
unfolding enforce_budget is_chat_request chat_endpoint
chat_route g up headers r buckets router s =
    answer (handle_chat g.env up (native_order r)) (is_chat_request r) router
      (enforce_budget g headers buckets s)

-- `POST /v1/chat/completions` without `stream`
unfoldable pub completions_route :
    Gate
    → Upstream
    → Headers
    → ChatCompletionRequest
    → Buckets
    → Router
    → Store
    → Result ChatResponse × Store × Router
unfolding enforce_budget is_completion_request sampling_params chat_endpoint
completions_route g up headers r buckets router s =
    answer (handle_chat g.env up (completion_order r)) (is_completion_request r) router
      (enforce_budget g headers buckets s)

-- The generator of a stream, run to its end. A response whose generator is never started, for a
-- client that is gone before the first iteration, is not modelled.
abbrev pub run_stream :
    Env
    → Source
    → Surface
    → String
    → Chain
    → Reservations × List String
    → Router
    → Store
    → Result Closing × Store × Router
run_stream env src surface api_key chain (reservations, skip) router s =
    let (stream, router') = chat_stream src skip chain router in
    let (r, s') = event_stream env surface api_key reservations stream s in (r, s', router')

-- `POST /v1/chat/stream`, and `POST /v1/chat/completions` with `stream`, behind the dependencies
unfoldable pub stream_endpoint :
    Env → Source → Surface → Order → String → Router → Store → Result Closing × Store × Router
unfolding route reserve_chain chat_stream event_stream
stream_endpoint env src surface o api_key router s = elim (route env o.requested o.strict) [
  | err e ↦ (err e, s, router)
  | ok (name, chain) ↦
      let (r, s') = reserve_chain env name o.messages o.params api_key s in
      elim r [
        | err e ↦ (err e, s', router)
        | ok claims ↦ run_stream env src surface api_key chain claims router s'
      ]
]

-- `POST /v1/chat/stream`
unfoldable pub chat_stream_route :
    Gate
    → Source
    → Headers
    → ChatRequest
    → Buckets
    → Router
    → Store
    → Result Closing × Store × Router
unfolding enforce_budget is_chat_request stream_endpoint
chat_stream_route g src headers r buckets router s =
    answer (stream_endpoint g.env src native (native_order r)) (is_chat_request r) router
      (enforce_budget g headers buckets s)

-- `POST /v1/chat/completions` with `stream`
unfoldable pub completions_stream_route :
    Gate
    → Source
    → Headers
    → ChatCompletionRequest
    → Buckets
    → Router
    → Store
    → Result Closing × Store × Router
unfolding enforce_budget is_completion_request sampling_params stream_endpoint
completions_stream_route g src headers r buckets router s =
    answer (stream_endpoint g.env src openai (completion_order r)) (is_completion_request r) router
      (enforce_budget g headers buckets s)
