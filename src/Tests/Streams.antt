-- ===== src/Tests/Streams.antt =====
-- Streamed requests at concrete inputs.
use llm_gateway_fallback_rou.Base.{
  arith, ◌+◌, String, ◌≡◌, ◌≢◌, refl, false, [], ◌∷◌, pos, ◌+ℤ◌, str_eq, if◌then◌else◌,
}
use llm_gateway_fallback_rou.Breaker.{
  new_breaker, allow_request, record_success, record_failure, read_state,
}
use llm_gateway_fallback_rou.Chains.{default_chain}
use llm_gateway_fallback_rou.Providers.{StreamChunk, ChatResponse}
use llm_gateway_fallback_rou.Ledger.{Env, Store, answered, failed, cancelled, ok}
use llm_gateway_fallback_rou.Ledger.Commands.{SameTotals}
use llm_gateway_fallback_rou.ProviderBudget
use llm_gateway_fallback_rou.KeyBudget
use llm_gateway_fallback_rou.Pricing.{worst_case_cost, price_of, find_price}
use llm_gateway_fallback_rou.Settlement.{Reservations}
use llm_gateway_fallback_rou.Reservation.{reserve_hops}
use llm_gateway_fallback_rou.Router.{
  Router, raised, served, ask_breaker, publish_circuit_state, wait, accept, note_success,
  note_failure,
}
use llm_gateway_fallback_rou.Router.Stream.{
  Source, first_chunk, first_error, broke, failed_midway, all_failed, chat_stream, walk_stream,
  visit_stream, try_stream, open_stream, commit, close_stream, after_stream,
}
use llm_gateway_fallback_rou.Router.Stream.Broken.{Breaks, after_streams, streams_never_open}
use llm_gateway_fallback_rou.Breaker.{closed}
use llm_gateway_fallback_rou.Chains.{hop}
use llm_gateway_fallback_rou.Router.Stream.Commitment.{StreamAccounts, chat_stream-StreamAccounts}
use llm_gateway_fallback_rou.Serving.{serve_chat}
use llm_gateway_fallback_rou.Serving.BestEffort.{served_stays_served}
use llm_gateway_fallback_rou.Streaming.{native, event_stream}
use llm_gateway_fallback_rou.Streaming.Leak.{cancelled_audit_leaks}

abbrev text : String → StreamChunk
text t = record {
  content = t;
  done = false;
  input_tokens = 0;
  output_tokens = 0;
  provider = "";
  model = "";
}

abbrev fresh : Router
fresh = record {
  breakers = λ p. new_breaker 3 30;
  readings = 0;
  awaits = 0;
  calls = [];
  attempts_ok = [];
  attempts_error = [];
  circuit_gauge = λ p. 0;
  fallback_triggered = 0;
}

-- OpenAI refuses the key, Anthropic streams two chunks and breaks off.
abbrev breaking : Source
breaking = record {
  upstream = record {
    clock = λ n. 100 + n;
    answer = λ n h. raised false;
    others = λ n b. b;
    retry_attempts = 1;
  };
  opening = λ n h.
      if str_eq h.provider "openai" then first_error "bad key" false else first_chunk (text "hel");
  following = λ n h. (text "lo" ∷ [], broke "connection reset");
}

broken_run :
    (chat_stream breaking [] default_chain fresh).0.1 ≡ failed_midway "anthropic" "connection reset"
unfolding chat_stream walk_stream visit_stream try_stream open_stream commit close_stream
    after_stream ask_breaker publish_circuit_state wait accept note_success note_failure new_breaker
    allow_request record_success record_failure read_state
broken_run = refl

some_yielded : (chat_stream breaking [] default_chain fresh).0.0 ≢ []
unfolding chat_stream walk_stream visit_stream try_stream open_stream commit close_stream
    after_stream ask_breaker publish_circuit_state wait accept note_success note_failure new_breaker
    allow_request record_success record_failure read_state
some_yielded e = cc e

chat_stream-StreamAccounts_example :
    StreamAccounts [] default_chain [] (chat_stream breaking [] default_chain fresh).0
chat_stream-StreamAccounts_example = chat_stream-StreamAccounts breaking [] default_chain fresh

abbrev calm : Env
calm = record {
  wire = λ n. answered;
  time = λ n. 5000000;
  database = λ n. answered;
  hash_key = λ k. k;
  provider_lifetime_budget = 1200000000;
  monthly_budget_per_key = 1500000000;
  provider_retry_attempts = 1;
  strict_model_routing = false;
}

abbrev start : Store
start = record {
  providers = λ p. pos 0;
  months = λ h m. pos 0;
  sent = 0;
  spent_gauge = λ p. pos 0;
  remaining_gauge = λ p. 0;
  leaked_key = 0;
  leaked_provider = 0;
  refused = [];
  requests = [];
  usage = [];
  audit = [];
  audit_writes = 0;
  unhandled = 0;
}

abbrev holds : Reservations
holds = ("openai", 746280) ∷ ("anthropic", 6204000) ∷ []

admitted_stream : (reserve_hops calm "alice" default_chain 300 2048 start).0 ≡ ok (holds, [])
unfolding reserve_hops ProviderBudget.reserve KeyBudget.reserve worst_case_cost price_of find_price
    ◌+ℤ◌
admitted_stream = refl

abbrev reply : ChatResponse
reply = record {
  content = "hello";
  provider = "anthropic";
  model = "claude-haiku-4-5";
  input_tokens = 40;
  output_tokens = 9;
}

-- Redis and the database are down.
abbrev down : Env
down = record calm { wire = λ n. failed false; database = λ n. failed false }

served_stays_served_example : (serve_chat down "alice" holds (served reply) start).0 ≡ ok reply
served_stays_served_example =
    served_stays_served down "alice" holds reply start (λ n. refl) (λ n. refl)

-- the task is cancelled in its audit write
abbrev hung_up : Env
hung_up = record calm { database = λ n. cancelled false }

cancelled_audit_leaks_example :
    SameTotals start (event_stream hung_up native "alice" holds ([], all_failed []) start).1
cancelled_audit_leaks_example = cancelled_audit_leaks hung_up "alice" holds [] [] start false refl

-- Anthropic, tried first, breaks off every time.
breaking-Breaks : Breaks breaking (hop "anthropic" "claude-opus-5")
breaking-Breaks = record {
  opens = λ n. (text "hel", refl);
  follows = λ n. (text "lo" ∷ [], "connection reset", refl);
  alone = λ n b. refl;
}

streams_never_open_example :
    ((after_streams breaking [] (hop "anthropic" "claude-opus-5" ∷ []) 5 fresh).breakers
      "anthropic").circuit
    ≡ closed
unfolding new_breaker
streams_never_open_example =
    streams_never_open breaking [] (hop "anthropic" "claude-opus-5") [] 5 fresh breaking-Breaks refl
      refl (omega arith)
