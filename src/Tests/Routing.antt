-- ===== src/Tests/Routing.antt =====
-- Breakers, chains and the router at concrete inputs.
use llm_gateway_fallback_rou.Base.{
  ◌+◌, ◌≤◌, ◌≡◌, refl, true, none, some, List, [], ◌∷◌, arith, str_eq, if◌then◌else◌,
}
use llm_gateway_fallback_rou.Breaker.{
  CircuitBreaker, closed, opened, new_breaker, allow_request, record_success, record_failure,
  read_state, Event, allow, success, failure, read, step, run,
}
use llm_gateway_fallback_rou.Breaker.Sound.{
  IsSound, run-IsSound, failures, state_after, run-failures,
}
use llm_gateway_fallback_rou.Breaker.Trial.{AreRefused, open_blocks, one_trial, never_wedged}
use llm_gateway_fallback_rou.Chains.{default_chain}
use llm_gateway_fallback_rou.Providers.{ChatResponse}
use llm_gateway_fallback_rou.Router.{
  Upstream, Router, responded, provider_error, chat, served, walk, visit, ask_breaker,
  publish_circuit_state, try_provider, call, wait, accept, note_success, note_failure, after_tries,
}
use llm_gateway_fallback_rou.Router.Calls.{calls_to, chain_allowance, chat-calls}
use llm_gateway_fallback_rou.Router.Answers.{Accounts, chat-Accounts}

-- three failures at times 10, 11 and 12, threshold 3 and cooldown 30
abbrev tripped : CircuitBreaker
tripped = record {
  failure_threshold = 3;
  cooldown_seconds = 30;
  failure_count = 3;
  circuit = opened;
  opened_at = some 12;
  trial_started_at = none;
}

run_trips : run (new_breaker 3 30) (failures (10 ∷ 11 ∷ 12 ∷ [])) ≡ tripped
unfolding run step new_breaker
run_trips = refl

tripped-IsSound : IsSound tripped
tripped-IsSound = ground arith

abbrev some_calls : List Event
some_calls = allow 41 41 ∷ allow 42 42 ∷ failure 50 ∷ allow 90 90 ∷ success ∷ []

run-IsSound_example : IsSound (run tripped some_calls)
run-IsSound_example = run-IsSound tripped some_calls tripped-IsSound

run-failures_example :
    (run (new_breaker 3 30) (failures (10 ∷ 11 ∷ 12 ∷ []))).circuit ≡ state_after 3 3
run-failures_example = run-failures 3 30 (10 ∷ 11 ∷ 12 ∷ []) (omega arith)

abbrev failing : CircuitBreaker
failing = record {
  failure_threshold = 3;
  cooldown_seconds = 30;
  failure_count = 2;
  circuit = closed;
  opened_at = none;
  trial_started_at = none;
}

abbrev while_open : List Event
while_open = allow 41 41 ∷ read 20 ∷ failure 15 ∷ allow 41 50 ∷ []

open_blocks_example : AreRefused (record_failure 12 failing) while_open
unfolding record_failure
open_blocks_example =
    open_blocks failing 12 while_open (λ e. cc e) refl
      (omega arith, (omega arith, (omega arith, (omega arith, tt))))

abbrev during_trial : List Event
during_trial = allow 43 43 ∷ read 90 ∷ allow 90 71 ∷ []

one_trial_example : AreRefused (allow_request 42 42 tripped).1 during_trial
unfolding allow_request
one_trial_example =
    one_trial tripped 42 42 during_trial refl refl (omega arith, (tt, (omega arith, tt)))

abbrev steady : List Event
steady = allow 20 20 ∷ read 30 ∷ allow 41 41 ∷ []

steady-AreRefused : AreRefused tripped steady
unfolding allow_request step
steady-AreRefused = (refl, (refl, tt))

never_wedged_example : (allow_request 42 42 (run tripped steady)).0 ≡ true
never_wedged_example =
    never_wedged tripped steady 42 42 tripped-IsSound (tt, (tt, (tt, tt))) steady-AreRefused
      (omega arith)

abbrev hello : ChatResponse
hello = record {
  content = "hello";
  provider = "anthropic";
  model = "claude-haiku-4-5-20251001";
  input_tokens = 40;
  output_tokens = 9;
}

-- OpenAI times out on both attempts, Anthropic answers.
abbrev flaky : Upstream
flaky = record {
  clock = λ n. 100 + n;
  answer =
      λ n h. if str_eq h.provider "openai" then provider_error "timeout" true else responded hello;
  others = λ n b. b;
  retry_attempts = 1;
}

abbrev fresh : Router
fresh = record {
  breakers = λ p. new_breaker 3 30;
  readings = 0;
  awaits = 0;
  calls = [];
  attempts_ok = [];
  attempts_error = [];
  circuit_gauge = λ p. 0;
  fallback_triggered = 0;
}

falls_back :
    (chat flaky [] default_chain fresh).0 ≡ served (record hello { model = "claude-haiku-4-5" })
unfolding chat walk visit ask_breaker publish_circuit_state try_provider call wait accept
    note_success note_failure after_tries new_breaker allow_request record_success record_failure
    read_state
falls_back = refl

chat-calls_example :
    calls_to "openai" (chat flaky [] default_chain fresh).1.calls
    ≤ calls_to "openai" fresh.calls + chain_allowance 1 [] "openai" default_chain
chat-calls_example = chat-calls flaky [] "openai" default_chain fresh

chat-Accounts_example :
    Accounts flaky
      ("anthropic" ∷ [])
      default_chain
      []
      (chat flaky ("anthropic" ∷ []) default_chain fresh).0
chat-Accounts_example = chat-Accounts flaky ("anthropic" ∷ []) default_chain fresh
