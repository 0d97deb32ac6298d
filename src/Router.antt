-- ===== src/Router.antt =====
-- app/routing/fallback.py, `FallbackRouter.chat`: walking a chain of providers, each behind its
-- circuit breaker, with retries. What a provider answers, what the clock shows and what other
-- tasks do to the shared breakers during an await is chosen by the environment.
use llm_gateway_fallback_rou.Base.{
  ℕ, zero, suc, ◌+◌, ◌<◌, String, Bool, true, false, not, Option, none, some, List, [], ◌∷◌, ◌++◌,
  ltb, str_eq, member, if◌then◌else◌,
}
use llm_gateway_fallback_rou.Breaker.{
  CircuitState, closed, opened, half_open, CircuitBreaker, allow_request, record_success,
  record_failure, read_state,
}
use llm_gateway_fallback_rou.Chains.{Hop, Chain}
use llm_gateway_fallback_rou.Providers.{ChatResponse}
use llm_gateway_fallback_rou.Ledger.{update}
pub mod Calls
pub mod Answers
pub mod Stream

abbrev pub Breakers : Type 0
Breakers = String → CircuitBreaker

-- How `provider.chat` ends: a response, a `ProviderError` with its text and its `retryable`
-- flag, or any other exception; the flag says whether that is a cancellation.
pub data CallResult : Type 0 where
  responded : ChatResponse → CallResult
  provider_error : String → Bool → CallResult
  raised : Bool → CallResult

-- The environment of a router: the n-th reading of the breakers' clock, the n-th answer of a
-- provider, what other tasks did to the breakers during the n-th await, and the retry setting.
pub record Upstream : Type 0 where
  pub clock : ℕ → ℕ
  pub answer : ℕ → Hop → CallResult
  pub others : ℕ → Breakers → Breakers
  pub retry_attempts : ℕ

-- one call of a provider, with the attributes of its span
pub record Call : Type 0 where
  pub target : Hop
  pub attempt : ℕ
  pub retry : ℕ

pub record Router : Type 0 where
  pub breakers : Breakers
  pub readings : ℕ  -- clock readings so far; one that the source skips is not missed
  pub awaits : ℕ
  pub calls : List Call  -- newest first
  pub attempts_ok : List String  -- PROVIDER_ATTEMPTS with outcome "success"
  pub attempts_error : List String
  pub circuit_gauge : String → ℕ
  pub fallback_triggered : ℕ

-- `_CIRCUIT_STATE_VALUES`
abbrev pub state_value : CircuitState → ℕ
state_value closed = 0
state_value half_open = 1
state_value opened = 2

-- `publish_circuit_state`
unfoldable pub publish_circuit_state : Upstream → String → Router → Router
publish_circuit_state up p s =
    let (state, b) = read_state (up.clock s.readings) (s.breakers p) in
    record s {
      breakers = update s.breakers p b;
      readings = s.readings + 1;
      circuit_gauge = update s.circuit_gauge p (state_value state);
    }

-- `breaker.allow_request()`, and the publication after it
unfoldable pub ask_breaker : Upstream → String → Router → Bool × Router
ask_breaker up p s =
    let (allowed, b) =
      allow_request (up.clock s.readings) (up.clock (s.readings + 1)) (s.breakers p) in
    (
      allowed,
      publish_circuit_state up p
          (record s { breakers = update s.breakers p b; readings = s.readings + 2 }),
    )

-- `breaker.record_success()` and `breaker.record_failure()`, published
unfoldable pub note_success : Upstream → String → Router → Router
note_success up p s =
    publish_circuit_state up p
      (record s { breakers = update s.breakers p (record_success (s.breakers p)) })

unfoldable pub note_failure : Upstream → String → Router → Router
note_failure up p s = publish_circuit_state up p (record s {
  breakers = update s.breakers p (record_failure (up.clock s.readings) (s.breakers p));
  readings = s.readings + 1;
})

-- any `await`: other tasks run
unfoldable pub wait : Upstream → Router → Router
wait up s = record s { breakers = up.others s.awaits s.breakers; awaits = s.awaits + 1 }

-- `await provider.chat(…)`
unfoldable pub call : Upstream → Hop → ℕ → ℕ → Router → CallResult × Router
call up h attempt retry s = (
  up.answer s.awaits h,
  wait up (record s { calls = record { target = h; attempt = attempt; retry = retry } ∷ s.calls }),
)

-- How the retries of one provider end.
pub data TryResult : Type 0 where
  answered : ChatResponse → TryResult
  gave_up : Option String → TryResult
  crashed : Bool → TryResult

-- the bookkeeping of an answer
unfoldable pub accept : Upstream → Hop → ℕ → Router → Router
accept up h attempt s =
    let s' = note_success up h.provider s in
    record s' {
      attempts_ok = h.provider ∷ s'.attempts_ok;
      fallback_triggered =
          if ltb 0 attempt then s'.fallback_triggered + 1 else s'.fallback_triggered;
    }

abbrev pub count_error : Hop → Router → Router
count_error h s = record s { attempts_error = h.provider ∷ s.attempts_error }

-- the backoff, which the last round leaves out
abbrev pub backoff : Upstream → ℕ → Router → Router
backoff up zero s = s
backoff up (suc left) s = wait up s

-- The retry loop, on the rounds left. The model that was asked for replaces the one echoed.
unfoldable pub try_provider :
    Upstream → Hop → ℕ → ℕ → ℕ → Option String → Router → TryResult × Router
try_provider up h attempt zero retry last s = (gave_up last, s)
try_provider up h attempt (suc left) retry last s =
    let (r, s') = call up h attempt retry s in
    elim r [
      | responded x ↦ (answered (record x { model = h.model }), accept up h attempt s')
      | provider_error text retryable ↦
          let rest =
            try_provider up h attempt left (retry + 1) (some text)
              (backoff up left (count_error h s')) in
          if retryable then rest else (gave_up (some text), count_error h s')
      | raised interrupted ↦ (crashed interrupted, s')
    ]

-- an entry of `errors`
pub data RouteError : Type 0 where
  out_of_budget circuit_open : String → RouteError
  exhausted : String → Option String → RouteError

pub data RouterResult : Type 0 where
  served : ChatResponse → RouterResult
  all_failed : List RouteError → RouterResult
  other_exception : Bool → RouterResult

-- one provider of the chain: its result, or the entry that it leaves in `errors`
pub data HopResult : Type 0 where
  done : RouterResult → HopResult
  skipped : RouteError → HopResult

unfoldable pub after_tries : Upstream → Hop → TryResult → Router → HopResult × Router
after_tries up h (answered x) s = (done (served x), s)
after_tries up h (crashed interrupted) s = (done (other_exception interrupted), s)
after_tries up h (gave_up last) s =
    (skipped (exhausted h.provider last), note_failure up h.provider s)

unfoldable pub visit : Upstream → List String → ℕ → Hop → Router → HopResult × Router
visit up skip attempt h s =
    if member h.provider skip
    then (skipped (out_of_budget h.provider), s)
    else let (allowed, s₁) = ask_breaker up h.provider s in
      if not allowed
      then (skipped (circuit_open h.provider), s₁)
      else let (r, s₂) = try_provider up h attempt (up.retry_attempts + 1) 0 none s₁ in
        after_tries up h r s₂

-- the loop over `enumerate(self._chain)`
unfoldable pub walk :
    Upstream → List String → ℕ → Chain → List RouteError → Router → RouterResult × Router
walk up skip attempt [] errors s = (all_failed errors, s)
walk up skip attempt (h ∷ hs) errors s =
    let (r, s') = visit up skip attempt h s in
    elim r [
      | done result ↦ (result, s')
      | skipped e ↦ walk up skip (attempt + 1) hs (errors ++ (e ∷ [])) s'
    ]

-- `FallbackRouter.chat`
unfoldable pub chat : Upstream → List String → Chain → Router → RouterResult × Router
unfolding walk
chat up skip chain s = walk up skip 0 chain [] s
