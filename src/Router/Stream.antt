-- ===== src/Router/Stream.antt =====
-- app/routing/fallback.py, `FallbackRouter.chat_stream`: fallback up to the first chunk of a
-- provider, and commitment to that provider from there on.
use llm_gateway_fallback_rou.Base.{
  ℕ, zero, suc, ◌+◌, String, Bool, true, false, not, Option, none, some, List, [], ◌∷◌, ◌++◌, map,
  member, if◌then◌else◌,
}
use llm_gateway_fallback_rou.Breaker.{CircuitBreaker}
use llm_gateway_fallback_rou.Chains.{Hop, Chain}
use llm_gateway_fallback_rou.Providers.{StreamChunk}
use llm_gateway_fallback_rou.Router.{
  Upstream, Router, Call, ask_breaker, note_failure, wait, accept, count_error, backoff, RouteError,
  out_of_budget, circuit_open, exhausted,
}
pub mod Commitment
pub mod Broken
pub mod Calls

-- How the first `__anext__()` of a provider's generator ends.
pub data First : Type 0 where
  first_chunk : StreamChunk → First
  no_chunks : First
  first_error : String → Bool → First
  first_raised : Bool → First

-- How a committed stream ends: by its own end, by a `ProviderError`, or by any other exception;
-- the flag says whether that is an interruption, by a cancellation or by a client that hung up.
pub data Ending : Type 0 where
  ended : Ending
  broke : String → Ending
  stopped : Bool → Ending

-- What the providers stream, chosen by the environment beside the clock and the other tasks: the
-- first step of the n-th generator, and what follows a first chunk.
pub record Source : Type 0 where
  pub upstream : Upstream
  pub opening : ℕ → Hop → First
  pub following : ℕ → Hop → List StreamChunk × Ending

-- How `chat_stream` ends: normally, by an `AllProvidersFailedError` that lists its errors or
-- names the provider that broke off, or by another exception.
pub data StreamEnd : Type 0 where
  completed : StreamEnd
  all_failed : List RouteError → StreamEnd
  failed_midway : String → String → StreamEnd
  other : Bool → StreamEnd

-- the chunks yielded, and the end
abbrev pub Stream : Type 0
Stream = List StreamChunk × StreamEnd

-- `await generator.__anext__()`
unfoldable pub open_stream : Source → Hop → ℕ → ℕ → Router → First × Router
open_stream src h attempt retry s = (
  src.opening s.awaits h,
  wait src.upstream
      (record s { calls = record { target = h; attempt = attempt; retry = retry } ∷ s.calls }),
)

-- `chunk.provider = provider.name`, `chunk.model = model`
abbrev pub stamp : Hop → StreamChunk → StreamChunk
stamp h x = record x { provider = h.provider; model = h.model }

-- the end of a committed stream; a break counts against the breaker
unfoldable pub close_stream : Source → Hop → Ending → Router → StreamEnd × Router
close_stream src h ended s = (completed, s)
close_stream src h (broke text) s =
    (failed_midway h.provider text, note_failure src.upstream h.provider s)
close_stream src h (stopped interrupted) s = (other interrupted, s)

-- From the first chunk on: the bookkeeping of a success, the chunks, and the end. Between the
-- chunks this task leaves the breakers alone, so that one wait stands for all of them.
unfoldable pub commit : Source → Hop → ℕ → ℕ → StreamChunk → Router → Stream × Router
unfolding close_stream
commit src h attempt n x s =
    let (chunks, ending) = src.following n h in
    let s' = wait src.upstream (accept src.upstream h attempt s) in
    let (end, s'') = close_stream src h ending s' in ((map (stamp h) (x ∷ chunks), end), s'')

-- How the retries of one provider end.
pub data StreamTry : Type 0 where
  streamed : Stream → StreamTry
  gave_up : Option String → StreamTry

-- a `failure` before the first chunk, by its text and its `retryable` flag
abbrev pub failure_of : First → Option (String × Bool)
failure_of (first_chunk x) = none
failure_of no_chunks = some ("stream produced no chunks", true)
failure_of (first_error text retryable) = some (text, retryable)
failure_of (first_raised interrupted) = none

-- a first step without a `failure`; the last clause is never reached
abbrev pub proceed : Source → Hop → ℕ → ℕ → First → Router → Stream × Router
proceed src h attempt n (first_chunk x) s = commit src h attempt n x s
proceed src h attempt n (first_raised interrupted) s = (([], other interrupted), s)
proceed src h attempt n _ s = (([], other false), s)

-- the retry loop, on the rounds left
unfoldable pub try_stream : Source → Hop → ℕ → ℕ → ℕ → Option String → Router → StreamTry × Router
unfolding commit
try_stream src h attempt zero retry last s = (gave_up last, s)
try_stream src h attempt (suc left) retry last s =
    let (r, s') = open_stream src h attempt retry s in
    elim (failure_of r) [
      | none ↦ let (stream, s'') = proceed src h attempt s.awaits r s' in (streamed stream, s'')
      | some (text, retryable) ↦
          let rest =
            try_stream src h attempt left (retry + 1) (some text)
              (backoff src.upstream left (count_error h s')) in
          if retryable then rest else (gave_up (some text), count_error h s')
    ]

-- one provider of the chain: its stream, or the entry that it leaves in `errors`
pub data StreamHop : Type 0 where
  done : Stream → StreamHop
  skipped : RouteError → StreamHop

unfoldable pub after_stream : Source → Hop → StreamTry → Router → StreamHop × Router
after_stream src h (streamed stream) s = (done stream, s)
after_stream src h (gave_up last) s =
    (skipped (exhausted h.provider last), note_failure src.upstream h.provider s)

unfoldable pub visit_stream : Source → List String → ℕ → Hop → Router → StreamHop × Router
visit_stream src skip attempt h s =
    if member h.provider skip
    then (skipped (out_of_budget h.provider), s)
    else let (allowed, s₁) = ask_breaker src.upstream h.provider s in
      if not allowed
      then (skipped (circuit_open h.provider), s₁)
      else let (r, s₂) = try_stream src h attempt (src.upstream.retry_attempts + 1) 0 none s₁ in
        after_stream src h r s₂

-- the loop over `enumerate(self._chain)`
unfoldable pub walk_stream :
    Source → List String → ℕ → Chain → List RouteError → Router → Stream × Router
walk_stream src skip attempt [] errors s = (([], all_failed errors), s)
walk_stream src skip attempt (h ∷ hs) errors s =
    let (r, s') = visit_stream src skip attempt h s in
    elim r [
      | done stream ↦ (stream, s')
      | skipped e ↦ walk_stream src skip (attempt + 1) hs (errors ++ (e ∷ [])) s'
    ]

-- `FallbackRouter.chat_stream`
unfoldable pub chat_stream : Source → List String → Chain → Router → Stream × Router
unfolding walk_stream
chat_stream src skip chain s = walk_stream src skip 0 chain [] s
