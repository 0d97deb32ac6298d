-- ===== src/Router/Calls.antt =====
-- How often a router calls each provider.
use llm_gateway_fallback_rou.Base.{
  ℕ, zero, suc, ◌+◌, ◌≤◌, String, ◌≡◌, refl, Option, none, some, List, [], ◌∷◌, ◌++◌, str_eq,
  member, if◌then◌else◌, arith,
}
use llm_gateway_fallback_rou.Chains.{Hop, Chain}
use llm_gateway_fallback_rou.Router.{
  Upstream, Router, Call, publish_circuit_state, ask_breaker, note_success, note_failure, call,
  accept, count_error, backoff, wait, try_provider, TryResult, answered, gave_up, crashed,
  after_tries, visit, walk, chat, RouteError,
}

-- The calls of one provider in a log.
abbrev pub calls_to : String → List Call → ℕ
calls_to p [] = 0
calls_to p (c ∷ cs) = (if str_eq c.target.provider p then 1 else 0) + calls_to p cs

module _ (up : Upstream) where
  pub ask_breaker-calls : (p : String) (s : Router) → (ask_breaker up p s).1.calls ≡ s.calls
  unfolding ask_breaker publish_circuit_state
  ask_breaker-calls p s = refl

  pub note_failure-calls : (p : String) (s : Router) → (note_failure up p s).calls ≡ s.calls
  unfolding note_failure publish_circuit_state
  note_failure-calls p s = refl

  pub accept-calls : (h : Hop) (attempt : ℕ) (s : Router) → (accept up h attempt s).calls ≡ s.calls
  unfolding accept note_success publish_circuit_state
  accept-calls h attempt s = refl

  pub backoff-calls : (left : ℕ) (s : Router) → (backoff up left s).calls ≡ s.calls
  unfolding wait
  backoff-calls zero s = refl
  backoff-calls (suc left) s = refl

  call-calls_to :
      (p : String) (h : Hop) (attempt retry : ℕ) (s : Router)
      → calls_to p (call up h attempt retry s).1.calls
        ≡ (if str_eq h.provider p then 1 else 0) + calls_to p s.calls
  unfolding call wait
  call-calls_to p h attempt retry s = refl

  try_provider-calls :
      (p : String) (h : Hop) (attempt left retry : ℕ) (last : Option String) (s : Router)
      → calls_to p (try_provider up h attempt left retry last s).1.calls
        ≤ calls_to p s.calls + (if str_eq h.provider p then left else 0)
  unfolding try_provider
  try_provider-calls p h attempt zero retry last s = omega arith
  try_provider-calls p h attempt (suc left) retry last s =
      let (r, s') = call up h attempt retry s in
      grind (
        arith,
        call-calls_to p h attempt retry s,
        accept-calls h attempt s',
        backoff-calls left (count_error h s'),
        λ (text : String).
            try_provider-calls p h attempt left (retry + 1) (some text)
              (backoff up left (count_error h s')),
      )

-- The calls that one hop may make of a provider.
abbrev pub allowance : ℕ → List String → String → Hop → ℕ
allowance retries skip p h =
    if member h.provider skip then 0 else if str_eq h.provider p then retries + 1 else 0

-- The calls that a whole chain may make of a provider: none if it is skipped, and the first try
-- and the retries for each hop that names it otherwise.
abbrev pub chain_allowance : ℕ → List String → String → Chain → ℕ
chain_allowance retries skip p [] = 0
chain_allowance retries skip p (h ∷ hs) =
    allowance retries skip p h + chain_allowance retries skip p hs

module _ (up : Upstream) (skip : List String) (p : String) where
  after_tries-calls :
      (h : Hop) (r : TryResult) (s : Router) → (after_tries up h r s).1.calls ≡ s.calls
  unfolding after_tries
  after_tries-calls h (answered x) s = refl
  after_tries-calls h (crashed interrupted) s = refl
  after_tries-calls h (gave_up last) s = note_failure-calls up h.provider s

  visit-calls :
      (attempt : ℕ) (h : Hop) (s : Router)
      → calls_to p (visit up skip attempt h s).1.calls
        ≤ calls_to p s.calls + allowance up.retry_attempts skip p h
  unfolding visit
  visit-calls attempt h s =
      let s₁ = (ask_breaker up h.provider s).1 in
      let (r, s₂) = try_provider up h attempt (up.retry_attempts + 1) 0 none s₁ in
      ground (
        arith,
        ask_breaker-calls up h.provider s,
        try_provider-calls up p h attempt (up.retry_attempts + 1) 0 none s₁,
        after_tries-calls h r s₂,
      )

  walk-calls :
      (attempt : ℕ) (hs : Chain) (errors : List RouteError) (s : Router)
      → calls_to p (walk up skip attempt hs errors s).1.calls
        ≤ calls_to p s.calls + chain_allowance up.retry_attempts skip p hs
  unfolding walk
  walk-calls attempt [] errors s = omega arith
  walk-calls attempt (h ∷ hs) errors s =
      let (r, s') = visit up skip attempt h s in
      grind (
        arith,
        visit-calls attempt h s,
        λ (e : RouteError). walk-calls (attempt + 1) hs (errors ++ (e ∷ [])) s',
      )

  -- Whatever the answers, the clock and the other tasks do: a request calls a provider at most
  -- once and its retries for each hop of the chain that names it, and a skipped provider never.
  pub chat-calls :
      (chain : Chain) (s : Router)
      → calls_to p (chat up skip chain s).1.calls
        ≤ calls_to p s.calls + chain_allowance up.retry_attempts skip p chain
  unfolding chat
  chat-calls chain s = walk-calls 0 chain [] s
