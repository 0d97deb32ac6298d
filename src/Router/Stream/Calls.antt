-- ===== src/Router/Stream/Calls.antt =====
-- How often a stream calls each provider.
use llm_gateway_fallback_rou.Base.{
  ℕ, zero, suc, ◌+◌, ◌≤◌, String, ◌≡◌, refl, Option, none, some, List, [], ◌∷◌, ◌++◌, str_eq,
  if◌then◌else◌, arith, ◌∙◌,
}
use llm_gateway_fallback_rou.Chains.{Hop, Chain}
use llm_gateway_fallback_rou.Router.{
  Router, RouteError, ask_breaker, accept, count_error, backoff, wait,
}
use llm_gateway_fallback_rou.Router.Calls.{
  calls_to, allowance, chain_allowance, ask_breaker-calls, note_failure-calls, accept-calls,
  backoff-calls,
}
use llm_gateway_fallback_rou.Router.Stream.{
  Source, First, first_chunk, no_chunks, first_error, first_raised, Ending, ended, broke, stopped,
  open_stream, close_stream, commit, StreamTry, streamed, gave_up, proceed, try_stream,
  after_stream, visit_stream, walk_stream, chat_stream,
}

module _ (src : Source) where
  close_stream-calls :
      (h : Hop) (ending : Ending) (s : Router) → (close_stream src h ending s).1.calls ≡ s.calls
  unfolding close_stream
  close_stream-calls h ended s = refl
  close_stream-calls h (broke text) s = note_failure-calls src.upstream h.provider s
  close_stream-calls h (stopped interrupted) s = refl

  wait-calls : (s : Router) → (wait src.upstream s).calls ≡ s.calls
  unfolding wait
  wait-calls s = refl

  proceed-calls :
      (h : Hop) (attempt n : ℕ) (r : First) (s : Router)
      → (proceed src h attempt n r s).1.calls ≡ s.calls
  unfolding commit
  proceed-calls h attempt n (first_chunk x) s =
      let s' : Router = accept src.upstream h attempt s in
      close_stream-calls h (src.following n h).1 (wait src.upstream s')
      ∙ wait-calls s'
      ∙ accept-calls src.upstream h attempt s
  proceed-calls h attempt n (first_raised interrupted) s = refl
  proceed-calls h attempt n no_chunks s = refl
  proceed-calls h attempt n (first_error text retryable) s = refl

  open_stream-calls_to :
      (p : String) (h : Hop) (attempt retry : ℕ) (s : Router)
      → calls_to p (open_stream src h attempt retry s).1.calls
        ≡ (if str_eq h.provider p then 1 else 0) + calls_to p s.calls
  unfolding open_stream wait
  open_stream-calls_to p h attempt retry s = refl

  try_stream-calls :
      (p : String) (h : Hop) (attempt left retry : ℕ) (last : Option String) (s : Router)
      → calls_to p (try_stream src h attempt left retry last s).1.calls
        ≤ calls_to p s.calls + (if str_eq h.provider p then left else 0)
  unfolding try_stream
  try_stream-calls p h attempt zero retry last s = omega arith
  try_stream-calls p h attempt (suc left) retry last s =
      let (r, s') = open_stream src h attempt retry s in
      grind (
        arith,
        open_stream-calls_to p h attempt retry s,
        proceed-calls h attempt s.awaits r s',
        backoff-calls src.upstream left (count_error h s'),
        λ (text : String).
            try_stream-calls p h attempt left (retry + 1) (some text)
              (backoff src.upstream left (count_error h s')),
      )

module _ (src : Source) (skip : List String) (p : String) where
  after_stream-calls :
      (h : Hop) (r : StreamTry) (s : Router) → (after_stream src h r s).1.calls ≡ s.calls
  unfolding after_stream
  after_stream-calls h (streamed stream) s = refl
  after_stream-calls h (gave_up last) s = note_failure-calls src.upstream h.provider s

  visit_stream-calls :
      (attempt : ℕ) (h : Hop) (s : Router)
      → calls_to p (visit_stream src skip attempt h s).1.calls
        ≤ calls_to p s.calls + allowance src.upstream.retry_attempts skip p h
  unfolding visit_stream
  visit_stream-calls attempt h s =
      let s₁ = (ask_breaker src.upstream h.provider s).1 in
      let (r, s₂) = try_stream src h attempt (src.upstream.retry_attempts + 1) 0 none s₁ in
      ground (
        arith,
        ask_breaker-calls src.upstream h.provider s,
        try_stream-calls src p h attempt (src.upstream.retry_attempts + 1) 0 none s₁,
        after_stream-calls h r s₂,
      )

  walk_stream-calls :
      (attempt : ℕ) (hs : Chain) (errors : List RouteError) (s : Router)
      → calls_to p (walk_stream src skip attempt hs errors s).1.calls
        ≤ calls_to p s.calls + chain_allowance src.upstream.retry_attempts skip p hs
  unfolding walk_stream
  walk_stream-calls attempt [] errors s = omega arith
  walk_stream-calls attempt (h ∷ hs) errors s =
      let (r, s') = visit_stream src skip attempt h s in
      grind (
        arith,
        visit_stream-calls attempt h s,
        λ (e : RouteError). walk_stream-calls (attempt + 1) hs (errors ++ (e ∷ [])) s',
      )

  -- Whatever the providers stream, the clock and the other tasks do: a streamed request asks a
  -- provider for a stream at most once and its retries for each hop of the chain that names it,
  -- and a skipped provider never.
  pub chat_stream-calls :
      (chain : Chain) (s : Router)
      → calls_to p (chat_stream src skip chain s).1.calls
        ≤ calls_to p s.calls + chain_allowance src.upstream.retry_attempts skip p chain
  unfolding chat_stream
  chat_stream-calls chain s = walk_stream-calls 0 chain [] s
