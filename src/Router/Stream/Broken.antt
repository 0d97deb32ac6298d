-- ===== src/Router/Stream/Broken.antt =====
-- A provider whose every stream breaks off after its first chunk.
use llm_gateway_fallback_rou.Base.{
  ℕ, ◌+◌, suc, zero, ◌<◌, String, ◌≡◌, refl, true, false, Option, none, List, ◌∷◌, member, arith,
  str_eq_refl,
}
use llm_gateway_fallback_rou.Breaker.{
  closed, allow_request, record_success, record_failure, read_state,
}
use llm_gateway_fallback_rou.Chains.{Hop, Chain}
use llm_gateway_fallback_rou.Providers.{StreamChunk}
use llm_gateway_fallback_rou.Router.{
  Upstream, Router, ask_breaker, publish_circuit_state, note_success, note_failure, accept, wait,
  Breakers,
}
use llm_gateway_fallback_rou.Router.Stream.{
  Source, first_chunk, broke, open_stream, close_stream, commit, try_stream, streamed, after_stream,
  visit_stream, done, walk_stream, chat_stream, Stream,
}

-- The provider of a hop is up to its first chunk and then breaks off, in every stream, and no
-- other task touches the breakers.
pub record Breaks (src : Source) (h : Hop) : Type 0 where
  pub opens : (n : ℕ) → (x : StreamChunk) × (src.opening n h ≡ first_chunk x)
  pub follows :
      (n : ℕ)
      → (chunks : List StreamChunk) × (text : String) × (src.following n h ≡ (chunks, broke text))
  pub alone : (n : ℕ) (b : Breakers) → src.upstream.others n b ≡ b

-- the router after so many streamed requests, one after the other
abbrev pub after_streams : Source → List String → Chain → ℕ → Router → Router
after_streams src skip chain zero s = s
after_streams src skip chain (suc n) s =
    after_streams src skip chain n (chat_stream src skip chain s).1

-- A closed breaker with a threshold above one, in the registry under a name.
abbrev pub IsClosed : String → Router → Type 0
IsClosed p s = ((s.breakers p).circuit ≡ closed) × (1 < (s.breakers p).failure_threshold)

ask_breaker-IsClosed :
    (up : Upstream) (p : String) (s : Router)
    → IsClosed p s
    → ((ask_breaker up p s).0 ≡ true) × IsClosed p (ask_breaker up p s).1
unfolding ask_breaker publish_circuit_state allow_request read_state
ask_breaker-IsClosed up p s i = ground (arith, i, str_eq_refl p)

-- a success leaves the count at zero, whatever it was
accepted :
    (up : Upstream) (h : Hop) (attempt : ℕ) (s : Router)
    → IsClosed h.provider s
    → IsClosed h.provider (accept up h attempt s)
      × (((accept up h attempt s).breakers h.provider).failure_count ≡ 0)
unfolding accept note_success publish_circuit_state record_success read_state
accepted up h attempt s i = ground (arith, i, str_eq_refl h.provider)

failed_once :
    (up : Upstream) (p : String) (s : Router)
    → IsClosed p s
    → (s.breakers p).failure_count ≡ 0
    → IsClosed p (note_failure up p s)
unfolding note_failure publish_circuit_state record_failure read_state
failed_once up p s i zero_count = ground (arith, i, zero_count, str_eq_refl p)

waited :
    (src : Source) (h : Hop) (s : Router)
    → Breaks src h
    → (wait src.upstream s).breakers ≡ s.breakers
unfolding wait
waited src h s breaks = breaks.alone s.awaits s.breakers

module _ (src : Source) (skip : List String) (h : Hop) (breaks : Breaks src h) where
  -- a commitment that breaks off
  commit_broken :
      (attempt n : ℕ) (x : StreamChunk) (s : Router)
      → IsClosed h.provider s
      → IsClosed h.provider (commit src h attempt n x s).1
  unfolding commit close_stream
  commit_broken attempt n x s i =
      let (chunks, text, e) = breaks.follows n in
      let s₁ = accept src.upstream h attempt s in
      let s₂ = wait src.upstream s₁ in
      let (kept, zero_count) = accepted src.upstream h attempt s i in
      let same = waited src h s₁ breaks in
      rw (e, commit) (failed_once src.upstream h.provider s₂ (rw same kept) (rw same zero_count))

  opened_step :
      (attempt left : ℕ) (last : Option String) (x : StreamChunk) (s : Router)
      → src.opening s.awaits h ≡ first_chunk x
      → let s₁ = (open_stream src h attempt 0 s).1 in
        try_stream src h attempt (left + 1) 0 last s
        ≡ (streamed (commit src h attempt s.awaits x s₁).0, (commit src h attempt s.awaits x s₁).1)
  unfolding try_stream open_stream
  opened_step attempt left last x s e = ground (arith, e)

  opened-IsClosed :
      (attempt : ℕ) (s : Router)
      → IsClosed h.provider s
      → IsClosed h.provider (open_stream src h attempt 0 s).1
  unfolding open_stream wait
  opened-IsClosed attempt s i = rw (breaks.alone s.awaits s.breakers) i

  -- one request: it commits to the provider, and the circuit stays closed
  visit_broken :
      (attempt : ℕ) (s : Router)
      → member h.provider skip ≡ false
      → IsClosed h.provider s
      → (stream : Stream) × ((visit_stream src skip attempt h s).0 ≡ done stream)
        × IsClosed h.provider (visit_stream src skip attempt h s).1
  unfolding visit_stream after_stream
  visit_broken attempt s kept i =
      let (asked, i₁) = ask_breaker-IsClosed src.upstream h.provider s i in
      let s₁ = (ask_breaker src.upstream h.provider s).1 in
      let (x, e) = breaks.opens s₁.awaits in
      let s₂ = (open_stream src h attempt 0 s₁).1 in
      let step = opened_step attempt src.upstream.retry_attempts none x s₁ e in
      let i₂ = commit_broken attempt s₁.awaits x s₂ (opened-IsClosed attempt s₁ i₁) in
      rw (kept, visit_stream)
        (rw asked (rw step ((commit src h attempt s₁.awaits x s₂).0, refl, i₂)))

  request_broken :
      (hs : Chain) (s : Router)
      → member h.provider skip ≡ false
      → IsClosed h.provider s
      → IsClosed h.provider (chat_stream src skip (h ∷ hs) s).1
  unfolding chat_stream walk_stream
  request_broken hs s kept i =
      let (stream, e, i') = visit_broken 0 s kept i in rw (e, walk_stream) i'

-- A provider whose every stream breaks off after its first chunk never has its circuit opened by
-- that: however many streamed requests try it first, one after the other and with no other task at
-- the breakers, from a closed circuit with a threshold above one, the circuit is closed after
-- them.
pub streams_never_open :
    (src : Source) (skip : List String) (h : Hop) (hs : Chain) (n : ℕ) (s : Router)
    → Breaks src h
    → member h.provider skip ≡ false
    → (s.breakers h.provider).circuit ≡ closed
    → 1 < (s.breakers h.provider).failure_threshold
    → ((after_streams src skip (h ∷ hs) n s).breakers h.provider).circuit ≡ closed
streams_never_open src skip h hs zero s breaks kept c t = c
streams_never_open src skip h hs (suc n) s breaks kept c t =
    let (c', t') = request_broken src skip h breaks hs s kept (c, t) in
    streams_never_open src skip h hs n (chat_stream src skip (h ∷ hs) s).1 breaks kept c' t'
