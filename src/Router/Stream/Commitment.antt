-- ===== src/Router/Stream/Commitment.antt =====
-- A stream is committed to one provider.
use llm_gateway_fallback_rou.Base.{
  ℕ, zero, suc, ◌+◌, String, ◌≡◌, ◌≢◌, refl, sym, Bool, true, false, Option, none, some, List, [],
  ◌∷◌, ◌++◌, map, member, if◌then◌else◌, Bool-cases, Option-cases, inl, inr, ◌∙◌, append_assoc,
  append-nil, map-append, All,
}
use llm_gateway_fallback_rou.Chains.{Hop, Chain}
use llm_gateway_fallback_rou.Providers.{StreamChunk}
use llm_gateway_fallback_rou.Router.{
  Router, wait, accept, RouteError, ask_breaker, count_error, backoff,
}
use llm_gateway_fallback_rou.Router.Answers.{subject, Among}
use llm_gateway_fallback_rou.Router.Stream.{
  Source, First, first_chunk, no_chunks, first_error, first_raised, Ending, ended, broke, stopped,
  completed, all_failed, failed_midway, other, Stream, open_stream, stamp, close_stream, commit,
  StreamTry, streamed, gave_up, failure_of, proceed, try_stream, StreamHop, done, skipped,
  after_stream, visit_stream, walk_stream, chat_stream,
}

-- a chunk under the name and the model of a hop
abbrev pub IsFrom : Hop → StreamChunk → Type 0
IsFrom h x = (x.provider ≡ h.provider) × (x.model ≡ h.model)

stamped-IsFrom : (h : Hop) (xs : List StreamChunk) → All (IsFrom h) (map (stamp h) xs)
stamped-IsFrom h [] = tt
stamped-IsFrom h (x ∷ xs) = ((refl, refl), stamped-IsFrom h xs)

-- What the stream of one hop is, by its end: only an end that blames no provider can come without
-- a chunk.
abbrev pub OneHop : Hop → Stream → Type 0
OneHop h (chunks, completed) = All (IsFrom h) chunks × (chunks ≢ [])
OneHop h (chunks, all_failed errors) = ⊥
OneHop h (chunks, failed_midway p text) = All (IsFrom h) chunks × (chunks ≢ []) × (p ≡ h.provider)
OneHop h (chunks, other interrupted) = All (IsFrom h) chunks

-- By its end: what a stream owes to the hops that were walked, after errors about `before`.
abbrev pub StreamAccounts : List String → Chain → List String → Stream → Type 0
StreamAccounts skip chain before (chunks, all_failed errors) =
    (chunks ≡ []) × (map subject errors ≡ before ++ map (λ h. h.provider) chain)
StreamAccounts skip chain before (chunks, completed) =
    (h : Hop) × Among h chain × (member h.provider skip ≡ false) × OneHop h (chunks, completed)
StreamAccounts skip chain before (chunks, failed_midway p text) =
    (h : Hop) × Among h chain
    × (member h.provider skip ≡ false)
    × OneHop h (chunks, failed_midway p text)
StreamAccounts skip chain before (chunks, other interrupted) =
    (h : Hop) × Among h chain
    × (member h.provider skip ≡ false)
    × OneHop h (chunks, other interrupted)

abbrev TryOneHop : Hop → StreamTry → Type 0
TryOneHop h (streamed stream) = OneHop h stream
TryOneHop h (gave_up last) = Unit

TryOneHop-if :
    (h : Hop) (b : Bool) (x y : StreamTry × Router)
    → TryOneHop h x.0
    → TryOneHop h y.0
    → TryOneHop h (if b then x else y).0
TryOneHop-if h true x y a b = a
TryOneHop-if h false x y a b = b

module _ (src : Source) where
  close_stream-OneHop :
      (h : Hop) (x : StreamChunk) (chunks : List StreamChunk) (ending : Ending) (s : Router)
      → OneHop h (map (stamp h) (x ∷ chunks), (close_stream src h ending s).0)
  unfolding close_stream
  close_stream-OneHop h x chunks ended s = (((refl, refl), stamped-IsFrom h chunks), λ e. cc e)
  close_stream-OneHop h x chunks (broke text) s =
      (((refl, refl), stamped-IsFrom h chunks), (λ e. cc e), refl)
  close_stream-OneHop h x chunks (stopped interrupted) s = ((refl, refl), stamped-IsFrom h chunks)

  proceed-OneHop :
      (h : Hop) (attempt n : ℕ) (r : First) (s : Router) → OneHop h (proceed src h attempt n r s).0
  unfolding commit
  proceed-OneHop h attempt n (first_chunk x) s =
      close_stream-OneHop h x (src.following n h).0 (src.following n h).1
        (wait src.upstream (accept src.upstream h attempt s))
  proceed-OneHop h attempt n (first_raised interrupted) s = tt
  proceed-OneHop h attempt n no_chunks s = tt
  proceed-OneHop h attempt n (first_error text retryable) s = tt

  try_stream-TryOneHop :
      (h : Hop) (attempt left retry : ℕ) (last : Option String) (s : Router)
      → TryOneHop h (try_stream src h attempt left retry last s).0
  unfolding try_stream
  try_stream-TryOneHop h attempt zero retry last s = tt
  try_stream-TryOneHop h attempt (suc left) retry last s =
      let (r, s') = open_stream src h attempt retry s in
      elim (Option-cases (failure_of r)) [
        | inl none_failed ↦ rw (none_failed, try_stream) (proceed-OneHop h attempt s.awaits r s')
        | inr ((text, retryable), e) ↦
            let s'' = backoff src.upstream left (count_error h s') in
            rw (e, try_stream)
              (TryOneHop-if h retryable (try_stream src h attempt left (retry + 1) (some text) s'')
                (gave_up (some text), count_error h s')
                (try_stream-TryOneHop h attempt left (retry + 1) (some text) s'') tt)
      ]

  -- What visiting one hop yields.
  abbrev HopStreams : List String → Hop → StreamHop → Type 0
  HopStreams skip h (done stream) = (member h.provider skip ≡ false) × OneHop h stream
  HopStreams skip h (skipped e) = subject e ≡ h.provider

  after_stream-HopStreams :
      (skip : List String) (h : Hop) (r : StreamTry) (s : Router)
      → member h.provider skip ≡ false
      → TryOneHop h r
      → HopStreams skip h (after_stream src h r s).0
  unfolding after_stream
  after_stream-HopStreams skip h (streamed stream) s m a = (m, a)
  after_stream-HopStreams skip h (gave_up last) s m a = refl

  visit_stream-HopStreams :
      (skip : List String) (attempt : ℕ) (h : Hop) (s : Router)
      → HopStreams skip h (visit_stream src skip attempt h s).0
  unfolding visit_stream
  visit_stream-HopStreams skip attempt h s = elim (Bool-cases (member h.provider skip)) [
    | inl dropped ↦ rw (dropped, visit_stream) refl
    | inr kept ↦
        let (allowed, s₁) = ask_breaker src.upstream h.provider s in
        let (r, s₂) = try_stream src h attempt (src.upstream.retry_attempts + 1) 0 none s₁ in
        elim (Bool-cases allowed) [
          | inl admitted ↦
              rw (kept, visit_stream)
                (rw admitted (
                  after_stream-HopStreams skip h r s₂ kept
                    (try_stream-TryOneHop h attempt (src.upstream.retry_attempts + 1) 0 none s₁)))
          | inr refused ↦ rw (kept, visit_stream) (rw refused refl)
        ]
  ]

here :
    (skip : List String) (h : Hop) (hs : Chain) (before : List String) (stream : Stream)
    → member h.provider skip ≡ false
    → OneHop h stream
    → StreamAccounts skip (h ∷ hs) before stream
here skip h hs before (chunks, completed) m a = (h, inl refl, m, a)
here skip h hs before (chunks, all_failed errors) m a = absurd a
here skip h hs before (chunks, failed_midway p text) m a = (h, inl refl, m, a)
here skip h hs before (chunks, other interrupted) m a = (h, inl refl, m, a)

later :
    (skip : List String) (h : Hop) (hs : Chain) (errors : List RouteError) (e : RouteError)
    (stream : Stream)
    → subject e ≡ h.provider
    → StreamAccounts skip hs (map subject (errors ++ (e ∷ []))) stream
    → StreamAccounts skip (h ∷ hs) (map subject errors) stream
later skip h hs errors e (chunks, completed) same (g, among, kept, rest) =
    (g, inr among, kept, rest)
later skip h hs errors e (chunks, all_failed all) same (silent, accounts) =
    (silent, accounts ∙ simp (map-append, append_assoc, same))
later skip h hs errors e (chunks, failed_midway p text) same (g, among, kept, rest) =
    (g, inr among, kept, rest)
later skip h hs errors e (chunks, other interrupted) same (g, among, kept, rest) =
    (g, inr among, kept, rest)

module _ (src : Source) (skip : List String) where
  walk_stream-StreamAccounts :
      (attempt : ℕ) (hs : Chain) (errors : List RouteError) (s : Router)
      → StreamAccounts skip hs (map subject errors) (walk_stream src skip attempt hs errors s).0
  unfolding walk_stream
  walk_stream-StreamAccounts attempt [] errors s = (refl, sym (append-nil (map subject errors)))
  walk_stream-StreamAccounts attempt (h ∷ hs) errors s =
      let (r, s') = visit_stream src skip attempt h s in
      next r s' (visit_stream-HopStreams src skip attempt h s)
        (λ e. walk_stream-StreamAccounts (attempt + 1) hs (errors ++ (e ∷ [])) s')
    where
      next :
          (r : StreamHop) (s' : Router)
          → HopStreams src skip h r
          → ((e : RouteError)
              → StreamAccounts skip hs
                  (map subject (errors ++ (e ∷ [])))
                  (walk_stream src skip (attempt + 1) hs (errors ++ (e ∷ [])) s').0)
          → StreamAccounts skip
              (h ∷ hs)
              (map subject errors)
              (elim r as (λ _. Stream × Router) [
                | done stream ↦ (stream, s')
                | skipped e ↦ walk_stream src skip (attempt + 1) hs (errors ++ (e ∷ [])) s'
              ]).0
      next (done stream) s' (m, a) ih = here skip h hs (map subject errors) stream m a
      next (skipped e) s' a ih =
          later skip h hs errors e (walk_stream src skip (attempt + 1) hs (errors ++ (e ∷ [])) s').0
            a (ih e)

  -- Every chunk that a stream yields comes from one hop of the chain, one that is not skipped,
  -- under the hop's own name and model; a stream that ends normally, or that blames a provider
  -- for breaking off, has yielded at least one, and blames that hop. If it reports that all
  -- providers failed, it has yielded nothing, and its errors account for every hop of the
  -- chain, in order and once each.
  pub chat_stream-StreamAccounts :
      (chain : Chain) (s : Router) → StreamAccounts skip chain [] (chat_stream src skip chain s).0
  unfolding chat_stream
  chat_stream-StreamAccounts chain s = walk_stream-StreamAccounts 0 chain [] s
