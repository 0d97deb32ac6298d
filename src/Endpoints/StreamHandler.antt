-- ===== src/Endpoints/StreamHandler.antt =====
-- What the handler of a streamed request costs, behind the dependencies.
use llm_gateway_fallback_rou.Base.{
  true, false, ℕ, String, ◌≡◌, ◌≢◌, refl, sym, subst, ◌⊎◌, inl, inr, Bool, pos, ◌+ℤ◌, List, [], ◌∷◌,
}
use llm_gateway_fallback_rou.Chains.{Hop, Chain, resolve_chain}
use llm_gateway_fallback_rou.Chains.Resolve.{resolve_chain_lem}
use llm_gateway_fallback_rou.Providers.{StreamChunk, total_chars}
use llm_gateway_fallback_rou.Ledger.{Env, Store, Result, ok, err}
use llm_gateway_fallback_rou.ProviderBudget.Outcomes.{charge}
use llm_gateway_fallback_rou.KeyBudget.Outcomes.{share}
use llm_gateway_fallback_rou.Settlement.{Reservations}
use llm_gateway_fallback_rou.Reservation.{reserve_chain, reserve_hops, max_output}
use llm_gateway_fallback_rou.Reservation.Conservation.{Conserved, reserve_hops-Conserved}
use llm_gateway_fallback_rou.Router.{Router}
use llm_gateway_fallback_rou.Router.Answers.{Among}
use llm_gateway_fallback_rou.Router.Stream.{Source, StreamEnd, chat_stream}
use llm_gateway_fallback_rou.Streaming.{no_progress, see_all, Surface, Closing}
use llm_gateway_fallback_rou.Streaming.Exits.{billed}
use llm_gateway_fallback_rou.Streaming.Costs.{billed_nobody, stream_costs}
use llm_gateway_fallback_rou.Streaming.Naming.{Names, PricedBy, stream_priced}
use llm_gateway_fallback_rou.Endpoints.{Order, run_stream, stream_endpoint}
use llm_gateway_fallback_rou.Endpoints.Handler.{Calm, reserve_chain_found, route_cases}

abbrev pub is_refused : {A : Type 0} → Result A → Bool
is_refused (ok x) = false
is_refused (err e) = true

-- neither the total of provider `q` nor the month of `h` has moved
abbrev pub Unmoved : Store → String → String → ℕ → Store → Type 0
Unmoved s q h m s' = (s'.providers q ≡ s.providers q) × (s'.months h m ≡ s.months h m)

-- What the router's stream over the chain, but the skipped providers, has moved: the total of the
-- provider that its chunks name and the month of `k`, each by the billed amount; and that is
-- nothing, or it is priced by the name and the model of one hop of the chain.
abbrev pub Paid :
    Env → Source → String → ℕ → Chain → Router → Store → String → String → ℕ → Store → Type 0
Paid env src k now chain router s q h m s' =
    (skip : List String) × (let (chunks, end) = (chat_stream src skip chain router).0 in
      let g = see_all chunks no_progress in
      ((billed g end ≡ 0) ⊎ ((hop : Hop) × Among hop chain × Names hop g))
      × (s'.providers q ≡ s.providers q +ℤ pos (charge g.final_provider (billed g end) q))
      × (s'.months h m ≡ s.months h m +ℤ pos (share env k now (billed g end) h m)))

-- Refused with nothing moved, or paid for.
abbrev pub Streamed :
    Env
    → Source
    → String
    → ℕ
    → Chain
    → Router
    → Store
    → String
    → String
    → ℕ
    → Result Closing × Store × Router
    → Type 0
Streamed env src k now chain router s q h m (r, s', router') =
    ((is_refused r ≡ true) × Unmoved s q h m s') ⊎ Paid env src k now chain router s q h m s'

billed_or_priced :
    (skip : List String) (chain : Chain) (chunks : List StreamChunk) (end : StreamEnd)
    → (chunks ≢ [] → PricedBy skip chain (see_all chunks no_progress))
    → let g = see_all chunks no_progress in
      (billed g end ≡ 0) ⊎ ((hop : Hop) × Among hop chain × Names hop g)
unfolding see_all
billed_or_priced skip chain [] end priced = inl (billed_nobody no_progress end refl)
billed_or_priced skip chain (x ∷ xs) end priced =
    let (hop, among, kept, names) = priced (λ e. cc e) in inr (hop, among, names)

module _ (env : Env) (now : ℕ) (calm : Calm env now) (src : Source) (k q h : String) (m : ℕ) where
  reserved-Streamed :
      (surface : Surface) (chain : Chain) (chars max_out : ℕ) (s : Store) (router : Router)
      (claims : Result (Reservations × List String))
      → (reserve_hops env k chain chars max_out s).0 ≡ claims
      → let s₁ = (reserve_hops env k chain chars max_out s).1 in
        Streamed env src k now chain router s q h m
          (elim claims as (λ _. Result Closing × Store × Router) [
            | err e ↦ (err e, s₁, router)
            | ok c ↦ run_stream env src surface k chain c router s₁
          ])
  reserved-Streamed surface chain chars max_out s router (err x) e =
      let s₁ = (reserve_hops env k chain chars max_out s).1 in
      let same : Conserved env k now s q h m (err x, s₁) =
        subst (λ c. Conserved env k now s q h m (c, s₁)) e
          (reserve_hops-Conserved env calm.quiet now calm.one k s chain chars max_out q h m) in
      inl (refl, same)
  reserved-Streamed surface chain chars max_out s router (ok (res, skip)) e =
      let (chunks, end) = (chat_stream src skip chain router).0 in
      let moved =
        stream_costs env calm.quiet now calm.one k s chain chars max_out q h m res skip surface
          (chunks, end) calm.database e in
      let priced = billed_or_priced skip chain chunks end (stream_priced src skip chain router) in
      inr (skip, (priced, moved.0, moved.1))

  claimed-Streamed :
      (surface : Surface) (chain : Chain) (chars max_out : ℕ) (s : Store) (router : Router)
      (p : Result (Reservations × List String) × Store)
      → reserve_hops env k chain chars max_out s ≡ p
      → Streamed env src k now chain router s q h m
          (elim p.0 as (λ _. Result Closing × Store × Router) [
            | err e ↦ (err e, p.1, router)
            | ok c ↦ run_stream env src surface k chain c router p.1
          ])
  claimed-Streamed surface chain chars max_out s router p e =
      subst
        (λ p.
          Streamed env src k now chain router s q h m
            (elim p.0 as (λ _. Result Closing × Store × Router) [
              | err e ↦ (err e, p.1, router)
              | ok c ↦ run_stream env src surface k chain c router p.1
            ]))
        e
        (reserved-Streamed surface chain chars max_out s router
          (reserve_hops env k chain chars max_out s).0 refl)

  pub stream_endpoint-Streamed :
      (surface : Surface) (o : Order) (router : Router) (s : Store)
      → Streamed env src k now
          (resolve_chain o.requested).1
          router
          s
          q
          h
          m
          (stream_endpoint env src surface o k router s)
  unfolding stream_endpoint
  stream_endpoint-Streamed surface o router s =
      let (name, chain) = resolve_chain o.requested in
      let there = (resolve_chain_lem o.requested).0 in
      elim (route_cases env o.requested o.strict) [
        | inl refused ↦ rw (refused, stream_endpoint) (inl (refl, (refl, refl)))
        | inr routed ↦
            rw (routed, stream_endpoint)
              (claimed-Streamed surface chain (total_chars o.messages) (max_output o.params) s
                router (reserve_chain env name o.messages o.params k s)
                (sym (reserve_chain_found env k name chain o.messages o.params s there)))
      ]
