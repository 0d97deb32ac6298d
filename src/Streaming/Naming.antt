-- ===== src/Streaming/Naming.antt =====
-- The provider and the model that a stream is priced by.
use llm_gateway_fallback_rou.Base.{String, ◌≡◌, ◌≢◌, refl, false, List, [], ◌∷◌, member, arith, All}
use llm_gateway_fallback_rou.Chains.{Hop, Chain}
use llm_gateway_fallback_rou.Providers.{StreamChunk}
use llm_gateway_fallback_rou.Router.{Router}
use llm_gateway_fallback_rou.Router.Answers.{Among}
use llm_gateway_fallback_rou.Router.Stream.{
  Source, StreamEnd, completed, all_failed, failed_midway, other, chat_stream,
}
use llm_gateway_fallback_rou.Router.Stream.Commitment.{
  IsFrom, StreamAccounts, chat_stream-StreamAccounts,
}
use llm_gateway_fallback_rou.Streaming.{Progress, no_progress, see, see_all}

-- the hop that a generator's variables name
abbrev pub Names : Hop → Progress → Type 0
Names h g = (g.final_provider ≡ h.provider) × (g.final_model ≡ h.model)

see-Names : (h : Hop) (x : StreamChunk) (g : Progress) → IsFrom h x → Names h g → Names h (see x g)
unfolding see
see-Names h x g from names = ground (arith, from, names)

first-Names : (h : Hop) (x : StreamChunk) → IsFrom h x → Names h (see x no_progress)
unfolding see
first-Names h x from = ground (arith, from)

see_all-Names :
    (h : Hop) (xs : List StreamChunk) (g : Progress)
    → All (IsFrom h) xs
    → Names h g
    → Names h (see_all xs g)
unfolding see_all
see_all-Names h [] g from names = names
see_all-Names h (x ∷ xs) g from names =
    see_all-Names h xs (see x g) from.1 (see-Names h x g from.0 names)

some-Names :
    (h : Hop) (xs : List StreamChunk)
    → All (IsFrom h) xs
    → xs ≢ []
    → Names h (see_all xs no_progress)
unfolding see_all
some-Names h [] from some_chunk = absurd (some_chunk refl)
some-Names h (x ∷ xs) from some_chunk =
    see_all-Names h xs (see x no_progress) from.1 (first-Names h x from.0)

-- A hop of the chain, not skipped, that `g` names.
abbrev pub PricedBy : List String → Chain → Progress → Type 0
PricedBy skip chain g = (h : Hop) × Among h chain × (member h.provider skip ≡ false) × Names h g

priced :
    (skip : List String) (chain : Chain) (chunks : List StreamChunk) (end : StreamEnd)
    → StreamAccounts skip chain [] (chunks, end)
    → chunks ≢ []
    → PricedBy skip chain (see_all chunks no_progress)
priced skip chain chunks completed (h, among, kept, (from, some_chunk)) yielded =
    (h, among, kept, some-Names h chunks from yielded)
priced skip chain chunks (all_failed errors) (silent, accounts) yielded = absurd (yielded silent)
priced skip chain chunks (failed_midway p text) (h, among, kept, (from, some_chunk, same)) yielded =
    (h, among, kept, some-Names h chunks from yielded)
priced skip chain chunks (other interrupted) (h, among, kept, from) yielded =
    (h, among, kept, some-Names h chunks from yielded)

-- Once the router has yielded a chunk, however its stream ends, the generator prices the request
-- by the name and the model of one hop of the chain, one that is not skipped.
pub stream_priced :
    (src : Source) (skip : List String) (chain : Chain) (router : Router)
    → (chat_stream src skip chain router).0.0 ≢ []
    → PricedBy skip chain (see_all (chat_stream src skip chain router).0.0 no_progress)
stream_priced src skip chain router yielded =
    let (chunks, end) = (chat_stream src skip chain router).0 in
    priced skip chain chunks end (chat_stream-StreamAccounts src skip chain router) yielded
