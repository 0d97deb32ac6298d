-- ===== src/Chains/Table.antt =====
-- Tests that every hop of a table of chains passes.
use llm_gateway_fallback_rou.Base.{◌≡◌, String, Bool, true, ◌&&◌, some, List, [], ◌∷◌, arith, All}
use llm_gateway_fallback_rou.Chains.{Hop, Chain, find_chain}

abbrev pub every : (Hop → Bool) → Chain → Bool
every test [] = true
every test (h ∷ hs) = test h && every test hs

abbrev pub everywhere : (Hop → Bool) → List (String × Chain) → Bool
everywhere test [] = true
everywhere test ((n, c) ∷ rest) = every test c && everywhere test rest

pub find_chain-every :
    (test : Hop → Bool) (name : String) (table : List (String × Chain)) {c : Chain}
    → everywhere test table ≡ true
    → find_chain name table ≡ some c
    → every test c ≡ true
unfolding find_chain
find_chain-every test name [] p e = cc
find_chain-every test name ((n, d) ∷ rest) {c} p e =
    ground (arith, find_chain-every test name rest {c = c})

pub every-All :
    {P : Hop → Type 0} (test : Hop → Bool)
    → ((h : Hop) → test h ≡ true → P h)
    → (c : Chain) → every test c ≡ true
    → All P c
every-All test holds [] p = tt
every-All test holds (h ∷ hs) p =
    (holds h (ground (arith, p)), every-All test holds hs (ground (arith, p)))
