-- ===== src/Pricing/Coverage.antt =====
-- Every model that a chain can reach has a price, or is free.
use llm_gateway_fallback_rou.Base.{ℕ, ◌≡◌, ◌≢◌, refl, String, Bool, true, none, some, arith, All}
use llm_gateway_fallback_rou.Chains.{Hop, Chain, find_chain, is_free, fallback_chains}
use llm_gateway_fallback_rou.Chains.Table.{everywhere, find_chain-every, every-All}
use llm_gateway_fallback_rou.Pricing.{find_price, price_of, worst_case_cost}

is_priced : Hop → Bool
unfolding price_of find_price
is_priced h = elim (price_of h.provider h.model) [ some r ↦ true | none ↦ is_free h.provider ]

fallback_chains_priced : everywhere is_priced fallback_chains ≡ true
unfolding is_priced
fallback_chains_priced = refl

-- The reservation of this hop can be computed, whatever the prompt and the output limit.
abbrev pub IsCostable : Hop → Type 0
IsCostable h = (chars max_out : ℕ) → worst_case_cost h.provider h.model chars max_out ≢ none

is_priced-IsCostable : (h : Hop) → is_priced h ≡ true → IsCostable h
unfolding is_priced worst_case_cost
is_priced-IsCostable h p chars max_out = ground arith

-- No chain of the table reaches an unpriced model: the worst case is defined on each of its hops.
pub chains-IsCostable :
    (name : String) (c : Chain) → find_chain name fallback_chains ≡ some c → All IsCostable c
chains-IsCostable name c e =
    every-All is_priced is_priced-IsCostable c
      (find_chain-every is_priced name fallback_chains fallback_chains_priced e)
