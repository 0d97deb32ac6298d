-- ===== src/Schemas/Caps.antt =====
-- What the caps on a request bound: the money that is reserved for it.
use native.Mathlib.Nat.{mul-le-mul}
use llm_gateway_fallback_rou.Base.{
  ℕ, ◌+◌, ◌*◌, ◌≤◌, String, ◌≡◌, refl, Bool, true, ◌&&◌, none, some, leb, inl, inr, arith, All,
  Option-cases,
}
use llm_gateway_fallback_rou.Chains.{Hop, Chain, find_chain, is_free, fallback_chains}
use llm_gateway_fallback_rou.Chains.Table.{everywhere, find_chain-every, every-All}
use llm_gateway_fallback_rou.Pricing.{find_price, price_of, worst_case_cost}
use llm_gateway_fallback_rou.Providers.{total_chars}
use llm_gateway_fallback_rou.Reservation.{max_output}
use llm_gateway_fallback_rou.Schemas.{
  ChatCompletionRequest, is_completion_request, cap_total_content, sampling_params,
  max_output_tokens, max_total_content_chars,
}

-- the highest rates that a chain can reach
abbrev top_input_price : ℕ
top_input_price = 500

abbrev top_output_price : ℕ
top_output_price = 2500

-- the worst case of the longest request at those rates
abbrev pub costliest : ℕ
costliest = max_total_content_chars * top_input_price + 3 * (max_output_tokens * top_output_price)

is_affordable : Hop → Bool
is_affordable h = elim (price_of h.provider h.model) [
  | some r ↦ leb r.input_price top_input_price && leb r.output_price top_output_price
  | none ↦ is_free h.provider
]

fallback_chains_affordable : everywhere is_affordable fallback_chains ≡ true
unfolding is_affordable price_of find_price
fallback_chains_affordable = refl

-- The hop has a worst case, within the costliest.
abbrev pub IsBoundedFor : ℕ → ℕ → Hop → Type 0
IsBoundedFor chars max_out h =
    (worst : ℕ) × (worst_case_cost h.provider h.model chars max_out ≡ some worst)
    × (worst ≤ costliest)

is_affordable-IsBoundedFor :
    (chars max_out : ℕ) (h : Hop)
    → chars ≤ max_total_content_chars
    → max_out ≤ max_output_tokens
    → is_affordable h ≡ true
    → IsBoundedFor chars max_out h
unfolding is_affordable worst_case_cost
is_affordable-IsBoundedFor chars max_out h few short e =
    elim (Option-cases (price_of h.provider h.model)) [
      | inl unpriced ↦ (0, ground (arith, unpriced, e), omega arith)
      | inr (r, p) ↦
          let rates : (r.input_price ≤ top_input_price) × (r.output_price ≤ top_output_price) =
            ground (arith, rw (p, is_affordable) at e) in
          (
            chars * r.input_price + 3 * (max_out * r.output_price),
            rw (p, worst_case_cost) refl,
            omega (arith, mul-le-mul few rates.0, mul-le-mul short rates.1),
          )
    ]

accepted_sizes :
    (r : ChatCompletionRequest)
    → is_completion_request r ≡ true
    → (total_chars r.messages ≤ max_total_content_chars)
      × (max_output (some (sampling_params r)) ≤ max_output_tokens)
unfolding is_completion_request cap_total_content sampling_params
accepted_sizes r e = ground (arith, e)

-- A request that passes the validation has a worst case on every hop of every chain, so that it can
-- be reserved for, and what is reserved for a single call of it is at most 40360000 thirds of 10⁻⁸
-- USD, about 13 cents. What the call costs in the end is not bounded by this.
pub accepted_worst_case :
    (r : ChatCompletionRequest) (name : String) (c : Chain)
    → is_completion_request r ≡ true
    → find_chain name fallback_chains ≡ some c
    → All (IsBoundedFor (total_chars r.messages) (max_output (some (sampling_params r)))) c
accepted_worst_case r name c accepted e =
    let sizes = accepted_sizes r accepted in
    every-All is_affordable
      (λ h.
        is_affordable-IsBoundedFor (total_chars r.messages) (max_output (some (sampling_params r)))
          h sizes.0 sizes.1)
      c (find_chain-every is_affordable name fallback_chains fallback_chains_affordable e)
