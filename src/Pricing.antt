-- ===== src/Pricing.antt =====
-- app/budget/pricing.py: what a request can cost and what it did cost. Prices are exact numbers:
-- a rate counts 10⁻⁸ USD per token, and an amount of money counts thirds of 10⁻⁸ USD, so that
-- the source's `input_chars / 3` divides nothing. Rounding of floats is not modelled.
use Prim.Native.String.{◌++◌}
use llm_gateway_fallback_rou.Base.{
  ℕ, ◌+◌, ◌*◌, String, Option, none, some, List, [], ◌∷◌, str_eq, if◌then◌else◌,
}
use llm_gateway_fallback_rou.Chains.{is_free}
pub mod Bounds
pub mod Coverage

-- an input and an output rate
pub record Rates : Type 0 where
  pub input_price : ℕ
  pub output_price : ℕ

abbrev rates : ℕ → ℕ → Rates
rates i o = record { input_price = i; output_price = o }

-- `_PRICING`
abbrev pub pricing : List (String × Rates)
pricing =
    ("openai:gpt-4o-mini", rates 15 60)
    ∷ ("openai:gpt-4o", rates 250 1000)
    ∷ ("anthropic:claude-haiku-4-5", rates 100 500)
    ∷ ("anthropic:claude-opus-5", rates 500 2500)
    ∷ ("anthropic:claude-3-5-haiku-20241022", rates 80 400)
    ∷ []

-- `_PRICING.get(key)`
unfoldable pub find_price : String → List (String × Rates) → Option Rates
find_price key [] = none
find_price key ((k, r) ∷ rest) = if str_eq key k then some r else find_price key rest

unfoldable pub price_of : String → String → Option Rates
price_of provider model = find_price (provider ++ ":" ++ model) pricing

-- `_CHARS_PER_TOKEN`
abbrev pub chars_per_token : ℕ
chars_per_token = 3

-- `worst_case_cost_usd`; `none` is the UnpricedModelError
unfoldable pub worst_case_cost : String → String → ℕ → ℕ → Option ℕ
worst_case_cost provider model input_chars max_output_tokens = elim (price_of provider model) [
  | none ↦ if is_free provider then some 0 else none
  | some r ↦
      some (input_chars * r.input_price + chars_per_token * (max_output_tokens * r.output_price))
]

-- `estimate_cost_usd`; a model without a price costs nothing
unfoldable pub estimate_cost : String → String → ℕ → ℕ → ℕ
estimate_cost provider model input_tokens output_tokens = elim (price_of provider model) [
  | none ↦ 0
  | some r ↦ chars_per_token * (input_tokens * r.input_price + output_tokens * r.output_price)
]
