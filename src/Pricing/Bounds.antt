-- ===== src/Pricing/Bounds.antt =====
-- When the worst case bounds the cost of a finished request, and when it does not.
use native.Mathlib.Nat.{mul-le-mul_right, mul-lt-mul_of_pos_right}
use llm_gateway_fallback_rou.Base.{
  ℕ, ◌+◌, ◌-◌, ◌*◌, none, ◌≤◌, ◌<◌, ◌≡◌, String, some, arith, Option-cases, inl, inr,
}
use llm_gateway_fallback_rou.Pricing.{
  Rates, price_of, chars_per_token, worst_case_cost, estimate_cost,
}

within :
    (i o t n out chars : ℕ)
    → chars_per_token * t ≤ chars
    → n ≤ out
    → chars_per_token * (t * i + n * o) ≤ chars * i + chars_per_token * (out * o)
within i o t n out chars h k = omega (arith, mul-le-mul_right i h, mul-le-mul_right o k)

dense :
    (i o t out chars : ℕ)
    → 0 < i
    → chars < chars_per_token * t
    → chars * i + chars_per_token * (out * o) < chars_per_token * (t * i + out * o)
dense i o t out chars p h = omega (arith, mul-lt-mul_of_pos_right h p)

-- Whenever the reservation is made at all, it bounds the price of an answer to a prompt of at
-- most one token for each three characters, within the output limit.
pub worst_case_bounds :
    (provider model : String) (chars max_out input output worst : ℕ)
    → worst_case_cost provider model chars max_out ≡ some worst
    → chars_per_token * input ≤ chars
    → output ≤ max_out
    → estimate_cost provider model input output ≤ worst
unfolding worst_case_cost estimate_cost
worst_case_bounds p m chars max_out input output worst w h k = elim (Option-cases (price_of p m)) [
  | inl e ↦ rw (e, estimate_cost) (omega arith)
  | inr (r, e) ↦ ground (arith, within r.input_price r.output_price input output max_out chars h k)
]

-- The reservation of a priced model is no bound for a denser prompt: with more than one token for
-- each three characters, an answer of the full length costs more than was reserved.
pub worst_case_exceeded :
    (provider model : String) (chars max_out input worst : ℕ) (r : Rates)
    → price_of provider model ≡ some r
    → 0 < r.input_price
    → worst_case_cost provider model chars max_out ≡ some worst
    → chars < chars_per_token * input
    → worst < estimate_cost provider model input max_out
unfolding worst_case_cost estimate_cost
worst_case_exceeded p m chars max_out input worst r e pos_price w h =
    ground (arith, dense r.input_price r.output_price input max_out chars pos_price h)

-- What the tokens beyond the reservation cost: those of the prompt beyond one for each three
-- characters, and those of the answer beyond the output limit.
abbrev pub beyond : String → String → ℕ → ℕ → ℕ → ℕ → ℕ
beyond provider model chars max_out input output = elim (price_of provider model) [
  | none ↦ 0
  | some r ↦
      (chars_per_token * input - chars) * r.input_price
      + chars_per_token * ((output - max_out) * r.output_price)
]

split_tokens :
    (i o t n out chars d e : ℕ)
    → chars_per_token * t ≤ chars + d
    → n ≤ out + e
    → chars_per_token * (t * i + n * o)
      ≤ chars * i + chars_per_token * (out * o) + (d * i + chars_per_token * (e * o))
split_tokens i o t n out chars d e h k = omega (arith, mul-le-mul_right i h, mul-le-mul_right o k)

-- Whenever the reservation is made at all, the price of an answer is within it and the cost of the
-- tokens beyond it.
pub worst_case_beyond :
    (provider model : String) (chars max_out input output worst : ℕ)
    → worst_case_cost provider model chars max_out ≡ some worst
    → estimate_cost provider model input output
      ≤ worst + beyond provider model chars max_out input output
unfolding worst_case_cost estimate_cost
worst_case_beyond p m chars max_out input output worst w = elim (Option-cases (price_of p m)) [
  | inl e ↦ rw (e, estimate_cost) (omega arith)
  | inr (r, e) ↦
      let split =
        split_tokens r.input_price r.output_price input output max_out chars
          (chars_per_token * input - chars) (output - max_out) (omega arith) (omega arith) in
      ground (arith, e, w, split)
]
