-- ===== src/Adapters/Caps.antt =====
-- The output limit that the adapters send is within the one that was reserved for.
use llm_gateway_fallback_rou.Base.{ℕ, ◌≤◌, String, Option, none, some, arith}
use llm_gateway_fallback_rou.Providers.{SamplingParams}
use llm_gateway_fallback_rou.Reservation.{max_output}
use llm_gateway_fallback_rou.Adapters.Sampling.{openai_sampling_kwargs, anthropic_sampling_kwargs}

-- A request for at most `cap` tokens, and never one without a limit.
abbrev pub IsCapped : ℕ → Option ℕ → Type 0
IsCapped cap none = ⊥
IsCapped cap (some n) = n ≤ cap

-- Whatever the caller set, a hosted provider is always sent an output limit, and it is at most
-- the limit that the reservation was made for.
pub sent_within_reserved :
    (model : String) (params : Option SamplingParams)
    → IsCapped (max_output params) (openai_sampling_kwargs params).max_tokens
      × IsCapped (max_output params) (anthropic_sampling_kwargs model params).max_tokens
unfolding openai_sampling_kwargs anthropic_sampling_kwargs
sent_within_reserved model none = ground arith
sent_within_reserved model (some p) = ground arith
