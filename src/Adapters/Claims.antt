-- ===== src/Adapters/Claims.antt =====
-- The adapters under a router: what they answer is covered by the reservation.
use llm_gateway_fallback_rou.Base.{
  ℕ, ◌+◌, ◌≤◌, String, ◌≡◌, true, Option, none, some, List, ◌∷◌, ◌⊎◌, arith, eq_iff,
}
use llm_gateway_fallback_rou.Chains.{is_free}
use llm_gateway_fallback_rou.Pricing.Bounds.{beyond}
use llm_gateway_fallback_rou.Providers.{ChatMessage, SamplingParams, ChatResponse, len}
use llm_gateway_fallback_rou.Config.{Settings}
use llm_gateway_fallback_rou.Settlement.{Reservations, has_claim}
use llm_gateway_fallback_rou.Reservation.Coverage.{claim_of}
use llm_gateway_fallback_rou.Router.{Upstream, Router, CallResult, responded}
use llm_gateway_fallback_rou.Wiring.{
  Provider, unconfigured, openai_provider, anthropic_provider, ollama_provider, construct,
}
use llm_gateway_fallback_rou.Serving.{cost_of}
use llm_gateway_fallback_rou.Adapters.Sampling.{Controls}
use llm_gateway_fallback_rou.Adapters.{
  Vendors, OpenAiReply, completion, AnthropicReply, message, estimated_tokens, hop_answer,
}

-- within the output limit that was sent, if there is one
abbrev pub IsCut : Option ℕ → ℕ → Type 0
IsCut none output = Unit
IsCut (some n) output = output ≤ n

abbrev pub CutOpenAi : Option ℕ → OpenAiReply → Type 0
CutOpenAi limit (completion (choice ∷ rest) (some (input, output)) model) = IsCut limit output
CutOpenAi limit _ = Unit

abbrev pub CutAnthropic : Option ℕ → AnthropicReply → Type 0
CutAnthropic limit (message blocks model input output) = IsCut limit output
CutAnthropic limit _ = Unit

-- What the hosted vendors document of `max_tokens`: a reported number of output tokens is at most
-- the limit that was sent.
pub record KeepLimits (v : Vendors) : Type 0 where
  pub openai : (n : ℕ) (c : Controls) (model : String) → CutOpenAi c.max_tokens (v.openai n c model)
  pub anthropic :
      (n : ℕ) (c : Controls) (model : String) → CutAnthropic c.max_tokens (v.anthropic n c model)

-- The output is within the limit, or not reported and estimated from the answer's length.
abbrev pub IsLimited : ℕ → ChatResponse → Type 0
IsLimited cap x = (x.output_tokens ≤ cap) ⊎ (x.output_tokens ≡ estimated_tokens (len x.content))

-- An answer under the name of its provider, whose output is limited unless it is free.
abbrev IsSafe : ℕ → String → CallResult → Type 0
IsSafe cap name (responded x) = (x.provider ≡ name) × ((is_free name ≡ true) ⊎ IsLimited cap x)
IsSafe cap name _ = Unit

-- The class of the provider that is made for a name.
abbrev pub IsMadeFor : String → Provider → Type 0
IsMadeFor name (unconfigured n) = Unit
IsMadeFor name (openai_provider key) = name ≡ "openai"
IsMadeFor name (anthropic_provider key) = name ≡ "anthropic"
IsMadeFor name ollama_provider = name ≡ "ollama"

pub construct-IsMadeFor :
    (s : Settings) (name : String) (p : Provider) → construct s name ≡ some p → IsMadeFor name p
unfolding construct
construct-IsMadeFor s name (unconfigured n) e = tt
construct-IsMadeFor s name (openai_provider key) e = ground (arith, e, eq_iff name "openai")
construct-IsMadeFor s name (anthropic_provider key) e = ground (arith, e, eq_iff name "anthropic")
construct-IsMadeFor s name ollama_provider e = ground (arith, e, eq_iff name "ollama")

-- The router's environment with the adapters in it.
abbrev pub with_adapters :
    Settings → Vendors → List ChatMessage → Option SamplingParams → Upstream → Upstream
with_adapters s v ms params up = record up { answer = hop_answer s v ms params }

-- What an answer costs: nothing, or no more than the claim of its provider and the cost of the
-- tokens beyond what was reserved for; and its output is limited.
abbrev pub IsBilled : Reservations → ℕ → ℕ → ChatResponse → Type 0
IsBilled res chars cap x =
    (is_free x.provider ≡ true)
    ⊎ ((has_claim x.provider res ≡ true)
        × (cost_of x
            ≤ claim_of x.provider res
              + beyond x.provider x.model chars cap x.input_tokens x.output_tokens)
        × IsLimited cap x)
