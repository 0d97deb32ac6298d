-- ===== src/Adapters/Names.antt =====
-- Every adapter answers under the name that it was made for.
use llm_gateway_fallback_rou.Base.{
  ℕ, String, ◌≡◌, refl, subst, List, [], ◌∷◌, Option, Option-cases, inl, inr,
}
use llm_gateway_fallback_rou.Chains.{Hop}
use llm_gateway_fallback_rou.Providers.{ChatMessage, SamplingParams}
use llm_gateway_fallback_rou.Config.{Settings}
use llm_gateway_fallback_rou.Router.{Upstream, CallResult, responded}
use llm_gateway_fallback_rou.Wiring.{
  Provider, unconfigured, openai_provider, anthropic_provider, ollama_provider, construct,
}
use llm_gateway_fallback_rou.Serving.Costs.{Named}
use llm_gateway_fallback_rou.Adapters.Sampling.{
  openai_sampling_kwargs, anthropic_sampling_kwargs, ollama_sampling_payload,
}
use llm_gateway_fallback_rou.Adapters.{
  Vendors, OpenAiReply, completion, api_error, openai_raised, AnthropicReply, message,
  anthropic_error, anthropic_raised, OllamaReply, body, http_error, malformed, ollama_raised,
  openai_chat, anthropic_chat, ollama_chat, unconfigured_chat, provider_chat, hop_answer,
}
use llm_gateway_fallback_rou.Adapters.Claims.{IsMadeFor, construct-IsMadeFor, with_adapters}

abbrev IsUnder : String → CallResult → Type 0
IsUnder name (responded x) = x.provider ≡ name
IsUnder name _ = Unit

openai_chat-IsUnder :
    (ms : List ChatMessage) (r : OpenAiReply) → IsUnder "openai" (openai_chat ms r)
unfolding openai_chat
openai_chat-IsUnder ms (completion [] usage model) = tt
openai_chat-IsUnder ms (completion (c ∷ cs) usage model) = refl
openai_chat-IsUnder ms (api_error f) = tt
openai_chat-IsUnder ms (openai_raised interrupted) = tt

anthropic_chat-IsUnder : (r : AnthropicReply) → IsUnder "anthropic" (anthropic_chat r)
unfolding anthropic_chat
anthropic_chat-IsUnder (message blocks model input output) = refl
anthropic_chat-IsUnder (anthropic_error f) = tt
anthropic_chat-IsUnder (anthropic_raised interrupted) = tt

ollama_chat-IsUnder : (model : String) (r : OllamaReply) → IsUnder "ollama" (ollama_chat model r)
unfolding ollama_chat
ollama_chat-IsUnder model (body content named input output) = refl
ollama_chat-IsUnder model (http_error f) = tt
ollama_chat-IsUnder model (malformed text) = tt
ollama_chat-IsUnder model (ollama_raised interrupted) = tt

module _ (v : Vendors) (ms : List ChatMessage) (params : Option SamplingParams) where
  provider_chat-IsUnder :
      (n : ℕ) (name model : String) (p : Provider)
      → IsMadeFor name p
      → IsUnder name (provider_chat v ms params n model p)
  unfolding provider_chat unconfigured_chat
  provider_chat-IsUnder n name model (unconfigured x) made = tt
  provider_chat-IsUnder n name model (openai_provider key) made =
      rw made (openai_chat-IsUnder ms (v.openai n (openai_sampling_kwargs params) model))
  provider_chat-IsUnder n name model (anthropic_provider key) made =
      rw made
        (anthropic_chat-IsUnder (v.anthropic n (anthropic_sampling_kwargs model params) model))
  provider_chat-IsUnder n name model ollama_provider made =
      rw made (ollama_chat-IsUnder model (v.ollama n (ollama_sampling_payload params) model))

  hop_answer-IsUnder :
      (s : Settings) (n : ℕ) (h : Hop) → IsUnder h.provider (hop_answer s v ms params n h)
  unfolding hop_answer
  hop_answer-IsUnder s n h = elim (Option-cases (construct s h.provider)) [
    | inl none_made ↦ rw (none_made, hop_answer) tt
    | inr (p, e) ↦
        rw (e, hop_answer)
          (provider_chat-IsUnder n h.provider h.model p (construct-IsMadeFor s h.provider p e))
  ]

  -- Whatever keys are set: no adapter answers under another name than that of its hop.
  pub with_adapters-Named : (s : Settings) (up : Upstream) → Named (with_adapters s v ms params up)
  with_adapters-Named s up n h x e = subst (IsUnder h.provider) e (hop_answer-IsUnder s n h)
