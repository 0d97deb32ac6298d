-- ===== src/Adapters.antt =====
-- app/providers: the three adapters and the stand-in for a provider without a key, between the
-- router's call and the vendor's client. What a client answers is chosen by the environment.
use Prim.Native.String.{◌++◌ as append_text}
use llm_gateway_fallback_rou.Base.{
  ℕ, ◌+◌, ◌/◌, max, String, Bool, true, false, Option, none, some, List, [], ◌∷◌, if◌then◌else◌,
}
use llm_gateway_fallback_rou.Chains.{Hop}
use llm_gateway_fallback_rou.Providers.{
  ChatMessage, SamplingParams, ChatResponse, is_retryable_status_code, len, total_chars,
}
use llm_gateway_fallback_rou.Config.{Settings}
use llm_gateway_fallback_rou.Adapters.Sampling.{
  Controls, or_default, openai_sampling_kwargs, anthropic_sampling_kwargs, ollama_sampling_payload,
}
use llm_gateway_fallback_rou.Router.{CallResult, responded, provider_error, raised}
use llm_gateway_fallback_rou.Wiring.{
  Provider, unconfigured, openai_provider, anthropic_provider, ollama_provider, construct,
}
pub mod Sampling
pub mod Messages
pub mod Caps
pub mod Claims
pub mod Names
pub mod Streams

-- How a call of a vendor's client fails: with the text and, for an error of the server, the
-- status.
pub record Failure : Type 0 where
  pub text : String
  pub status : Option ℕ

-- `_provider_error`
unfoldable pub adapter_error : String → Failure → CallResult
unfolding is_retryable_status_code
adapter_error prefix f =
    provider_error (append_text prefix (append_text ": " f.text))
      (elim f.status [ none ↦ true | some status ↦ is_retryable_status_code status ])

-- `AsyncOpenAI`: the contents of the choices, the usage and the model, or an `APIError`
pub data OpenAiReply : Type 0 where
  completion : List (Option String) → Option (ℕ × ℕ) → String → OpenAiReply
  api_error : Failure → OpenAiReply
  openai_raised : Bool → OpenAiReply

abbrev pub or_empty : Option String → String
or_empty none = ""
or_empty (some t) = t

-- `_CHARS_PER_TOKEN` of the OpenAI adapter, and the estimate from characters
abbrev pub estimated_tokens : ℕ → ℕ
estimated_tokens chars = max 1 (chars / 3)

abbrev pub usage_or_estimate : List ChatMessage → String → Option (ℕ × ℕ) → ℕ × ℕ
usage_or_estimate ms content none =
    (estimated_tokens (total_chars ms), estimated_tokens (len content))
usage_or_estimate ms content (some usage) = usage

-- `OpenAIProvider.chat`
unfoldable pub openai_chat : List ChatMessage → OpenAiReply → CallResult
unfolding adapter_error
openai_chat ms (completion [] usage model) =
    provider_error "openai response contained no choices" true
openai_chat ms (completion (choice ∷ choices) usage model) =
    let content = or_empty choice in
    let (input, output) = usage_or_estimate ms content usage in
    responded (record {
      content = content;
      provider = "openai";
      model = model;
      input_tokens = input;
      output_tokens = output;
    })
openai_chat ms (api_error f) = adapter_error "openai request failed" f
openai_chat ms (openai_raised interrupted) = raised interrupted

-- `AsyncAnthropic`: blocks, `none` for one that is no text, the model and the usage
pub data AnthropicReply : Type 0 where
  message : List (Option String) → String → ℕ → ℕ → AnthropicReply
  anthropic_error : Failure → AnthropicReply
  anthropic_raised : Bool → AnthropicReply

abbrev pub text_blocks : List (Option String) → String
text_blocks [] = ""
text_blocks (none ∷ bs) = text_blocks bs
text_blocks (some t ∷ bs) = append_text t (text_blocks bs)

-- `AnthropicProvider.chat`
unfoldable pub anthropic_chat : AnthropicReply → CallResult
unfolding adapter_error
anthropic_chat (message blocks model input output) = responded (record {
  content = text_blocks blocks;
  provider = "anthropic";
  model = model;
  input_tokens = input;
  output_tokens = output;
})
anthropic_chat (anthropic_error f) = adapter_error "anthropic request failed" f
anthropic_chat (anthropic_raised interrupted) = raised interrupted

-- Ollama: a body with its content, and with a model and counts that may be missing; an
-- `HTTPError`; or a body of another shape.
pub data OllamaReply : Type 0 where
  body : String → Option String → Option ℕ → Option ℕ → OllamaReply
  http_error : Failure → OllamaReply
  malformed : String → OllamaReply
  ollama_raised : Bool → OllamaReply

-- `OllamaProvider.chat`
unfoldable pub ollama_chat : String → OllamaReply → CallResult
unfolding adapter_error
ollama_chat model (body content named input output) = responded (record {
  content = content;
  provider = "ollama";
  model = elim named [ some m ↦ m | none ↦ model ];
  input_tokens = or_default input 0;
  output_tokens = or_default output 0;
})
ollama_chat model (http_error f) = adapter_error "ollama request failed" f
ollama_chat model (malformed text) =
    provider_error (append_text "ollama returned an unexpected response shape: " text) true
ollama_chat model (ollama_raised interrupted) = raised interrupted

-- `UnconfiguredProvider.chat`
unfoldable pub unconfigured_chat : String → CallResult
unconfigured_chat name =
    provider_error (append_text name " is not configured (no API key set)") false

-- the vendors, by the number of the call, what is sent and the model
pub record Vendors : Type 0 where
  pub openai : ℕ → Controls → String → OpenAiReply
  pub anthropic : ℕ → Controls → String → AnthropicReply
  pub ollama : ℕ → Option Controls → String → OllamaReply

-- `await provider.chat(…)`, by the provider's class
unfoldable pub provider_chat :
    Vendors → List ChatMessage → Option SamplingParams → ℕ → String → Provider → CallResult
unfolding openai_chat anthropic_chat ollama_chat unconfigured_chat
provider_chat v ms params n model (unconfigured name) = unconfigured_chat name
provider_chat v ms params n model (openai_provider key) =
    openai_chat ms (v.openai n (openai_sampling_kwargs params) model)
provider_chat v ms params n model (anthropic_provider key) =
    anthropic_chat (v.anthropic n (anthropic_sampling_kwargs model params) model)
provider_chat v ms params n model ollama_provider =
    ollama_chat model (v.ollama n (ollama_sampling_payload params) model)

-- the answer for a hop, by the provider that `_get_provider` makes and keeps for its name
unfoldable pub hop_answer :
    Settings → Vendors → List ChatMessage → Option SamplingParams → ℕ → Hop → CallResult
unfolding provider_chat
hop_answer s v ms params n h = elim (construct s h.provider) [
  | some p ↦ provider_chat v ms params n h.model p
  | none ↦ raised false
]
