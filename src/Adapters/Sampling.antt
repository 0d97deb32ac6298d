-- ===== src/Adapters/Sampling.antt =====
-- app/providers: the generation controls that each adapter sends.
use text.Mathlib.Text.{starts_with}
use llm_gateway_fallback_rou.Base.{
  ℕ, String, Bool, not, ◌||◌, Option, none, some, List, if◌then◌else◌,
}
use llm_gateway_fallback_rou.Providers.{SamplingParams, default_max_output_tokens, is_empty}

-- the generation controls that a request to a vendor carries
pub record Controls : Type 0 where
  pub max_tokens : Option ℕ
  pub temperature : Option ℕ
  pub top_p : Option ℕ
  pub stop : Option (List String)

abbrev pub or_default : Option ℕ → ℕ → ℕ
or_default none d = d
or_default (some n) d = n

-- `_sampling_kwargs` of the OpenAI adapter
unfoldable pub openai_sampling_kwargs : Option SamplingParams → Controls
openai_sampling_kwargs none = record {
  max_tokens = some default_max_output_tokens;
  temperature = none;
  top_p = none;
  stop = none;
}
openai_sampling_kwargs (some p) = record {
  max_tokens = some (or_default p.max_tokens default_max_output_tokens);
  temperature = p.temperature;
  top_p = p.top_p;
  stop = p.stop;
}

-- `DEFAULT_MAX_TOKENS` of the Anthropic adapter
abbrev pub default_max_tokens : ℕ
default_max_tokens = 1024

-- `_accepts_sampling_controls`
unfoldable pub accepts_sampling_controls : String → Bool
accepts_sampling_controls model = not (
    starts_with model "claude-opus-5"
    || starts_with model "claude-opus-4-7"
    || starts_with model "claude-opus-4-8"
    || starts_with model "claude-sonnet-5"
    || starts_with model "claude-fable-5"
    || starts_with model "claude-mythos-5")

-- `_sampling_kwargs` of the Anthropic adapter
unfoldable pub anthropic_sampling_kwargs : String → Option SamplingParams → Controls
unfolding accepts_sampling_controls
anthropic_sampling_kwargs model none = record {
  max_tokens = some default_max_tokens;
  temperature = none;
  top_p = none;
  stop = none;
}
anthropic_sampling_kwargs model (some p) = record {
  max_tokens = some (or_default p.max_tokens default_max_tokens);
  temperature = if accepts_sampling_controls model then p.temperature else none;
  top_p = if accepts_sampling_controls model then p.top_p else none;
  stop = p.stop;
}

-- `_sampling_payload` of the Ollama adapter; `none` leaves `options` out
unfoldable pub ollama_sampling_payload : Option SamplingParams → Option Controls
unfolding is_empty
ollama_sampling_payload none = none
ollama_sampling_payload (some p) =
    if is_empty p
    then none
    else some (record {
      max_tokens = p.max_tokens;
      temperature = p.temperature;
      top_p = p.top_p;
      stop = p.stop;
    })
