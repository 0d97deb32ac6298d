-- ===== src/Adapters/Streams.antt =====
-- app/providers: `chat_stream` of the adapters and of the stand-in, from the events of the
-- vendor's client to the chunks of the generator. What a client sends, and how it ends, is
-- chosen by the environment.
use Prim.Native.String.{◌++◌ as append_text}
use llm_gateway_fallback_rou.Base.{
  ℕ, String, Bool, true, false, Option, none, some, List, [], ◌∷◌, if◌then◌else◌,
}
use llm_gateway_fallback_rou.Chains.{Hop}
use llm_gateway_fallback_rou.Providers.{SamplingParams, StreamChunk, is_retryable_status_code}
use llm_gateway_fallback_rou.Config.{Settings, is_given}
use llm_gateway_fallback_rou.Adapters.{Failure}
use llm_gateway_fallback_rou.Adapters.Sampling.{
  Controls, or_default, openai_sampling_kwargs, anthropic_sampling_kwargs, ollama_sampling_payload,
}
use llm_gateway_fallback_rou.Router.{Upstream}
use llm_gateway_fallback_rou.Router.Stream.{
  First, first_chunk, no_chunks, first_error, first_raised, Ending, ended, broke, stopped, Source,
}
use llm_gateway_fallback_rou.Wiring.{
  Provider, unconfigured, openai_provider, anthropic_provider, ollama_provider, construct,
}

-- How a client's stream ends: by itself, by an error of the vendor's library, by a line of
-- another shape, or by anything else, with a flag for an interruption.
pub data ClientEnd : Type 0 where
  finished : ClientEnd
  client_error : Failure → ClientEnd
  unexpected_shape : String → ClientEnd
  client_raised : Bool → ClientEnd

-- How a generator ends.
pub data GeneratorEnd : Type 0 where
  returned : GeneratorEnd
  raised_provider_error : String → Bool → GeneratorEnd
  raised_other : Bool → GeneratorEnd

-- the chunks that a generator yields, and its end
abbrev pub Generator : Type 0
Generator = List StreamChunk × GeneratorEnd

-- `StreamChunk(content=…)`, and the one with the usage
abbrev pub text_chunk : String → StreamChunk
text_chunk content = record {
  content = content;
  done = false;
  input_tokens = 0;
  output_tokens = 0;
  provider = "";
  model = "";
}

abbrev pub usage_chunk : ℕ → ℕ → StreamChunk
usage_chunk input output = record {
  content = "";
  done = true;
  input_tokens = input;
  output_tokens = output;
  provider = "";
  model = "";
}

-- `_provider_error`
abbrev pub stream_error : String → Failure → GeneratorEnd
stream_error prefix f =
    raised_provider_error (append_text prefix (append_text ": " f.text))
      (elim f.status [ none ↦ true | some status ↦ is_retryable_status_code status ])

-- an event of OpenAI: the usage, and the text of the first choice
pub record OpenAiEvent : Type 0 where
  pub usage : Option (ℕ × ℕ)
  pub delta : Option String

abbrev pub openai_chunks : List OpenAiEvent → List StreamChunk
openai_chunks [] = []
openai_chunks (event ∷ events) =
    let rest = openai_chunks events in
    elim event.usage [
      | some usage ↦ usage_chunk usage.0 usage.1 ∷ rest
      | none ↦ elim event.delta [
        | some text ↦ if is_given (some text) then text_chunk text ∷ rest else rest
        | none ↦ rest
      ]
    ]

-- `OpenAIProvider.chat_stream`; a line of another shape is no matter of its own here
unfoldable pub openai_stream : List OpenAiEvent × ClientEnd → Generator
openai_stream (events, finished) = (openai_chunks events, returned)
openai_stream (events, client_error f) =
    (openai_chunks events, stream_error "openai stream failed" f)
openai_stream (events, unexpected_shape text) = (openai_chunks events, raised_other false)
openai_stream (events, client_raised interrupted) = (openai_chunks events, raised_other interrupted)

-- `stream.text_stream`, and the usage of the final message if it comes to that
pub record AnthropicStream : Type 0 where
  pub texts : List String
  pub usage : Option (ℕ × ℕ)
  pub end : ClientEnd

abbrev pub anthropic_chunks : List String → Option (ℕ × ℕ) → List StreamChunk
anthropic_chunks [] none = []
anthropic_chunks [] (some usage) = usage_chunk usage.0 usage.1 ∷ []
anthropic_chunks (text ∷ texts) usage = text_chunk text ∷ anthropic_chunks texts usage

abbrev pub anthropic_end : ClientEnd → GeneratorEnd
anthropic_end finished = returned
anthropic_end (client_error f) = stream_error "anthropic stream failed" f
anthropic_end (unexpected_shape text) = raised_other false
anthropic_end (client_raised interrupted) = raised_other interrupted

-- `AnthropicProvider.chat_stream`
unfoldable pub anthropic_stream : AnthropicStream → Generator
anthropic_stream x = (anthropic_chunks x.texts x.usage, anthropic_end x.end)

-- a line of Ollama that is not empty: the counts of the last one, or a piece of the answer
pub data OllamaLine : Type 0 where
  done_line : Option ℕ → Option ℕ → OllamaLine
  text_line : String → OllamaLine

abbrev pub ollama_chunks : List OllamaLine → List StreamChunk
ollama_chunks [] = []
ollama_chunks (done_line input output ∷ lines) =
    usage_chunk (or_default input 0) (or_default output 0) ∷ ollama_chunks lines
ollama_chunks (text_line text ∷ lines) = text_chunk text ∷ ollama_chunks lines

-- `OllamaProvider.chat_stream`
unfoldable pub ollama_stream : List OllamaLine × ClientEnd → Generator
ollama_stream (lines, finished) = (ollama_chunks lines, returned)
ollama_stream (lines, client_error f) = (ollama_chunks lines, stream_error "ollama stream failed" f)
ollama_stream (lines, unexpected_shape text) = (
  ollama_chunks lines,
  raised_provider_error (append_text "ollama returned an unexpected stream chunk shape: " text)
      true,
)
ollama_stream (lines, client_raised interrupted) = (ollama_chunks lines, raised_other interrupted)

-- the vendors' streams, by the number of the call, what is sent and the model
pub record StreamVendors : Type 0 where
  pub openai : ℕ → Controls → String → List OpenAiEvent × ClientEnd
  pub anthropic : ℕ → Controls → String → AnthropicStream
  pub ollama : ℕ → Option Controls → String → List OllamaLine × ClientEnd

-- `provider.chat_stream(…)`, by the provider's class
unfoldable pub provider_stream :
    StreamVendors → Option SamplingParams → ℕ → String → Provider → Generator
provider_stream v params n model (unconfigured name) =
    ([], raised_provider_error (append_text name " is not configured (no API key set)") false)
provider_stream v params n model (openai_provider key) =
    openai_stream (v.openai n (openai_sampling_kwargs params) model)
provider_stream v params n model (anthropic_provider key) =
    anthropic_stream (v.anthropic n (anthropic_sampling_kwargs model params) model)
provider_stream v params n model ollama_provider =
    ollama_stream (v.ollama n (ollama_sampling_payload params) model)

unfoldable pub hop_stream : Settings → StreamVendors → Option SamplingParams → ℕ → Hop → Generator
hop_stream s v params n h = elim (construct s h.provider) [
  | some p ↦ provider_stream v params n h.model p
  | none ↦ ([], raised_other false)
]

-- the first `__anext__()` of a generator, and what follows a first chunk
abbrev pub opening_of : Generator → First
opening_of (x ∷ xs, end) = first_chunk x
opening_of ([], returned) = no_chunks
opening_of ([], raised_provider_error text retryable) = first_error text retryable
opening_of ([], raised_other interrupted) = first_raised interrupted

abbrev pub ending_of : GeneratorEnd → Ending
ending_of returned = ended
ending_of (raised_provider_error text retryable) = broke text
ending_of (raised_other interrupted) = stopped interrupted

abbrev pub following_of : Generator → List StreamChunk × Ending
following_of ([], end) = ([], ending_of end)
following_of (x ∷ xs, end) = (xs, ending_of end)

-- what the router's environment is with the adapters in it
abbrev pub streams_of_adapters :
    Settings → StreamVendors → Option SamplingParams → Upstream → Source
streams_of_adapters s v params up = record {
  upstream = up;
  opening = λ n h. opening_of (hop_stream s v params n h);
  following = λ n h. following_of (hop_stream s v params n h);
}
