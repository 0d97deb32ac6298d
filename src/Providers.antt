-- ===== src/Providers.antt =====
-- app/providers/base.py: the types that every provider speaks. The adapters themselves call the
-- vendors' SDKs; what a call answers is chosen by the environment.
use Prim.Native.String.{count}
use llm_gateway_fallback_rou.Base.{
  ℕ, ◌+◌, String, Bool, true, false, ◌&&◌, not, ◌||◌, Option, none, some, List, [], ◌∷◌, ◌++◌, ◌==◌,
  leb,
}

-- `ChatMessage`
pub record ChatMessage : Type 0 where
  pub role : String
  pub content : String

-- `DEFAULT_MAX_OUTPUT_TOKENS`, and `MAX_OUTPUT_TOKENS` of app/schemas.py
abbrev pub default_max_output_tokens : ℕ
default_max_output_tokens = 2048

-- `SamplingParams`; the two fractions count thousandths
pub record SamplingParams : Type 0 where
  pub temperature : Option ℕ
  pub top_p : Option ℕ
  pub max_tokens : Option ℕ
  pub stop : Option (List String)

abbrev is_set {ℓ} : {A : Type ℓ} → Option A → Bool
is_set none = false
is_set (some a) = true

abbrev named : Bool → String → List String
named true x = x ∷ []
named false x = []

-- `SamplingParams.set_names`
unfoldable pub set_names : SamplingParams → List String
set_names p =
    named (is_set p.temperature) "temperature"
    ++ (named (is_set p.top_p) "top_p"
        ++ (named (is_set p.max_tokens) "max_tokens" ++ named (is_set p.stop) "stop"))

-- `SamplingParams.is_empty`
unfoldable pub is_empty : SamplingParams → Bool
is_empty p =
    not (is_set p.temperature)
    && not (is_set p.top_p)
    && not (is_set p.max_tokens)
    && not (is_set p.stop)

-- `ChatResponse`
pub record ChatResponse : Type 0 where
  pub content : String
  pub provider : String
  pub model : String
  pub input_tokens : ℕ
  pub output_tokens : ℕ

-- `StreamChunk`
pub record StreamChunk : Type 0 where
  pub content : String
  pub done : Bool
  pub input_tokens : ℕ
  pub output_tokens : ℕ
  pub provider : String
  pub model : String

-- `is_retryable_status_code`
unfoldable pub is_retryable_status_code : ℕ → Bool
is_retryable_status_code status = status == 429 || leb 500 status

-- `len(text)`
abbrev pub len : String → ℕ
len text = count text

-- `sum(len(m.content) for m in messages)`
unfoldable pub total_chars : List ChatMessage → ℕ
total_chars [] = 0
total_chars (m ∷ ms) = len m.content + total_chars ms
