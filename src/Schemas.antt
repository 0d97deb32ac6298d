-- ===== src/Schemas.antt =====
-- app/schemas.py: the bodies of the two chat endpoints, and the caps on their sizes. A body is
-- given with its fields parsed; a model validates to itself or is a 422.
use llm_gateway_fallback_rou.Base.{
  ℕ, ◌+◌, String, Bool, true, false, not, ◌&&◌, ◌||◌, Option, none, some, List, [], ◌∷◌, ◌++◌,
  member, add_member, length, ltb, leb, if◌then◌else◌,
}
use llm_gateway_fallback_rou.Chains.{sorted}
use llm_gateway_fallback_rou.Providers.{
  ChatMessage, SamplingParams, ChatResponse, default_max_output_tokens, len, total_chars,
}
pub mod Caps

abbrev pub max_content_chars : ℕ
max_content_chars = 50000

abbrev pub max_total_content_chars : ℕ
max_total_content_chars = 50000

abbrev pub max_messages : ℕ
max_messages = 50

abbrev pub max_output_tokens : ℕ
max_output_tokens = default_max_output_tokens

abbrev is_within : ℕ → ℕ → ℕ → Bool
is_within low high n = leb low n && leb n high

-- `ChatMessageIn`
unfoldable pub is_chat_message : ChatMessage → Bool
is_chat_message m =
    member m.role ("system" ∷ "user" ∷ "assistant" ∷ [])
    && is_within 1 max_content_chars (len m.content)

abbrev pub are_chat_messages : List ChatMessage → Bool
are_chat_messages [] = true
are_chat_messages (m ∷ ms) = is_chat_message m && are_chat_messages ms

-- `_cap_total_content`
unfoldable pub cap_total_content : List ChatMessage → Bool
cap_total_content ms = leb (total_chars ms) max_total_content_chars

-- the fields `model` and `messages`, with the validator after them
abbrev pub is_conversation : String → List ChatMessage → Bool
is_conversation model ms =
    is_within 1 255 (len model)
    && is_within 1 max_messages (length ms)
    && are_chat_messages ms
    && cap_total_content ms

-- `ChatRequest`
pub record ChatRequest : Type 0 where
  pub model : String
  pub messages : List ChatMessage

unfoldable pub is_chat_request : ChatRequest → Bool
unfolding is_chat_message cap_total_content
is_chat_request r = is_conversation r.model r.messages

pub data Stop : Type 0 where
  one_text : String → Stop
  texts : List String → Stop

-- `ChatCompletionRequest`, with the fields that the client set and those that are not declared;
-- fractions count thousandths
pub record ChatCompletionRequest : Type 0 where
  pub model : String
  pub messages : List ChatMessage
  pub stream : Bool
  pub temperature : Option ℕ
  pub top_p : Option ℕ
  pub max_tokens : Option ℕ
  pub stop : Option Stop
  pub model_fields_set : List String
  pub model_extra : List String

abbrev is_none_or : (ℕ → Bool) → Option ℕ → Bool
is_none_or test none = true
is_none_or test (some n) = test n

unfoldable pub is_completion_request : ChatCompletionRequest → Bool
unfolding is_chat_message cap_total_content
is_completion_request r =
    is_conversation r.model r.messages
    && is_none_or (λ n. leb n 2000) r.temperature
    && is_none_or (is_within 1 1000) r.top_p
    && is_none_or (is_within 1 max_output_tokens) r.max_tokens

abbrev pub stop_list : Option Stop → Option (List String)
stop_list none = none
stop_list (some (one_text t)) = some (t ∷ [])
stop_list (some (texts ts)) = some ts

-- `sampling_params`
unfoldable pub sampling_params : ChatCompletionRequest → SamplingParams
sampling_params r = record {
  temperature = r.temperature;
  top_p = r.top_p;
  max_tokens = r.max_tokens;
  stop = stop_list r.stop;
}

-- `FORWARDED_COMPLETION_FIELDS`
abbrev pub forwarded_completion_fields : List String
forwarded_completion_fields =
    "model" ∷ "messages" ∷ "stream" ∷ "temperature" ∷ "top_p" ∷ "max_tokens" ∷ "stop" ∷ []

abbrev pub without_forwarded : List String → List String
without_forwarded [] = []
without_forwarded (x ∷ xs) =
    let rest = without_forwarded xs in
    if member x forwarded_completion_fields then rest else add_member x rest

abbrev pub add_all : List String → List String → List String
add_all [] ys = ys
add_all (x ∷ xs) ys = add_member x (add_all xs ys)

-- `ignored_params`
unfoldable pub ignored_params : ChatCompletionRequest → List String
unfolding sorted
ignored_params r = sorted (add_all r.model_extra (without_forwarded r.model_fields_set))

-- `ChatCompletionResponse`, with its one choice and its `ChatCompletionUsage`
pub record ChatCompletionResponse : Type 0 where
  pub id : String
  pub created : ℕ
  pub model : String
  pub content : String
  pub finish_reason : String
  pub prompt_tokens : ℕ
  pub completion_tokens : ℕ
  pub total_tokens : ℕ

-- the body of an answer on the second surface
unfoldable pub completion_response : String → ℕ → ChatResponse → ChatCompletionResponse
completion_response id created x = record {
  id = id;
  created = created;
  model = x.model;
  content = x.content;
  finish_reason = "stop";
  prompt_tokens = x.input_tokens;
  completion_tokens = x.output_tokens;
  total_tokens = x.input_tokens + x.output_tokens;
}
