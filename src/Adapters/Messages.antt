-- ===== src/Adapters/Messages.antt =====
-- app/providers/anthropic_provider.py, `_split_system`: system prompts apart from the conversation.
use Prim.Native.String.{◌++◌ as append_text}
use llm_gateway_fallback_rou.Base.{String, Bool, List, [], ◌∷◌, str_eq, if◌then◌else◌}
use llm_gateway_fallback_rou.Providers.{ChatMessage}

abbrev pub with_break : String → List String → String
with_break t [] = t
with_break t (u ∷ us) = append_text t (append_text "\n\n" (with_break u us))

abbrev pub joined : List String → String
joined [] = ""
joined (t ∷ ts) = with_break t ts

abbrev pub is_system : ChatMessage → Bool
is_system m = str_eq m.role "system"

abbrev pub system_texts : List ChatMessage → List String
system_texts [] = []
system_texts (m ∷ ms) = if is_system m then m.content ∷ system_texts ms else system_texts ms

abbrev pub conversation : List ChatMessage → List ChatMessage
conversation [] = []
conversation (m ∷ ms) = if is_system m then conversation ms else m ∷ conversation ms

-- `_split_system`
unfoldable pub split_system : List ChatMessage → String × List ChatMessage
split_system ms = (joined (system_texts ms), conversation ms)
