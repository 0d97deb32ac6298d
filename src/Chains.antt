-- ===== src/Chains.antt =====
-- app/routing/model_map.py: the named fallback chains, and how a requested model resolves.
use Prim.Native.Nat.{Ordering}
use Prim.Native.String.{compare}
use llm_gateway_fallback_rou.Base.{
  String, Bool, true, false, Option, none, some, List, [], ◌∷◌, map, str_eq, add_member,
  if◌then◌else◌,
}
pub mod Resolve
pub mod Table

-- one hop of a chain: the provider and its real model
pub record Hop : Type 0 where
  pub provider : String
  pub model : String

abbrev pub hop : String → String → Hop
hop p m = record { provider = p; model = m }

abbrev pub Chain : Type 0
Chain = List Hop

-- `FREE_PROVIDERS` of app/budget/provider_budget.py, as a test
abbrev pub is_free : String → Bool
is_free p = str_eq p "ollama"

abbrev fast_chain : Chain
fast_chain =
    hop "openai" "gpt-4o-mini" ∷ hop "anthropic" "claude-haiku-4-5" ∷ hop "ollama" "llama3" ∷ []

-- `FALLBACK_CHAINS`, in the order of the source
abbrev pub fallback_chains : List (String × Chain)
fallback_chains =
    ("default", fast_chain)
    ∷ ("fast", fast_chain)
    ∷ ("smart", hop "anthropic" "claude-opus-5" ∷ hop "openai" "gpt-4o" ∷ [])
    ∷ ("local", hop "ollama" "llama3" ∷ [])
    ∷ []

abbrev pub default_chain_name : String
default_chain_name = "default"

-- `FALLBACK_CHAINS[name]`; `none` is the KeyError
unfoldable pub find_chain : String → List (String × Chain) → Option Chain
find_chain name [] = none
find_chain name ((n, c) ∷ rest) = if str_eq name n then some c else find_chain name rest

-- `is_routable`
unfoldable pub is_routable : String → Bool
is_routable name = elim (find_chain name fallback_chains) [ some c ↦ true | none ↦ false ]

-- `FALLBACK_CHAINS[DEFAULT_CHAIN_NAME]`
abbrev pub default_chain : Chain
default_chain = fast_chain

-- `resolve_chain`: an unknown name gets the default chain, under the default chain's name
unfoldable pub resolve_chain : String → String × Chain
resolve_chain name = elim (find_chain name fallback_chains) [
  | some c ↦ (name, c)
  | none ↦ (default_chain_name, default_chain)
]

-- Python's `sorted` on texts, by code points
insert_sorted : String → List String → List String
insert_sorted x [] = x ∷ []
insert_sorted x (y ∷ ys) = elim (compare x y) [
  | Ordering.gt ↦ y ∷ insert_sorted x ys
  | _ ↦ x ∷ y ∷ ys
]

unfoldable pub sorted : List String → List String
unfolding insert_sorted
sorted [] = []
sorted (x ∷ xs) = insert_sorted x (sorted xs)

-- `routable_models`
unfoldable pub routable_models : List String
unfolding sorted
routable_models = sorted (map (λ e. e.0) fallback_chains)

-- The set comprehension of `billable_providers`: the providers of a chain that charge money.
unfoldable pub chain_billable : Chain → List String → List String
chain_billable [] found = found
chain_billable (h ∷ hs) found =
    chain_billable hs (if is_free h.provider then found else add_member h.provider found)

unfoldable pub chains_billable : List (String × Chain) → List String → List String
unfolding chain_billable
chains_billable [] found = found
chains_billable ((n, c) ∷ rest) found = chains_billable rest (chain_billable c found)

-- `billable_providers`
unfoldable pub billable_providers : List String
unfolding chains_billable sorted
billable_providers = sorted (chains_billable fallback_chains [])
