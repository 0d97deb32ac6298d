-- ===== src/Chains/Resolve.antt =====
-- Resolving a requested model, over the real table of chains.
use llm_gateway_fallback_rou.Base.{
  String, ◌≡◌, refl, true, false, some, [], ◌∷◌, arith, Option-cases, inl, inr,
}
use llm_gateway_fallback_rou.Chains.{
  find_chain, is_routable, resolve_chain, fallback_chains, billable_providers, default_chain,
  default_chain_name, routable_models,
}

billable_providers_value : billable_providers ≡ "anthropic" ∷ "openai" ∷ []
unfolding billable_providers
billable_providers_value = refl

routable_models_value : routable_models ≡ "default" ∷ "fast" ∷ "local" ∷ "smart" ∷ []
unfolding routable_models
routable_models_value = refl

default_found : find_chain default_chain_name fallback_chains ≡ some default_chain
unfolding find_chain
default_found = refl

default_routable : is_routable default_chain_name ≡ true
unfolding is_routable find_chain
default_routable = refl

-- What `resolve_chain` answers is always a chain of the table under the name that it reports; a
-- routable name is kept, and any other is replaced by the default chain and its name.
pub resolve_chain_lem :
    (name : String)
    → let (chain_name, chain) = resolve_chain name in
      (find_chain chain_name fallback_chains ≡ some chain)
      × (is_routable chain_name ≡ true)
      × (is_routable name ≡ true → chain_name ≡ name)
      × (is_routable name ≡ false → (chain_name ≡ default_chain_name) × (chain ≡ default_chain))
unfolding resolve_chain is_routable
resolve_chain_lem name = elim (Option-cases (find_chain name fallback_chains)) [
  | inl unknown ↦
      rw (unknown, resolve_chain)
        (default_found, default_routable, λ h. ground (arith, unknown), λ h. (refl, refl))
  | inr (c, known) ↦ ground arith
]
