-- ===== src/Tests/Wiring.antt =====
-- Settings, router construction and the adapters at concrete inputs.
use llm_gateway_fallback_rou.Base.{
  ◌≡◌, ◌+◌, eq_iff, refl, false, none, some, List, [], ◌∷◌, arith, pos, All,
}
use llm_gateway_fallback_rou.Chains.{resolve_chain}
use llm_gateway_fallback_rou.Providers.{ChatMessage, ChatResponse}
use llm_gateway_fallback_rou.Config.{Settings, split_list}
use llm_gateway_fallback_rou.Config.Keys.{IsKey}
use llm_gateway_fallback_rou.Texts.{split_on, strip_left, strip_right}
use llm_gateway_fallback_rou.Ledger.{Env, Store, answered}
use llm_gateway_fallback_rou.ProviderBudget
use llm_gateway_fallback_rou.KeyBudget
use llm_gateway_fallback_rou.Settlement.{Reservations}
use llm_gateway_fallback_rou.Breaker.{new_breaker}
use llm_gateway_fallback_rou.Router.{Upstream, Router, raised}
use llm_gateway_fallback_rou.Wiring.{Registry, Link, find_name, build_router}
use llm_gateway_fallback_rou.Wiring.Sharing.{IsRegistry, Wired, build_router-Wired}
use llm_gateway_fallback_rou.Wiring.Known.{build_router_total}
use llm_gateway_fallback_rou.Wiring.Soundness.{
  build_for, call_breaker, take_turns, AreSound, new_registry, breakers_stay_sound,
}
use llm_gateway_fallback_rou.Breaker.{allow, failure}
use llm_gateway_fallback_rou.Config.Ranges.{
  with_numbers, are_accepted, are_timeouts, are_amounts, default_numbers,
}
use llm_gateway_fallback_rou.Adapters.{Vendors, completion, message, ollama_raised}
use llm_gateway_fallback_rou.Adapters.Sampling.{or_default}

ann_and_bob-IsKey : All IsKey ("ann" ∷ "bob" ∷ [])
unfolding strip_left strip_right
ann_and_bob-IsKey =
    ((refl, (refl, (refl, (refl, tt))), refl), ((refl, (refl, (refl, (refl, tt))), refl), tt))

-- as it is written by hand, with spaces and a comma too many
spaced_list : split_list " ann , ,bob, " ≡ "ann" ∷ "bob" ∷ []
unfolding split_list split_on strip_left strip_right
spaced_list = refl

-- a gateway with a key for one vendor
abbrev pub settings : Settings
settings = record {
  openai_api_key = none;
  anthropic_api_key = some "sk-ant-0123456789";
  admin_api_key = none;
  gateway_secret_key = "dev-only-insecure-key";
  gateway_api_keys = "ann,bob";
  cors_allowed_origins = "";
  metrics_token = none;
  circuit_breaker_failure_threshold = 3;
  circuit_breaker_cooldown_seconds = 30;
}

-- one breaker, of a provider that the next chain asks for too
abbrev registry : Registry
registry = record {
  instances = [];
  breakers = ("openai", 0) ∷ [];
  objects = λ i. new_breaker 3 30;
  allocated = 1;
}

registry-IsRegistry : IsRegistry registry
unfolding find_name
registry-IsRegistry = record {
  live = λ p i e. ground (arith, e);
  own = λ p q i e f. grind (arith, e, f, eq_iff p "openai", eq_iff q "openai", eq_iff p q);
}

build_router-Wired_example :
    Wired (resolve_chain "smart").1 registry (build_router settings "smart" registry)
build_router-Wired_example = build_router-Wired settings "smart" registry registry-IsRegistry

-- the defaults are in their ranges; a threshold of zero is not
abbrev started : Settings
started = record settings {
  circuit_breaker_failure_threshold = 3;
  circuit_breaker_cooldown_seconds = 30000;
}

defaults_accepted : with_numbers default_numbers settings ≡ some started
unfolding with_numbers are_accepted are_timeouts are_amounts
defaults_accepted = refl

no_threshold :
    with_numbers (record default_numbers { circuit_breaker_failure_threshold = pos 0 }) settings
    ≡ none
unfolding with_numbers are_accepted
no_threshold = refl

breakers_stay_sound_example : AreSound (
    take_turns started
      (build_for "fast"
        ∷ call_breaker 1 (failure 7)
        ∷ call_breaker 1 (failure 8)
        ∷ call_breaker 1 (failure 9)
        ∷ build_for "smart"
        ∷ call_breaker 1 (allow 50 50)
        ∷ [])
      (new_registry (new_breaker 3 30000)))
breakers_stay_sound_example =
    breakers_stay_sound default_numbers settings started (new_breaker 3 30000)
      (build_for "fast"
        ∷ call_breaker 1 (failure 7)
        ∷ call_breaker 1 (failure 8)
        ∷ call_breaker 1 (failure 9)
        ∷ build_for "smart"
        ∷ call_breaker 1 (allow 50 50)
        ∷ [])
      defaults_accepted

build_router_total_example :
    (links : List Link) × ((build_router settings "smart" registry).0
      ≡ some ((resolve_chain "smart").0, links))
build_router_total_example = build_router_total settings "smart" registry

-- vendors that count five tokens of prompt and use up the output limit
abbrev pub vendors : Vendors
vendors = record {
  openai = λ n c model. completion (some "pong" ∷ []) (some (5, or_default c.max_tokens 0)) model;
  anthropic = λ n c model. message (some "pong" ∷ []) model 5 (or_default c.max_tokens 0);
  ollama = λ n c model. ollama_raised false;
}

abbrev prompt : List ChatMessage
prompt = record { role = "user"; content = "What is a ledger?" } ∷ []

abbrev calm : Env
calm = record {
  wire = λ n. answered;
  time = λ n. 5000000;
  database = λ n. answered;
  hash_key = λ k. k;
  provider_lifetime_budget = 1200000000;
  monthly_budget_per_key = 1500000000;
  provider_retry_attempts = 1;
  strict_model_routing = false;
}

abbrev start : Store
start = record {
  providers = λ p. pos 0;
  months = λ h m. pos 0;
  sent = 0;
  spent_gauge = λ p. pos 0;
  remaining_gauge = λ p. 0;
  leaked_key = 0;
  leaked_provider = 0;
  refused = [];
  requests = [];
  usage = [];
  audit = [];
  audit_writes = 0;
  unhandled = 0;
}

abbrev upstream : Upstream
upstream = record {
  clock = λ n. 100 + n;
  answer = λ n h. raised false;
  others = λ n b. b;
  retry_attempts = 1;
}

abbrev router : Router
router = record {
  breakers = λ p. new_breaker 3 30;
  readings = 0;
  awaits = 0;
  calls = [];
  attempts_ok = [];
  attempts_error = [];
  circuit_gauge = λ p. 0;
  fallback_triggered = 0;
}

abbrev holds : Reservations
holds = ("openai", 737790) ∷ ("anthropic", 6147400) ∷ []

abbrev reply : ChatResponse
reply = record {
  content = "pong";
  provider = "anthropic";
  model = "claude-haiku-4-5";
  input_tokens = 5;
  output_tokens = 1024;
}
