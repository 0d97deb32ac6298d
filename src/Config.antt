-- ===== src/Config.antt =====
-- app/core/config.py: the settings that other components read, the keys that are treated as
-- unset, the lists that are written with commas, and the warnings at startup. Reading the
-- environment and checking the ranges of numbers is pydantic's.
use Prim.Native.Char.{code}
use text.Mathlib.Text.{starts_with}
use llm_gateway_fallback_rou.Base.{
  ℕ, ◌+◌, String, Bool, true, false, not, ◌||◌, ◌&&◌, Option, none, some, List, [], ◌∷◌, ◌++◌, ◌==◌,
  ltb, leb, str_eq, if◌then◌else◌,
}
use llm_gateway_fallback_rou.Providers.{len}
use llm_gateway_fallback_rou.Texts.{is_blank, strip, split_on}
pub mod Keys
pub mod Ranges

-- fields of `Settings`
pub record Settings : Type 0 where
  pub openai_api_key : Option String
  pub anthropic_api_key : Option String
  pub admin_api_key : Option String
  pub gateway_secret_key : String
  pub gateway_api_keys : String
  pub cors_allowed_origins : String
  pub metrics_token : Option String
  pub circuit_breaker_failure_threshold : ℕ
  pub circuit_breaker_cooldown_seconds : ℕ

-- the truth value of an optional text
abbrev pub is_given : Option String → Bool
is_given none = false
is_given (some s) = not (is_blank s)

abbrev is_x : ℕ → Bool
is_x c = c == 120 || c == 88

-- `_PLACEHOLDER_RUN.search`: eight letters x in a row, after `seen` of them
unfoldable pub has_placeholder_run : ℕ → String → Bool
has_placeholder_run seen String.[] = false
has_placeholder_run seen (String.◌∷◌ c s) =
    let longer = has_placeholder_run (seen + 1) s in
    let afresh = has_placeholder_run 0 s in
    if is_x (code c) then leb 8 (seen + 1) || longer else afresh

-- `_MIN_PLAUSIBLE_KEY_LENGTH`
abbrev pub min_plausible_key_length : ℕ
min_plausible_key_length = 40

-- `_blank_out_placeholder_keys`
unfoldable pub blank_out_placeholder_keys : Option String → Option String
unfolding has_placeholder_run
blank_out_placeholder_keys none = none
blank_out_placeholder_keys (some value) =
    if is_blank (strip value)
    then none
    else if has_placeholder_run 0 value
    then none
    else if ltb (len value) min_plausible_key_length
    then none
    else some value

-- `_validate_database_url_scheme`; `none` is the ValueError
unfoldable pub validate_database_url_scheme : String → Option String
validate_database_url_scheme value =
    if starts_with value "sqlite+aiosqlite" || starts_with value "postgresql+asyncpg"
    then some value
    else none

-- `[k.strip() for k in … if k.strip()]`
unfoldable pub keep_stripped : List String → List String
keep_stripped [] = []
keep_stripped (k ∷ ks) =
    let rest = keep_stripped ks in if is_blank (strip k) then rest else strip k ∷ rest

abbrev pub comma : ℕ
comma = b','

unfoldable pub split_list : String → List String
unfolding keep_stripped
split_list s = keep_stripped (split_on comma s)

-- `allowed_api_keys` and `allowed_cors_origins`
unfoldable pub allowed_api_keys : Settings → List String
unfolding split_list
allowed_api_keys s = split_list s.gateway_api_keys

unfoldable pub allowed_cors_origins : Settings → List String
unfolding split_list
allowed_cors_origins s = split_list s.cors_allowed_origins

-- the warnings of `model_post_init`
pub data Warning : Type 0 where
  insecure_secret no_client_keys no_admin_key no_hosted_provider : Warning

abbrev warn : Bool → Warning → List Warning
warn true w = w ∷ []
warn false w = []

abbrev pub no_keys : List String → Bool
no_keys [] = true
no_keys (k ∷ ks) = false

-- `model_post_init`
unfoldable pub model_post_init : Settings → List Warning
unfolding allowed_api_keys
model_post_init s =
    warn (str_eq s.gateway_secret_key "dev-only-insecure-key") insecure_secret
    ++ (warn (no_keys (allowed_api_keys s)) no_client_keys
        ++ (warn (not (is_given s.admin_api_key)) no_admin_key
            ++ warn (not (is_given s.openai_api_key) && not (is_given s.anthropic_api_key))
                no_hosted_provider))
