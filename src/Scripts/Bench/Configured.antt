-- ===== src/Scripts/Bench/Configured.antt =====
-- scripts/bench_overhead.py: the Redis that the benchmark takes from the environment or from .env.
use Prim.Native.Char.{code}
use llm_gateway_fallback_rou.Base.{
  ℕ, String, Bool, ◌&&◌, ◌||◌, Option, none, some, List, [], ◌∷◌, ◌==◌, str_eq, if◌then◌else◌,
}
use llm_gateway_fallback_rou.Texts.{is_blank, strip}

-- `line.partition("=")`: what stands before the first sign, and after it
unfoldable pub before_sign : String → String
before_sign String.[] = String.[]
before_sign (String.◌∷◌ c s) =
    let rest = before_sign s in if code c == b'=' then String.[] else String.◌∷◌ c rest

unfoldable pub after_sign : String → String
after_sign String.[] = String.[]
after_sign (String.◌∷◌ c s) = let rest = after_sign s in if code c == b'=' then s else rest

abbrev is_quote : ℕ → Bool
is_quote c = c == 34 || c == 39

-- `s.strip("\"'")`
unfoldable pub unquote_left : String → String
unquote_left String.[] = String.[]
unquote_left (String.◌∷◌ c s) =
    let rest = unquote_left s in if is_quote (code c) then rest else String.◌∷◌ c s

unfoldable pub unquote_right : String → String
unquote_right String.[] = String.[]
unquote_right (String.◌∷◌ c s) =
    let rest = unquote_right s in
    if is_quote (code c) && is_blank rest then String.[] else String.◌∷◌ c rest

abbrev pub default_redis_url : String
default_redis_url = "redis://localhost:6379/0"

-- the first line of .env that sets REDIS_URL
unfoldable pub url_of_lines : List String → String
unfolding before_sign after_sign unquote_left unquote_right
url_of_lines [] = default_redis_url
url_of_lines (line ∷ lines) =
    let rest = url_of_lines lines in
    if str_eq (strip (before_sign line)) "REDIS_URL"
    then unquote_left (unquote_right (strip (after_sign line)))
    else rest

abbrev from_file : Option (List String) → String
from_file none = default_redis_url
from_file (some lines) = url_of_lines lines

-- `_configured_redis_url`, of the variable REDIS_URL and of the lines of .env, where they exist
unfoldable pub configured_redis_url : Option String → Option (List String) → String
unfolding url_of_lines
configured_redis_url none env_file = from_file env_file
configured_redis_url (some from_env) env_file =
    if is_blank from_env then from_file env_file else from_env
