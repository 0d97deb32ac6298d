-- ===== src/Process.antt =====
-- The process around the requests: the tables and the driver's arguments of app/db/session.py, and
-- the start and the end of app/main.py with its last handler and its CORS rule.
use text.Mathlib.Text.{starts_with}
use llm_gateway_fallback_rou.Base.{
  ℕ, ◌+◌, String, Bool, true, false, not, Option, none, some, List, [], ◌∷◌, ◌++◌, if◌then◌else◌,
}
use llm_gateway_fallback_rou.Config.{Settings, no_keys, allowed_cors_origins}
use llm_gateway_fallback_rou.Ledger.{Wire, answered, failed, cancelled}
pub mod Start
pub mod Stop

-- `build_connect_args`: the timeouts of a connection and of a command, or no arguments
unfoldable pub build_connect_args : String → ℕ → ℕ → Option (ℕ × ℕ)
build_connect_args database_url connect_timeout command_timeout =
    if not (starts_with database_url "postgresql")
    then none
    else some (connect_timeout, command_timeout)

-- `init_db`, by whether it has the tables created
unfoldable pub creates_tables : String → Bool
creates_tables database_url = if not (starts_with database_url "sqlite") then false else true

-- the two pools
pub data Pool : Type 0 where
  redis database : Pool

-- what the end of the process has done: the closings that were tried, the warnings, and whether a
-- cancellation has gone on its way
pub record Shutdown : Type 0 where
  pub tried : List Pool
  pub warned : List Pool
  pub interrupted : Bool

abbrev pub try_pool : Pool → Shutdown → Shutdown
try_pool p s = record s { tried = s.tried ++ (p ∷ []) }

abbrev pub warn_pool : Pool → Shutdown → Shutdown
warn_pool p s = record s { warned = s.warned ++ (p ∷ []) }

-- the loop of `lifespan` over the pools
unfoldable pub close_pools : (Pool → Wire) → List Pool → Shutdown → Shutdown
close_pools close [] s = s
close_pools close (p ∷ ps) s = elim (close p) [
  | answered ↦ close_pools close ps (try_pool p s)
  | failed b ↦ close_pools close ps (warn_pool p (try_pool p s))
  | cancelled b ↦ record (try_pool p s) { interrupted = true }
]

-- `lifespan`, after the requests
unfoldable pub shut_down : (Pool → Wire) → Shutdown
unfolding close_pools
shut_down close =
    close_pools close (redis ∷ database ∷ [])
      (record { tried = []; warned = []; interrupted = false })

-- `_configure_cors`: the origins of the middleware, where it is added
unfoldable pub configure_cors : Settings → Option (List String)
unfolding allowed_cors_origins
configure_cors settings =
    let origins = allowed_cors_origins settings in if no_keys origins then none else some origins

pub record LastResponse : Type 0 where
  pub status_code : ℕ
  pub error : String
  pub request_id : String
  pub x_request_id : String

-- `unhandled_exception_handler`, on the counter UNHANDLED_EXCEPTIONS and the request's state
unfoldable pub unhandled_exception_handler : Option String → ℕ → LastResponse × ℕ
unhandled_exception_handler state unhandled =
    let request_id = elim state as (λ _. String) [ none ↦ "" | some i ↦ i ] in
    (
      record {
        status_code = 500;
        error = "internal server error";
        request_id = request_id;
        x_request_id = request_id;
      },
      unhandled + 1,
    )

-- the headers that `SecurityHeadersMiddleware` sets on every response
abbrev pub security_headers : List (String × String)
security_headers =
    ("X-Content-Type-Options", "nosniff")
    ∷ ("X-Frame-Options", "DENY")
    ∷ ("Referrer-Policy", "no-referrer")
    ∷ []
