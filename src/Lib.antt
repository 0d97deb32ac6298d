-- ===== src/Lib.antt =====
-- The LLM gateway: requests are routed along a chain of providers with fallback, and every
-- request is paid for from two ledgers, a lifetime ceiling for each provider and a monthly share
-- for each client key.
--
-- A request is resolved to a chain (Chains), its worst case is claimed on both ledgers
-- (Reservation, over ProviderBudget, KeyBudget and Pricing), the chain is walked behind circuit
-- breakers (Router, Breaker), and the claims are swapped for the real cost (Settlement), with the
-- metrics and audit rows of Serving.
--
-- Base            shared names, lists, Boolean tests and integers
-- Texts           Python's methods on texts that the program uses
-- Config          app/core/config.py: the validators, the lists of keys and origins, the warnings;
--                 Ranges: the numbers, their ranges and defaults
-- Wiring          app/routing/dependencies.py: _get_provider, _get_breaker, build_router;
--                 Soundness: the breakers of a process
-- Adapters        app/providers: chat and chat_stream of the adapters and of
--                 UnconfiguredProvider, and the generation controls that they send
-- Breaker         app/routing/circuit_breaker.py: allow_request, record_success, record_failure,
--                 state, on readings of the clock; Sound: its invariant; Trial: the cooldown and the
--                 trial over any sequence of calls
-- Chains          app/routing/model_map.py: FALLBACK_CHAINS, resolve_chain, billable_providers
-- Pricing         app/budget/pricing.py: worst_case_cost_usd, estimate_cost_usd
-- Providers       app/providers/base.py: the types of messages, answers and chunks
-- Ledger          the state that the money path shares, and one Redis command
-- ProviderBudget  app/budget/provider_budget.py: reserve, settle, record_unreserved, reads
-- KeyBudget       app/budget/tracker.py: reserve, settle, reads
-- Settlement      app/main.py: _settle_providers, _settle_chain
-- Reservation     app/main.py: _reserve_chain
-- Account         what a ledger promises: an account with a limit, and the moves that keep it
-- Ceiling         ProviderBudget under any interleaving of any number of requests, and Keys:
--                 KeyBudget likewise; their steps are moves of an account, and make up the
--                 methods reserve (Methods, KeyMethods)
-- Router          app/routing/fallback.py: FallbackRouter.chat; Router/Stream: chat_stream
-- Serving         app/main.py: _route, _record_usage, _serve_chat, chat; app/db/audit.py
-- Streaming       app/main.py: _event_stream, _openai_event_stream, _settle_stream_spend,
--                 _settle_stream_on_abort, _try_settle_stream_on_abort
-- RateLimit       app/ratelimit/token_bucket.py: the script and TokenBucketLimiter
-- Schemas         app/schemas.py: the caps on requests, sampling_params, ignored_params
-- Gate            app/security/auth.py, app/ratelimit/dependency.py, app/budget/dependency.py: the
--                 dependencies that stand before a route
-- Admin           app/admin and app/db/models.py: the key table and the log of key events
--                 (create_key, revoke_key, the lists), require_admin_key, enforce_admin_rate_limit
-- Endpoints       app/main.py: chat, chat_stream and chat_completions from the dependencies to the
--                 response, and what they cost (Handler, Billing, Adapted, StreamHandler, Streams);
--                 Operations: readyz, metrics, list_models, request_id.py
-- Process         app/db/session.py: build_connect_args, init_db; app/main.py: lifespan,
--                 _configure_cors, unhandled_exception_handler; security_headers.py
-- Scripts         scripts/reconcile.py, scripts/purge_audit_rows.py; Bench:
--                 scripts/bench_overhead.py
-- Migrations      migrations/versions: upgrade and downgrade of both revisions, and the tables that
--                 app/db/models.py declares
-- Tests           instances of the theorems at concrete inputs
--
-- State and errors. A method of the money path is an action on a Store that returns or raises;
-- what it wrote before a raise stays written. Each await of Redis is one command, which the
-- environment (Env) ends by a reply, an exception or a cancellation, in the last two cases after
-- the command took effect or before. A client that hangs up is the interrupted end of a stream.
-- The router's state is apart; its environment (Upstream) chooses what each provider call answers,
-- each reading of the clock, and what other tasks do to the shared breakers while this one waits.
-- The admin API works on committed rows; a request's writes are one transaction that takes effect
-- or not. FastAPI is taken to resolve the dependencies of a route before it validates the body.
--
-- Money is exact: thirds of 10⁻⁸ USD, in which the source's division by three characters per token
-- has no remainder; totals are integers. Rounding of floats is not modelled. Clock times are
-- natural numbers, in readings that need not be ordered. No loop needs fuel: each is recursive on
-- a chain, on a list or on the retries left.
--
-- Not modelled: wire formats, logging, tracing, latency metrics, the vendors' SDKs
-- (their answers are parameters), pydantic's parsing, SQLAlchemy and Alembic, Redis beyond the
-- commands' effects, a streamed response whose generator is never started, and what the benchmark
-- of the overhead stubs.
pub mod Base
pub mod Texts
pub mod Config
pub mod Breaker
pub mod Chains
pub mod Pricing
pub mod Providers
pub mod Schemas
pub mod Ledger
pub mod ProviderBudget
pub mod KeyBudget
pub mod Settlement
pub mod Reservation
pub mod Ceiling
pub mod Wiring
pub mod Router
pub mod Account
pub mod Migrations
pub mod Process
pub mod Adapters
pub mod Serving
pub mod Streaming
pub mod RateLimit
pub mod Gate
pub mod Endpoints
pub mod Admin
pub mod Scripts
pub mod Tests
