-- ===== src/Streaming.antt =====
-- app/main.py, `_event_stream`, `_openai_event_stream` and the settlement of streams: the
-- bookkeeping of a streamed request, from the router's stream to the last frame. A client that
-- hangs up, and a cancelled task, are the interrupted end of the stream.
use llm_gateway_fallback_rou.Base.{
  ℕ, ◌+◌, ◌/◌, max, String, Bool, true, false, Option, none, some, List, [], ◌∷◌, ◌++◌, str_eq,
  if◌then◌else◌,
}
use llm_gateway_fallback_rou.Pricing.{estimate_cost}
use llm_gateway_fallback_rou.Providers.{StreamChunk, len}
use llm_gateway_fallback_rou.Ledger.{
  Env, Store, Exc, failure, cancellation, is_exception, Result, ok, err, Action, pure, raise, catch,
  ◌>>=◌, ◌>>◌, modify,
}
use llm_gateway_fallback_rou.Settlement.{Reservations, settle_chain}
use llm_gateway_fallback_rou.Router.Stream.{
  Stream, StreamEnd, completed, all_failed, failed_midway, other,
}
use llm_gateway_fallback_rou.Serving.{record_usage, audit_row, record_audit_log, count_request}
pub mod Exits
pub mod Leak
pub mod Naming
pub mod Costs

-- the local variables of a generator
pub record Progress : Type 0 where
  pub final_provider : String
  pub final_model : String
  pub input_tokens : ℕ
  pub output_tokens : ℕ
  pub streamed_chars : ℕ

abbrev pub no_progress : Progress
no_progress = record {
  final_provider = "";
  final_model = "";
  input_tokens = 0;
  output_tokens = 0;
  streamed_chars = 0;
}

-- Python's `a or b` on texts
abbrev pub or_else : String → String → String
or_else a b = if str_eq a "" then b else a

-- one round of `async for chunk`
unfoldable pub see : StreamChunk → Progress → Progress
see x g =
    if x.done
    then record g {
      final_provider = x.provider;
      final_model = x.model;
      input_tokens = x.input_tokens;
      output_tokens = x.output_tokens;
    }
    else record g {
      streamed_chars = g.streamed_chars + len x.content;
      final_provider = or_else g.final_provider x.provider;
      final_model = or_else g.final_model x.model;
    }

unfoldable pub see_all : List StreamChunk → Progress → Progress
see_all [] g = g
see_all (x ∷ xs) g = see_all xs (see x g)

-- `max(1, streamed_chars // 3)`
abbrev pub estimated_output : Progress → ℕ
estimated_output g = max 1 (g.streamed_chars / 3)

-- the cost of a stream without its usage totals
abbrev pub abort_cost : Progress → ℕ
abort_cost g = estimate_cost g.final_provider g.final_model g.input_tokens (estimated_output g)

-- `_settle_stream_on_abort`
unfoldable pub settle_on_abort : Env → String → Reservations → Progress → Action (Unit {0})
settle_on_abort env api_key res g s =
    if str_eq g.final_provider ""
    then settle_chain env api_key res "" 0 s
    else (do
      settle_chain env api_key res g.final_provider (abort_cost g)
      modify (
          record_usage g.final_provider g.final_model g.input_tokens (estimated_output g)
            (abort_cost g))
      record_audit_log env
          (audit_row "aborted" g.final_provider g.input_tokens (estimated_output g) (abort_cost g)))
        s

-- `_try_settle_stream_on_abort`
unfoldable pub try_settle_on_abort : Env → String → Reservations → Progress → Action (Unit {0})
try_settle_on_abort env api_key res g =
    catch (settle_on_abort env api_key res g)
      (λ e s. if is_exception e then (ok tt, s) else (err e, s))

-- the cost of a finished stream
abbrev pub stream_cost : Progress → ℕ
stream_cost g =
    if str_eq g.final_provider ""
    then 0
    else estimate_cost g.final_provider g.final_model g.input_tokens g.output_tokens

-- `_settle_stream_spend`; `record_usage` does nothing without a provider
unfoldable pub settle_spend : Env → String → Reservations → Progress → Action ℕ
settle_spend env api_key res g = do
  modify
      (record_usage g.final_provider g.final_model g.input_tokens g.output_tokens (stream_cost g))
  settle_chain env api_key res g.final_provider (stream_cost g)
  pure (stream_cost g)

-- The frame that closes a response: the usual last one, the notice that all providers failed, or the
-- internal error of `_stream_error_frame`.
pub data Closing : Type 0 where
  done_frame failed_frame error_frame : Closing

-- the two surfaces, `_event_stream` and `_openai_event_stream`
pub data Surface : Type 0 where
  native openai : Surface

abbrev pub count_unhandled : Store → Store
count_unhandled s = record s { unhandled = s.unhandled + 1 }

-- `except Exception` after the last chunk; `settled` tells whether the settlement came through
unfoldable pub close_badly : Env → String → Reservations → Progress → Bool → Action Closing
close_badly env api_key res g settled = do
  modify count_unhandled
  (if settled then pure tt else try_settle_on_abort env api_key res g)
  modify (count_request "error")
  pure error_frame

-- an `Exception` goes to the handler, an interruption goes on its way
abbrev pub guard_tail : Env → String → Reservations → Progress → Bool → Exc → Action Closing
guard_tail env api_key res g settled e s =
    if is_exception e then close_badly env api_key res g settled s else (err e, s)

-- the `try` after the last chunk, from the settlement on
unfoldable pub close_settled : Env → String → Reservations → Progress → ℕ → Action Closing
close_settled env api_key res g cost s =
    let (r, s') =
      record_audit_log env
        (audit_row "success" g.final_provider g.input_tokens g.output_tokens cost) s in
    elim r [
      | ok _ ↦ (ok done_frame, count_request "success" s')
      | err e ↦ guard_tail env api_key res g true e s'
    ]

-- what follows the last chunk
unfoldable pub close_well : Env → String → Reservations → Progress → Action Closing
close_well env api_key res g s =
    let (r, s') = settle_spend env api_key res g s in
    elim r [
      | ok cost ↦ close_settled env api_key res g cost s'
      | err e ↦ guard_tail env api_key res g false e s'
    ]

-- `except AllProvidersFailedError`: only the native surface writes an audit row
unfoldable pub close_failed : Env → Surface → String → Reservations → Progress → Action Closing
close_failed env native api_key res g = do
  modify (count_request "error")
  record_audit_log env (audit_row "error" "" 0 0 0)
  settle_on_abort env api_key res g
  pure failed_frame
close_failed env openai api_key res g = do
  modify (count_request "error")
  settle_on_abort env api_key res g
  pure failed_frame

-- The handler that fits the end of the router's stream.
unfoldable pub close : Env → Surface → String → Reservations → Progress → StreamEnd → Action Closing
close env surface api_key res g completed = close_well env api_key res g
close env surface api_key res g (all_failed errors) = close_failed env surface api_key res g
close env surface api_key res g (failed_midway p text) = close_failed env surface api_key res g
close env surface api_key res g (other true) = do
  modify (count_request "aborted")
  settle_on_abort env api_key res g
  raise cancellation
close env surface api_key res g (other false) = do
  modify count_unhandled
  modify (count_request "error")
  try_settle_on_abort env api_key res g
  pure error_frame

-- `_event_stream` and `_openai_event_stream`, over the router's stream
unfoldable pub event_stream : Env → Surface → String → Reservations → Stream → Action Closing
unfolding see_all
event_stream env surface api_key res (chunks, end) =
    close env surface api_key res (see_all chunks no_progress) end
