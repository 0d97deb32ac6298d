-- ===== src/Breaker/Sound.antt =====
-- What holds of a breaker after any sequence of calls, and when it opens.
use llm_gateway_fallback_rou.Base.{
  ℕ, ◌+◌, ◌<◌, ◌≡◌, ◌≢◌, none, List, [], ◌∷◌, arith, ltb, length, if◌then◌else◌,
}
use llm_gateway_fallback_rou.Breaker.{
  CircuitState, closed, opened, half_open, CircuitBreaker, new_breaker, record_failure, Event,
  success, failure, step, run,
}

-- A closed breaker is below its threshold and holds no time; a breaker that is not closed knows
-- when it opened; only a half-open one holds a trial.
abbrev pub Agrees : CircuitState → CircuitBreaker → Type 0
Agrees closed b =
    (b.failure_count < b.failure_threshold) × (b.opened_at ≡ none) × (b.trial_started_at ≡ none)
Agrees opened b = (b.opened_at ≢ none) × (b.trial_started_at ≡ none)
Agrees half_open b = b.opened_at ≢ none

abbrev pub IsSound : CircuitBreaker → Type 0
IsSound b = (0 < b.failure_threshold) × Agrees b.circuit b

pub new_breaker-IsSound :
    (threshold cooldown : ℕ) → 0 < threshold → IsSound (new_breaker threshold cooldown)
unfolding new_breaker
new_breaker-IsSound t c h = ground arith

pub step-IsSound : (b : CircuitBreaker) (e : Event) → IsSound b → IsSound (step b e)
unfolding step
step-IsSound b (Event.allow now later) h = ground arith
step-IsSound b success h = ground arith
step-IsSound b (failure now) h = ground arith
step-IsSound b (Event.read now) h = ground arith

-- A breaker with a positive threshold stays consistent through any sequence of calls of its
-- methods, at any readings of the clock: closed, it is below its threshold and holds no times;
-- open, it knows since when and holds no trial; half-open, it knows since when.
pub run-IsSound : (b : CircuitBreaker) (es : List Event) → IsSound b → IsSound (run b es)
unfolding run
run-IsSound b [] h = h
run-IsSound b (e ∷ es) h = run-IsSound (step b e) es (step-IsSound b e h)

abbrev pub failures : List ℕ → List Event
failures [] = []
failures (t ∷ ts) = failure t ∷ failures ts

-- The state that `n` consecutive failures leave behind.
abbrev pub state_after : ℕ → ℕ → CircuitState
state_after n threshold = if ltb n threshold then closed else opened

record_failure-state_after :
    (t : ℕ) (b : CircuitBreaker)
    → b.circuit ≡ state_after b.failure_count b.failure_threshold
    → (record_failure t b).circuit ≡ state_after (b.failure_count + 1) b.failure_threshold
unfolding record_failure
record_failure-state_after t b e = ground arith

run-failures_from :
    (b : CircuitBreaker) (n : ℕ) (ts : List ℕ)
    → b.failure_count ≡ n
    → b.circuit ≡ state_after n b.failure_threshold
    → (run b (failures ts)).circuit ≡ state_after (n + length ts) b.failure_threshold
unfolding run step record_failure
run-failures_from b n [] c e = ground arith
run-failures_from b n (t ∷ ts) c e =
    ground
      (arith, run-failures_from (record_failure t b) (n + 1) ts, record_failure-state_after t b)

-- A run of failures with no success in between opens a new circuit exactly when there are as
-- many as the threshold.
pub run-failures :
    (threshold cooldown : ℕ) (ts : List ℕ)
    → 0 < threshold
    → (run (new_breaker threshold cooldown) (failures ts)).circuit
      ≡ state_after (length ts) threshold
unfolding new_breaker
run-failures threshold cooldown ts h =
    ground (arith, run-failures_from (new_breaker threshold cooldown) 0 ts)
