-- ===== src/Breaker.antt =====
-- app/routing/circuit_breaker.py: the circuit breaker of one provider. Times are counts of a
-- clock tick; each reading of the injected clock is an argument, in the order of the readings,
-- so a clock that runs backwards is covered. `a - b >= c` is written `b + c <= a`.
use llm_gateway_fallback_rou.Base.{
  ℕ, ◌+◌, Bool, true, false, Option, none, some, ltb, leb, if◌then◌else◌, ◌||◌, List, [], ◌∷◌,
}
pub mod Sound
pub mod Trial

-- `CircuitState`
pub data CircuitState : Type 0 where
  closed opened half_open : CircuitState

-- The fields of `CircuitBreaker`, less the clock.
pub record CircuitBreaker : Type 0 where
  pub failure_threshold : ℕ
  pub cooldown_seconds : ℕ
  pub failure_count : ℕ
  pub circuit : CircuitState
  pub opened_at : Option ℕ
  pub trial_started_at : Option ℕ

-- `CircuitBreaker.__init__`
unfoldable pub new_breaker : ℕ → ℕ → CircuitBreaker
new_breaker threshold cooldown = record {
  failure_threshold = threshold;
  cooldown_seconds = cooldown;
  failure_count = 0;
  circuit = closed;
  opened_at = none;
  trial_started_at = none;
}

abbrev is_half_open : CircuitState → Bool
is_half_open half_open = true
is_half_open _ = false

-- The second and third tests of `_update_state`, in the open state.
abbrev cooled : Option ℕ → ℕ → ℕ → Bool
cooled none cooldown now = false
cooled (some at) cooldown now = leb (at + cooldown) now

-- `_update_state`, on one reading of the clock
unfoldable pub update_state : ℕ → CircuitBreaker → CircuitBreaker
update_state now b = elim b.circuit [
  | opened ↦
      if cooled b.opened_at b.cooldown_seconds now then record b { circuit = half_open } else b
  | _ ↦ b
]

-- The trial is held by a claim that is younger than one cooldown.
abbrev held : Option ℕ → ℕ → ℕ → Bool
held none cooldown now = false
held (some at) cooldown now = ltb now (at + cooldown)

admit : ℕ → CircuitBreaker → Bool × CircuitBreaker
admit now b = elim b.circuit [
  | opened ↦ (false, b)
  | half_open ↦
      if held b.trial_started_at b.cooldown_seconds now
      then (false, b)
      else (true, record b { trial_started_at = some now })
  | closed ↦ (true, b)
]

-- `allow_request`: `now` is the reading in `_update_state`, `later` the one for the claim
unfoldable pub allow_request : ℕ → ℕ → CircuitBreaker → Bool × CircuitBreaker
unfolding update_state admit
allow_request now later b = admit later (update_state now b)

-- `record_success`
unfoldable pub record_success : CircuitBreaker → CircuitBreaker
record_success b = record b {
  failure_count = 0;
  circuit = closed;
  opened_at = none;
  trial_started_at = none;
}

-- `record_failure`
unfoldable pub record_failure : ℕ → CircuitBreaker → CircuitBreaker
record_failure now b =
    let n = b.failure_count + 1 in
    if is_half_open b.circuit || leb b.failure_threshold n
    then record b {
      failure_count = n;
      circuit = opened;
      opened_at = some now;
      trial_started_at = none;
    }
    else record b { failure_count = n; trial_started_at = none }

-- the property `state`: it updates first, and then reads
unfoldable pub read_state : ℕ → CircuitBreaker → CircuitState × CircuitBreaker
unfolding update_state
read_state now b = let b' = update_state now b in (b'.circuit, b')

-- One call of a method, with the clock readings that it makes.
pub data Event : Type 0 where
  allow : ℕ → ℕ → Event
  success : Event
  failure : ℕ → Event
  read : ℕ → Event

unfoldable pub step : CircuitBreaker → Event → CircuitBreaker
unfolding allow_request record_success record_failure read_state
step b (allow now later) = (allow_request now later b).1
step b success = record_success b
step b (failure now) = record_failure now b
step b (read now) = (read_state now b).1

-- Any sequence of calls, from any number of callers: each method runs with no wait inside.
unfoldable pub run : CircuitBreaker → List Event → CircuitBreaker
run b [] = b
run b (e ∷ es) = run (step b e) es
