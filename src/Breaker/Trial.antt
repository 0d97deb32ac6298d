-- ===== src/Breaker/Trial.antt =====
-- The open and half-open states: what is refused, what is admitted, and how a breaker recovers.
use llm_gateway_fallback_rou.Base.{
  ℕ, ◌+◌, ◌≤◌, ◌<◌, ◌≡◌, ◌≢◌, sym, subst, leb, Bool-cases, inl, inr, true, false, Option, none,
  some, List, [], ◌∷◌, All, arith,
}
use llm_gateway_fallback_rou.Breaker.{
  CircuitState, closed, opened, half_open, CircuitBreaker, allow_request, record_success,
  record_failure, read_state, update_state, Event, allow, success, failure, read, step, run,
}
use llm_gateway_fallback_rou.Breaker.Sound.{IsSound, step-IsSound}

-- Every request of a sequence of calls is refused.
abbrev pub AreRefused : CircuitBreaker → List Event → Type 0
AreRefused b [] = Unit
AreRefused b (allow now later ∷ es) =
    ((allow_request now later b).0 ≡ false) × AreRefused (step b (allow now later)) es
AreRefused b (success ∷ es) = AreRefused (step b success) es
AreRefused b (failure t ∷ es) = AreRefused (step b (failure t)) es
AreRefused b (read now ∷ es) = AreRefused (step b (read now)) es

-- A call while the circuit that opened at time `at` cools down: a request or a look at the state
-- less than one cooldown later, or a further failure, which is not an earlier one.
abbrev pub IsCooling : ℕ → ℕ → Event → Type 0
IsCooling at cooldown (allow now later) = now < at + cooldown
IsCooling at cooldown success = ⊥
IsCooling at cooldown (failure t) = at ≤ t
IsCooling at cooldown (read now) = now < at + cooldown

-- open since `at` or later
pub record IsOpenSince (at cooldown : ℕ) (b : CircuitBreaker) : Type 0 where
  pub is_open : b.circuit ≡ opened
  pub since : ℕ
  pub stamped : b.opened_at ≡ some since
  pub late : at ≤ since
  pub cooling : b.cooldown_seconds ≡ cooldown

-- a refusal and a look leave a cooling circuit as it is
cooling_refused :
    (at cooldown now later : ℕ) (b : CircuitBreaker)
    → now < at + cooldown
    → IsOpenSince at cooldown b
    → ((allow_request now later b).0 ≡ false)
      × (step b (allow now later) ≡ b)
      × (step b (read now) ≡ b)
unfolding step allow_request read_state update_state
cooling_refused at cooldown now later b h i =
    let early : now < i.since + b.cooldown_seconds = omega (arith, h, i.late, i.cooling) in
    (
      ground (arith, i.is_open, i.stamped, early),
      ground (arith, i.is_open, i.stamped, early),
      ground (arith, i.is_open, i.stamped, early),
    )

further_failure :
    (at cooldown t : ℕ) (b : CircuitBreaker)
    → at ≤ t
    → IsOpenSince at cooldown b
    → IsOpenSince at cooldown (step b (failure t))
unfolding step record_failure
further_failure at cooldown t b h i =
    elim (Bool-cases (leb b.failure_threshold (b.failure_count + 1))) [
      | inl full ↦ record {
        is_open = ground (arith, i.is_open, full);
        since = t;
        stamped = ground (arith, i.is_open, full);
        late = h;
        cooling = ground (arith, i.is_open, full, i.cooling);
      }
      | inr below ↦ record {
        is_open = ground (arith, i.is_open, below);
        since = i.since;
        stamped = ground (arith, i.is_open, i.stamped, below);
        late = i.late;
        cooling = ground (arith, i.is_open, below, i.cooling);
      }
    ]

cooling-AreRefused :
    (at cooldown : ℕ) (b : CircuitBreaker) (es : List Event)
    → IsOpenSince at cooldown b
    → All (IsCooling at cooldown) es
    → AreRefused b es
cooling-AreRefused at cooldown b [] i h = tt
cooling-AreRefused at cooldown b (allow now later ∷ es) i h =
    let (no_call, same, seen) = cooling_refused at cooldown now later b h.0 i in
    (no_call, subst (λ c. AreRefused c es) (sym same) (cooling-AreRefused at cooldown b es i h.1))
cooling-AreRefused at cooldown b (success ∷ es) i h = absurd h.0
cooling-AreRefused at cooldown b (failure t ∷ es) i h =
    cooling-AreRefused at cooldown (step b (failure t)) es (further_failure at cooldown t b h.0 i)
      h.1
cooling-AreRefused at cooldown b (read now ∷ es) i h =
    let (no_call, same, seen) = cooling_refused at cooldown now now b h.0 i in
    subst (λ c. AreRefused c es) (sym seen) (cooling-AreRefused at cooldown b es i h.1)

-- The failure that opens a circuit at time `at` blocks every request of any sequence of calls,
-- requests and looks whose first reading of the clock is less than one cooldown later, and
-- further failures that are not earlier, as long as no success is recorded.
pub open_blocks :
    (b : CircuitBreaker) (at : ℕ) (es : List Event)
    → b.circuit ≢ opened
    → (record_failure at b).circuit ≡ opened
    → All (IsCooling at b.cooldown_seconds) es
    → AreRefused (record_failure at b) es
unfolding record_failure
open_blocks b at es p o h =
    cooling-AreRefused at b.cooldown_seconds (record_failure at b) es
      (record {
        is_open = o;
        since = at;
        stamped = ground (arith, p, o);
        late = omega arith;
        cooling = ground arith;
      })
      h

-- A request whose reading for the claim is less than one cooldown after the trial was claimed at
-- `later`, whatever its reading in the state update, or a look at the state.
abbrev pub IsDuring : ℕ → ℕ → Event → Type 0
IsDuring later cooldown (allow now' later') = later' < later + cooldown
IsDuring later cooldown success = ⊥
IsDuring later cooldown (failure t) = ⊥
IsDuring later cooldown (read now) = Unit

abbrev Holds : ℕ → ℕ → CircuitBreaker → Type 0
Holds later cooldown b =
    (b.circuit ≡ half_open) × (b.trial_started_at ≡ some later) × (b.cooldown_seconds ≡ cooldown)

trial_held :
    (later cooldown now' later' : ℕ) (b : CircuitBreaker)
    → Holds later cooldown b
    → (later' < later + cooldown
        → ((allow_request now' later' b).0 ≡ false) × (step b (allow now' later') ≡ b))
      × (step b (read now') ≡ b)
unfolding step allow_request read_state update_state
trial_held later cooldown now' later' b i =
    (λ h. (ground (arith, h, i), ground (arith, h, i)), ground (arith, i))

held-AreRefused :
    (later cooldown : ℕ) (b : CircuitBreaker) (es : List Event)
    → Holds later cooldown b
    → All (IsDuring later cooldown) es
    → AreRefused b es
held-AreRefused later cooldown b [] i h = tt
held-AreRefused later cooldown b (allow now' later' ∷ es) i h =
    let (no_call, same) = (trial_held later cooldown now' later' b i).0 h.0 in
    (no_call, subst (λ c. AreRefused c es) (sym same) (held-AreRefused later cooldown b es i h.1))
held-AreRefused later cooldown b (success ∷ es) i h = absurd h.0
held-AreRefused later cooldown b (failure t ∷ es) i h = absurd h.0
held-AreRefused later cooldown b (read now' ∷ es) i h =
    subst (λ c. AreRefused c es) (sym (trial_held later cooldown now' now' b i).1)
      (held-AreRefused later cooldown b es i h.1)

-- Once a half-open breaker has admitted a trial, every other request of any sequence of requests
-- and looks is refused, as long as the trial is younger than one cooldown at the request's reading
-- and its outcome is not recorded, whatever the requests' readings in the state update.
pub one_trial :
    (b : CircuitBreaker) (now later : ℕ) (es : List Event)
    → (allow_request now later b).0 ≡ true
    → (allow_request now later b).1.circuit ≡ half_open
    → All (IsDuring later b.cooldown_seconds) es
    → AreRefused (allow_request now later b).1 es
unfolding allow_request
one_trial b now later es a o h =
    held-AreRefused later b.cooldown_seconds (allow_request now later b).1 es
      (o, ground (arith, a, o), ground arith) h

-- Requests and looks, without an outcome.
abbrev pub IsAsking : Event → Type 0
IsAsking (allow now later) = Unit
IsAsking success = ⊥
IsAsking (failure t) = ⊥
IsAsking (read now) = Unit

abbrev Over : Option ℕ → ℕ → ℕ → Type 0
Over none cooldown t = Unit
Over (some at) cooldown t = at + cooldown ≤ t

-- One cooldown has passed: since an open circuit opened, on the first reading of a request; since
-- the trial of a half-open one was claimed, on its reading for the claim.
abbrev pub IsDue : CircuitState → CircuitBreaker → ℕ → ℕ → Type 0
IsDue closed b now later = Unit
IsDue opened b now later = Over b.opened_at b.cooldown_seconds now
IsDue half_open b now later = Over b.trial_started_at b.cooldown_seconds later

due_admitted :
    (b : CircuitBreaker) (now later : ℕ)
    → IsSound b
    → IsDue b.circuit b now later
    → (allow_request now later b).0 ≡ true
unfolding allow_request
due_admitted b now later s h = ground arith

refused-IsDue :
    (b : CircuitBreaker) (n l now later : ℕ)
    → IsSound b
    → (allow_request n l b).0 ≡ false
    → IsDue b.circuit b now later
    → IsDue (step b (allow n l)).circuit (step b (allow n l)) now later
unfolding step allow_request
refused-IsDue b n l now later s r h = ground arith

looked-IsDue :
    (b : CircuitBreaker) (n now later : ℕ)
    → IsSound b
    → IsDue b.circuit b now later
    → IsDue (step b (read n)).circuit (step b (read n)) now later
unfolding step
looked-IsDue b n now later s h = ground arith

-- No sound breaker stays shut, whatever steady traffic it refuses: after any sequence of refused
-- requests and of looks at its state, a request is admitted once one cooldown has passed since the
-- circuit opened or, half-open, since its trial was claimed, also where the caller of the trial
-- never reported back.
pub never_wedged :
    (b : CircuitBreaker) (es : List Event) (now later : ℕ)
    → IsSound b
    → All IsAsking es
    → AreRefused b es
    → IsDue b.circuit b now later
    → (allow_request now later (run b es)).0 ≡ true
unfolding run
never_wedged b [] now later s a r h = due_admitted b now later s h
never_wedged b (allow n l ∷ es) now later s a r h =
    never_wedged (step b (allow n l)) es now later (step-IsSound b (allow n l) s) a.1 r.1
      (refused-IsDue b n l now later s r.0 h)
never_wedged b (success ∷ es) now later s a r h = absurd a.0
never_wedged b (failure t ∷ es) now later s a r h = absurd a.0
never_wedged b (read n ∷ es) now later s a r h =
    never_wedged (step b (read n)) es now later (step-IsSound b (read n) s) a.1 r
      (looked-IsDue b n now later s h)

-- An open circuit whose cooldown is over admits a trial. Success of the trial closes the circuit
-- with a clean count; failure opens it again from the time of the failure, whatever the count.
pub trial_decides :
    (b : CircuitBreaker) (at now later t : ℕ)
    → IsSound b
    → b.circuit ≡ opened
    → b.opened_at ≡ some at
    → at + b.cooldown_seconds ≤ now
    → let (admitted, trial) = allow_request now later b in
      (admitted ≡ true)
      × ((record_success trial).circuit ≡ closed)
      × ((record_success trial).failure_count ≡ 0)
      × ((record_failure t trial).circuit ≡ opened)
      × ((record_failure t trial).opened_at ≡ some t)
unfolding allow_request record_success record_failure
trial_decides b at now later t s o e h = ground arith
