-- ===== src/Ledger.antt =====
-- The state that the money path shares, and its actions: the two spend ledgers in Redis, the
-- metrics and the audit rows. A method is an action on a `Store` that returns or raises; what it
-- wrote before a raise stays written. How each Redis command ends is chosen by the environment.
use llm_gateway_fallback_rou.Base.{
  ℕ, ◌≡◌, ◌+◌, ◌-◌, ◌/◌, String, Bool, true, false, ◌&&◌, Option, none, some, List, ◌∷◌, ◌==◌,
  str_eq, ℤ, pos, ◌+ℤ◌, ◌-ℤ◌, if◌then◌else◌,
}
pub mod Commands

-- How one awaited Redis command ends: a reply, an `Exception`, or a cancellation of the task.
-- In the last two cases the flag says whether the command took effect at the server.
pub data Wire : Type 0 where
  answered : Wire
  failed cancelled : Bool → Wire

-- Settings, and what is outside the program: the end of the n-th Redis command, `time.time()`
-- where its key is built, the end of the n-th audit transaction, and `hash_key` (HMAC-SHA256) of app/security/api_keys.py.
pub record Env : Type 0 where
  pub wire : ℕ → Wire
  pub time : ℕ → ℕ
  pub database : ℕ → Wire
  pub hash_key : String → String
  pub provider_lifetime_budget : ℕ
  pub monthly_budget_per_key : ℕ
  pub provider_retry_attempts : ℕ
  pub strict_model_routing : Bool

-- One audit row, less the columns that only identify the request.
pub record AuditRow : Type 0 where
  pub outcome : String
  pub provider : String
  pub input_tokens : ℕ
  pub output_tokens : ℕ
  pub cost_usd : ℕ

-- What `_record_usage` adds to the spend and token counters.
pub record Usage : Type 0 where
  pub provider : String
  pub model : String
  pub input_tokens : ℕ
  pub output_tokens : ℕ
  pub cost_usd : ℕ

pub record Store : Type 0 where
  pub providers : String → ℤ  -- `provider_budget:{provider}`; a missing key reads as 0
  pub months : String → ℕ → ℤ  -- `budget:{hash}:{period}`
  pub sent : ℕ  -- Redis commands so far
  pub spent_gauge : String → ℤ
  pub remaining_gauge : String → ℕ
  pub leaked_key : ℕ
  pub leaked_provider : ℕ
  pub refused : List String  -- REQUESTS_REFUSED, newest first
  pub requests : List String  -- REQUEST_COUNT, newest first
  pub usage : List Usage
  pub audit : List AuditRow
  pub audit_writes : ℕ  -- audit transactions so far
  pub unhandled : ℕ  -- UNHANDLED_EXCEPTIONS

pub data Exc : Type 0 where
  failure : Exc
  cancellation : Exc
  provider_exhausted : String → ℤ → ℕ → Exc
  key_exhausted : ℤ → ℕ → Exc
  key_error : Exc
  http : ℕ → String → Exc

-- caught by `except Exception`
abbrev pub is_exception : Exc → Bool
is_exception cancellation = false
is_exception _ = true

pub data Result (A : Type 0) : Type 0 where
  ok : A → Result A
  err : Exc → Result A

abbrev pub Action : Type 0 → Type 0
Action A = Store → Result A × Store

module _ {A : Type 0} where
  abbrev pub pure : A → Action A
  pure a s = (ok a, s)

  abbrev pub raise : Exc → Action A
  raise e s = (err e, s)

  abbrev pub handled : Result A → (Exc → Action A) → Action A
  handled (ok a) h s = (ok a, s)
  handled (err e) h s = h e s

  -- `try: m except …: h`
  abbrev pub catch : Action A → (Exc → Action A) → Action A
  catch m h s = let (r, s') = m s in handled r h s'

abbrev pub continue : {A B : Type 0} → Result A → (A → Action B) → Action B
continue (ok a) f s = f a s
continue (err e) f s = (err e, s)

infixl 5 ◌>>=◌ ◌>>◌
abbrev pub ◌>>=◌ : {A B : Type 0} → Action A → (A → Action B) → Action B
◌>>=◌ m f s = let (r, s') = m s in continue r f s'

abbrev pub ◌>>◌ : {A B : Type 0} → Action A → Action B → Action B
m >> k = m >>= λ _. k

abbrev pub modify : (Store → Store) → Action (Unit {0})
modify f s = (ok tt, f s)

-- a table of totals with the total of one name replaced
abbrev pub update {ℓ} : {V : Type ℓ} → (String → V) → String → V → String → V
update f p v q = if str_eq p q then v else f q

-- `_SECONDS_PER_MONTH`
abbrev pub seconds_per_month : ℕ
seconds_per_month = 2592000

-- the period that `BudgetTracker._key` computes for the next command
abbrev pub period : Env → Store → ℕ
period env s = env.time s.sent / seconds_per_month

abbrev pub month_total : Env → String → Store → ℤ
month_total env api_key s = s.months (env.hash_key api_key) (period env s)

abbrev pub add_month : Env → String → ℤ → Store → Store
add_month env api_key d s = record s {
  months = update s.months (env.hash_key api_key) (λ n.
      if period env s == n
      then month_total env api_key s +ℤ d
      else s.months (env.hash_key api_key) n);
}

abbrev pub add_provider : String → ℤ → Store → Store
add_provider p d s = record s { providers = update s.providers p (s.providers p +ℤ d) }

-- One awaited Redis command, with its effect and its reply.
unfoldable pub command : {A : Type 0} → Env → (Store → Store) → (Store → A) → Action A
command env write reply s =
    let landed : Store = record (write s) { sent = s.sent + 1 } in
    let lost : Store = record s { sent = s.sent + 1 } in
    elim (env.wire s.sent) [
      | answered ↦ (ok (reply s), landed)
      | failed took ↦ (err failure, if took then landed else lost)
      | cancelled took ↦ (err cancellation, if took then landed else lost)
    ]

-- `INCRBYFLOAT`, which returns the new total
unfoldable pub incr_provider : Env → String → ℤ → Action ℤ
unfolding command
incr_provider env p d = command env (add_provider p d) (λ s. s.providers p +ℤ d)

unfoldable pub get_provider : Env → String → Action ℤ
unfolding command
get_provider env p = command env (λ s. s) (λ s. s.providers p)

-- The pipeline of `BudgetTracker._apply`: `INCRBYFLOAT` and `EXPIRE` in one transaction. The
-- expiry, a full period after the last write, never falls inside the period of the key.
unfoldable pub incr_month : Env → String → ℤ → Action ℤ
unfolding command
incr_month env api_key d =
    command env (add_month env api_key d) (λ s. month_total env api_key s +ℤ d)

unfoldable pub get_month : Env → String → Action ℤ
unfolding command
get_month env api_key = command env (λ s. s) (λ s. month_total env api_key s)

-- `n`, or its negation
abbrev pub minus : ℕ → ℤ
minus n = pos 0 -ℤ pos n

-- whether a command took effect
abbrev pub took : Wire → Bool
took answered = true
took (failed b) = b
took (cancelled b) = b

-- Every command takes effect, whether or not its reply arrives.
abbrev pub Lands : Env → Type 0
Lands env = (n : ℕ) → took (env.wire n) ≡ true

-- Every command is answered.
abbrev pub Quiet : Env → Type 0
Quiet env = (n : ℕ) → env.wire n ≡ answered
