-- ===== src/Process/Start.antt =====
-- A database that the settings accept is driven in one of two ways.
use Prim.Native.String.{◌++◌}
use Prim.Native.String.append
use llm_gateway_fallback_rou.Texts.{is_blank}
use text.Mathlib.Text.{starts_with}
use text.Mathlib.TextEquality.{starts_with_iff}
use text.Mathlib.TextLemmas.{append_assoc}
use Prim.Native.Char.{code}
use llm_gateway_fallback_rou.Base.{
  ℕ, String, ◌≡◌, refl, sym, ◌∙◌, ap, ◌⊎◌, inl, inr, true, false, none, some, arith, Bool-cases,
}
use llm_gateway_fallback_rou.Config.{validate_database_url_scheme}
use llm_gateway_fallback_rou.Process.{build_connect_args, creates_tables}

sqlite_scheme :
    (url : String) → starts_with url "sqlite+aiosqlite" ≡ true → starts_with url "sqlite" ≡ true
sqlite_scheme url h =
    let (rest, e) = (starts_with_iff url "sqlite+aiosqlite").0 h in
    (starts_with_iff url "sqlite").1
      ("+aiosqlite" ++ rest, sym (append_assoc "sqlite" "+aiosqlite" rest) ∙ e)

postgres_scheme :
    (url : String)
    → starts_with url "postgresql+asyncpg" ≡ true
    → starts_with url "postgresql" ≡ true
postgres_scheme url h =
    let (rest, e) = (starts_with_iff url "postgresql+asyncpg").0 h in
    (starts_with_iff url "postgresql").1
      ("+asyncpg" ++ rest, sym (append_assoc "postgresql" "+asyncpg" rest) ∙ e)

abbrev first_code : String → ℕ
first_code String.[] = 0
first_code (String.◌∷◌ c s) = code c

first_code-append : (w t : String) → is_blank w ≡ false → first_code (w ++ t) ≡ first_code w
first_code-append String.[] t h = cc h
first_code-append (String.◌∷◌ c s) t h = ap first_code (append.cons c s t)

one_scheme :
    (url : String) → starts_with url "sqlite" ≡ true → starts_with url "postgresql" ≡ true → ⊥
one_scheme url a b =
    let (r, e) = (starts_with_iff url "sqlite").0 a in
    let (t, f) = (starts_with_iff url "postgresql").0 b in
    let p : first_code ("sqlite" ++ r) ≡ first_code ("postgresql" ++ t) =
      ap first_code (e ∙ sym f) in
    let s = first_code-append "sqlite" r refl in
    let u = first_code-append "postgresql" t refl in omega (arith, p, s, u)

-- The two ways to drive a database: SQLite, with its tables created at the start and no arguments
-- for the driver, or Postgres, with its tables left to the migrations and both timeouts.
abbrev pub IsDriven : String → ℕ → ℕ → Type 0
IsDriven url connect command =
    ((creates_tables url ≡ true) × (build_connect_args url connect command ≡ none))
    ⊎ ((creates_tables url ≡ false)
        × (build_connect_args url connect command ≡ some (connect, command)))

scheme_of :
    (url v : String)
    → validate_database_url_scheme url ≡ some v
    → (starts_with url "sqlite" ≡ true) ⊎ (starts_with url "postgresql" ≡ true)
unfolding validate_database_url_scheme
scheme_of url v accepted = elim (Bool-cases (starts_with url "sqlite+aiosqlite")) [
  | inl lite ↦ inl (sqlite_scheme url lite)
  | inr other ↦ elim (Bool-cases (starts_with url "postgresql+asyncpg")) [
    | inl post ↦ inr (postgres_scheme url post)
    | inr neither ↦ ground (arith, accepted, other, neither)
  ]
]

-- Every database URL that the settings accept is driven in exactly one of the two ways: either
-- the start creates the tables and the driver gets no timeouts, or the tables are left to the
-- migrations and the driver gets both.
pub accepted-IsDriven :
    (url v : String) (connect command : ℕ)
    → validate_database_url_scheme url ≡ some v
    → IsDriven url connect command
unfolding creates_tables build_connect_args
accepted-IsDriven url v connect command accepted = elim (scheme_of url v accepted) [
  | inl lite ↦ elim (Bool-cases (starts_with url "postgresql")) [
    | inl both ↦ absurd (one_scheme url lite both)
    | inr other ↦ inl (rw (lite, creates_tables) refl, rw (other, build_connect_args) refl)
  ]
  | inr post ↦ elim (Bool-cases (starts_with url "sqlite")) [
    | inl both ↦ absurd (one_scheme url both post)
    | inr other ↦ inr (rw (other, creates_tables) refl, rw (post, build_connect_args) refl)
  ]
]
