-- ===== src/Admin/Pages.antt =====
-- app/admin/routes.py: the lists of keys, of requests and of key events, newest first, by pages.
use llm_gateway_fallback_rou.Base.{
  ℕ, zero, suc, min, max, String, Bool, true, ◌&&◌, ◌==◌, leb, Option, none, some, List, [], ◌∷◌,
  str_eq, ℤ, pos, negsuc, if◌then◌else◌,
}
use llm_gateway_fallback_rou.Config.{is_given}
use llm_gateway_fallback_rou.Admin.{ApiKeyRecord, AdminAuditEntry, Database}

-- `AuditLogEntry`, less its own id
pub record AuditLogEntry : Type 0 where
  pub created_at : ℕ
  pub request_id : String
  pub api_key_hash : String
  pub team : String
  pub requested_model : String
  pub provider : String
  pub outcome : String
  pub input_tokens : ℕ
  pub output_tokens : ℕ
  pub cost_usd : ℕ
  pub latency_ms : ℕ

-- `max(1, min(limit, 1000))` and `max(0, offset)`
abbrev pub clamp_limit : ℤ → ℕ
clamp_limit (pos n) = max 1 (min n 1000)
clamp_limit (negsuc n) = 1

abbrev pub clamp_offset : ℤ → ℕ
clamp_offset (pos n) = n
clamp_offset (negsuc n) = 0

module _ {A : Type 0} where
  abbrev pub first : ℕ → List A → List A
  first zero rows = []
  first (suc n) [] = []
  first (suc n) (row ∷ rows) = row ∷ first n rows

  abbrev pub beyond : ℕ → List A → List A
  beyond zero rows = rows
  beyond (suc n) [] = []
  beyond (suc n) (row ∷ rows) = beyond n rows

  -- `.limit(limit).offset(offset)`
  abbrev pub page : ℤ → ℤ → List A → List A
  page limit offset rows = first (clamp_limit limit) (beyond (clamp_offset offset) rows)

  abbrev pub insert_newest : (A → ℕ) → A → List A → List A
  insert_newest at x [] = x ∷ []
  insert_newest at x (y ∷ ys) =
      let rest = insert_newest at x ys in if leb (at y) (at x) then x ∷ y ∷ ys else y ∷ rest

  -- `order_by(desc(created_at))`; rows of the same time stay in their order
  unfoldable pub by_newest : (A → ℕ) → List A → List A
  by_newest at [] = []
  by_newest at (x ∷ xs) = insert_newest at x (by_newest at xs)

  -- `.where(…)`
  abbrev pub keep_rows : (A → Bool) → List A → List A
  keep_rows p [] = []
  keep_rows p (x ∷ xs) = let rest = keep_rows p xs in if p x then x ∷ rest else rest

-- a filter on a text, which is off if the text is missing or empty
abbrev pub is_wanted : Option String → String → Bool
is_wanted none x = true
is_wanted (some w) x = if is_given (some w) then str_eq x w else true

abbrev pub is_wanted_id : Option ℕ → ℕ → Bool
is_wanted_id none x = true
is_wanted_id (some w) x = x == w

-- `list_keys`
unfoldable pub list_keys : ℤ → ℤ → Database → List ApiKeyRecord
unfolding by_newest
list_keys limit offset db =
    page limit offset (by_newest (λ (row : ApiKeyRecord). row.created_at) db.keys)

-- `list_audit_log`
unfoldable pub list_audit_log :
    Option String → Option String → ℤ → ℤ → List AuditLogEntry → List AuditLogEntry
unfolding by_newest
list_audit_log team request_id limit offset rows = page limit offset (
    by_newest (λ (row : AuditLogEntry). row.created_at)
      (keep_rows
        (λ (row : AuditLogEntry). is_wanted team row.team && is_wanted request_id row.request_id)
        rows))

-- `list_key_events`
unfoldable pub list_key_events : Option String → Option ℕ → ℤ → ℤ → Database → List AdminAuditEntry
unfolding by_newest
list_key_events action key_id limit offset db = page limit offset (
    by_newest (λ (e : AdminAuditEntry). e.created_at)
      (keep_rows
        (λ (e : AdminAuditEntry). is_wanted action e.action && is_wanted_id key_id e.key_id)
        db.events))
