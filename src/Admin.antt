-- ===== src/Admin.antt =====
-- app/admin: the key table with its log of key events, the routes that read and write them, and
-- the dependencies before those routes. A route's writes are one transaction, whose end, like
-- that of its queries, is chosen by the environment; so are the random key, the clock and the id
-- that the database assigns.
use llm_gateway_fallback_rou.Base.{
  ℕ, String, Bool, true, false, ◌||◌, ◌&&◌, not, Option, none, some, List, [], ◌∷◌, ◌==◌, leb,
  str_eq, if◌then◌else◌,
}
use llm_gateway_fallback_rou.Providers.{len}
use llm_gateway_fallback_rou.Texts.{is_blank, strip}
use llm_gateway_fallback_rou.Ledger.{
  Wire, answered, failed, cancelled, failure, cancellation, http, Result, ok, err,
}
use llm_gateway_fallback_rou.Gate.{Lookup, found, missing, broken}
pub mod Table
pub mod Revocation
pub mod Door
pub mod Pages

-- `ApiKeyRecord`
pub record ApiKeyRecord : Type 0 where
  pub id : ℕ
  pub key_hash : String
  pub team : String
  pub created_at : ℕ
  pub revoked : Bool

-- `AdminAuditEntry`, less its own id
pub record AdminAuditEntry : Type 0 where
  pub request_id : String
  pub action : String
  pub key_id : ℕ
  pub team : String
  pub admin_key_hash : String
  pub created_at : ℕ

-- the committed rows, newest first
pub record Database : Type 0 where
  pub keys : List ApiKeyRecord
  pub events : List AdminAuditEntry

-- What surrounds one request of the admin API.
pub record Turn : Type 0 where
  pub request_id : String
  pub admin_key : String
  pub raw_key : String  -- `secrets.token_hex(24)`
  pub new_id : ℕ  -- the id of the next row
  pub now : ℕ
  pub query : Wire  -- the end of `session.get` or `session.flush`
  pub commit : Wire

abbrev pub has_id : ℕ → List ApiKeyRecord → Bool
has_id i [] = false
has_id i (row ∷ rows) = row.id == i || has_id i rows

abbrev pub has_hash : String → List ApiKeyRecord → Bool
has_hash h [] = false
has_hash h (row ∷ rows) = str_eq row.key_hash h || has_hash h rows

-- `session.get(ApiKeyRecord, key_id)`
unfoldable pub find_row : ℕ → List ApiKeyRecord → Option ApiKeyRecord
find_row i [] = none
find_row i (row ∷ rows) = if row.id == i then some row else find_row i rows

-- the end of `session.commit()`, which publishes the writes or drops them
unfoldable pub end_transaction : {A : Type 0} → Wire → A → Database → Database → Result A × Database
end_transaction answered a old new = (ok a, new)
end_transaction (failed took) a old new = (err failure, if took then new else old)
end_transaction (cancelled took) a old new = (err cancellation, if took then new else old)

-- the end of a query before anything is committed
abbrev pub after_query : {A : Type 0} → Wire → Database → Result A × Database → Result A × Database
after_query answered db rest = rest
after_query (failed took) db rest = (err failure, db)
after_query (cancelled took) db rest = (err cancellation, db)

-- `_team_must_be_meaningful`, behind the limit on the field; `none` is a 422
unfoldable pub meaningful_team : String → Option String
meaningful_team value =
    if leb (len value) 255 && not (is_blank (strip value)) then some (strip value) else none

-- `record.revoked = True`
abbrev pub mark : ℕ → List ApiKeyRecord → List ApiKeyRecord
mark i [] = []
mark i (row ∷ rows) = record row { revoked = row.id == i || row.revoked } ∷ mark i rows

-- `get_key`
unfoldable pub get_key : Turn → ℕ → Database → Result ApiKeyRecord × Database
unfolding find_row
get_key t key_id db = after_query t.query db (elim (find_row key_id db.keys) [
  | none ↦ (err (http 404 "key not found"), db)
  | some row ↦ (ok row, db)
])

abbrev pub matching : String → List ApiKeyRecord → List ApiKeyRecord
matching h [] = []
matching h (row ∷ rows) =
    let rest = matching h rows in
    if str_eq row.key_hash h && not row.revoked then row ∷ rest else rest

abbrev pub one_or_none : List ApiKeyRecord → Lookup
one_or_none [] = missing
one_or_none (row ∷ []) = found
one_or_none (row ∷ rows) = broken failure

-- `CreateKeyResponse`
pub record CreateKeyResponse : Type 0 where
  pub api_key : String
  pub team : String
  pub id : ℕ

module _ (hash_key : String → String) where
  abbrev pub event : Turn → String → ℕ → String → AdminAuditEntry
  event t action key_id team = record {
    request_id = t.request_id;
    action = action;
    key_id = key_id;
    team = team;
    admin_key_hash = hash_key t.admin_key;
    created_at = t.now;
  }

  -- the two rows that `create_key` adds
  abbrev pub issue : Turn → String → Database → Database
  issue t team db = record {
    keys =
        (record {
          id = t.new_id;
          key_hash = hash_key t.raw_key;
          team = team;
          created_at = t.now;
          revoked = false;
        })
        ∷ db.keys;
    events = event t "issued" t.new_id team ∷ db.events;
  }

  -- `create_key`; the id and the hash are unique in the table, so that the flush of a second row
  -- with either raises
  unfoldable pub create_key : Turn → String → Database → Result CreateKeyResponse × Database
  unfolding end_transaction
  create_key t team db =
      if has_id t.new_id db.keys || has_hash (hash_key t.raw_key) db.keys
      then (err failure, db)
      else after_query t.query db (
          end_transaction t.commit (record { api_key = t.raw_key; team = team; id = t.new_id }) db
            (issue t team db))

  abbrev pub revoke_row : Turn → ℕ → Database → Option ApiKeyRecord → Result ℕ × Database
  revoke_row t key_id db none = (err (http 404 "key not found"), db)
  revoke_row t key_id db (some row) = end_transaction t.commit key_id db (record {
    keys = mark key_id db.keys;
    events = event t "revoked" key_id row.team ∷ db.events;
  })

  -- `revoke_key`
  unfoldable pub revoke_key : Turn → ℕ → Database → Result ℕ × Database
  unfolding end_transaction find_row
  revoke_key t key_id db = after_query t.query db (revoke_row t key_id db (find_row key_id db.keys))

  -- `_is_valid_db_key` of app/security/auth.py, on the rows as they are
  unfoldable pub is_valid_db_key : Database → String → Lookup
  is_valid_db_key db presented = one_or_none (matching (hash_key presented) db.keys)

-- One request of the admin API that may write.
pub data Request : Type 0 where
  create : Turn → String → Request
  revoke : Turn → ℕ → Request

module _ (hash_key : String → String) where
  unfoldable pub serve : Request → Database → Database
  unfolding create_key revoke_key
  serve (create t team) db = (create_key hash_key t team db).1
  serve (revoke t key_id) db = (revoke_key hash_key t key_id db).1

  -- any number of requests, in the order in which they commit
  unfoldable pub serve_all : List Request → Database → Database
  unfolding serve
  serve_all [] db = db
  serve_all (r ∷ rs) db = serve_all rs (serve r db)
