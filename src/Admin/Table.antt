-- ===== src/Admin/Table.antt =====
-- What the key table and the log of key events say of each other.
use llm_gateway_fallback_rou.Base.{
  ℕ, String, ◌≡◌, refl, Bool, true, false, ◌||◌, ◌&&◌, Option, none, some, List, [], ◌∷◌, ◌==◌,
  str_eq, arith, All, inl, inr, Bool-cases,
}
use llm_gateway_fallback_rou.Ledger.{Wire, answered, failed, cancelled, Result}
use llm_gateway_fallback_rou.Admin.{
  ApiKeyRecord, AdminAuditEntry, Database, Turn, has_id, has_hash, find_row, end_transaction,
  after_query, event, issue, create_key, mark, revoke_row, revoke_key, Request, create, revoke,
  serve, serve_all,
}

abbrev pub has_event : String → ℕ → List AdminAuditEntry → Bool
has_event action i [] = false
has_event action i (e ∷ es) = (str_eq e.action action && e.key_id == i) || has_event action i es

-- No two rows share an id or a hash.
abbrev pub Distinct : List ApiKeyRecord → Type 0
Distinct [] = Unit
Distinct (row ∷ rows) =
    (has_id row.id rows ≡ false) × (has_hash row.key_hash rows ≡ false) × Distinct rows

-- The log has the issue of this key, and a revocation exactly if the key is revoked.
abbrev pub IsLogged : List AdminAuditEntry → ApiKeyRecord → Type 0
IsLogged es row =
    (has_event "issued" row.id es ≡ true) × (has_event "revoked" row.id es ≡ row.revoked)

abbrev pub IsAbout : List ApiKeyRecord → AdminAuditEntry → Type 0
IsAbout rows e = has_id e.key_id rows ≡ true

pub record IsTable (db : Database) : Type 0 where
  pub distinct : Distinct db.keys
  pub logged : All (IsLogged db.events) db.keys
  pub about : All (IsAbout db.keys) db.events

-- A transaction leaves its writes or nothing.
pub end_transaction-cases :
    {A : Type 0} (P : Database → Type 0) (w : Wire) (a : A) (old new : Database)
    → P old
    → P new
    → P (end_transaction w a old new).1
unfolding end_transaction
end_transaction-cases P answered a old new x y = y
end_transaction-cases P (failed true) a old new x y = y
end_transaction-cases P (failed false) a old new x y = x
end_transaction-cases P (cancelled true) a old new x y = y
end_transaction-cases P (cancelled false) a old new x y = x

pub after_query-cases :
    {A : Type 0} (P : Database → Type 0) (w : Wire) (db : Database) (rest : Result A × Database)
    → P db
    → P rest.1
    → P (after_query w db rest).1
after_query-cases P answered db rest x y = y
after_query-cases P (failed took) db rest x y = x
after_query-cases P (cancelled took) db rest x y = x

-- what is absent is not the subject of any event
not_about :
    (action : String) (i : ℕ) (rows : List ApiKeyRecord) (es : List AdminAuditEntry)
    → has_id i rows ≡ false
    → All (IsAbout rows) es
    → has_event action i es ≡ false
not_about action i rows [] absent about = refl
not_about action i rows (e ∷ es) absent about =
    grind (arith, absent, about.0, not_about action i rows es absent about.1)

IsAbout-cons :
    (row : ApiKeyRecord) (rows : List ApiKeyRecord) (es : List AdminAuditEntry)
    → All (IsAbout rows) es
    → All (IsAbout (row ∷ rows)) es
IsAbout-cons row rows [] all = tt
IsAbout-cons row rows (e ∷ es) all = (ground (arith, all.0), IsAbout-cons row rows es all.1)

-- an event about another key
IsLogged-cons :
    (e : AdminAuditEntry) (es : List AdminAuditEntry) (rows : List ApiKeyRecord)
    → has_id e.key_id rows ≡ false
    → All (IsLogged es) rows
    → All (IsLogged (e ∷ es)) rows
IsLogged-cons e es [] absent all = tt
IsLogged-cons e es (row ∷ rows) absent all =
    (grind (arith, absent, all.0), IsLogged-cons e es rows (ground (arith, absent)) all.1)

has_id-mark : (i j : ℕ) (rows : List ApiKeyRecord) → has_id i (mark j rows) ≡ has_id i rows
has_id-mark i j [] = refl
has_id-mark i j (row ∷ rows) = rw (has_id-mark i j rows) refl

pub has_hash-mark :
    (h : String) (j : ℕ) (rows : List ApiKeyRecord) → has_hash h (mark j rows) ≡ has_hash h rows
has_hash-mark h j [] = refl
has_hash-mark h j (row ∷ rows) = rw (has_hash-mark h j rows) refl

mark-Distinct : (j : ℕ) (rows : List ApiKeyRecord) → Distinct rows → Distinct (mark j rows)
mark-Distinct j [] d = tt
mark-Distinct j (row ∷ rows) d = (
  rw (has_id-mark row.id j rows) d.0,
  rw (has_hash-mark row.key_hash j rows) d.1,
  mark-Distinct j rows d.2,
)

mark-IsAbout :
    (j : ℕ) (rows : List ApiKeyRecord) (es : List AdminAuditEntry)
    → All (IsAbout rows) es
    → All (IsAbout (mark j rows)) es
mark-IsAbout j rows [] all = tt
mark-IsAbout j rows (e ∷ es) all =
    (rw (has_id-mark e.key_id j rows) all.0, mark-IsAbout j rows es all.1)

mark-IsLogged :
    (e : AdminAuditEntry) (es : List AdminAuditEntry) (rows : List ApiKeyRecord)
    → str_eq e.action "revoked" ≡ true
    → All (IsLogged es) rows
    → All (IsLogged (e ∷ es)) (mark e.key_id rows)
mark-IsLogged e es [] named all = tt
mark-IsLogged e es (row ∷ rows) named all =
    (grind (arith, all.0, named), mark-IsLogged e es rows named all.1)

found-has_id :
    (i : ℕ) (rows : List ApiKeyRecord) (row : ApiKeyRecord)
    → find_row i rows ≡ some row
    → has_id i rows ≡ true
unfolding find_row
found-has_id i [] row e = cc e
found-has_id i (r ∷ rows) row e = ground (arith, e, found-has_id i rows row)

module _ (hash_key : String → String) where
  issue-IsTable :
      (t : Turn) (team : String) (db : Database)
      → has_id t.new_id db.keys ≡ false
      → has_hash (hash_key t.raw_key) db.keys ≡ false
      → IsTable db
      → IsTable (issue hash_key t team db)
  issue-IsTable t team db id_free hash_free w =
      let e = event hash_key t "issued" t.new_id team in
      let row : ApiKeyRecord = record {
        id = t.new_id;
        key_hash = hash_key t.raw_key;
        team = team;
        created_at = t.now;
        revoked = false;
      } in
      record {
        distinct = (id_free, hash_free, w.distinct);
        logged = (
          (ground arith, not_about "revoked" t.new_id db.keys db.events id_free w.about),
          IsLogged-cons e db.events db.keys id_free w.logged,
        );
        about = (ground arith, IsAbout-cons row db.keys db.events w.about);
      }

  create_key-IsTable :
      (t : Turn) (team : String) (db : Database)
      → IsTable db
      → IsTable (create_key hash_key t team db).1
  unfolding create_key
  create_key-IsTable t team db w = elim (Bool-cases (has_id t.new_id db.keys)) [
    | inl taken ↦ rw (taken, create_key) w
    | inr id_free ↦ elim (Bool-cases (has_hash (hash_key t.raw_key) db.keys)) [
      | inl taken ↦ rw (id_free, create_key) (rw taken w)
      | inr hash_free ↦
          rw (id_free, create_key)
            (rw hash_free (
              after_query-cases IsTable t.query db
                (end_transaction t.commit
                  (record { api_key = t.raw_key; team = team; id = t.new_id }) db
                  (issue hash_key t team db))
                w
                (end_transaction-cases IsTable t.commit
                  (record { api_key = t.raw_key; team = team; id = t.new_id }) db
                  (issue hash_key t team db) w (issue-IsTable t team db id_free hash_free w))))
    ]
  ]

  marked-IsTable :
      (t : Turn) (i : ℕ) (row : ApiKeyRecord) (db : Database)
      → find_row i db.keys ≡ some row
      → IsTable db
      → IsTable (record {
        keys = mark i db.keys;
        events = event hash_key t "revoked" i row.team ∷ db.events;
      })
  marked-IsTable t i row db e w = record {
    distinct = mark-Distinct i db.keys w.distinct;
    logged = mark-IsLogged (event hash_key t "revoked" i row.team) db.events db.keys refl w.logged;
    about = (
      rw (has_id-mark i i db.keys) (found-has_id i db.keys row e),
      mark-IsAbout i db.keys db.events w.about,
    );
  }

  revoke_row-IsTable :
      (t : Turn) (i : ℕ) (db : Database) (r : Option ApiKeyRecord)
      → find_row i db.keys ≡ r
      → IsTable db
      → IsTable (revoke_row hash_key t i db r).1
  revoke_row-IsTable t i db none e w = w
  revoke_row-IsTable t i db (some row) e w =
      end_transaction-cases IsTable t.commit i db
        (record {
          keys = mark i db.keys;
          events = event hash_key t "revoked" i row.team ∷ db.events;
        })
        w (marked-IsTable t i row db e w)

  revoke_key-IsTable :
      (t : Turn) (i : ℕ) (db : Database) → IsTable db → IsTable (revoke_key hash_key t i db).1
  unfolding revoke_key
  revoke_key-IsTable t i db w =
      after_query-cases IsTable t.query db (revoke_row hash_key t i db (find_row i db.keys)) w
        (revoke_row-IsTable t i db (find_row i db.keys) refl w)

  -- Whatever requests the admin API serves, and however their queries and commits end: ids and
  -- hashes stay unique, every key in the table has its issue in the log of key events, and a key
  -- is revoked exactly if the log has its revocation.
  pub serve_all-IsTable :
      (rs : List Request) (db : Database) → IsTable db → IsTable (serve_all hash_key rs db)
  unfolding serve_all serve
  serve_all-IsTable [] db w = w
  serve_all-IsTable (create t team ∷ rs) db w =
      serve_all-IsTable rs (create_key hash_key t team db).1 (create_key-IsTable t team db w)
  serve_all-IsTable (revoke t i ∷ rs) db w =
      serve_all-IsTable rs (revoke_key hash_key t i db).1 (revoke_key-IsTable t i db w)
