-- ===== src/Admin/Revocation.antt =====
-- A revoked key, at the door of the client routes.
use llm_gateway_fallback_rou.Base.{
  ℕ, String, ◌≡◌, refl, sym, true, false, Option, none, some, List, [], ◌∷◌, ◌==◌, str_eq,
  str_eq_refl, eq_iff, subst, member, arith, All, inl, inr, Bool-cases,
}
use llm_gateway_fallback_rou.Ledger.{Wire, answered, failed, cancelled, ok}
use llm_gateway_fallback_rou.Gate.{Gate, require_api_key}
use llm_gateway_fallback_rou.Gate.Keys.{Headers}
use llm_gateway_fallback_rou.Gate.Admission.{require_api_key-IsKnown}
use llm_gateway_fallback_rou.Admin.{
  ApiKeyRecord, Database, Turn, has_id, has_hash, find_row, end_transaction, after_query, event,
  issue, create_key, mark, revoke_row, revoke_key, matching, is_valid_db_key, Request, create,
  revoke, serve, serve_all,
}
use llm_gateway_fallback_rou.Admin.Table.{
  Distinct, IsTable, has_hash-mark, end_transaction-cases, after_query-cases,
}

abbrev IsRevoked : String → ApiKeyRecord → Type 0
IsRevoked h row = str_eq row.key_hash h ≡ true → row.revoked ≡ true

-- The hash is in the table, in revoked rows only.
abbrev IsDead : String → Database → Type 0
IsDead h db = (has_hash h db.keys ≡ true) × All (IsRevoked h) db.keys

matching_dead :
    (h : String) (rows : List ApiKeyRecord) → All (IsRevoked h) rows → matching h rows ≡ []
matching_dead h [] all = refl
matching_dead h (row ∷ rows) all = grind (arith, all.0, matching_dead h rows all.1)

mark_dead :
    (h : String) (i : ℕ) (rows : List ApiKeyRecord)
    → All (IsRevoked h) rows
    → All (IsRevoked h) (mark i rows)
mark_dead h i [] all = tt
mark_dead h i (row ∷ rows) all = (λ e. ground (arith, all.0 e), mark_dead h i rows all.1)

-- nothing else has the hash of a row that is in the table
others_dead :
    (h : String) (rows : List ApiKeyRecord) → has_hash h rows ≡ false → All (IsRevoked h) rows
others_dead h [] absent = tt
others_dead h (row ∷ rows) absent =
    (λ e. ground (arith, absent, e), others_dead h rows (ground (arith, absent)))

fresh_dead :
    (new h : String) (rows : List ApiKeyRecord)
    → has_hash new rows ≡ false
    → has_hash h rows ≡ true
    → str_eq new h ≡ false
fresh_dead new h rows free there = grind (arith, free, there, eq_iff new h)

marked_dead :
    (i : ℕ) (rows : List ApiKeyRecord) (row : ApiKeyRecord)
    → Distinct rows
    → find_row i rows ≡ some row
    → (has_hash row.key_hash rows ≡ true) × All (IsRevoked row.key_hash) (mark i rows)
unfolding find_row
marked_dead i [] row d e = cc e
marked_dead i (r ∷ rows) row d e = elim (Bool-cases (r.id == i)) [
  | inl same ↦
      let at_row : r ≡ row = ground (arith, rw same at e) in
      subst
        (λ (x : ApiKeyRecord).
          (has_hash x.key_hash (r ∷ rows) ≡ true) × All (IsRevoked x.key_hash) (mark i (r ∷ rows)))
        at_row
        (
          ground (arith, str_eq_refl r.key_hash),
          (
            (λ x. ground (arith, same)),
            mark_dead r.key_hash i rows (others_dead r.key_hash rows d.1),
          ),
        )
  | inr other ↦
      let rest = marked_dead i rows row d.2 (rw other at e) in
      let unlike = fresh_dead r.key_hash row.key_hash rows d.1 rest.0 in
      (ground (arith, rest.0), ((λ x. cc), rest.1))
]

module _ (hash_key : String → String) (h : String) where
  create_key-IsDead :
      (t : Turn) (team : String) (db : Database)
      → IsDead h db
      → IsDead h (create_key hash_key t team db).1
  unfolding create_key
  create_key-IsDead t team db dead = elim (Bool-cases (has_id t.new_id db.keys)) [
    | inl taken ↦ rw (taken, create_key) dead
    | inr id_free ↦ elim (Bool-cases (has_hash (hash_key t.raw_key) db.keys)) [
      | inl taken ↦ rw (id_free, create_key) (rw taken dead)
      | inr free ↦
          let unlike = fresh_dead (hash_key t.raw_key) h db.keys free dead.0 in
          rw (id_free, create_key)
            (rw free (
              after_query-cases (IsDead h) t.query db
                (end_transaction t.commit
                  (record { api_key = t.raw_key; team = team; id = t.new_id }) db
                  (issue hash_key t team db))
                dead
                (end_transaction-cases (IsDead h) t.commit
                  (record { api_key = t.raw_key; team = team; id = t.new_id }) db
                  (issue hash_key t team db) dead (ground (arith, dead.0), ((λ x. cc), dead.1)))))
    ]
  ]

  revoke_row-IsDead :
      (t : Turn) (i : ℕ) (db : Database) (r : Option ApiKeyRecord)
      → IsDead h db
      → IsDead h (revoke_row hash_key t i db r).1
  revoke_row-IsDead t i db none dead = dead
  revoke_row-IsDead t i db (some row) dead =
      end_transaction-cases (IsDead h) t.commit i db
        (record {
          keys = mark i db.keys;
          events = event hash_key t "revoked" i row.team ∷ db.events;
        })
        dead (rw (has_hash-mark h i db.keys) dead.0, mark_dead h i db.keys dead.1)

  revoke_key-IsDead :
      (t : Turn) (i : ℕ) (db : Database) → IsDead h db → IsDead h (revoke_key hash_key t i db).1
  unfolding revoke_key
  revoke_key-IsDead t i db dead =
      after_query-cases (IsDead h) t.query db (revoke_row hash_key t i db (find_row i db.keys)) dead
        (revoke_row-IsDead t i db (find_row i db.keys) dead)

  serve_all-IsDead :
      (rs : List Request) (db : Database) → IsDead h db → IsDead h (serve_all hash_key rs db)
  unfolding serve_all serve
  serve_all-IsDead [] db dead = dead
  serve_all-IsDead (create t team ∷ rs) db dead =
      serve_all-IsDead rs (create_key hash_key t team db).1 (create_key-IsDead t team db dead)
  serve_all-IsDead (revoke t i ∷ rs) db dead =
      serve_all-IsDead rs (revoke_key hash_key t i db).1 (revoke_key-IsDead t i db dead)

committed :
    {A : Type 0} (q c : Wire) (a b : A) (old new : Database)
    → (after_query q old (end_transaction c a old new)).0 ≡ ok b
    → (after_query q old (end_transaction c a old new)).1 ≡ new
unfolding end_transaction
committed answered answered a b old new e = refl
committed answered (failed took) a b old new e = cc e
committed answered (cancelled took) a b old new e = cc e
committed (failed took) c a b old new e = cc e
committed (cancelled took) c a b old new e = cc e

-- A request that is answered has revoked the row with every other row of its hash.
revoke_key-IsDead' :
    (hash_key : String → String) (t : Turn) (i : ℕ) (row : ApiKeyRecord) (db : Database)
    → IsTable db
    → find_row i db.keys ≡ some row
    → (revoke_key hash_key t i db).0 ≡ ok i
    → IsDead row.key_hash (revoke_key hash_key t i db).1
unfolding revoke_key
revoke_key-IsDead' hash_key t i row db w there answer =
    let dead = marked_dead i db.keys row w.distinct there in
    let new : Database = record {
      keys = mark i db.keys;
      events = event hash_key t "revoked" i row.team ∷ db.events;
    } in
    let done = committed t.query t.commit i i db new (rw (there, revoke_key) at answer) in
    rw (there, revoke_key)
      (subst (IsDead row.key_hash) (sym done)
        (rw (has_hash-mark row.key_hash i db.keys) dead.0, dead.1))

-- the gate of the client routes, over the table as it stands
abbrev pub with_table : (String → String) → Database → Gate → Gate
with_table hash_key db g = record g { db_key = is_valid_db_key hash_key db }

-- Once a revocation has been answered, and whatever the admin API serves after it, in whatever
-- way its transactions end: a caller with that key passes only if the settings list the key too.
pub revoked_for_good :
    (hash_key : String → String) (t : Turn) (i : ℕ) (row : ApiKeyRecord) (db : Database)
    (rs : List Request) (g : Gate) (headers : Headers) (key : String)
    → IsTable db
    → find_row i db.keys ≡ some row
    → (revoke_key hash_key t i db).0 ≡ ok i
    → hash_key key ≡ row.key_hash
    → require_api_key
        (with_table hash_key (serve_all hash_key rs (revoke_key hash_key t i db).1) g)
        headers
      ≡ ok key
    → member key g.allowed ≡ true
unfolding is_valid_db_key
revoked_for_good hash_key t i row db rs g headers key w there answer hashed passes =
    let db' = serve_all hash_key rs (revoke_key hash_key t i db).1 in
    let dead =
      serve_all-IsDead hash_key row.key_hash rs (revoke_key hash_key t i db).1
        (revoke_key-IsDead' hash_key t i row db w there answer) in
    elim (require_api_key-IsKnown (with_table hash_key db' g) headers key passes).2 [
      | inl listed ↦ listed
      | inr held ↦
          let unmatched : matching (hash_key key) db'.keys ≡ [] =
            rw hashed (matching_dead row.key_hash db'.keys dead.1) in
          cc (rw (unmatched, is_valid_db_key) at held)
    ]
