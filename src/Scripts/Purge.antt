-- ===== src/Scripts/Purge.antt =====
-- scripts/purge_audit_rows.py: removing the audit rows of one request id, with a copy. The rows
-- are read in one transaction and removed in another; what others write in between is given.
use llm_gateway_fallback_rou.Base.{
  ℕ, ◌+◌, ◌≤◌, String, ◌≡◌, refl, ap, Bool, true, false, not, List, [], ◌∷◌, ◌++◌, str_eq, arith,
  if◌then◌else◌, Bool-cases, inl, inr,
}
use llm_gateway_fallback_rou.Ledger.{
  Wire, answered, failed, cancelled, failure, cancellation, Result, ok, err,
}
use llm_gateway_fallback_rou.Admin.Pages.{AuditLogEntry, keep_rows}

-- What surrounds one run: the ends of the query, of the write of the file and of the deletion,
-- whether the file reads back as long as it was written, and what is written meanwhile. The script
-- compares the lengths alone; a file of the right length is taken to hold the rows.
pub record Run : Type 0 where
  pub query : Wire
  pub write : Wire
  pub reads_back : Bool
  pub meanwhile : List AuditLogEntry
  pub commit : Wire

abbrev pub carries : String → AuditLogEntry → Bool
carries request_id row = str_eq row.request_id request_id

-- What a run leaves: its exit code or its exception, the rows of the audit log, and the file.
pub record Left : Type 0 where
  pub code : Result ℕ
  pub rows : List AuditLogEntry
  pub exported : List AuditLogEntry

abbrev pub leave : Result ℕ → List AuditLogEntry → List AuditLogEntry → Left
leave code rows exported = record { code = code; rows = rows; exported = exported }

-- `_delete_rows_carrying`
abbrev pub delete_rows : String → List AuditLogEntry → List AuditLogEntry
delete_rows request_id rows = keep_rows (λ row. not (carries request_id row)) rows

abbrev pub remove : String → List AuditLogEntry → List AuditLogEntry → Wire → Left
remove request_id found rows answered = leave (ok 0) (delete_rows request_id rows) found
remove request_id found rows (failed took) =
    leave (err failure) (if took then delete_rows request_id rows else rows) found
remove request_id found rows (cancelled took) =
    leave (err cancellation) (if took then delete_rows request_id rows else rows) found

-- the file, and then the deletion
abbrev pub export_then_remove : Run → String → List AuditLogEntry → List AuditLogEntry → Wire → Left
export_then_remove run request_id found rows answered =
    if run.reads_back
    then remove request_id found (run.meanwhile ++ rows) run.commit
    else leave (err failure) rows []
export_then_remove run request_id found rows (failed took) = leave (err failure) rows []
export_then_remove run request_id found rows (cancelled took) = leave (err cancellation) rows []

abbrev pub act : Run → String → Bool → List AuditLogEntry → List AuditLogEntry → Left
act run request_id apply [] rows = leave (ok 0) rows []
act run request_id apply (row ∷ found) rows =
    if apply
    then export_then_remove run request_id (row ∷ found) rows run.write
    else leave (ok 0) rows []

-- `purge`, after `init_db`
unfoldable pub purge : Run → String → Bool → List AuditLogEntry → Left
purge run request_id apply rows = elim run.query [
  | answered ↦ act run request_id apply (keep_rows (carries request_id) rows) rows
  | failed took ↦ leave (ok 2) rows []
  | cancelled took ↦ leave (err cancellation) rows []
]

abbrev pub count : (AuditLogEntry → Bool) → List AuditLogEntry → ℕ
count test [] = 0
count test (row ∷ rows) = (if test row then 1 else 0) + count test rows

-- By any test, the rows that were there are in the log or in the file.
abbrev IsKept : (AuditLogEntry → Bool) → List AuditLogEntry → Left → Type 0
IsKept test rows left = count test rows ≤ count test left.rows + count test left.exported

module _ (test : AuditLogEntry → Bool) where
  count-append :
      (xs ys : List AuditLogEntry) → count test (xs ++ ys) ≡ count test xs + count test ys
  count-append [] ys = omega arith
  count-append (x ∷ xs) ys = omega (arith, count-append xs ys)

  count-split :
      (request_id : String) (rows : List AuditLogEntry)
      → count test rows
        ≡ count test (delete_rows request_id rows)
          + count test (keep_rows (carries request_id) rows)
  count-split request_id [] = omega arith
  count-split request_id (row ∷ rows) = elim (Bool-cases (carries request_id row)) [
    | inl this ↦ rw this (omega (arith, count-split request_id rows))
    | inr other ↦ rw other (omega (arith, count-split request_id rows))
  ]

  delete_rows-append :
      (request_id : String) (xs ys : List AuditLogEntry)
      → count test (delete_rows request_id ys) ≤ count test (delete_rows request_id (xs ++ ys))
  delete_rows-append request_id [] ys = omega arith
  delete_rows-append request_id (x ∷ xs) ys = elim (Bool-cases (carries request_id x)) [
    | inl this ↦ rw this (delete_rows-append request_id xs ys)
    | inr other ↦ rw other (omega (arith, delete_rows-append request_id xs ys))
  ]

  remove-IsKept :
      (request_id : String) (xs rows found : List AuditLogEntry) (commit : Wire)
      → keep_rows (carries request_id) rows ≡ found
      → IsKept test rows (remove request_id found (xs ++ rows) commit)
  remove-IsKept request_id xs rows found commit e =
      let split = count-split request_id rows in
      let later = delete_rows-append request_id xs rows in
      let more = count-append xs rows in
      let copies = ap (count test) e in ground (arith, split, later, more, copies)

  act-IsKept :
      (run : Run) (request_id : String) (apply : Bool) (found rows : List AuditLogEntry)
      → keep_rows (carries request_id) rows ≡ found
      → IsKept test rows (act run request_id apply found rows)
  act-IsKept run request_id apply [] rows e = omega arith
  act-IsKept run request_id false (row ∷ found) rows e = omega arith
  act-IsKept run request_id true (row ∷ found) rows e =
      ground (arith, remove-IsKept request_id run.meanwhile rows (row ∷ found) run.commit e)

-- However a run ends, dry or not, and whatever is written to the log meanwhile: every row that
-- was in the log when the run began is still in it or in the file that was written and read back.
pub purge-IsKept :
    (run : Run) (request_id : String) (apply : Bool) (rows : List AuditLogEntry)
    (test : AuditLogEntry → Bool)
    → let left = purge run request_id apply rows in
      count test rows ≤ count test left.rows + count test left.exported
unfolding purge
purge-IsKept run request_id apply rows test =
    ground
      (arith, act-IsKept test run request_id apply (keep_rows (carries request_id) rows) rows refl)
