-- ===== src/Migrations/Revert.antt =====
-- A downgrade undoes its upgrade.
use llm_gateway_fallback_rou.Base.{
  ◌≡◌, refl, Bool, true, false, Option, none, some, Option-cases, List, [], ◌∷◌, ◌++◌, inl, inr,
  sym, ◌∙◌,
}
use llm_gateway_fallback_rou.Migrations.{
  Operation, create_table, create_index, drop_index, drop_table, Table, Index, initial_schema,
  add_admin_audit_log, upgrade_to_head, downgrade_to_base,
}

-- A database performs the operations in order; `none` is the first one's exception.
unfoldable pub run : {S : Type 0} → (Operation → S → Option S) → List Operation → S → Option S
run perform [] s = some s
run perform (o ∷ os) s = elim (perform o s) [ none ↦ none | some s' ↦ run perform os s' ]

-- What SQL promises: dropping what was just created gives the database of before.
pub record IsSql {S : Type 0} (perform : Operation → S → Option S) : Type 0 where
  pub table_dropped :
      (t : Table) (s s' : S)
      → perform (create_table t) s ≡ some s'
      → perform (drop_table t.name) s' ≡ some s
  pub index_dropped :
      (i : Index) (s s' : S)
      → perform (create_index i) s ≡ some s'
      → perform (drop_index i.name i.table) s' ≡ some s

-- the drop of what an operation creates
abbrev pub undone : Operation → Option Operation
undone (create_table t) = some (drop_table t.name)
undone (create_index i) = some (drop_index i.name i.table)
undone (drop_index n t) = none
undone (drop_table n) = none

-- the drops of what the operations create, the last first
unfoldable pub undo : List Operation → List Operation
undo [] = []
undo (o ∷ os) = elim (undone o) [ none ↦ undo os | some u ↦ undo os ++ (u ∷ []) ]

-- whether the operations only create
unfoldable pub creates : List Operation → Bool
creates [] = true
creates (o ∷ os) = elim (undone o) [ none ↦ false | some u ↦ creates os ]

module _ {S : Type 0} (perform : Operation → S → Option S) where
  run-append :
      (xs ys : List Operation) (s s' : S)
      → run perform xs s ≡ some s'
      → run perform (xs ++ ys) s ≡ run perform ys s'
  unfolding run
  run-append [] ys s s' e = let same : s ≡ s' = cc e in rw same refl
  run-append (x ∷ xs) ys s s' e = elim (Option-cases (perform x s)) [
    | inl failed ↦ cc (rw (failed, run) at e)
    | inr (s₁, done) ↦ rw (done, run) (run-append xs ys s₁ s' (rw (done, run) at e))
  ]

  -- a creation and its drop, around operations that are undone
  undo_step :
      (o u : Operation) (os : List Operation) (s s' : S)
      → ((t : S) → perform o s ≡ some t → perform u t ≡ some s)
      → ((t : S) → run perform os t ≡ some s' → run perform (undo os) s' ≡ some t)
      → run perform (o ∷ os) s ≡ some s'
      → run perform (undo os ++ (u ∷ [])) s' ≡ some s
  unfolding run
  undo_step o u os s s' back rest e = elim (Option-cases (perform o s)) [
    | inl failed ↦ cc (rw (failed, run) at e)
    | inr (t, done) ↦
        run-append (undo os) (u ∷ []) s' t (rest t (rw (done, run) at e))
        ∙ rw (back t done, run) refl
  ]

  module _ (sql : IsSql perform) where
    run-undo :
        (os : List Operation) (s s' : S)
        → creates os ≡ true
        → run perform os s ≡ some s'
        → run perform (undo os) s' ≡ some s
    unfolding run undo creates
    run-undo [] s s' c e = sym e
    run-undo (create_table t ∷ os) s s' c e =
        undo_step (create_table t) (drop_table t.name) os s s' (sql.table_dropped t s)
          (λ r. run-undo os r s' c) e
    run-undo (create_index i ∷ os) s s' c e =
        undo_step (create_index i) (drop_index i.name i.table) os s s' (sql.index_dropped i s)
          (λ r. run-undo os r s' c) e
    run-undo (drop_index n t ∷ os) s s' c e = cc c
    run-undo (drop_table n ∷ os) s s' c e = cc c

-- the moves between revisions that Alembic can be asked for: one revision, or all of them
pub data Span : Type 0 where
  first second whole : Span

abbrev pub upgrade_of : Span → List Operation
upgrade_of first = initial_schema.upgrade
upgrade_of second = add_admin_audit_log.upgrade
upgrade_of whole = upgrade_to_head

abbrev pub downgrade_of : Span → List Operation
downgrade_of first = initial_schema.downgrade
downgrade_of second = add_admin_audit_log.downgrade
downgrade_of whole = downgrade_to_base

-- On any database that keeps the promise of SQL that a drop right after its creation gives the
-- database of before, and in any state: the downgrade of either revision, or of both, comes
-- through after its upgrade has come through, and restores the state.
pub downgrade_restores :
    {S : Type 0} (perform : Operation → S → Option S)
    → IsSql perform
    → (span : Span) (s s' : S) → run perform (upgrade_of span) s ≡ some s'
    → run perform (downgrade_of span) s' ≡ some s
unfolding undo creates
downgrade_restores perform sql first s s' e =
    run-undo perform sql initial_schema.upgrade s s' refl e
downgrade_restores perform sql second s s' e =
    run-undo perform sql add_admin_audit_log.upgrade s s' refl e
downgrade_restores perform sql whole s s' e = run-undo perform sql upgrade_to_head s s' refl e
