-- ===== src/Migrations/Models.antt =====
-- The migrated tables are the tables of the models.
use llm_gateway_fallback_rou.Base.{
  String, ◌≡◌, refl, Bool, false, ◌&&◌, Option, none, some, List, [], ◌∷◌, str_eq, if◌then◌else◌,
  Bool-cases, inl, inr, eq_iff, arith,
}
use llm_gateway_fallback_rou.Migrations.{
  Operation, create_table, create_index, drop_index, drop_table, Table, Column, Mapped, Model,
  upgrade_to_head, metadata,
}

-- the table of a name that the operations create
abbrev pub created_table : String → List Operation → Option Table
created_table name [] = none
created_table name (create_table t ∷ os) =
    if str_eq name t.name then some t else created_table name os
created_table name (create_index i ∷ os) = created_table name os
created_table name (drop_index n t ∷ os) = created_table name os
created_table name (drop_table n ∷ os) = created_table name os

-- whether the one column of an index is this one
abbrev is_on : String → List String → Bool
is_on c [] = false
is_on c (d ∷ []) = str_eq c d
is_on c (d ∷ e ∷ ds) = false

-- the uniqueness of the index on one column that the operations create
abbrev pub created_index : String → String → List Operation → Option Bool
created_index name c [] = none
created_index name c (create_table t ∷ os) = created_index name c os
created_index name c (create_index i ∷ os) =
    if str_eq name i.table && is_on c i.columns then some i.unique else created_index name c os
created_index name c (drop_index n t ∷ os) = created_index name c os
created_index name c (drop_table n ∷ os) = created_index name c os

abbrev columns_of : List Mapped → List Column
columns_of [] = []
columns_of (m ∷ ms) =
    record { name = m.name; sql_type = m.sql_type; nullable = false } ∷ columns_of ms

abbrev keys_of : List Mapped → List String
keys_of [] = []
keys_of (m ∷ ms) = if m.primary_key then m.name ∷ keys_of ms else keys_of ms

-- the table of a name that the models declare
abbrev pub declared_table : String → List Model → Option Table
declared_table name [] = none
declared_table name (m ∷ ms) =
    if str_eq name m.table_name
    then some (record {
      name = m.table_name;
      columns = columns_of m.mapped_columns;
      primary_key = keys_of m.mapped_columns;
    })
    else declared_table name ms

abbrev index_of : String → List Mapped → Option Bool
index_of c [] = none
index_of c (m ∷ ms) = if m.index && str_eq c m.name then some m.unique else index_of c ms

-- the uniqueness of the index on one column that the models declare
abbrev pub declared_index : String → String → List Model → Option Bool
declared_index name c [] = none
declared_index name c (m ∷ ms) =
    if str_eq name m.table_name then index_of c m.mapped_columns else declared_index name c ms

-- The revisions create, all together, the very tables that the models declare, whatever name is
-- looked up: the same columns in the same order, of the same types, none of them nullable, and
-- the same primary key; and an index on one column exactly where the models ask for one, unique
-- exactly where they ask for that.
pub head_is_metadata :
    (name c : String)
    → (created_table name upgrade_to_head ≡ declared_table name metadata)
      × (created_index name c upgrade_to_head ≡ declared_index name c metadata)
head_is_metadata name c = elim (Bool-cases (str_eq name "api_keys")) [
  | inl e ↦
      let same : name ≡ "api_keys" = (eq_iff name "api_keys").0 e in rw same (refl, ground arith)
  | inr a ↦ elim (Bool-cases (str_eq name "audit_log")) [
    | inl e ↦
        let same : name ≡ "audit_log" = (eq_iff name "audit_log").0 e in
        rw same (refl, ground (arith, eq_iff c "request_id", eq_iff c "api_key_hash"))
    | inr b ↦ elim (Bool-cases (str_eq name "admin_audit_log")) [
      | inl e ↦
          let same : name ≡ "admin_audit_log" = (eq_iff name "admin_audit_log").0 e in
          rw same
            (refl, ground (arith, eq_iff c "request_id", eq_iff c "action", eq_iff c "key_id"))
      | inr d ↦ rw (a, b, d) (refl, refl)
    ]
  ]
]
