-- ===== src/Migrations.antt =====
-- migrations/versions and app/db/models.py: the two revisions of the database schema, as the
-- operations that they ask Alembic for, and the tables that the models declare. What an operation
-- does to a database is Alembic's and the database's.
use llm_gateway_fallback_rou.Base.{
  ℕ, String, Bool, true, false, ◌&&◌, Option, none, some, List, [], ◌∷◌, ◌++◌, str_eq,
  if◌then◌else◌,
}
pub mod Revert
pub mod Models

-- the column types of SQLAlchemy that occur
pub data ColumnType : Type 0 where
  integer boolean float : ColumnType
  string : ℕ → ColumnType
  date_time : Bool → ColumnType

pub record Column : Type 0 where
  pub name : String
  pub sql_type : ColumnType
  pub nullable : Bool

pub record Table : Type 0 where
  pub name : String
  pub columns : List Column
  pub primary_key : List String

pub record Index : Type 0 where
  pub name : String
  pub table : String
  pub columns : List String
  pub unique : Bool

-- the calls of `op`
pub data Operation : Type 0 where
  create_table : Table → Operation
  create_index : Index → Operation
  drop_index : String → String → Operation
  drop_table : String → Operation

pub record Revision : Type 0 where
  pub revision : String
  pub down_revision : Option String
  pub upgrade : List Operation
  pub downgrade : List Operation

abbrev pub column : String → ColumnType → Column
column n t = record { name = n; sql_type = t; nullable = false }

abbrev pub single_index : String → String → String → Bool → Operation
single_index n t c u = create_index (record { name = n; table = t; columns = c ∷ []; unique = u })

abbrev pub api_keys : Table
api_keys = record {
  name = "api_keys";
  columns =
      column "id" integer
      ∷ column "key_hash" (string 64)
      ∷ column "team" (string 255)
      ∷ column "created_at" (date_time true)
      ∷ column "revoked" boolean
      ∷ [];
  primary_key = "id" ∷ [];
}

abbrev pub audit_log : Table
audit_log = record {
  name = "audit_log";
  columns =
      column "id" integer
      ∷ column "created_at" (date_time true)
      ∷ column "request_id" (string 64)
      ∷ column "api_key_hash" (string 64)
      ∷ column "team" (string 255)
      ∷ column "requested_model" (string 255)
      ∷ column "provider" (string 64)
      ∷ column "outcome" (string 32)
      ∷ column "input_tokens" integer
      ∷ column "output_tokens" integer
      ∷ column "cost_usd" float
      ∷ column "latency_ms" float
      ∷ [];
  primary_key = "id" ∷ [];
}

abbrev pub admin_audit_log : Table
admin_audit_log = record {
  name = "admin_audit_log";
  columns =
      column "id" integer
      ∷ column "created_at" (date_time true)
      ∷ column "request_id" (string 64)
      ∷ column "action" (string 32)
      ∷ column "key_id" integer
      ∷ column "team" (string 255)
      ∷ column "admin_key_hash" (string 64)
      ∷ [];
  primary_key = "id" ∷ [];
}

-- acabf75146f4_initial_schema.py
abbrev pub initial_schema : Revision
initial_schema = record {
  revision = "acabf75146f4";
  down_revision = none;
  upgrade =
      create_table api_keys
      ∷ single_index "ix_api_keys_key_hash" "api_keys" "key_hash" true
      ∷ create_table audit_log
      ∷ single_index "ix_audit_log_api_key_hash" "audit_log" "api_key_hash" false
      ∷ single_index "ix_audit_log_request_id" "audit_log" "request_id" false
      ∷ [];
  downgrade =
      drop_index "ix_audit_log_request_id" "audit_log"
      ∷ drop_index "ix_audit_log_api_key_hash" "audit_log"
      ∷ drop_table "audit_log"
      ∷ drop_index "ix_api_keys_key_hash" "api_keys"
      ∷ drop_table "api_keys"
      ∷ [];
}

-- 0a1c9736ca0a_add_admin_audit_log_for_key_issuance_.py
abbrev pub add_admin_audit_log : Revision
add_admin_audit_log = record {
  revision = "0a1c9736ca0a";
  down_revision = some "acabf75146f4";
  upgrade =
      create_table admin_audit_log
      ∷ single_index "ix_admin_audit_log_action" "admin_audit_log" "action" false
      ∷ single_index "ix_admin_audit_log_key_id" "admin_audit_log" "key_id" false
      ∷ single_index "ix_admin_audit_log_request_id" "admin_audit_log" "request_id" false
      ∷ [];
  downgrade =
      drop_index "ix_admin_audit_log_request_id" "admin_audit_log"
      ∷ drop_index "ix_admin_audit_log_key_id" "admin_audit_log"
      ∷ drop_index "ix_admin_audit_log_action" "admin_audit_log"
      ∷ drop_table "admin_audit_log"
      ∷ [];
}

-- the operations of an upgrade from nothing to the head
abbrev pub upgrade_to_head : List Operation
upgrade_to_head = initial_schema.upgrade ++ add_admin_audit_log.upgrade

-- the operations of a downgrade from the head to nothing
abbrev pub downgrade_to_base : List Operation
downgrade_to_base = add_admin_audit_log.downgrade ++ initial_schema.downgrade

-- `mapped_column`, with the type of its annotation; no annotation is optional
pub record Mapped : Type 0 where
  pub name : String
  pub sql_type : ColumnType
  pub primary_key : Bool
  pub index : Bool
  pub unique : Bool

pub record Model : Type 0 where
  pub table_name : String
  pub mapped_columns : List Mapped

abbrev plain : String → ColumnType → Mapped
plain n t = record { name = n; sql_type = t; primary_key = false; index = false; unique = false }

abbrev indexed : String → ColumnType → Mapped
indexed n t = record (plain n t) { index = true }

abbrev key : Mapped
key = record (plain "id" integer) { primary_key = true }

-- `ApiKeyRecord`
abbrev pub api_key_record : Model
api_key_record = record {
  table_name = "api_keys";
  mapped_columns =
      key
      ∷ record (indexed "key_hash" (string 64)) { unique = true }
      ∷ plain "team" (string 255)
      ∷ plain "created_at" (date_time true)
      ∷ plain "revoked" boolean
      ∷ [];
}

-- `AdminAuditEntry`
abbrev pub admin_audit_entry : Model
admin_audit_entry = record {
  table_name = "admin_audit_log";
  mapped_columns =
      key
      ∷ plain "created_at" (date_time true)
      ∷ indexed "request_id" (string 64)
      ∷ indexed "action" (string 32)
      ∷ indexed "key_id" integer
      ∷ plain "team" (string 255)
      ∷ plain "admin_key_hash" (string 64)
      ∷ [];
}

-- `AuditLogEntry`
abbrev pub audit_log_entry : Model
audit_log_entry = record {
  table_name = "audit_log";
  mapped_columns =
      key
      ∷ plain "created_at" (date_time true)
      ∷ indexed "request_id" (string 64)
      ∷ indexed "api_key_hash" (string 64)
      ∷ plain "team" (string 255)
      ∷ plain "requested_model" (string 255)
      ∷ plain "provider" (string 64)
      ∷ plain "outcome" (string 32)
      ∷ plain "input_tokens" integer
      ∷ plain "output_tokens" integer
      ∷ plain "cost_usd" float
      ∷ plain "latency_ms" float
      ∷ [];
}

-- the tables of `Base.metadata`
abbrev pub metadata : List Model
metadata = api_key_record ∷ admin_audit_entry ∷ audit_log_entry ∷ []
