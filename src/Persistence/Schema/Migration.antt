-- ===== src/Persistence/Schema/Migration.antt =====
-- persistence/migrations/versions/0001_auth_persistence.py: the operations of `upgrade` and of
-- `downgrade`, in their order. Alembic runs them.
pub mod Keys
pub mod Order
use portfolio_manager.Persistence.Schema.{
  Table, cascading, date_time, integer, large_binary, not_null, null, of_connection, primary,
  string, to_column, unique_over, uuid,
}
use portfolio_manager.Base.{List, Text, [], codes, some, true, ◌++◌, ◌∷◌}

-- `CREATE POLICY {name} ON {table} USING ({using}) WITH CHECK ({check})`
pub record Policy : Type 0 where
  pub name : Text
  pub table : Text
  pub using : Text
  pub check : Text

-- The table is given by its name, but for the one to create. `drop_policy` is given the policy and
-- the table.
pub data Operation : Type 0 where
  create_table : Table → Operation
  enable_row_level_security force_row_level_security drop_table : Text → Operation
  create_policy : Policy → Operation
  drop_policy : Text → Text → Operation

abbrev pub tenants : Table
tenants = record {
  name = codes "tenants";
  columns = primary "id" uuid ∷ not_null "name" (string 120) ∷ not_null "created_at" date_time ∷ [];
  foreign_keys = [];
  uniques = [];
}

abbrev pub institutions : Table
institutions = record {
  name = codes "institutions";
  columns =
      primary "id" uuid
      ∷ record (not_null "key" (string 64)) { unique = true }
      ∷ not_null "name" (string 120)
      ∷ [];
  foreign_keys = [];
  uniques = [];
}

abbrev pub broker_connections : Table
broker_connections = record {
  name = codes "broker_connections";
  columns =
      primary "id" uuid
      ∷ record (not_null "tenant_id" uuid) {
        foreign_key = some (cascading (to_column "tenants" "id"));
      }
      ∷ record (not_null "institution_id" uuid) {
        foreign_key = some (to_column "institutions" "id");
      }
      ∷ not_null "connector_key" (string 64)
      ∷ not_null "label" (string 120)
      ∷ not_null "authentication_status" (string 32)
      ∷ null "authentication_expires_at" date_time
      ∷ not_null "created_at" date_time
      ∷ [];
  foreign_keys = [];
  uniques = unique_over "uq_broker_connections_tenant_id_id" ("tenant_id" ∷ "id" ∷ []) ∷ [];
}

abbrev pub encrypted_secrets : Table
encrypted_secrets = record {
  name = codes "encrypted_secrets";
  columns =
      primary "id" uuid
      ∷ not_null "tenant_id" uuid
      ∷ not_null "connection_id" uuid
      ∷ not_null "secret_kind" (string 32)
      ∷ not_null "algorithm" (string 64)
      ∷ not_null "format_version" integer
      ∷ not_null "key_version" (string 64)
      ∷ not_null "wrapped_dek" large_binary
      ∷ not_null "nonce" large_binary
      ∷ not_null "ciphertext" large_binary
      ∷ not_null "created_at" date_time
      ∷ not_null "updated_at" date_time
      ∷ [];
  foreign_keys = of_connection "fk_encrypted_secrets_connection" ∷ [];
  uniques =
      unique_over "uq_encrypted_secrets_kind" ("tenant_id" ∷ "connection_id" ∷ "secret_kind" ∷ [])
      ∷ [];
}

abbrev pub authorization_nonces : Table
authorization_nonces = record {
  name = codes "authorization_nonces";
  columns =
      primary "digest" (string 64)
      ∷ not_null "tenant_id" uuid
      ∷ not_null "connection_id" uuid
      ∷ not_null "expires_at" date_time
      ∷ not_null "created_at" date_time
      ∷ [];
  foreign_keys = of_connection "fk_authorization_nonces_connection" ∷ [];
  uniques = [];
}

-- The row is of the tenant that the connection has set, and of none if it has set none.
abbrev pub of_tenant : Text
of_tenant = codes "tenant_id = NULLIF(current_setting('app.tenant_id', true), '')::uuid"

abbrev pub policy_name : Text → Text
policy_name table = table ++ codes "_tenant_isolation"

-- The bodies of the two loops.
abbrev pub isolate : Text → List Operation
isolate table =
    enable_row_level_security table
    ∷ force_row_level_security table
    ∷ create_policy
        (record { name = policy_name table; table = table; using = of_tenant; check = of_tenant })
    ∷ []

abbrev pub remove : Text → List Operation
remove table = drop_policy (policy_name table) table ∷ drop_table table ∷ []

abbrev pub each_table : (Text → List Operation) → List Text → List Operation
each_table body [] = []
each_table body (table ∷ tables) = body table ++ each_table body tables

abbrev pub upgrade : List Operation
upgrade =
    create_table tenants
    ∷ create_table institutions
    ∷ create_table broker_connections
    ∷ create_table encrypted_secrets
    ∷ create_table authorization_nonces
    ∷ each_table isolate
        (codes "broker_connections" ∷ codes "encrypted_secrets" ∷ codes "authorization_nonces" ∷ [])

abbrev pub downgrade : List Operation
downgrade =
    each_table remove
      (codes "authorization_nonces" ∷ codes "encrypted_secrets" ∷ codes "broker_connections" ∷ [])
    ++ drop_table (codes "institutions") ∷ drop_table (codes "tenants") ∷ []
