-- ===== src/Persistence/Schema/Models.antt =====
-- persistence/models.py: the tables of the records.
use portfolio_manager.Persistence.Schema.{
  Table, cascading, date_time, integer, large_binary, not_null, null, of_connection, primary,
  string, to_column, unique_over, uuid,
}
use portfolio_manager.Base.{List, [], codes, none, some, true, ◌∷◌}

abbrev pub tenant_record : Table
tenant_record = record {
  name = codes "tenants";
  columns = primary "id" uuid ∷ not_null "name" (string 120) ∷ not_null "created_at" date_time ∷ [];
  foreign_keys = [];
  uniques = [];
}

abbrev pub institution_record : Table
institution_record = record {
  name = codes "institutions";
  columns =
      primary "id" uuid
      ∷ record (not_null "key" (string 64)) { unique = true }
      ∷ not_null "name" (string 120)
      ∷ [];
  foreign_keys = [];
  uniques = [];
}

abbrev pub broker_connection_record : Table
broker_connection_record = record {
  name = codes "broker_connections";
  columns =
      primary "id" uuid
      ∷ not_null "tenant_id" uuid
      ∷ record (not_null "institution_id" uuid) {
        foreign_key = some (to_column "institutions" "id");
        index = true;
      }
      ∷ not_null "connector_key" (string 64)
      ∷ not_null "label" (string 120)
      ∷ not_null "authentication_status" (string 32)
      ∷ null "authentication_expires_at" date_time
      ∷ not_null "created_at" date_time
      ∷ [];
  foreign_keys =
      record {
        name = none;
        columns = codes "tenant_id" ∷ [];
        reference = cascading (to_column "tenants" "id");
      }
      ∷ [];
  uniques = unique_over "uq_broker_connections_tenant_id_id" ("tenant_id" ∷ "id" ∷ []) ∷ [];
}

abbrev pub encrypted_secret_record : Table
encrypted_secret_record = record {
  name = codes "encrypted_secrets";
  columns =
      primary "id" uuid
      ∷ not_null "tenant_id" uuid
      ∷ not_null "connection_id" uuid
      ∷ not_null "secret_kind" (string 32)
      ∷ not_null "algorithm" (string 64)
      ∷ not_null "format_version" integer
      ∷ not_null "key_version" (string 64)
      ∷ not_null "wrapped_dek" large_binary
      ∷ not_null "nonce" large_binary
      ∷ not_null "ciphertext" large_binary
      ∷ not_null "created_at" date_time
      ∷ not_null "updated_at" date_time
      ∷ [];
  foreign_keys = of_connection "fk_encrypted_secrets_connection" ∷ [];
  uniques =
      unique_over "uq_encrypted_secrets_kind" ("tenant_id" ∷ "connection_id" ∷ "secret_kind" ∷ [])
      ∷ [];
}

abbrev pub authorization_nonce_record : Table
authorization_nonce_record = record {
  name = codes "authorization_nonces";
  columns =
      primary "digest" (string 64)
      ∷ not_null "tenant_id" uuid
      ∷ not_null "connection_id" uuid
      ∷ not_null "expires_at" date_time
      ∷ not_null "created_at" date_time
      ∷ [];
  foreign_keys = of_connection "fk_authorization_nonces_connection" ∷ [];
  uniques = [];
}

-- `Base.metadata`
abbrev pub metadata : List Table
metadata =
    tenant_record ∷ institution_record ∷ broker_connection_record ∷ encrypted_secret_record
    ∷ authorization_nonce_record ∷ []
