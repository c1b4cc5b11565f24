-- ===== src/Persistence/Schema/Migration/Order.antt =====
-- persistence/migrations/versions/0001_auth_persistence.py: the order of the operations.
use portfolio_manager.Persistence.Schema.Migration.{
  create_table, create_policy, enable_row_level_security, force_row_level_security, drop_policy,
  drop_table, remove, Operation, authorization_nonces, broker_connections, downgrade,
  encrypted_secrets, institutions, isolate, tenants, upgrade, Policy,
}
use portfolio_manager.Base.{
  All, Among, List, Text, [], codes, contains, false, if◌then◌else◌, inl, inr, map, refl, text_eq,
  true, ◌++◌, ◌∷◌, ◌≡◌, ◌⊎◌,
}
use portfolio_manager.Persistence.Schema.{
  Column, ForeignKeyConstraint, Table, UniqueConstraint, primary, unique_over, uuid,
}
use portfolio_manager.Persistence.Schema.Migration.Keys.{foreign_keys_of}

-- The columns are a key of the table: its primary key or a unique constraint.
abbrev pub IsKeyOf : Table → List Text → Type 0
IsKeyOf t columns =
    ((u : UniqueConstraint) × Among u t.uniques × (u.columns ≡ columns))
    ⊎ ((c : Column) × Among c t.columns × (c.name ∷ [] ≡ columns) × (c.primary_key ≡ true))

-- The foreign key refers to a key of one of the tables.
abbrev pub IsReferring : List Table → ForeignKeyConstraint → Type 0
IsReferring tables f =
    (t : Table) × Among t tables × (t.name ≡ f.reference.table) × IsKeyOf t f.reference.columns

-- No foreign key of the table refers to the name.
abbrev pub IsFreeOf : Text → Table → Type 0
IsFreeOf name t =
    All (λ (f : ForeignKeyConstraint). text_eq f.reference.table name ≡ false) (foreign_keys_of t)

abbrev without : Text → List Table → List Table
without name [] = []
without name (t ∷ ts) = if text_eq t.name name then ts else t ∷ without name ts

abbrev pub IsNamed : Text → List Table → Type 0
IsNamed name tables = (t : Table) × Among t tables × (t.name ≡ name)

-- The operations lead from the first tables to the last: a table is created after those that it refers
-- to, and dropped when no other table refers to it.
pub data IsOrderly : List Table → List Operation → List Table → Type 0 where
  done : {ts : List Table} → IsOrderly ts [] ts
  creates :
      {ts last : List Table} {t : Table} {ops : List Operation}
      → All (IsReferring ts) (foreign_keys_of t)
      → contains text_eq t.name (map (λ (x : Table). x.name) ts) ≡ false
      → IsOrderly (t ∷ ts) ops last
      → IsOrderly ts (create_table t ∷ ops) last
  enables :
      {ts last : List Table} {name : Text} {ops : List Operation}
      → IsNamed name ts
      → IsOrderly ts ops last
      → IsOrderly ts (enable_row_level_security name ∷ ops) last
  forces :
      {ts last : List Table} {name : Text} {ops : List Operation}
      → IsNamed name ts
      → IsOrderly ts ops last
      → IsOrderly ts (force_row_level_security name ∷ ops) last
  guards :
      {ts last : List Table} {policy : Policy} {ops : List Operation}
      → IsNamed policy.table ts
      → IsOrderly ts ops last
      → IsOrderly ts (create_policy policy ∷ ops) last
  unguards :
      {ts last : List Table} {policy name : Text} {ops : List Operation}
      → IsNamed name ts
      → IsOrderly ts ops last
      → IsOrderly ts (drop_policy policy name ∷ ops) last
  drops :
      {ts last : List Table} {name : Text} {ops : List Operation}
      → IsNamed name ts
      → All (IsFreeOf name) (without name ts)
      → IsOrderly (without name ts) ops last
      → IsOrderly ts (drop_table name ∷ ops) last

abbrev tables : List Table
tables = authorization_nonces ∷ encrypted_secrets ∷ broker_connections ∷ institutions ∷ tenants ∷ []

connection_key : IsKeyOf broker_connections (codes "tenant_id" ∷ codes "id" ∷ [])
connection_key =
    inl (unique_over "uq_broker_connections_tenant_id_id" ("tenant_id" ∷ "id" ∷ []), inl refl, refl)

id_key : (t : Table) → Among (primary "id" uuid) t.columns → IsKeyOf t (codes "id" ∷ [])
id_key t h = inr (primary "id" uuid, h, refl, refl)

-- What `isolate` does to a table that is there.
isolated :
    {ts last : List Table} {name : Text} {ops : List Operation}
    → IsNamed name ts
    → IsOrderly ts ops last
    → IsOrderly ts (isolate name ++ ops) last
isolated there rest = enables there (forces there (guards there rest))

upgrade-IsOrderly : IsOrderly [] upgrade tables
unfolding contains
upgrade-IsOrderly = creates tt refl (
    creates tt refl (
      creates
        (
          (tenants, inr (inl refl), refl, id_key tenants (inl refl)),
          ((institutions, inl refl, refl, id_key institutions (inl refl)), tt),
        )
        refl
        (creates ((broker_connections, inl refl, refl, connection_key), tt) refl
          (creates ((broker_connections, inr (inl refl), refl, connection_key), tt) refl
            (isolated (broker_connections, inr (inr (inl refl)), refl)
              (isolated (encrypted_secrets, inr (inl refl), refl)
                (isolated (authorization_nonces, inl refl, refl) done)))))))

-- What `remove` does to a table that is there.
removed :
    {ts last : List Table} {name : Text} {ops : List Operation}
    → IsNamed name ts
    → All (IsFreeOf name) (without name ts)
    → IsOrderly (without name ts) ops last
    → IsOrderly ts (remove name ++ ops) last
removed there free rest = unguards there (drops there free rest)

downgrade-IsOrderly : IsOrderly tables downgrade []
downgrade-IsOrderly =
    removed (authorization_nonces, inl refl, refl)
      ((refl, tt), ((refl, (refl, tt)), (tt, (tt, tt))))
      (removed (encrypted_secrets, inl refl, refl) ((refl, (refl, tt)), (tt, (tt, tt)))
        (removed (broker_connections, inl refl, refl) (tt, (tt, tt))
          (drops (institutions, inl refl, refl) (tt, tt)
            (drops (tenants, inl refl, refl) tt done))))

-- From no tables, upgrade can be done and then downgrade, and there are no tables again: a table is
-- created after those that it refers to, by a key of theirs, and dropped after those that refer to
-- it, and row level security is set on tables that are there.
pub migration-IsOrderly :
    (tables : List Table) × IsOrderly [] upgrade tables × IsOrderly tables downgrade []
migration-IsOrderly = (tables, upgrade-IsOrderly, downgrade-IsOrderly)
