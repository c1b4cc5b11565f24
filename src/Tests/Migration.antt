-- ===== src/Tests/Migration.antt =====
-- persistence/migrations/versions/0001_auth_persistence.py against the records of models.py.
use portfolio_manager.Persistence.Schema.Migration.{create_table, Operation, upgrade}
use portfolio_manager.Base.{List, [], false, map, none, refl, ◌∷◌, ◌≡◌}
use portfolio_manager.Persistence.Schema.{Column, Table}
use portfolio_manager.Persistence.Schema.Models.{metadata}
use portfolio_manager.Persistence.Schema.Migration.Keys.{foreign_keys_of}

-- The tables of the operations that create one.
abbrev created : List Operation → List Table
created [] = []
created (create_table t ∷ ops) = t ∷ created ops
created (_ ∷ ops) = created ops

-- A table without its indexes, and with each foreign key among its constraints.
abbrev described : Table → Table
described t = record t {
  columns = map (λ (c : Column). record c { index = false; foreign_key = none }) t.columns;
  foreign_keys = foreign_keys_of t;
}

-- `upgrade` creates the tables of the records, in the order of their classes, with the same columns,
-- keys and constraints; indexes are left out.
upgrade-metadata : map described (created upgrade) ≡ map described metadata
upgrade-metadata = refl
