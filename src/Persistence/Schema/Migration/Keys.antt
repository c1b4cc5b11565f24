-- ===== src/Persistence/Schema/Migration/Keys.antt =====
-- persistence/migrations/versions/0001_auth_persistence.py: the foreign keys of a table.
use portfolio_manager.Base.{List, Option, Text, [], none, some, ◌++◌, ◌∷◌}
use portfolio_manager.Persistence.Schema.{Column, ForeignKeyConstraint, Reference, Table}

abbrev keys_of : List Column → List ForeignKeyConstraint
keys_of [] = []
keys_of (c ∷ cs) = key_of c.foreign_key c.name ++ keys_of cs
  where
    key_of : Option Reference → Text → List ForeignKeyConstraint
    key_of none name = []
    key_of (some r) name = record { name = none; columns = name ∷ []; reference = r } ∷ []

-- The constraints of a table and those of its columns.
abbrev pub foreign_keys_of : Table → List ForeignKeyConstraint
foreign_keys_of t = t.foreign_keys ++ keys_of t.columns
