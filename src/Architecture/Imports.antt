-- ===== src/Architecture/Imports.antt =====
-- scripts/check_architecture.py: `imported_modules` and `check_imports`. The file system and the parser
-- are parameters: which directories are there, which Python files lie below them, in order, and the
-- nodes of each file's syntax tree, or `none` where it cannot be read or parsed.
pub mod Lawful
pub mod Named
use portfolio_manager.Architecture.{ModuleRule}
use portfolio_manager.Architecture.Matching.{match_module}
use portfolio_manager.Base.{
  Bool, List, Option, Text, [], contains, if◌then◌else◌, none, set_of, some, sorted_texts, text_eq,
  ◌++◌, ◌||◌, ◌∷◌,
}

-- The nodes that the program tells apart: the names of an `import`, the module of a `from`.
pub data Node : Type 0 where
  import_names : List Text → Node
  import_from : Option Text → Node
  another : Node

pub record SourceFile : Type 0 where
  pub location : Text
  pub nodes : Option (List Node)

pub record SourceTree : Type 0 where
  pub exists : List Text → Bool
  pub python_files : List Text → List SourceFile

-- What a node adds to the set.
abbrev pub imports_of : Node → List Text
imports_of (import_names ns) = ns
imports_of (import_from none) = []
imports_of (import_from (some [])) = []
imports_of (import_from (some (c ∷ s))) = (c ∷ s) ∷ []
imports_of another = []

unfoldable pub imported_modules : List Node → List Text
imported_modules [] = []
imported_modules (node ∷ nodes) = imports_of node ++ imported_modules nodes

-- A line of the report.
pub data Violation : Type 0 where
  cannot_inspect : Text → Violation
  -- the file, its module, the module of the import, and the import
  may_not_import : Text → Text → Text → Text → Violation

module _ (rules : List ModuleRule) where
  -- The end of the body of the innermost loop.
  abbrev pub judged : ModuleRule → Text → Text → Option Text → List Violation
  judged rule location imported none = []
  judged rule location imported (some target) =
      if text_eq target rule.name || contains text_eq target rule.may_import
      then []
      else may_not_import location rule.name target imported ∷ []

  unfoldable pub check_each : ModuleRule → Text → List Text → List Violation
  check_each rule location [] = []
  check_each rule location (imported ∷ rest) =
      judged rule location imported (match_module imported rules) ++ check_each rule location rest

  abbrev pub check_nodes : ModuleRule → Text → Option (List Node) → List Violation
  check_nodes rule location none = cannot_inspect location ∷ []
  check_nodes rule location (some nodes) =
      check_each rule location (sorted_texts (set_of text_eq (imported_modules nodes)))

  unfoldable pub check_files : ModuleRule → List SourceFile → List Violation
  check_files rule [] = []
  check_files rule (file ∷ files) =
      check_nodes rule file.location file.nodes ++ check_files rule files

  unfoldable pub check_modules : SourceTree → List ModuleRule → List Violation
  check_modules tree [] = []
  check_modules tree (rule ∷ rest) =
      (if tree.exists rule.path then check_files rule (tree.python_files rule.path) else [])
      ++ check_modules tree rest

unfoldable pub check_imports : SourceTree → List ModuleRule → List Violation
check_imports tree rules = check_modules rules tree rules
