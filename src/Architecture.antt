-- ===== src/Architecture.antt =====
-- scripts/check_architecture.py: the policy that says which module may import which.
pub mod Cycles
pub mod Policy
pub mod Matching
pub mod Imports
pub mod Main
use portfolio_manager.Base.{
  List, Result, Text, [], err, if◌then◌else◌, key_error, map, ok, text_eq, ◌∷◌,
}

-- `path` is the module's directory, as the parts of a relative path.
pub record ModuleRule : Type 0 where
  pub name : Text
  pub path : List Text
  pub import_prefix : Text
  pub may_import : List Text

-- The dictionary of rules is the list of its values in the order of insertion; a rule's name is its
-- key.
abbrev pub names : List ModuleRule → List Text
names rules = map (λ r. r.name) rules

-- `rules[name].may_import`
unfoldable pub dependencies_of : List ModuleRule → Text → Result (List Text)
dependencies_of [] name = err key_error
dependencies_of (r ∷ rules) name =
    let rest = dependencies_of rules name in if text_eq name r.name then ok r.may_import else rest
