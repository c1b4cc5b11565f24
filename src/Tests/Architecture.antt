-- ===== src/Tests/Architecture.antt =====
-- scripts/check_architecture.py: three modules of architecture.toml, and trees that obey it or not.
use portfolio_manager.Architecture.Imports.{import_from, import_names, another}
use portfolio_manager.Architecture.{ModuleRule, dependencies_of}
use portfolio_manager.Architecture.Cycles.{detect_cycles, remove, visit, visit_each}
use portfolio_manager.Architecture.Cycles.Frames.{detect_cycles-Outcome}
use portfolio_manager.Architecture.Cycles.Graph.{Chain, IsAcyclic, IsClosed}
use portfolio_manager.Architecture.Imports.{
  Node, SourceTree, check_each, check_files, check_imports, check_modules, imported_modules,
}
use portfolio_manager.Architecture.Imports.Lawful.{IsLawful, check_imports_iff}
use portfolio_manager.Architecture.Main.{inspect, main}
use portfolio_manager.Architecture.Main.Exit.{Verdict, main-Verdict}
use portfolio_manager.Architecture.Matching.{
  longest, match_module, matches_of, matches_prefix, starts_with, wider,
}
use portfolio_manager.Architecture.Matching.Longest.{IsOwner}
use portfolio_manager.Architecture.Matching.Owner.{match_module_iff}
use portfolio_manager.Architecture.Policy.{
  Config, RawRule, add_rule, add_rules, check_rule, check_rules, cut_slashes, keep, load_rules,
  path_eq, path_parts,
}
use portfolio_manager.Architecture.Policy.Checked.{IsChecked-IsClosed, check_rules_iff}
use portfolio_manager.Architecture.Policy.Loaded.{IsPolicy, load_rules_iff}
use portfolio_manager.Base.{
  List, String, Text, [], arith, codes, contains, dependency_cycle, distinct, err, if◌then◌else◌,
  insert_text, map, ok, pos, refl, set_of, some, sorted_texts, text_eq, text_lt, true, ◌++◌, ◌↔◌,
  ◌∷◌, ◌≡◌, ◌⊎◌,
}

abbrev table : String → String → List String → Text × RawRule
table name path others = (
  codes name,
  record {
    path = some (codes path);
    import_prefix = some (codes "portfolio_manager." ++ codes name);
    may_import = some (map codes others);
  },
)

abbrev policy : Config
policy = record {
  version = some (pos 1);
  modules = some (
      table "domain" "packages/domain" []
      ∷ table "application" "packages/application" ("domain" ∷ [])
      ∷ table "connectors" "packages/connectors" ("domain" ∷ "application" ∷ [])
      ∷ []);
}

abbrev rule : String → List String → ModuleRule
rule name others = record {
  name = codes name;
  path = codes "packages" ∷ codes name ∷ [];
  import_prefix = codes "portfolio_manager." ++ codes name;
  may_import = map codes others;
}

abbrev policy_rules : List ModuleRule
policy_rules =
    rule "domain" []
    ∷ rule "application" ("domain" ∷ [])
    ∷ rule "connectors" ("domain" ∷ "application" ∷ [])
    ∷ []

policy-loads : load_rules 4 policy ≡ ok policy_rules
unfolding load_rules add_rules add_rule check_rules check_rule detect_cycles visit visit_each
    dependencies_of remove path_parts keep cut_slashes path_eq contains set_of
policy-loads = refl

-- A policy of which two modules import each other.
abbrev tangled : List ModuleRule
tangled = rule "domain" ("application" ∷ []) ∷ rule "application" ("domain" ∷ []) ∷ []

tangled-cycle :
    detect_cycles tangled 3
    ≡ err (dependency_cycle (codes "domain" ∷ codes "application" ∷ codes "domain" ∷ []))
unfolding detect_cycles visit visit_each dependencies_of remove contains
tangled-cycle = refl

tangled-checked : check_rules tangled tangled ≡ ok tt
unfolding check_rules check_rule keep contains
tangled-checked = refl

tangled-IsClosed : IsClosed tangled
tangled-IsClosed = IsChecked-IsClosed tangled ((check_rules_iff tangled tangled).0 tangled-checked)

detect_cycles-Outcome_example :
    ((detect_cycles tangled 3 ≡ ok tt) × IsAcyclic tangled)
    ⊎ ((chain : List Text) × (n : Text) × (detect_cycles tangled 3 ≡ err (dependency_cycle chain))
        × Chain tangled n n)
detect_cycles-Outcome_example = detect_cycles-Outcome tangled tangled-IsClosed 3 (omega arith)

load_rules_iff_example : (load_rules 4 policy ≡ ok policy_rules) ↔ IsPolicy policy policy_rules
load_rules_iff_example = load_rules_iff 4 policy policy_rules (omega arith)

abbrev an_import : Text
an_import = codes "portfolio_manager.application.connectors"

an_import-module : match_module an_import policy_rules ≡ some (codes "application")
unfolding match_module matches_of matches_prefix starts_with longest wider
an_import-module = refl

policy-prefixes : distinct text_eq (map (λ (r : ModuleRule). r.import_prefix) policy_rules) ≡ true
unfolding distinct contains
policy-prefixes = refl

match_module_iff_example :
    (match_module an_import policy_rules ≡ some (codes "application"))
    ↔ ((r : ModuleRule) × (codes "application" ≡ r.name) × IsOwner an_import policy_rules r)
match_module_iff_example =
    match_module_iff an_import policy_rules (codes "application") policy-prefixes

-- The connectors import the domain, and `source` is the one file of the application.
abbrev tree_with : List Node → SourceTree
tree_with source = record {
  exists = λ path. true;
  python_files = λ path.
      if path_eq path (codes "packages" ∷ codes "application" ∷ [])
      then record { location = codes "packages/application/ports.py"; nodes = some source } ∷ []
      else [];
}

abbrev good_tree : SourceTree
good_tree = tree_with (import_from (some (codes "portfolio_manager.domain")) ∷ another ∷ [])

abbrev bad_tree : SourceTree
bad_tree = tree_with (import_names (codes "portfolio_manager.connectors.zerodha" ∷ []) ∷ [])

-- The form of an import that names a module of a package as an item.
abbrev item_tree : SourceTree
item_tree = tree_with (import_from (some (codes "portfolio_manager")) ∷ [])

good_tree-exit : main 4 (ok policy) good_tree ≡ ok 0
unfolding main inspect load_rules add_rules add_rule check_rules check_rule detect_cycles visit
    visit_each dependencies_of remove path_parts keep cut_slashes path_eq contains set_of
    check_imports check_modules check_files check_each imported_modules match_module matches_of
    matches_prefix starts_with longest wider sorted_texts insert_text text_lt
good_tree-exit = refl

bad_tree-exit : main 4 (ok policy) bad_tree ≡ ok 1
unfolding main inspect load_rules add_rules add_rule check_rules check_rule detect_cycles visit
    visit_each dependencies_of remove path_parts keep cut_slashes path_eq contains set_of
    check_imports check_modules check_files check_each imported_modules match_module matches_of
    matches_prefix starts_with longest wider sorted_texts insert_text text_lt
bad_tree-exit = refl

item_tree-exit : main 4 (ok policy) item_tree ≡ ok 0
unfolding main inspect load_rules add_rules add_rule check_rules check_rule detect_cycles visit
    visit_each dependencies_of remove path_parts keep cut_slashes path_eq contains set_of
    check_imports check_modules check_files check_each imported_modules match_module matches_of
    matches_prefix starts_with longest wider sorted_texts insert_text text_lt
item_tree-exit = refl

check_imports_iff_example :
    (check_imports bad_tree policy_rules ≡ []) ↔ IsLawful policy_rules bad_tree
check_imports_iff_example = check_imports_iff bad_tree policy_rules policy-prefixes

main-Verdict_example : Verdict 4 bad_tree policy
main-Verdict_example = main-Verdict 4 bad_tree policy (omega arith)
