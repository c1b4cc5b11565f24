-- ===== src/Architecture/Matching.antt =====
-- scripts/check_architecture.py: `match_module`, the module that an import belongs to.
pub mod Longest
pub mod Owner
use portfolio_manager.Architecture.{ModuleRule}
use portfolio_manager.Base.{
  Bool, List, Option, Text, [], false, if◌then◌else◌, length, ltb, none, some, text_eq, true, ◌&&◌,
  ◌++◌, ◌==◌, ◌||◌, ◌∷◌,
}

unfoldable pub starts_with : Text → Text → Bool
starts_with s [] = true
starts_with [] (y ∷ ys) = false
starts_with (x ∷ xs) (y ∷ ys) = x == y && starts_with xs ys

-- The test of the comprehension.
unfoldable pub matches_prefix : Text → Text → Bool
unfolding starts_with
matches_prefix import_name prefix =
    text_eq import_name prefix || starts_with import_name (prefix ++ b'.' ∷ [])

unfoldable pub matches_of : Text → List ModuleRule → List ModuleRule
matches_of import_name [] = []
matches_of import_name (r ∷ rules) =
    let rest = matches_of import_name rules in
    if matches_prefix import_name r.import_prefix then r ∷ rest else rest

-- `max` by the length of the prefix: the first of the longest.
unfoldable pub wider : ModuleRule → ModuleRule → ModuleRule
wider best r = if ltb (length best.import_prefix) (length r.import_prefix) then r else best

unfoldable pub longest : ModuleRule → List ModuleRule → ModuleRule
longest best [] = best
longest best (r ∷ rules) = longest (wider best r) rules

abbrev pub best_of : List ModuleRule → Option Text
best_of [] = none
best_of (r ∷ rules) = some (longest r rules).name

unfoldable pub match_module : Text → List ModuleRule → Option Text
match_module import_name rules = best_of (matches_of import_name rules)
