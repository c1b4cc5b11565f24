-- ===== src/Architecture/Cycles.antt =====
-- scripts/check_architecture.py: `detect_cycles`.
pub mod Graph
pub mod Visited
pub mod Sound
pub mod Frames
use portfolio_manager.Architecture.{ModuleRule, dependencies_of, names}
use portfolio_manager.Base.{
  List, Result, Text, [], contains, dependency_cycle, err, if◌then◌else◌, key_error, ok,
  recursion_error, suc, text_eq, zero, ℕ, ◌++◌, ◌>>=◌, ◌>>◌, ◌∷◌,
}

-- The two sets that the search keeps.
pub record Marks : Type 0 where
  pub visiting : List Text
  pub visited : List Text

-- `names.remove(name)`
unfoldable pub remove : Text → List Text → Result (List Text)
remove name [] = err key_error
remove name (n ∷ ns) =
    let rest = do others ← remove name ns; ok (n ∷ others)
    in if text_eq name n then ok ns else rest

-- `for name in names: visit(name, …)`
unfoldable pub visit_each : (Text → Marks → Result Marks) → List Text → Marks → Result Marks
visit_each visit [] marks = ok marks
visit_each visit (name ∷ names) marks = do marks' ← visit name marks; visit_each visit names marks'

module _ (rules : List ModuleRule) where
  -- The nested function `visit`. It calls itself, and Python gives it so many frames.
  unfoldable pub visit : ℕ → List Text → Text → Marks → Result Marks
  visit zero chain name marks = err recursion_error
  visit (suc frames) chain name marks =
      let inside = do
        dependencies ← dependencies_of rules name
        marks' ←
            visit_each (visit frames (chain ++ name ∷ [])) dependencies
              (record marks { visiting = name ∷ marks.visiting })
        visiting ← remove name marks'.visiting
        ok (record { visiting = visiting; visited = name ∷ marks'.visited })
      in if contains text_eq name marks.visiting
        then err (dependency_cycle (chain ++ name ∷ []))
        else if contains text_eq name marks.visited
        then ok marks
        else inside

  unfoldable pub detect_cycles : ℕ → Result (Unit {0})
  detect_cycles frames = do
    marks ← visit_each (visit frames []) (names rules) (record { visiting = []; visited = [] })
    ok tt
