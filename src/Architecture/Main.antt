-- ===== src/Architecture/Main.antt =====
-- scripts/check_architecture.py: `main`, from what the policy file gives to the exit code. What it
-- prints is not modelled.
pub mod Reported
pub mod Exit
use portfolio_manager.Architecture.Imports.{SourceTree, Violation, check_imports}
use portfolio_manager.Architecture.Policy.{Config, load_rules}
use portfolio_manager.Base.{
  Bool, Error, List, Result, [], bad_text, dependency_cycle, err, false, if◌then◌else◌, key_error,
  ok, os_error, true, type_error, unknown_modules, value_error, ℕ, ◌>>=◌, ◌>>◌, ◌∷◌,
}

-- The errors that `main` reports. `tomllib.TOMLDecodeError` is a `ValueError`.
abbrev pub is_policy_error : Error → Bool
is_policy_error key_error = true
is_policy_error os_error = true
is_policy_error type_error = true
is_policy_error (value_error text) = true
is_policy_error (bad_text text name) = true
is_policy_error (unknown_modules name others) = true
is_policy_error (dependency_cycle chain) = true
is_policy_error _ = false

abbrev pub exit_code : Result (List Violation) → Result ℕ
exit_code (ok []) = ok 0
exit_code (ok (v ∷ vs)) = ok 1
exit_code (err e) = if is_policy_error e then ok 2 else err e

-- The body of the `try`.
unfoldable pub inspect : ℕ → Result Config → SourceTree → Result (List Violation)
inspect frames read tree = do
  config ← read
  rules ← load_rules frames config
  ok (check_imports tree rules)

unfoldable pub main : ℕ → Result Config → SourceTree → Result ℕ
main frames read tree = exit_code (inspect frames read tree)
