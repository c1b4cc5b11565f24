-- ===== src/Architecture/Main/Exit.antt =====
-- scripts/check_architecture.py: what the exit code says of the policy and of the tree.
use portfolio_manager.Architecture.Main.{exit_code, inspect, is_policy_error, main}
use portfolio_manager.Architecture.Main.Reported.{load_rules-IsReported}
use portfolio_manager.Architecture.Policy.Loaded.{IsPolicy, load_rules_iff}
use portfolio_manager.Architecture.Imports.Lawful.{IsLawful, check_imports_iff}
use portfolio_manager.Architecture.{ModuleRule}
use portfolio_manager.Architecture.Imports.{SourceTree, Violation, check_imports}
use portfolio_manager.Architecture.Policy.{Config, load_rules, or_empty}
use portfolio_manager.Base.{
  Error, List, Result-cases, [], err, inl, inr, length, ok, refl, true, ℕ, ◌<◌, ◌∷◌, ◌≡◌, ◌⊎◌,
}

module _ (frames : ℕ) (tree : SourceTree) where
  rejected :
      (config : Config) (e : Error)
      → load_rules frames config ≡ err e
      → is_policy_error e ≡ true
      → main frames (ok config) tree ≡ ok 2
  unfolding main inspect
  rejected config e raised known = rw (raised, known) refl

  reported :
      (config : Config) (rules : List ModuleRule) (vs : List Violation)
      → load_rules frames config ≡ ok rules
      → check_imports tree rules ≡ vs
      → main frames (ok config) tree ≡ exit_code (ok vs)
  unfolding main inspect
  reported config rules vs done e = rw (done, e) refl

  -- The exit code of a policy file that tomllib can read, and what it stands for.
  abbrev pub Verdict : Config → Type 0
  Verdict config =
      ((rules : List ModuleRule) × IsPolicy config rules
        × IsLawful rules tree
        × (main frames (ok config) tree ≡ ok 0))
      ⊎ ((rules : List ModuleRule) × IsPolicy config rules
          × ¬ (IsLawful rules tree)
          × (main frames (ok config) tree ≡ ok 1))
      ⊎ (((rules : List ModuleRule) → ¬ (IsPolicy config rules))
          × (main frames (ok config) tree ≡ ok 2))

  judged :
      (config : Config) (rules : List ModuleRule) (vs : List Violation)
      → load_rules frames config ≡ ok rules
      → IsPolicy config rules
      → check_imports tree rules ≡ vs
      → Verdict config
  judged config rules [] done p e = inl (
    rules,
    p,
    (check_imports_iff tree rules p.distinct_prefixes).0 e,
    reported config rules [] done e,
  )
  judged config rules (v ∷ vs) done p e = inr (
      inl (
        rules,
        p,
        λ lawful. cc ((check_imports_iff tree rules p.distinct_prefixes).1 lawful, e),
        reported config rules (v ∷ vs) done e,
      ))

  -- With more frames than a policy file that could be read has modules, the program ends with one of
  -- three codes. It is 0 if the file is a policy, every Python file below its modules' directories can
  -- be inspected, and each name that an `import` statement there has and each module of a `from`
  -- statement, not the items that it takes, obeys the policy; 1 if it is a policy and one of these
  -- fails; and 2 if it is no policy.
  pub main-Verdict : (config : Config) → length (or_empty config.modules) < frames → Verdict config
  main-Verdict config enough = elim (Result-cases (load_rules frames config)) [
    | inl (rules, done) ↦
        judged config rules (check_imports tree rules) done
          ((load_rules_iff frames config rules enough).0 done) refl
    | inr (e, raised) ↦ inr (
        inr (
          λ rules p. cc ((load_rules_iff frames config rules enough).1 p, raised),
          rejected config e raised (load_rules-IsReported frames config enough e raised),
        ))
  ]
