-- ===== src/Architecture/Cycles/Graph.antt =====
-- scripts/check_architecture.py: the graph of the rules.
use portfolio_manager.Architecture.{ModuleRule, dependencies_of, names}
use portfolio_manager.Base.{
  Bool-cases, List, Text, [], contains, inl, inr, ok, text_eq, true, ◌∷◌, ◌≡◌, refl, ◌⊎◌,
}
use portfolio_manager.Base.Texts.Strip.{text_eq_iff}

module _ (rules : List ModuleRule) where
  -- The module `a` may import the module `b`.
  abbrev pub Edge : Text → Text → Type 0
  Edge a b =
      (deps : List Text) × (dependencies_of rules a ≡ ok deps) × (contains text_eq b deps ≡ true)

  -- A chain of imports, of at least one.
  pub data Chain : Text → Text → Type 0 where
    one : {a b : Text} → Edge a b → Chain a b
    more : {a b c : Text} → Chain a b → Edge b c → Chain a c

  abbrev pub IsAcyclic : Type 0
  IsAcyclic = (n : Text) → ¬ (Chain n n)

  -- Every module that a rule names has a rule.
  abbrev pub IsClosed : Type 0
  IsClosed = (a b : Text) → Edge a b → contains text_eq b (names rules) ≡ true

pub dependencies_of-ok :
    (rules : List ModuleRule) (name : Text)
    → contains text_eq name (names rules) ≡ true
    → (deps : List Text) × (dependencies_of rules name ≡ ok deps)
unfolding dependencies_of contains
dependencies_of-ok [] name h = cc
dependencies_of-ok (r ∷ rules) name h = elim (Bool-cases (text_eq name r.name)) [
  | inl same ↦ (r.may_import, rw same)
  | inr other ↦ let (deps, e) = dependencies_of-ok rules name (rw other at h) in (deps, rw other e)
]

pub dependencies_of-names :
    (rules : List ModuleRule) (name : Text) (deps : List Text)
    → dependencies_of rules name ≡ ok deps
    → contains text_eq name (names rules) ≡ true
unfolding dependencies_of contains
dependencies_of-names [] name deps h = cc
dependencies_of-names (r ∷ rules) name deps h = elim (Bool-cases (text_eq name r.name)) [
  | inl same ↦ rw same refl
  | inr other ↦ rw other (dependencies_of-names rules name deps (rw other at h))
]

pub contains-cons :
    (x n : Text) (ns : List Text)
    → contains text_eq x (n ∷ ns) ≡ true
    → (x ≡ n) ⊎ (contains text_eq x ns ≡ true)
unfolding contains
contains-cons x n ns h = elim (Bool-cases (text_eq x n)) [
  | inl same ↦ inl ((text_eq_iff x n).0 same)
  | inr other ↦ inr (rw other at h)
]
