-- ===== src/Architecture/Cycles/Sound.antt =====
-- scripts/check_architecture.py: rules that `detect_cycles` accepts.
use portfolio_manager.Architecture.{ModuleRule, dependencies_of, names}
use portfolio_manager.Architecture.Cycles.{Marks, detect_cycles, visit, visit_each}
use portfolio_manager.Architecture.Cycles.Graph.{
  Chain, Edge, IsAcyclic, dependencies_of-names, more, one,
}
use portfolio_manager.Architecture.Cycles.Visited.{Ordered, visit-Visited, visit_each-Visited}
use portfolio_manager.Base.{
  >>=-eq-ok, All, Bool-cases, List, Text, [], arith, contains, inl, inr, ok, text_eq, true, within,
  ℕ, ◌∷◌, ◌≡◌,
}
use portfolio_manager.Base.Texts.Strip.{text_eq_iff}

module _ (rules : List ModuleRule) where
  All-contains :
      (vs xs : List Text) (x : Text)
      → All (λ d. contains text_eq d vs ≡ true) xs
      → contains text_eq x xs ≡ true
      → contains text_eq x vs ≡ true
  unfolding contains
  All-contains vs [] x h k = cc
  All-contains vs (d ∷ ds) x h k = elim (Bool-cases (text_eq x d)) [
    | inl same ↦ rw ((text_eq_iff x d).0 same) h.0
    | inr other ↦ All-contains vs ds x h.1 (rw other at k)
  ]

  Edge-head :
      (n b : Text) (ns deps : List Text)
      → dependencies_of rules n ≡ ok deps
      → All (λ d. contains text_eq d ns ≡ true) deps
      → Edge rules n b
      → contains text_eq b ns ≡ true
  Edge-head n b ns deps of_n within (deps', of_n', h) =
      let same : deps' ≡ deps = cc (of_n, of_n') in All-contains ns deps b within (rw same at h)

  -- What is marked is closed under dependencies.
  Edge-Ordered :
      (vs : List Text) (a b : Text)
      → Ordered rules vs
      → contains text_eq a vs ≡ true
      → Edge rules a b
      → contains text_eq b vs ≡ true
  unfolding contains
  Edge-Ordered [] a b o h e = cc
  Edge-Ordered (n ∷ ns) a b (new, (deps, of_n, within), o) h e = elim (Bool-cases (text_eq a n)) [
    | inl same ↦
        let eq = (text_eq_iff a n).0 same in
        let later = Edge-head n b ns deps of_n within (rw eq at e) in rw later (ground arith)
    | inr other ↦ let later = Edge-Ordered ns a b o (rw other at h) e in rw later (ground arith)
  ]

  -- From the first name a chain leads only to the names behind it.
  Chain-head :
      (n c : Text) (ns deps : List Text)
      → dependencies_of rules n ≡ ok deps
      → All (λ d. contains text_eq d ns ≡ true) deps
      → Ordered rules ns
      → Chain rules n c
      → contains text_eq c ns ≡ true
  Chain-head n c ns deps of_n within o (one e) = Edge-head n c ns deps of_n within e
  Chain-head n c ns deps of_n within o (more {b = b} p e) =
      Edge-Ordered ns b c o (Chain-head n b ns deps of_n within o p) e

  no_cycle :
      (vs : List Text) (a : Text)
      → Ordered rules vs
      → contains text_eq a vs ≡ true
      → ¬ (Chain rules a a)
  unfolding contains
  no_cycle [] a o h p = cc
  no_cycle (n ∷ ns) a (new, (deps, of_n, within), o) h p = elim (Bool-cases (text_eq a n)) [
    | inl same ↦
        let eq = (text_eq_iff a n).0 same in
        cc (new, Chain-head n n ns deps of_n within o (rw eq at p))
    | inr other ↦ no_cycle ns a o (rw other at h) p
  ]

  Edge-names : (a b : Text) → Edge rules a b → contains text_eq a (names rules) ≡ true
  Edge-names a b (deps, e, h) = dependencies_of-names rules a deps e

  Chain-names : (a b : Text) → Chain rules a b → contains text_eq a (names rules) ≡ true
  Chain-names a b (one e) = Edge-names a b e
  Chain-names a b (more {b = c} p e) = Chain-names a c p

  -- Rules that `detect_cycles` accepts have no cycle.
  pub detect_cycles-IsAcyclic : (frames : ℕ) → detect_cycles rules frames ≡ ok tt → IsAcyclic rules
  unfolding detect_cycles
  detect_cycles-IsAcyclic frames h a p =
      let start : Marks = record { visiting = []; visited = [] } in
      let (m, each, _) = >>=-eq-ok (visit_each (visit rules frames []) (names rules) start) _ h in
      let v =
        visit_each-Visited rules (visit rules frames []) (visit-Visited rules frames [])
          (names rules) start m each in
      no_cycle m.visited a (v.ordered tt)
        (All-contains m.visited (names rules) a v.reached (Chain-names a a p)) p
