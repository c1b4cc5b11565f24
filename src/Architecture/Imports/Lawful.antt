-- ===== src/Architecture/Imports/Lawful.antt =====
-- scripts/check_architecture.py: the trees in which `check_imports` finds nothing.
use mathlib.Core.Option.{some-injective}
use portfolio_manager.Architecture.{ModuleRule}
use portfolio_manager.Architecture.Imports.{
  Node, SourceFile, SourceTree, check_each, imported_modules, judged, check_files, check_imports,
  check_modules, check_nodes,
}
use portfolio_manager.Architecture.Matching.{match_module}
use portfolio_manager.Architecture.Imports.Named.{IsImported, imported_modules_iff}
use portfolio_manager.Architecture.Matching.Longest.{IsOwner}
use portfolio_manager.Architecture.Matching.Owner.{match_module_iff}
use portfolio_manager.Base.{
  Among, distinct, map, Bool-cases, List, Option, Text, [], arith, contains, inl, inr, insert_text,
  none, refl, some, sorted_texts, sym, text_eq, true, ◌||◌, ◌↔◌, ◌∙◌, ◌∷◌, ◌≡◌, ◌⊎◌, append-eq-nil,
  contains-set_of, if◌then◌else◌, set_of,
}
use portfolio_manager.Base.Texts.Strip.{text_eq_iff, text_eq_refl}
use portfolio_manager.Architecture.Cycles.Graph.{contains-cons}

contains-insert_text :
    (x s : Text) (ts : List Text)
    → contains text_eq x (insert_text s ts) ≡ (text_eq x s || contains text_eq x ts)
unfolding insert_text contains
contains-insert_text x s [] = refl
contains-insert_text x s (t ∷ ts) = ground (arith, contains-insert_text x s ts)

contains-sorted_texts :
    (x : Text) (ts : List Text) → contains text_eq x (sorted_texts ts) ≡ contains text_eq x ts
unfolding sorted_texts contains
contains-sorted_texts x [] = refl
contains-sorted_texts x (t ∷ ts) =
    rw (contains-insert_text x t (sorted_texts ts), contains-sorted_texts x ts)

module _ (rules : List ModuleRule) where
  -- The module of `rule` may import `i`: a rule that owns it has the name of this one, or a name that
  -- this one lists.
  abbrev pub IsAllowed : ModuleRule → Text → Type 0
  IsAllowed rule i =
      (owner : ModuleRule)
      → IsOwner i rules owner
      → (owner.name ≡ rule.name) ⊎ (contains text_eq owner.name rule.may_import ≡ true)

  abbrev pub IsLawfulFile : ModuleRule → SourceFile → Type 0
  IsLawfulFile rule file =
      (nodes : List Node) × (file.nodes ≡ some nodes)
      × ((i : Text) → IsImported i nodes → IsAllowed rule i)

  -- Every file of every module that is there can be read and imports what its module may.
  abbrev pub IsLawful : SourceTree → Type 0
  IsLawful tree =
      (rule : ModuleRule)
      → Among rule rules
      → tree.exists rule.path ≡ true
      → (file : SourceFile) → Among file (tree.python_files rule.path)
      → IsLawfulFile rule file

  abbrev IsJudged : ModuleRule → Text → Type 0
  IsJudged rule i =
      (target : Text)
      → match_module i rules ≡ some target
      → (target ≡ rule.name) ⊎ (contains text_eq target rule.may_import ≡ true)

  judged_iff :
      (rule : ModuleRule) (location i : Text) (o : Option Text)
      → (judged rules rule location i o ≡ []) ↔ (
          (target : Text)
          → o ≡ some target
          → (target ≡ rule.name) ⊎ (contains text_eq target rule.may_import ≡ true))
  judged_iff rule location i none = (λ h target e. cc, λ h. refl)
  judged_iff rule location i (some n) = elim (Bool-cases (text_eq n rule.name)) [
    | inl own ↦ rw own (
      λ h target e. inl (sym (some-injective _ _ e) ∙ (text_eq_iff n rule.name).0 own),
      λ h. refl,
    )
    | inr other ↦ elim (Bool-cases (contains text_eq n rule.may_import)) [
      | inl listed ↦
          rw (other, listed) (λ h target e. inr (rw (some-injective _ _ e) at listed), λ h. refl)
      | inr unlisted ↦
          rw (other, unlisted)
            (
              λ h. cc,
              λ h. elim (h n refl) [
                | inl own ↦ cc (other, (text_eq_iff n rule.name).1 own)
                | inr listed ↦ cc (unlisted, listed)
              ],
            )
    ]
  ]

  check_each_iff :
      (rule : ModuleRule) (location : Text) (is : List Text)
      → (check_each rules rule location is ≡ [])
        ↔ ((i : Text) → contains text_eq i is ≡ true → IsJudged rule i)
  unfolding check_each contains
  check_each_iff rule location [] = (λ h i k. cc, λ h. refl)
  check_each_iff rule location (j ∷ is) =
      let both =
        append-eq-nil (judged rules rule location j (match_module j rules))
          (check_each rules rule location is) in
      let head = judged_iff rule location j (match_module j rules) in
      let tail = check_each_iff rule location is in
      (
        λ h i k. elim (contains-cons i j is k) [
          | inl same ↦ rw same (head.0 (both.0 h).0)
          | inr later ↦ tail.0 (both.0 h).1 i later
        ],
        λ h.
            both.1 (head.1 (h j (rw text_eq_refl refl)), tail.1 (λ i k. h i (rw k (ground arith)))),
      )

module _ (rules : List ModuleRule)
    (d : distinct text_eq (map (λ r. r.import_prefix) rules) ≡ true) where
  IsJudged-IsAllowed :
      (rule : ModuleRule) (i : Text) → IsJudged rules rule i ↔ IsAllowed rules rule i
  IsJudged-IsAllowed rule i = (
    λ h owner o. h owner.name ((match_module_iff i rules owner.name d).1 (owner, refl, o)),
    λ h target e.
        let (owner, named, o) = (match_module_iff i rules target d).0 e in rw named (h owner o),
  )

  check_nodes_iff :
      (rule : ModuleRule) (location : Text) (o : Option (List Node))
      → (check_nodes rules rule location o ≡ []) ↔ (
          (nodes : List Node) × (o ≡ some nodes)
          × ((i : Text) → IsImported i nodes → IsAllowed rules rule i))
  check_nodes_iff rule location none = (λ h. cc, λ (nodes, e, h). cc)
  check_nodes_iff rule location (some nodes) =
      let each =
        check_each_iff rules rule location
          (sorted_texts (set_of text_eq (imported_modules nodes))) in
      let same = λ (i : Text).
        contains-sorted_texts i (set_of text_eq (imported_modules nodes))
        ∙ contains-set_of text_eq text_eq_iff i (imported_modules nodes) in
      (
        λ h. (
          nodes,
          refl,
          λ i k.
              (IsJudged-IsAllowed rule i).0
                (each.0 h i (same i ∙ (imported_modules_iff i nodes).1 k)),
        ),
        λ (nodes', e, h). each.1 (λ i k. (IsJudged-IsAllowed rule i).1 (
            h i (
              rw (← some-injective nodes nodes' e)
                ((imported_modules_iff i nodes).0 (sym (same i) ∙ k))))),
      )

  check_files_iff :
      (rule : ModuleRule) (files : List SourceFile)
      → (check_files rules rule files ≡ [])
        ↔ ((file : SourceFile) → Among file files → IsLawfulFile rules rule file)
  unfolding check_files
  check_files_iff rule [] = (λ h file k. absurd k, λ h. refl)
  check_files_iff rule (f ∷ files) =
      let both =
        append-eq-nil (check_nodes rules rule f.location f.nodes) (check_files rules rule files) in
      let head = check_nodes_iff rule f.location f.nodes in
      let tail = check_files_iff rule files in
      (
        λ h file k. elim k [
          | inl same ↦ rw same (head.0 (both.0 h).0)
          | inr later ↦ tail.0 (both.0 h).1 file later
        ],
        λ h. both.1 (head.1 (h f (inl refl)), tail.1 (λ file k. h file (inr k))),
      )

  present_iff :
      (tree : SourceTree) (rule : ModuleRule)
      → ((if tree.exists rule.path
            then check_files rules rule (tree.python_files rule.path)
            else [])
          ≡ [])
        ↔ (tree.exists rule.path ≡ true
            → (file : SourceFile) → Among file (tree.python_files rule.path)
            → IsLawfulFile rules rule file)
  present_iff tree rule =
      let files = check_files_iff rule (tree.python_files rule.path) in
      elim (Bool-cases (tree.exists rule.path)) [
        | inl there ↦ rw there (λ h k. files.0 h, λ h. files.1 (h refl))
        | inr gone ↦ rw gone (λ h k. cc, λ h. refl)
      ]

  check_modules_iff :
      (tree : SourceTree) (rs : List ModuleRule)
      → (check_modules rules tree rs ≡ []) ↔ (
          (rule : ModuleRule)
          → Among rule rs
          → tree.exists rule.path ≡ true
          → (file : SourceFile) → Among file (tree.python_files rule.path)
          → IsLawfulFile rules rule file)
  unfolding check_modules
  check_modules_iff tree [] = (λ h rule k. absurd k, λ h. refl)
  check_modules_iff tree (r ∷ rs) =
      let both =
        append-eq-nil
          (if tree.exists r.path then check_files rules r (tree.python_files r.path) else [])
          (check_modules rules tree rs) in
      let head = present_iff tree r in
      let tail = check_modules_iff tree rs in
      (
        λ h rule k. elim k [
          | inl same ↦ rw same (head.0 (both.0 h).0)
          | inr later ↦ tail.0 (both.0 h).1 rule later
        ],
        λ h. both.1 (head.1 (h r (inl refl)), tail.1 (λ rule k. h rule (inr k))),
      )

-- Where no prefix is declared twice, `check_imports` reports nothing exactly if every Python file below
-- a module's directory that is there can be inspected, and every name that it imports belongs to no
-- rule, to its module's own or to one whose name its rule lists. Those names are the names of its
-- `import` statements and the module of each `from` statement that has one, not the items that a
-- `from` takes. A name belongs to the rule whose prefix is the longest that it is, or goes on after
-- with a dot.
pub check_imports_iff :
    (tree : SourceTree) (rules : List ModuleRule)
    → distinct text_eq (map (λ r. r.import_prefix) rules) ≡ true
    → (check_imports tree rules ≡ []) ↔ IsLawful rules tree
unfolding check_imports
check_imports_iff tree rules d = check_modules_iff rules d tree rules
