-- ===== src/Architecture/Imports/Named.antt =====
-- scripts/check_architecture.py: what `imported_modules` finds, told without it.
use portfolio_manager.Architecture.Imports.{
  Node, import_from, import_names, another, imported_modules, imports_of,
}
use portfolio_manager.Base.{
  Among, Bool-cases, List, Text, [], arith, contains, contains-append, false-ne-true, inl, inr,
  none, refl, some, sym, text_eq, true, ◌↔◌, ◌∙◌, ◌∷◌, ◌≡◌, ◌⊎◌,
}
use portfolio_manager.Base.Texts.Strip.{text_eq_iff}

-- The node is an `import` that names `i`, or a `from` whose module is `i`, which is not empty.
abbrev pub Imports : Text → Node → Type 0
Imports i node =
    ((ns : List Text) × (node ≡ import_names ns) × Among i ns)
    ⊎ ((node ≡ import_from (some i)) × ¬ (i ≡ []))

-- Some node of the file imports `i`.
abbrev pub IsImported : Text → List Node → Type 0
IsImported i nodes = (node : Node) × Among node nodes × Imports i node

contains_iff : (i : Text) (ns : List Text) → (contains text_eq i ns ≡ true) ↔ Among i ns
unfolding contains
contains_iff i [] = (λ h. cc, λ h. absurd h)
contains_iff i (n ∷ ns) = elim (Bool-cases (text_eq i n)) [
  | inl same ↦ rw same (λ h. inl ((text_eq_iff i n).0 same), λ h. refl)
  | inr other ↦
      let rest = contains_iff i ns in
      rw other (
        λ h. inr (rest.0 h),
        λ h. elim h [ inl same ↦ cc (other, (text_eq_iff i n).1 same) | inr later ↦ rest.1 later ],
      )
]

imports_of_iff :
    (i : Text) (node : Node) → (contains text_eq i (imports_of node) ≡ true) ↔ Imports i node
unfolding contains
imports_of_iff i (import_names ns) = (
  λ h. inl (ns, refl, (contains_iff i ns).0 h),
  λ h. elim h [
    | inl (ms, e, k) ↦ let same : ns ≡ ms = cc in (contains_iff i ns).1 (rw same k)
    | inr (e, k) ↦ cc
  ],
)
imports_of_iff i (import_from none) =
    (λ h. cc, λ h. elim h [ inl (ms, e, k) ↦ cc | inr (e, k) ↦ cc ])
imports_of_iff i (import_from (some [])) = (
  λ h. cc,
  λ h. elim h [
    | inl (ms, e, k) ↦ cc
    | inr (e, k) ↦ let none_there : i ≡ [] = cc in absurd (k none_there)
  ],
)
imports_of_iff i (import_from (some (c ∷ s))) = (
  λ h.
      let same : i ≡ c ∷ s = (text_eq_iff i (c ∷ s)).0 (ground arith) in
      inr (rw same refl, λ (e : i ≡ []). cc),
  λ h. elim h [
    | inl (ms, e, k) ↦ cc
    | inr (e, k) ↦ let same : i ≡ c ∷ s = cc in rw ((text_eq_iff i (c ∷ s)).1 same) refl
  ],
)
imports_of_iff i another = (λ h. cc, λ h. elim h [ inl (ms, e, k) ↦ cc | inr (e, k) ↦ cc ])

-- `imported_modules` finds what some node of the file imports, and nothing else.
pub imported_modules_iff :
    (i : Text) (nodes : List Node)
    → (contains text_eq i (imported_modules nodes) ≡ true) ↔ IsImported i nodes
unfolding imported_modules contains
imported_modules_iff i [] = (λ h. absurd (false-ne-true h), λ (node, k, h). absurd k)
imported_modules_iff i (node ∷ nodes) =
    let both = contains-append text_eq text_eq_iff i (imports_of node) (imported_modules nodes) in
    let head = imports_of_iff i node in
    let tail = imported_modules_iff i nodes in
    (
      λ h. elim (Bool-cases (contains text_eq i (imports_of node))) [
        | inl here ↦ (node, inl refl, head.0 here)
        | inr not_here ↦
            let (node', k, by) = tail.0 (sym (rw not_here at both) ∙ h) in (node', inr k, by)
      ],
      λ (node', k, by). elim k [
        | inl same ↦ both ∙ rw (head.1 (rw same at by)) refl
        | inr later ↦ both ∙ rw (tail.1 (node', later, by)) (ground arith)
      ],
    )
