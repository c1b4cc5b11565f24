-- ===== src/Architecture/Matching/Owner.antt =====
-- scripts/check_architecture.py: `match_module` over rules with different prefixes.
use mathlib.Core.List.{append-nil}
use portfolio_manager.Architecture.{ModuleRule}
use portfolio_manager.Architecture.Matching.{best_of, match_module, matches_of}
use portfolio_manager.Architecture.Matching.Longest.{
  Belongs, IsOwner, match_module-inv, matches_of-Among, matches_prefix_iff,
}
use portfolio_manager.Base.{
  Among, List, Option-cases, Text, [], ap, arith, distinct, distinct-map_injective, inl, inr,
  length, map, none, refl, some, sym, text_eq, true, ◌++◌, ◌↔◌, ◌∙◌, ◌∷◌, ◌≡◌,
}
use portfolio_manager.Base.Texts.Strip.{text_eq_iff}

prefix_unique : (p q u v : Text) → p ++ u ≡ q ++ v → length p ≡ length q → p ≡ q
prefix_unique [] [] u v e h = refl
prefix_unique [] (y ∷ q) u v e h = absurd (omega arith)
prefix_unique (x ∷ p) [] u v e h = absurd (omega arith)
prefix_unique (x ∷ p) (y ∷ q) u v e h = cc (prefix_unique p q u v (cc) (omega arith), e)

-- An import is its prefix and something after it.
prefix_of : (i p : Text) → Belongs i p → (rest : Text) × (i ≡ p ++ rest)
prefix_of i p h = elim h [
  | inl same ↦ ([], same ∙ sym (append-nil p))
  | inr (rest, e) ↦ (b'.' ∷ rest, e)
]

owner_unique :
    (i : Text) (rules : List ModuleRule) (r r' : ModuleRule)
    → distinct text_eq (map (λ x. x.import_prefix) rules) ≡ true
    → IsOwner i rules r
    → IsOwner i rules r'
    → r ≡ r'
owner_unique i rules r r' d o o' =
    let (u, e) = prefix_of i r.import_prefix o.fits in
    let (v, e') = prefix_of i r'.import_prefix o'.fits in
    let long : length r.import_prefix ≡ length r'.import_prefix =
      omega (arith, o.widest r' o'.among o'.fits, o'.widest r o.among o.fits) in
    distinct-map_injective text_eq text_eq_iff (λ x. x.import_prefix) rules r r' d o.among o'.among
      (prefix_unique r.import_prefix r'.import_prefix u v (sym e ∙ e') long)

best_of-nil : (ms : List ModuleRule) (r : ModuleRule) → best_of ms ≡ none → ¬ (Among r ms)
best_of-nil [] r h k = k
best_of-nil (m ∷ ms) r h k = cc

none-matches :
    (i : Text) (rules : List ModuleRule) (r : ModuleRule)
    → match_module i rules ≡ none
    → ¬ (IsOwner i rules r)
unfolding match_module
none-matches i rules r h o =
    let fits = (matches_prefix_iff i r.import_prefix).1 o.fits in
    best_of-nil (matches_of i rules) r h ((matches_of-Among i rules r).1 (o.among, fits))

-- Where no prefix is declared twice, `match_module` gives the name of the rule whose prefix is the
-- longest of those that the import is, or goes on after with a dot, and nothing where there is none:
-- the order of the rules does not matter.
pub match_module_iff :
    (i : Text) (rules : List ModuleRule) (n : Text)
    → distinct text_eq (map (λ r. r.import_prefix) rules) ≡ true
    → (match_module i rules ≡ some n) ↔ ((r : ModuleRule) × (n ≡ r.name) × IsOwner i rules r)
match_module_iff i rules n d = (
  match_module-inv i rules n,
  λ (r, of_r, o). elim (Option-cases (match_module i rules)) [
    | inl nothing ↦ absurd (none-matches i rules r nothing o)
    | inr (n', e) ↦
        let (r', of_r', o') = match_module-inv i rules n' e in
        cc (e, of_r, of_r', ap (λ (x : ModuleRule). x.name) (owner_unique i rules r r' d o o'))
  ],
)
