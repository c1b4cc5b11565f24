-- ===== src/Architecture/Policy/Checked.antt =====
-- scripts/check_architecture.py: the second loop of `load_rules`.
use portfolio_manager.Architecture.Policy.{check_rule, check_rules, keep}
use portfolio_manager.Architecture.{ModuleRule, dependencies_of, names}
use portfolio_manager.Architecture.Cycles.Graph.{IsClosed}
use portfolio_manager.Base.{
  >>=-eq-ok, Among, Bool, Bool-cases, List, Text, [], arith, contains, false, inl, inr, is_empty,
  not, ok, raise_if, refl, sorted_texts, sym, text_eq, true, unknown_modules, ◌&&◌, ◌↔◌, ◌∙◌, ◌∷◌,
  ◌≡◌, ok-injective, raise_if-ok, and_iff, false-ne-true, not-false, not-true,
}
use portfolio_manager.Base.Texts.Strip.{text_eq_iff, text_eq_refl}

contains-keep :
    (p : Text → Bool) (x : Text) (xs : List Text)
    → contains text_eq x (keep p xs) ≡ (contains text_eq x xs && p x)
unfolding keep contains
contains-keep p x [] = refl
contains-keep p x (y ∷ ys) = elim (Bool-cases (text_eq x y)) [
  | inl same ↦
      let e = (text_eq_iff x y).0 same in
      elim (Bool-cases (p x)) [
        | inl px ↦ rw (← e, px, text_eq_refl) refl
        | inr px ↦ rw (← e, px, contains-keep p x ys, px) (ground arith)
      ]
  | inr other ↦ elim (Bool-cases (p y)) [
    | inl py ↦ rw (py, other, contains-keep p x ys) refl
    | inr py ↦ rw (py, other, contains-keep p x ys) refl
  ]
]

-- Each name that the rule lists has a rule, and the rule does not list itself.
pub record IsChecked (rules : List ModuleRule) (r : ModuleRule) : Type 0 where
  pub known :
      (n : Text) → contains text_eq n r.may_import ≡ true → contains text_eq n (names rules) ≡ true
  pub other : contains text_eq r.name r.may_import ≡ false

is_empty-contains :
    (xs : List Text) → is_empty xs ≡ false → (x : Text) × (contains text_eq x xs ≡ true)
unfolding contains
is_empty-contains [] h = cc
is_empty-contains (x ∷ xs) h = (x, rw text_eq_refl refl)

contains-none : (xs : List Text) (x : Text) → is_empty xs ≡ true → ¬ (contains text_eq x xs ≡ true)
unfolding contains
contains-none [] x e h = cc
contains-none (y ∷ xs) x e h = cc

check_rule_iff :
    (rules : List ModuleRule) (r : ModuleRule) → (check_rule rules r ≡ ok tt) ↔ IsChecked rules r
unfolding check_rule
check_rule_iff rules r =
    let unknown = keep (λ n. not (contains text_eq n (names rules))) r.may_import in
    (
      λ h.
          let (_, a, b) =
            >>=-eq-ok
              (raise_if (not (is_empty unknown)) (unknown_modules r.name (sorted_texts unknown))) _
              h in
          record {
            known = λ n k. elim (Bool-cases (contains text_eq n (names rules))) [
              | inl there ↦ there
              | inr gone ↦
                  let listed : contains text_eq n unknown ≡ true =
                    contains-keep (λ x. not (contains text_eq x (names rules))) n r.may_import
                    ∙ rw (k, gone) refl in
                  absurd (contains-none unknown n (not-false _ (raise_if-ok _ _ a)) listed)
            ];
            other = raise_if-ok _ _ b;
          },
      λ c. elim (Bool-cases (is_empty unknown)) [
        | inl none_left ↦ rw (none_left, c.other) refl
        | inr some_left ↦
            let (n, k) = is_empty-contains unknown some_left in
            let gone : Text → Bool = λ x. not (contains text_eq x (names rules)) in
            let (listed, missing) =
              (and_iff _ (gone n)).0 (sym (contains-keep gone n r.may_import) ∙ k) in
            absurd (false-ne-true (sym (not-true _ missing) ∙ c.known n listed))
      ],
    )

pub check_rules_iff :
    (rules rs : List ModuleRule)
    → (check_rules rules rs ≡ ok tt) ↔ ((r : ModuleRule) → Among r rs → IsChecked rules r)
unfolding check_rules
check_rules_iff rules [] = (λ h r k. absurd k, λ h. refl)
check_rules_iff rules (r ∷ rs) = (
  λ h x k.
      let (_, a, b) = >>=-eq-ok (check_rule rules r) _ h in
      elim k [
        | inl same ↦ rw same ((check_rule_iff rules r).0 a)
        | inr later ↦ (check_rules_iff rules rs).0 b x later
      ],
  λ h.
      rw ((check_rule_iff rules r).1 (h r (inl refl)))
        ((check_rules_iff rules rs).1 (λ x k. h x (inr k))),
)

dependencies_of-Among :
    (rules : List ModuleRule) (name : Text) (deps : List Text)
    → dependencies_of rules name ≡ ok deps
    → (r : ModuleRule) × Among r rules × (r.may_import ≡ deps)
unfolding dependencies_of
dependencies_of-Among [] name deps h = cc
dependencies_of-Among (r ∷ rules) name deps h = elim (Bool-cases (text_eq name r.name)) [
  | inl same ↦ (r, inl refl, ok-injective (rw same at h))
  | inr other ↦
      let (r', among, e) = dependencies_of-Among rules name deps (rw other at h) in
      (r', inr among, e)
]

pub IsChecked-IsClosed :
    (rules : List ModuleRule)
    → ((r : ModuleRule) → Among r rules → IsChecked rules r)
    → IsClosed rules
IsChecked-IsClosed rules c a b (deps, e, h) =
    let (r, among, f) = dependencies_of-Among rules a deps e in (c r among).known b (rw f h)
