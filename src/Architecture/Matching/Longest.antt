-- ===== src/Architecture/Matching/Longest.antt =====
-- scripts/check_architecture.py: which module `match_module` gives.
use portfolio_manager.Architecture.{ModuleRule}
use portfolio_manager.Architecture.Matching.{
  longest, matches_of, matches_prefix, starts_with, best_of, match_module, wider,
}
use portfolio_manager.Base.{
  Among, Bool-cases, List, Text, [], arith, inl, inr, length, ltb, refl, true, ◌++◌, ◌↔◌, ◌∷◌, ◌≡◌,
  ◌≤◌, ◌⊎◌, some, sym, text_eq, ℕ, ◌∙◌, false-ne-true,
}
use mathlib.Core.List.{append_assoc}
use portfolio_manager.Base.Texts.Strip.{text_eq_iff}

starts_with_iff : (s t : Text) → (starts_with s t ≡ true) ↔ ((rest : Text) × (s ≡ t ++ rest))
unfolding starts_with
starts_with_iff s [] = (λ h. (s, refl), λ h. refl)
starts_with_iff [] (y ∷ ys) = (λ h. cc, λ (rest, e). cc)
starts_with_iff (x ∷ xs) (y ∷ ys) = (
  λ h. let (rest, e) = (starts_with_iff xs ys).0 (ground arith) in (rest, ground arith),
  λ (rest, e).
      let tail : starts_with xs ys ≡ true = (starts_with_iff xs ys).1 (rest, cc) in
      let head : x ≡ y = cc in rw (head, tail) (ground arith),
)

-- An import belongs to a prefix if it is the prefix, or goes on after it with a dot.
abbrev pub Belongs : Text → Text → Type 0
Belongs i p = (i ≡ p) ⊎ ((rest : Text) × (i ≡ p ++ b'.' ∷ rest))

pub matches_prefix_iff : (i p : Text) → (matches_prefix i p ≡ true) ↔ Belongs i p
unfolding matches_prefix
matches_prefix_iff i p = (
  λ h. elim (Bool-cases (text_eq i p)) [
    | inl same ↦ inl ((text_eq_iff i p).0 same)
    | inr other ↦
        let (rest, e) = (starts_with_iff i (p ++ b'.' ∷ [])).0 (rw other at h) in
        inr (rest, e ∙ append_assoc p (b'.' ∷ []) rest)
  ],
  λ h. elim h [
    | inl same ↦ rw ((text_eq_iff i p).1 same) refl
    | inr (rest, e) ↦
        let starts =
          (starts_with_iff i (p ++ b'.' ∷ [])).1
            (rest, e ∙ sym (append_assoc p (b'.' ∷ []) rest)) in
        rw starts (ground arith)
  ],
)

width : ModuleRule → ℕ
width r = length r.import_prefix

wider_lem :
    (b r : ModuleRule)
    → (width b ≤ width (wider b r))
      × (width r ≤ width (wider b r))
      × ((wider b r ≡ b) ⊎ (wider b r ≡ r))
unfolding wider width
wider_lem b r = elim (Bool-cases (ltb (length b.import_prefix) (length r.import_prefix))) [
  | inl less ↦ rw less (ground arith, ground arith, inr refl)
  | inr not_less ↦ rw not_less (ground arith, ground arith, inl refl)
]

longest-le : (b : ModuleRule) (rs : List ModuleRule) → width b ≤ width (longest b rs)
unfolding longest
longest-le b [] = omega arith
longest-le b (r ∷ rs) = omega (arith, longest-le (wider b r) rs, (wider_lem b r).0)

longest-max :
    (b : ModuleRule) (rs : List ModuleRule) (r : ModuleRule)
    → Among r rs
    → width r ≤ width (longest b rs)
unfolding longest
longest-max b [] r h = absurd h
longest-max b (x ∷ rs) r (inl e) =
    rw e (omega (arith, longest-le (wider b x) rs, (wider_lem b x).1))
longest-max b (x ∷ rs) r (inr h) = longest-max (wider b x) rs r h

longest-Among : (b : ModuleRule) (rs : List ModuleRule) → Among (longest b rs) (b ∷ rs)
unfolding longest
longest-Among b [] = inl refl
longest-Among b (r ∷ rs) = elim (longest-Among (wider b r) rs) [
  | inl same ↦ elim (wider_lem b r).2 [
    | inl first ↦ inl (same ∙ first)
    | inr second ↦ inr (inl (same ∙ second))
  ]
  | inr later ↦ inr (inr later)
]

pub matches_of-Among :
    (i : Text) (rules : List ModuleRule) (r : ModuleRule)
    → Among r (matches_of i rules) ↔ (Among r rules × (matches_prefix i r.import_prefix ≡ true))
unfolding matches_of
matches_of-Among i [] r = (λ h. absurd h, λ h. absurd h.0)
matches_of-Among i (x ∷ rules) r = elim (Bool-cases (matches_prefix i x.import_prefix)) [
  | inl fits ↦
      let rest = matches_of-Among i rules r in
      rw fits (
        λ h. elim h [
          | inl same ↦ (inl same, rw same fits)
          | inr later ↦ (inr (rest.0 later).0, (rest.0 later).1)
        ],
        λ (h, k). elim h [ inl same ↦ inl same | inr later ↦ inr (rest.1 (later, k)) ],
      )
  | inr not_fits ↦
      let rest = matches_of-Among i rules r in
      rw not_fits (
        λ h. (inr (rest.0 h).0, (rest.0 h).1),
        λ (h, k). elim h [
          | inl same ↦ absurd (false-ne-true (sym not_fits ∙ rw same at k))
          | inr later ↦ rest.1 (later, k)
        ],
      )
]

-- The rule whose prefix is the longest of those that the import belongs to.
pub record IsOwner (i : Text) (rules : List ModuleRule) (r : ModuleRule) : Type 0 where
  pub among : Among r rules
  pub fits : Belongs i r.import_prefix
  pub widest :
      (r' : ModuleRule)
      → Among r' rules
      → Belongs i r'.import_prefix
      → length r'.import_prefix ≤ length r.import_prefix

best_of-inv :
    (ms : List ModuleRule) (n : Text)
    → best_of ms ≡ some n
    → (r : ModuleRule) × (n ≡ r.name)
      × Among r ms
      × ((r' : ModuleRule) → Among r' ms → width r' ≤ width r)
best_of-inv [] n h = cc
best_of-inv (m ∷ ms) n h = (
  longest m ms,
  cc,
  longest-Among m ms,
  λ r' k. elim k [ inl same ↦ rw same (longest-le m ms) | inr later ↦ longest-max m ms r' later ],
)

pub match_module-inv :
    (i : Text) (rules : List ModuleRule) (n : Text)
    → match_module i rules ≡ some n
    → (r : ModuleRule) × (n ≡ r.name) × IsOwner i rules r
unfolding match_module width
match_module-inv i rules n h =
    let (r, of_r, among, most) = best_of-inv (matches_of i rules) n h in
    (
      r,
      of_r,
      record {
        among = ((matches_of-Among i rules r).0 among).0;
        fits = (matches_prefix_iff i r.import_prefix).0 ((matches_of-Among i rules r).0 among).1;
        widest = λ r' k fits.
            most r'
              ((matches_of-Among i rules r').1 (k, (matches_prefix_iff i r'.import_prefix).1 fits));
      },
    )
