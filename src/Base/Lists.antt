-- ===== src/Base/Lists.antt =====
-- Lists measured by native numbers, Python's `any`, `all` and `in`.
use portfolio_manager.Base.Tests.{◌==◌, ltb, if◌then◌else◌}
use mathlib.Core.Logic.{◌↔◌, ◌⊎◌, inl, inr}
use Prim.Native.Nat.{◌≤◌}
use Prim.Native.Nat.{ℕ, suc, ◌+◌}
use mathlib.Core.Path.{◌≡◌, refl, sym, ap, ◌∙◌}
use mathlib.Core.Bool.{Bool, true, false, not, ◌&&◌, ◌||◌}
use mathlib.Core.List.{List, [], ◌∷◌, ◌++◌, map}
use native.Mathlib.Omega.{arith}

module _ {ℓ} {A : Type ℓ} where
  abbrev pub length : List A → ℕ
  length [] = 0
  length (x ∷ xs) = suc (length xs)

  pub length-append : (xs ys : List A) → length (xs ++ ys) ≡ length xs + length ys
  length-append [] ys = omega arith
  length-append (x ∷ xs) ys = omega (arith, length-append xs ys)

  abbrev pub is_empty : List A → Bool
  is_empty [] = true
  is_empty (x ∷ xs) = false

  unfoldable pub any : (A → Bool) → List A → Bool
  any p [] = false
  any p (x ∷ xs) = p x || any p xs

  unfoldable pub all : (A → Bool) → List A → Bool
  all p [] = true
  all p (x ∷ xs) = p x && all p xs

  -- A predicate at every element.
  abbrev pub All {κ} : (A → Type κ) → List A → Type κ
  All P [] = Unit
  All P (x ∷ xs) = P x × All P xs

  pub append-eq-nil : (xs ys : List A) → (xs ++ ys ≡ []) ↔ ((xs ≡ []) × (ys ≡ []))
  append-eq-nil [] ys = (λ h. (refl, h), λ h. h.1)
  append-eq-nil (x ∷ xs) ys = (λ h. cc, λ h. cc)

  pub any-append : (p : A → Bool) (xs ys : List A) → any p (xs ++ ys) ≡ (any p xs || any p ys)
  unfolding any
  any-append p [] ys = refl
  any-append p (x ∷ xs) ys = ground (arith, any-append p xs ys)

  pub all-append : (p : A → Bool) (xs ys : List A) → all p (xs ++ ys) ≡ (all p xs && all p ys)
  unfolding all
  all-append p [] ys = refl
  all-append p (x ∷ xs) ys = ground (arith, all-append p xs ys)

  -- `not any(not p)` is `all(p)`.
  pub any-not : (p : A → Bool) (xs : List A) → any (λ x. not (p x)) xs ≡ not (all p xs)
  unfolding any all
  any-not p [] = refl
  any-not p (x ∷ xs) = ground (arith, any-not p xs)

-- Python's `in`, and the set of a list, for a type with the equality test `eq`.
module _ {ℓ} {A : Type ℓ} (eq : A → A → Bool) where
  unfoldable pub contains : A → List A → Bool
  contains a [] = false
  contains a (x ∷ xs) = eq a x || contains a xs

  -- `set(xs)`, as a list with no item twice.
  unfoldable pub set_of : List A → List A
  unfolding contains
  set_of [] = []
  set_of (x ∷ xs) = let rest = set_of xs in if contains x rest then rest else x ∷ rest

  -- Each item once.
  unfoldable pub distinct : List A → Bool
  unfolding contains
  distinct [] = true
  distinct (x ∷ xs) = not (contains x xs) && distinct xs

module _ {ℓ} {A : Type ℓ} (eq : A → A → Bool) (eq_iff : (a b : A) → (eq a b ≡ true) ↔ (a ≡ b)) where
  pub contains-set_of : (a : A) (xs : List A) → contains eq a (set_of eq xs) ≡ contains eq a xs
  unfolding set_of
  contains-set_of a [] = refl
  contains-set_of a (x ∷ xs) =
      ground (arith, eq_iff a x, contains-set_of a xs, contains-set_of x xs)

  pub length-set_of-le : (xs : List A) → length (set_of eq xs) ≤ length xs
  unfolding set_of
  length-set_of-le [] = omega arith
  length-set_of-le (x ∷ xs) = ground (arith, length-set_of-le xs)

  -- `len(set(xs)) == len(xs)` says that no item stands twice.
  pub length-set_of : (xs : List A) → (length (set_of eq xs) == length xs) ≡ distinct eq xs
  unfolding set_of distinct
  length-set_of [] = refl
  length-set_of (x ∷ xs) =
      ground (arith, contains-set_of x xs, length-set_of-le xs, length-set_of xs)

  distinct-set_of : (xs : List A) → distinct eq (set_of eq xs) ≡ true
  unfolding set_of distinct
  distinct-set_of [] = refl
  distinct-set_of (x ∷ xs) = ground (arith, distinct-set_of xs)

  pair_of :
      (xs : List A)
      → distinct eq xs ≡ true
      → ltb (length xs) 2 ≡ false
      → (a : A) × (b : A) × (contains eq a xs ≡ true) × (contains eq b xs ≡ true) × (eq a b ≡ false)
  unfolding distinct
  pair_of [] d h = cc
  pair_of (x ∷ []) d h = cc
  pair_of (a ∷ b ∷ xs) d h =
      (a, b, ground (arith, eq_iff a a), ground (arith, eq_iff b b), ground arith)

  two_of_pair :
      (xs : List A) (a b : A)
      → contains eq a xs ≡ true
      → contains eq b xs ≡ true
      → eq a b ≡ false
      → ltb (length xs) 2 ≡ false
  unfolding contains
  two_of_pair [] a b p q ne = cc
  two_of_pair (x ∷ []) a b p q ne = ground (arith, eq_iff a x, eq_iff b x, eq_iff a b)
  two_of_pair (x ∷ y ∷ xs) a b p q ne = ground arith

  -- `len(set(xs)) < 2` fails exactly when two different items stand in the list.
  pub length-set_of-two :
      (xs : List A)
      → (ltb (length (set_of eq xs)) 2 ≡ false) ↔ (
          (a : A) × (b : A) × (contains eq a xs ≡ true)
          × (contains eq b xs ≡ true)
          × (eq a b ≡ false))
  length-set_of-two xs = (
    λ h.
        let (a, b, p, q, ne) = pair_of (set_of eq xs) (distinct-set_of xs) h in
        (a, b, sym (contains-set_of a xs) ∙ p, sym (contains-set_of b xs) ∙ q, ne),
    λ (a, b, p, q, ne).
        two_of_pair (set_of eq xs) a b (contains-set_of a xs ∙ p) (contains-set_of b xs ∙ q) ne,
  )

module _ {ℓ} {A : Type ℓ} (eq : A → A → Bool) (eq_iff : (a b : A) → (eq a b ≡ true) ↔ (a ≡ b)) where
  pub contains-append :
      (a : A) (xs ys : List A) → contains eq a (xs ++ ys) ≡ (contains eq a xs || contains eq a ys)
  unfolding contains
  contains-append a [] ys = refl
  contains-append a (x ∷ xs) ys = ground (arith, contains-append a xs ys)

  pub distinct-snoc :
      (xs : List A) (a : A)
      → distinct eq (xs ++ a ∷ []) ≡ (distinct eq xs && not (contains eq a xs))
  unfolding distinct
  distinct-snoc [] a = refl
  distinct-snoc (x ∷ xs) a =
      ground (arith, distinct-snoc xs a, contains-append x xs (a ∷ []), eq_iff a x, eq_iff x a)

  pub distinct-middle :
      (xs : List A) (a : A) (ys : List A)
      → distinct eq (xs ++ a ∷ ys) ≡ true
      → contains eq a xs ≡ false
  unfolding distinct contains
  distinct-middle [] a ys d = refl
  distinct-middle (x ∷ xs) a ys d =
      ground (arith, distinct-middle xs a ys, contains-append x xs (a ∷ ys), eq_iff a x, eq_iff x a)

pub length-map {ℓ κ} :
    {A : Type ℓ} {B : Type κ} (f : A → B) (xs : List A) → length (map f xs) ≡ length xs
length-map f [] = refl
length-map f (x ∷ xs) = ap suc (length-map f xs)

pub is_empty-map {ℓ κ} :
    {A : Type ℓ} {B : Type κ} (f : A → B) (xs : List A) → is_empty (map f xs) ≡ is_empty xs
is_empty-map f [] = refl
is_empty-map f (x ∷ xs) = refl

-- Stands in the list.
abbrev pub Among : {A : Type 0} → A → List A → Type 0
Among a [] = ⊥
Among a (x ∷ xs) = (a ≡ x) ⊎ Among a xs

-- Where no value of `f` comes twice, `f` tells the items apart.
module _ {A B : Type 0} (eq : B → B → Bool) (eq_iff : (a b : B) → (eq a b ≡ true) ↔ (a ≡ b))
    (f : A → B) where
  pub Among-contains : (a : A) (xs : List A) → Among a xs → contains eq (f a) (map f xs) ≡ true
  unfolding contains
  Among-contains a [] h = absurd h
  Among-contains a (x ∷ xs) (inl same) = rw (same, (eq_iff (f x) (f x)).1 refl) refl
  Among-contains a (x ∷ xs) (inr later) = rw (Among-contains a xs later) (ground arith)

  new_value :
      (a x : A) (xs : List A) → distinct eq (map f (x ∷ xs)) ≡ true → Among a xs → f a ≡ f x → ⊥
  unfolding distinct
  new_value a x xs d h e =
      let old : contains eq (f x) (map f xs) ≡ true = rw e at (Among-contains a xs h) in
      cc (rw old at d)

  pub distinct-map_injective :
      (xs : List A) (a b : A)
      → distinct eq (map f xs) ≡ true
      → Among a xs
      → Among b xs
      → f a ≡ f b
      → a ≡ b
  unfolding distinct
  distinct-map_injective [] a b d h k e = absurd h
  distinct-map_injective (x ∷ xs) a b d (inl p) (inl q) e = p ∙ sym q
  distinct-map_injective (x ∷ xs) a b d (inl p) (inr q) e =
      absurd (new_value b x xs d q (sym e ∙ ap f p))
  distinct-map_injective (x ∷ xs) a b d (inr p) (inl q) e =
      absurd (new_value a x xs d p (e ∙ ap f q))
  distinct-map_injective (x ∷ xs) a b d (inr p) (inr q) e =
      distinct-map_injective xs a b (ground arith) p q e
