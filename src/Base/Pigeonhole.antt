-- ===== src/Base/Pigeonhole.antt =====
-- A list of different items, all of them in another list, is not longer than that.
use portfolio_manager.Base.Lists.{length, contains, distinct}
use portfolio_manager.Base.Tests.{Bool-cases, if◌then◌else◌}
use mathlib.Core.Logic.{◌↔◌, inl, inr}
use Prim.Native.Nat.{◌≤◌, suc}
use mathlib.Core.Path.{◌≡◌, ap}
use mathlib.Core.Bool.{Bool, true, false, not, ◌&&◌}
use mathlib.Core.List.{List, [], ◌∷◌}
use native.Mathlib.Omega.{arith}

head_new : (b c : Bool) → (not b && c) ≡ true → b ≡ false
head_new b c h = ground arith

module _ {ℓ} {A : Type ℓ} (eq : A → A → Bool) (eq_iff : (a b : A) → (eq a b ≡ true) ↔ (a ≡ b)) where
  -- All but the first `a`.
  without : A → List A → List A
  without a [] = []
  without a (x ∷ xs) = let rest = without a xs in if eq a x then xs else x ∷ rest

  length-without :
      (a : A) (xs : List A) → contains eq a xs ≡ true → suc (length (without a xs)) ≡ length xs
  unfolding without contains
  length-without a [] h = cc
  length-without a (x ∷ xs) h = ground (arith, length-without a xs)

  contains-without :
      (a b : A) (xs : List A)
      → eq b a ≡ false
      → contains eq b xs ≡ true
      → contains eq b (without a xs) ≡ true
  unfolding without contains
  contains-without a b [] ne h = cc
  contains-without a b (x ∷ xs) ne h =
      ground (arith, contains-without a b xs, eq_iff a x, eq_iff b x, eq_iff b a)

  fresh-ne :
      (a x : A) (xs : List A)
      → distinct eq (x ∷ xs) ≡ true
      → contains eq a xs ≡ true
      → eq a x ≡ false
  unfolding distinct
  fresh-ne a x xs d k = elim (Bool-cases (eq a x)) [
    | inl same ↦
        let e = (eq_iff a x).0 same in
        cc (ap (λ (t : A). contains eq t xs) e, k, head_new (contains eq x xs) (distinct eq xs) d)
    | inr other ↦ other
  ]

  pub length-le_of_distinct :
      (xs ys : List A)
      → distinct eq xs ≡ true
      → ((a : A) → contains eq a xs ≡ true → contains eq a ys ≡ true)
      → length xs ≤ length ys
  unfolding distinct contains
  length-le_of_distinct [] ys d h = omega arith
  length-le_of_distinct (x ∷ xs) ys d h =
      let here : contains eq x ys ≡ true = h x (ground (arith, eq_iff x x)) in
      let shorter : length xs ≤ length (without x ys) =
        length-le_of_distinct xs (without x ys) (ground arith)
          (λ a k. contains-without x a ys (fresh-ne a x xs d k) (h a (rw k (ground arith)))) in
      omega (arith, length-without x ys here, shorter)
