-- ===== src/Base/Texts/Strip.antt =====
-- Texts that `strip` leaves alone, and the tests on text in closed form.
use mathlib.Core.List.{[], ◌∷◌, reverse, reverse-cons, reverse-reverse}
use Prim.Native.Nat.{ℕ}
use mathlib.Core.Path.{◌≡◌, refl, ◌∙◌}
use mathlib.Core.Logic.{◌↔◌}
use mathlib.Core.Bool.{Bool, true, false, not, ◌&&◌, ◌||◌}
use native.Mathlib.Omega.{arith}
use portfolio_manager.Base.Tests.{ltb}
use portfolio_manager.Base.Lists.{is_empty, any, all, all-append}
use portfolio_manager.Base.Texts.{
  Text, text_eq, within, is_space, lstrip, strip, not_trimmed, not_printable,
}
use portfolio_manager.Base.{Bool-cases, inl, inr, matches_key, is_key_char}

pub text_eq_refl : (s : Text) → text_eq s s ≡ true
text_eq_refl [] = refl
text_eq_refl (x ∷ xs) = ground (arith, text_eq_refl xs)

pub text_eq_iff : (s t : Text) → (text_eq s t ≡ true) ↔ (s ≡ t)
text_eq_iff [] [] = (λ h. refl, λ h. refl)
text_eq_iff [] (y ∷ ys) = (λ h. cc, λ h. cc)
text_eq_iff (x ∷ xs) [] = (λ h. cc, λ h. cc)
text_eq_iff (x ∷ xs) (y ∷ ys) = ground (arith, text_eq_iff xs ys)

abbrev no_space : ℕ → Bool
no_space c = not (is_space c)

lstrip-no_space : (s : Text) → all no_space s ≡ true → lstrip s ≡ s
unfolding lstrip all
lstrip-no_space [] h = refl
lstrip-no_space (c ∷ s) h = ground arith

all-reverse : (p : ℕ → Bool) (s : Text) → all p (reverse s) ≡ all p s
unfolding all
all-reverse p [] = refl
all-reverse p (c ∷ s) = rw (reverse-cons, all-append) (ground (arith, all-reverse p s))

-- A text without white space is its own `strip`.
pub strip-no_space : (s : Text) → all no_space s ≡ true → strip s ≡ s
unfolding strip
strip-no_space s h =
    rw (lstrip-no_space s h, lstrip-no_space (reverse s) (all-reverse no_space s ∙ h))
      (reverse-reverse s)

all_imp :
    (p q : ℕ → Bool)
    → ((c : ℕ) → p c ≡ true → q c ≡ true)
    → (s : Text) → all p s ≡ true
    → all q s ≡ true
unfolding all
all_imp p q imp [] h = refl
all_imp p q imp (c ∷ s) h = ground (arith, imp c, all_imp p q imp s)

-- A printable ASCII character other than the space.
abbrev pub is_printable : ℕ → Bool
is_printable c = within 33 126 c

is_printable-no_space : (c : ℕ) → is_printable c ≡ true → no_space c ≡ true
unfolding is_space
is_printable-no_space c h = ground arith

is_printable-ascii : (c : ℕ) → is_printable c ≡ true → ltb c 128 ≡ true
is_printable-ascii c h = ground arith

not_printable-any : (s : Text) → any (λ c. ltb c 33 || ltb 126 c) s ≡ not (all is_printable s)
unfolding any all
not_printable-any [] = refl
not_printable-any (c ∷ s) = ground (arith, not_printable-any s)

-- The four tests for a credential come down to two: it is not empty, and every character is
-- printable ASCII.
pub not_printable_lem : (s : Text) → not_printable s ≡ not (not (is_empty s) && all is_printable s)
not_printable_lem s = elim (Bool-cases (all is_printable s)) [
  | inl p ↦
      rw
        (
          not_printable-any,
          p,
          strip-no_space s (all_imp is_printable no_space is_printable-no_space s p),
          text_eq_refl,
          all_imp is_printable (λ c. ltb c 128) is_printable-ascii s p,
        )
        (ground arith)
  | inr n ↦ rw (not_printable-any, n) (ground arith)
]

is_key_char-no_space : (c : ℕ) → is_key_char c ≡ true → no_space c ≡ true
unfolding is_space
is_key_char-no_space c h = ground arith

matches_key-no_space : (s : Text) → matches_key s ≡ true → all no_space s ≡ true
unfolding all
matches_key-no_space [] h = cc
matches_key-no_space (c ∷ s) h =
    ground (arith, is_key_char-no_space c, all_imp is_key_char no_space is_key_char-no_space s)

-- A stable lowercase identifier is not empty and has no white space at its ends.
pub matches_key-trimmed : (s : Text) → matches_key s ≡ true → not_trimmed s ≡ false
matches_key-trimmed [] h = cc
matches_key-trimmed (c ∷ s) h =
    rw (strip-no_space (c ∷ s) (matches_key-no_space (c ∷ s) h), text_eq_refl (c ∷ s))
