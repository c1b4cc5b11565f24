-- ===== src/Base/Integer.antt =====
-- Python's `int(text)` in base ten. The decimal digits beyond ASCII are those of the Unicode database,
-- the parameter `unicode_decimal`. `none` stands for `ValueError`, which a text of more than 4300
-- digits raises too.
use Prim.Native.Nat.{ℕ, zero, suc, ◌+◌, ◌-◌, ◌*◌}
use mathlib.Core.Bool.{Bool, true, false, not, ◌&&◌}
use mathlib.Core.Option.{Option, none, some}
use mathlib.Core.List.{List, [], ◌∷◌, foldl}
use portfolio_manager.Base.Tests.{ltb, ◌==◌, if◌then◌else◌}
use portfolio_manager.Base.Lists.{all, is_empty, length}
use mathlib.Core.Path.{◌≡◌, refl}
use native.Mathlib.Omega.{arith}
use portfolio_manager.Base.Texts.{Text, is_digit, is_space, within}
use portfolio_manager.Base.Int.{ℤ, pos, negsuc}

-- `sys.int_info.default_max_str_digits`
abbrev pub max_digits : ℕ
max_digits = 4300

-- What `int` leaves out at the ends of a text: `str.strip`'s white space, but not the four separators
-- of ASCII.
unfoldable pub is_number_space : ℕ → Bool
is_number_space c = is_space c && not (within 28 31 c)

unfoldable pub lstrip_number : Text → Text
unfolding is_number_space
lstrip_number [] = []
lstrip_number (c ∷ s) = let rest = lstrip_number s in if is_number_space c then rest else c ∷ s

unfoldable pub rstrip_number : Text → Text
unfolding is_number_space
rstrip_number [] = []
rstrip_number (c ∷ s) =
    let rest = rstrip_number s in if is_number_space c && is_empty rest then [] else c ∷ rest

unfoldable pub strip_number : Text → Text
unfolding lstrip_number rstrip_number
strip_number s = rstrip_number (lstrip_number s)

abbrev no_space : ℕ → Bool
no_space c = not (is_space c)

lstrip_number-no_space : (s : Text) → all no_space s ≡ true → lstrip_number s ≡ s
unfolding lstrip_number is_number_space all
lstrip_number-no_space [] h = refl
lstrip_number-no_space (c ∷ s) h = ground arith

rstrip_number-no_space : (s : Text) → all no_space s ≡ true → rstrip_number s ≡ s
unfolding rstrip_number is_number_space all
rstrip_number-no_space [] h = refl
rstrip_number-no_space (c ∷ s) h = ground (arith, rstrip_number-no_space s)

-- A text without white space is left as it is.
pub strip_number-no_space : (s : Text) → all no_space s ≡ true → strip_number s ≡ s
unfolding strip_number
strip_number-no_space s h = rw (lstrip_number-no_space s h) (rstrip_number-no_space s h)

abbrev negated : ℕ → ℤ
negated zero = pos 0
negated (suc n) = negsuc n

module _ (unicode_decimal : ℕ → Option ℕ) where
  unfoldable pub digit_value : ℕ → Option ℕ
  digit_value c =
      if is_digit c then some (c - b'0') else if ltb c 128 then none else unicode_decimal c

  abbrev cons_digit : Option ℕ → Option (List ℕ) → Option (List ℕ)
  cons_digit none rest = none
  cons_digit (some d) none = none
  cons_digit (some d) (some ds) = some (d ∷ ds)

  -- The digits of a text: at least one, with single underscores between them. `behind` tells whether
  -- the text before ends in a digit.
  unfoldable pub digits_of : Bool → Text → Option (List ℕ)
  unfolding digit_value
  digits_of false [] = none
  digits_of true [] = some []
  digits_of behind (c ∷ s) =
      let rest = digits_of (not (c == b'_')) s in
      if behind && c == b'_' then rest else cons_digit (digit_value c) rest

  abbrev limited : (ℕ → ℤ) → Option (List ℕ) → Option ℤ
  limited sign none = none
  limited sign (some ds) =
      if ltb max_digits (length ds) then none else some (sign (foldl (λ n d. n * 10 + d) 0 ds))

  abbrev signed : Text → Option ℤ
  signed [] = none
  signed (c ∷ s) =
      if c == b'-'
      then limited negated (digits_of false s)
      else limited pos (digits_of false (if c == b'+' then s else c ∷ s))

  unfoldable pub int_of : Text → Option ℤ
  unfolding digits_of strip_number
  int_of s = signed (strip_number s)
