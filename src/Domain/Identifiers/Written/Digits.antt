-- ===== src/Domain/Identifiers/Written/Digits.antt =====
-- domain/identifiers.py: the digits of a number in base 16.
use portfolio_manager.Domain.Identifiers.Written.{hex_digit, hex_of, digits_16, digit_16}
use mathlib.Core.List.{foldl}
use portfolio_manager.Base.{
  Bool, List, Option, Text, [], all, all-append, and_iff, ap, arith, false, is_hex, length,
  length-append, ltb, map, refl, some, suc, true, zero, ℕ, ◌%◌, ◌*◌, ◌++◌, ◌+◌, ◌/◌, ◌<◌, ◌==◌, ◌^◌,
  ◌∷◌, ◌≡◌,
}

-- The values of the digits.
pub digits_of_16 : ℕ → ℕ → List ℕ
digits_of_16 zero v = []
digits_of_16 (suc w) v = digits_of_16 w (v / 16) ++ v % 16 ∷ []

map-append : (xs ys : List ℕ) → map hex_digit (xs ++ ys) ≡ map hex_digit xs ++ map hex_digit ys
map-append [] ys = refl
map-append (x ∷ xs) ys = ap (λ (t : Text). hex_digit x ∷ t) (map-append xs ys)

pub hex_of-digits : (w v : ℕ) → hex_of w v ≡ map hex_digit (digits_of_16 w v)
unfolding hex_of digits_of_16
hex_of-digits zero v = refl
hex_of-digits (suc w) v =
    rw (hex_of-digits w (v / 16), map-append (digits_of_16 w (v / 16)) (v % 16 ∷ [])) refl

pub length-hex_of : (w v : ℕ) → length (hex_of w v) ≡ w
unfolding hex_of
length-hex_of zero v = refl
length-hex_of (suc w) v =
    omega
      (arith, length-append (hex_of w (v / 16)) (hex_digit (v % 16) ∷ []), length-hex_of w (v / 16))

pub length-digits_of_16 : (w v : ℕ) → length (digits_of_16 w v) ≡ w
unfolding digits_of_16
length-digits_of_16 zero v = refl
length-digits_of_16 (suc w) v =
    omega
      (arith, length-append (digits_of_16 w (v / 16)) (v % 16 ∷ []), length-digits_of_16 w (v / 16))

abbrev pub below_16 : ℕ → Bool
below_16 d = ltb d 16

pub all-digits_of_16 : (w v : ℕ) → all below_16 (digits_of_16 w v) ≡ true
unfolding digits_of_16 all
all-digits_of_16 zero v = refl
all-digits_of_16 (suc w) v =
    let small : below_16 (v % 16) ≡ true = ground arith in
    rw
      (
        all-append below_16 (digits_of_16 w (v / 16)) (v % 16 ∷ []),
        all-digits_of_16 w (v / 16),
        small,
      )
      refl

hex_digit-is_hex : (d : ℕ) → below_16 d ≡ true → is_hex (hex_digit d) ≡ true
hex_digit-is_hex d h = ground arith

pub all-hex : (ds : List ℕ) → all below_16 ds ≡ true → all is_hex (map hex_digit ds) ≡ true
unfolding all
all-hex [] h = refl
all-hex (d ∷ ds) h =
    let (x, xs) = (and_iff (below_16 d) (all below_16 ds)).0 h in
    rw (hex_digit-is_hex d x, all-hex ds xs) refl

foldl-snoc :
    (n d : ℕ) (ds : List ℕ)
    → foldl (λ n d. n * 16 + d) n (ds ++ d ∷ []) ≡ foldl (λ n d. n * 16 + d) n ds * 16 + d
foldl-snoc n d [] = refl
foldl-snoc n d (x ∷ ds) = foldl-snoc (n * 16 + x) d ds

pub value-digits_of_16 : (w v : ℕ) → v < 16 ^ w → foldl (λ n d. n * 16 + d) 0 (digits_of_16 w v) ≡ v
unfolding digits_of_16
value-digits_of_16 zero v h = omega (arith, h)
value-digits_of_16 (suc w) v h =
    let smaller : v / 16 < 16 ^ w = omega (arith, h) in
    rw (foldl-snoc 0 (v % 16) (digits_of_16 w (v / 16)), value-digits_of_16 w (v / 16) smaller)
      (omega arith)

module _ (unicode_decimal : ℕ → Option ℕ) where
  digit_16-hex_digit : (d : ℕ) → below_16 d ≡ true → digit_16 unicode_decimal (hex_digit d) ≡ some d
  unfolding digit_16
  digit_16-hex_digit d h = ground arith

  not_underscore : (d : ℕ) → below_16 d ≡ true → (hex_digit d == b'_') ≡ false
  not_underscore d h = ground arith

  digits_16-after :
      (ds : List ℕ)
      → all below_16 ds ≡ true
      → digits_16 unicode_decimal true (map hex_digit ds) ≡ some ds
  unfolding digits_16 all
  digits_16-after [] h = refl
  digits_16-after (d ∷ ds) h =
      let (x, xs) = (and_iff (below_16 d) (all below_16 ds)).0 h in
      rw (not_underscore d x, digits_16-after ds xs, digit_16-hex_digit d x) refl

  pub digits_16-map :
      (d : ℕ) (ds : List ℕ)
      → all below_16 (d ∷ ds) ≡ true
      → digits_16 unicode_decimal false (map hex_digit (d ∷ ds)) ≡ some (d ∷ ds)
  unfolding digits_16 all
  digits_16-map d ds h =
      let (x, xs) = (and_iff (below_16 d) (all below_16 ds)).0 h in
      rw (not_underscore d x, digits_16-after ds xs, digit_16-hex_digit d x) refl
