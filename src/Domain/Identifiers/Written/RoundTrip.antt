-- ===== src/Domain/Identifiers/Written/RoundTrip.antt =====
-- domain/identifiers.py: an identifier from `__str__` to `parse`.
use portfolio_manager.Domain.Identifiers.{Identifier}
use portfolio_manager.Domain.Identifiers.Written.{
  hex_digit, hex_of, grouped, parse, to_text, uuid_of, signed_16, number_16,
}
use portfolio_manager.Domain.Identifiers.Written.Dashes.{
  all-grouped, without_dashes-grouped, without_text-dashed, lstrip_braces-dashed,
  rstrip_braces-dashed,
}
use portfolio_manager.Domain.Identifiers.Written.Digits.{
  all-digits_of_16, all-hex, below_16, digits_16-map, digits_of_16, hex_of-digits, length-hex_of,
  value-digits_of_16, length-digits_of_16,
}
use portfolio_manager.Base.{
  Bool, List, Option, Text, [], all, and_iff, arith, codes, false, is_hex, is_space, length, ltb,
  map, not, ok, refl, some, true, ℕ, ◌&&◌, ◌<◌, ◌==◌, ◌^◌, ◌||◌, ◌∷◌, ◌≡◌,
}
use portfolio_manager.Base.Integer.{strip_number-no_space}

hex-no_space : (s : Text) → all is_hex s ≡ true → all (λ c. not (is_space c)) s ≡ true
unfolding all is_space
hex-no_space [] h = refl
hex-no_space (c ∷ s) h = ground (arith, hex-no_space s)

all-hex_of : (w v : ℕ) → all is_hex (hex_of w v) ≡ true
all-hex_of w v = rw (hex_of-digits w v) (all-hex (digits_of_16 w v) (all-digits_of_16 w v))

module _ (unicode_decimal : ℕ → Option ℕ) where
  not_sign : (d : ℕ) → below_16 d ≡ true → (hex_digit d == b'-' || hex_digit d == b'+') ≡ false
  not_sign d h = ground arith

  not_minus : (d : ℕ) → below_16 d ≡ true → (hex_digit d == b'-') ≡ false
  not_minus d h = ground arith

  not_prefix : (d : ℕ) → below_16 d ≡ true → (hex_digit d == b'x' || hex_digit d == b'X') ≡ false
  not_prefix d h = ground arith

  and-false : (b : Bool) → (b && false) ≡ false
  and-false b = ground arith

  -- Thirty-two digits have no sign and no prefix before them.
  signed_16-map :
      (ds : List ℕ)
      → length ds ≡ 32
      → all below_16 ds ≡ true
      → signed_16 unicode_decimal (map hex_digit ds) ≡ number_16 unicode_decimal (some ds)
  unfolding all
  signed_16-map [] l h = absurd (omega (arith, l))
  signed_16-map (d ∷ []) l h = absurd (omega (arith, l))
  signed_16-map (d ∷ e ∷ ds) l h =
      let (x, xs) = (and_iff (below_16 d) (all below_16 (e ∷ ds))).0 h in
      let (y, ys) = (and_iff (below_16 e) (all below_16 ds)).0 xs in
      rw
        (
          not_sign d x,
          not_minus d x,
          not_prefix e y,
          and-false (hex_digit d == b'0'),
          digits_16-map unicode_decimal d (e ∷ ds) h,
        )
        refl

  uuid_of-hex :
      (v : ℕ)
      → v < 2 ^ 128
      → uuid_of unicode_decimal (grouped (8 ∷ 4 ∷ 4 ∷ 4 ∷ []) (hex_of 32 v)) ≡ some v
  unfolding uuid_of
  uuid_of-hex v h =
      let s = grouped (8 ∷ 4 ∷ 4 ∷ 4 ∷ []) (hex_of 32 v) in
      let hexadecimal = all-hex_of 32 v in
      let dashed = all-grouped (8 ∷ 4 ∷ 4 ∷ 4 ∷ []) (hex_of 32 v) hexadecimal in
      let small : ltb v (2 ^ 128) ≡ true = ground (arith, h) in
      rw
        (
          without_text-dashed b'u' (codes "rn:") s refl dashed,
          without_text-dashed b'u' (codes "uid:") s refl dashed,
          lstrip_braces-dashed s dashed,
          rstrip_braces-dashed s dashed,
          without_dashes-grouped (8 ∷ 4 ∷ 4 ∷ 4 ∷ []) (hex_of 32 v) hexadecimal,
          length-hex_of 32 v,
          strip_number-no_space (hex_of 32 v) (hex-no_space (hex_of 32 v) hexadecimal),
          hex_of-digits 32 v,
          signed_16-map (digits_of_16 32 v) (length-digits_of_16 32 v) (all-digits_of_16 32 v),
          value-digits_of_16 32 v h,
          small,
        )
        refl

  -- An identifier of 128 bits is what parse makes of its text, whatever the tag.
  pub parse-to_text :
      {EntityTag : Type 0} (id : Identifier EntityTag)
      → id.value < 2 ^ 128
      → parse unicode_decimal (to_text id) ≡ ok id
  unfolding parse to_text
  parse-to_text id h = rw (uuid_of-hex id.value h) refl
