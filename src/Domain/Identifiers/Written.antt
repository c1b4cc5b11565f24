-- ===== src/Domain/Identifiers/Written.antt =====
-- domain/identifiers.py: `parse` and `__str__`, which are those of `uuid.UUID`. The decimal digits of
-- Unicode beyond ASCII, which `int` reads in any base, are the parameter `unicode_decimal`.
pub mod Dashes
pub mod Digits
pub mod RoundTrip
use portfolio_manager.Domain.Identifiers.{Identifier}
use portfolio_manager.Base.Integer.{strip_number}
use portfolio_manager.Base.{
  Bool, List, Option, Text, [], false, if◌then◌else◌, is_digit, is_empty, length, ltb, none, some,
  suc, true, within, zero, ℕ, ◌%◌, ◌&&◌, ◌*◌, ◌++◌, ◌+◌, ◌-◌, ◌/◌, ◌==◌, ◌||◌, ◌∷◌, Result, codes,
  err, not, ok, value_error, ◌^◌,
}
use mathlib.Core.List.{foldl}

-- The digits of `format(value, "032x")`, and the four dashes between them.
abbrev pub hex_digit : ℕ → ℕ
hex_digit d = if ltb d 10 then b'0' + d else b'a' + (d - 10)

unfoldable pub hex_of : ℕ → ℕ → Text
hex_of zero value = []
hex_of (suc width) value = hex_of width (value / 16) ++ hex_digit (value % 16) ∷ []

unfoldable pub take_text : ℕ → Text → Text
take_text zero s = []
take_text (suc n) [] = []
take_text (suc n) (c ∷ s) = c ∷ take_text n s

unfoldable pub drop_text : ℕ → Text → Text
drop_text zero s = s
drop_text (suc n) [] = []
drop_text (suc n) (c ∷ s) = drop_text n s

unfoldable pub grouped : List ℕ → Text → Text
grouped [] s = s
grouped (n ∷ ns) s = take_text n s ++ b'-' ∷ grouped ns (drop_text n s)

unfoldable pub to_text : {EntityTag : Type 0} → Identifier EntityTag → Text
to_text self = grouped (8 ∷ 4 ∷ 4 ∷ 4 ∷ []) (hex_of 32 self.value)

abbrev pub begins_with : Text → Text → Bool
begins_with [] s = true
begins_with (c ∷ p) [] = false
begins_with (c ∷ p) (d ∷ s) = c == d && begins_with p s

-- `text.replace(pattern, "")`, with so many characters of a pattern that was found still to be left
-- out.
unfoldable pub without_text : Text → ℕ → Text → Text
without_text pattern skip [] = []
without_text pattern (suc skip) (c ∷ s) = without_text pattern skip s
without_text pattern zero (c ∷ s) =
    let found = begins_with pattern (c ∷ s) in
    let rest = without_text pattern (if found then length pattern - 1 else 0) s in
    if found then rest else c ∷ rest

abbrev pub is_brace : ℕ → Bool
is_brace c = c == b'{' || c == b'}'

-- `text.strip("{}")`
unfoldable pub lstrip_braces : Text → Text
lstrip_braces [] = []
lstrip_braces (c ∷ s) = let rest = lstrip_braces s in if is_brace c then rest else c ∷ s

unfoldable pub rstrip_braces : Text → Text
rstrip_braces [] = []
rstrip_braces (c ∷ s) =
    let rest = rstrip_braces s in if is_brace c && is_empty rest then [] else c ∷ rest

-- `text.replace("-", "")`
unfoldable pub without_dashes : Text → Text
without_dashes [] = []
without_dashes (c ∷ s) = let rest = without_dashes s in if c == b'-' then rest else c ∷ rest

module _ (unicode_decimal : ℕ → Option ℕ) where
  -- The value of a character as a digit in base 16.
  unfoldable pub digit_16 : ℕ → Option ℕ
  digit_16 c =
      if is_digit c
      then some (c - b'0')
      else if within b'a' b'f' c
      then some (c - b'a' + 10)
      else if within b'A' b'F' c
      then some (c - b'A' + 10)
      else if ltb c 128
      then none
      else unicode_decimal c

  abbrev pub cons_16 : Option ℕ → Option (List ℕ) → Option (List ℕ)
  cons_16 none rest = none
  cons_16 (some d) none = none
  cons_16 (some d) (some ds) = some (d ∷ ds)

  -- The digits of a text: at least one, with single underscores between them. `behind` tells whether
  -- the text before ends in a digit.
  unfoldable pub digits_16 : Bool → Text → Option (List ℕ)
  unfolding digit_16
  digits_16 false [] = none
  digits_16 true [] = some []
  digits_16 behind (c ∷ s) =
      let rest = digits_16 (not (c == b'_')) s in
      if behind && c == b'_' then rest else cons_16 (digit_16 c) rest

  abbrev pub number_16 : Option (List ℕ) → Option ℕ
  number_16 none = none
  number_16 (some ds) = some (foldl (λ n d. n * 16 + d) 0 ds)

  -- An underscore may follow the prefix.
  abbrev pub after_prefix : Text → Text
  after_prefix [] = []
  after_prefix (c ∷ s) = if c == b'_' then s else c ∷ s

  abbrev pub without_prefix : Text → Text
  without_prefix (z ∷ x ∷ s) =
      if z == b'0' && (x == b'x' || x == b'X') then after_prefix s else z ∷ x ∷ s
  without_prefix s = s

  -- `int(text, 16)`, with `none` for `ValueError` and for a number below 0, which `UUID` refuses with
  -- a `ValueError`. Minus zero is 0.
  abbrev pub signed_16 : Text → Option ℕ
  signed_16 [] = none
  signed_16 (c ∷ s) =
      let rest = if c == b'-' || c == b'+' then s else c ∷ s in
      not_negative (c == b'-') (number_16 (digits_16 false (without_prefix rest)))
    where
      not_negative : Bool → Option ℕ → Option ℕ
      not_negative true (some zero) = some 0
      not_negative true _ = none
      not_negative false n = n

  abbrev pub below_limit : Option ℕ → Option ℕ
  below_limit none = none
  below_limit (some n) = if ltb n (2 ^ 128) then some n else none

  -- `UUID(value)`
  unfoldable pub uuid_of : Text → Option ℕ
  unfolding without_text lstrip_braces rstrip_braces without_dashes digits_16 strip_number
  uuid_of value =
      let bare = without_text (codes "uuid:") 0 (without_text (codes "urn:") 0 value) in
      let hex = without_dashes (rstrip_braces (lstrip_braces bare)) in
      if length hex == 32 then below_limit (signed_16 (strip_number hex)) else none

  abbrev made : {EntityTag : Type 0} → Option ℕ → Result (Identifier EntityTag)
  made none = err (value_error "badly formed hexadecimal UUID string")
  made (some n) = ok (record { value = n })

  unfoldable pub parse : {EntityTag : Type 0} → Text → Result (Identifier EntityTag)
  parse value = made (uuid_of value)
