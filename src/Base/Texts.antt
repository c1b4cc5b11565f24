-- ===== src/Base/Texts.antt =====
-- Python's `str` as its code points, and the methods of it that the program calls.
-- `is_alpha`, `is_alnum`, `is_decimal` and `upper` are read of ASCII text alone: each caller has
-- tested `isascii` before.
pub mod Strip
use Prim.Native.Char.{code}
use Prim.Native.String.{String}
use mathlib.Core.List.{reverse}
use portfolio_manager.Base.Tests.{leb, ltb, ◌==◌, if◌then◌else◌}
use portfolio_manager.Base.Lists.{length, is_empty, any, all}
use Prim.Native.Nat.{ℕ, ◌-◌}
use mathlib.Core.Bool.{Bool, true, false, not, ◌&&◌, ◌||◌}
use mathlib.Core.List.{List, [], ◌∷◌, map}

abbrev pub Text : Type 0
Text = List ℕ

abbrev pub Bytes : Type 0
Bytes = List ℕ

-- The code points of a literal.
abbrev pub codes : String → Text
codes String.[] = []
codes (String.◌∷◌ c s) = code c ∷ codes s

abbrev pub text_eq : Text → Text → Bool
text_eq [] [] = true
text_eq [] (y ∷ ys) = false
text_eq (x ∷ xs) [] = false
text_eq (x ∷ xs) (y ∷ ys) = x == y && text_eq xs ys

-- `x < y` of two strings, by code points.
unfoldable pub text_lt : Text → Text → Bool
text_lt xs [] = false
text_lt [] (y ∷ ys) = true
text_lt (x ∷ xs) (y ∷ ys) = ltb x y || (x == y && text_lt xs ys)

abbrev pub within : ℕ → ℕ → ℕ → Bool
within lo hi c = leb lo c && leb c hi

-- What `str.strip` takes for white space.
unfoldable pub is_space : ℕ → Bool
is_space c =
    within 9 13 c
    || within 28 32 c
    || c == 0x85
    || c == 0xa0
    || c == 0x1680
    || within 0x2000 0x200a c
    || within 0x2028 0x2029 c
    || c == 0x202f
    || c == 0x205f
    || c == 0x3000

unfoldable pub lstrip : Text → Text
lstrip [] = []
lstrip (c ∷ s) = let rest = lstrip s in if is_space c then rest else c ∷ s

unfoldable pub rstrip : Text → Text
rstrip s = reverse (lstrip (reverse s))

unfoldable pub strip : Text → Text
unfolding rstrip
strip s = rstrip (lstrip s)

abbrev pub is_lower : ℕ → Bool
is_lower c = within b'a' b'z' c

abbrev pub is_upper : ℕ → Bool
is_upper c = within b'A' b'Z' c

abbrev pub is_digit : ℕ → Bool
is_digit c = within b'0' b'9' c

abbrev pub is_ascii : Text → Bool
is_ascii s = all (λ c. ltb c 128) s

abbrev pub is_alnum : ℕ → Bool
is_alnum c = is_lower c || is_upper c || is_digit c

abbrev pub is_alpha : Text → Bool
is_alpha s = not (is_empty s) && all (λ c. is_lower c || is_upper c) s

abbrev pub is_decimal : Text → Bool
is_decimal s = not (is_empty s) && all is_digit s

abbrev pub upper : Text → Text
upper s = map (λ c. if is_lower c then c - 32 else c) s

-- `not value or value != value.strip()`
abbrev pub not_trimmed : Text → Bool
not_trimmed s = is_empty s || not (text_eq s (strip s))

-- A character of `[a-z0-9_.-]`.
abbrev pub is_key_char : ℕ → Bool
is_key_char c = is_lower c || is_digit c || c == b'_' || c == b'.' || c == b'-'

-- `re.compile(r"^[a-z][a-z0-9_.-]{0,63}$").fullmatch(value) is not None`
abbrev pub matches_key : Text → Bool
matches_key [] = false
matches_key (c ∷ s) = is_lower c && leb (length s) 63 && all is_key_char s

abbrev pub is_hex : ℕ → Bool
is_hex c = is_digit c || within b'a' b'f' c

-- `re.compile(r"^[0-9a-f]{64}$").fullmatch(value) is not None`
abbrev pub matches_digest : Text → Bool
matches_digest s = length s == 64 && all is_hex s

-- `not value or value != value.strip() or not value.isascii() or any(ord(c) < 33 or ord(c) > 126)`
abbrev pub not_printable : Text → Bool
not_printable s = not_trimmed s || not (is_ascii s) || any (λ c. ltb c 33 || ltb 126 c) s

-- `sorted(texts)`
unfoldable pub insert_text : Text → List Text → List Text
unfolding text_lt
insert_text s [] = s ∷ []
insert_text s (t ∷ ts) = let rest = insert_text s ts in if text_lt t s then t ∷ rest else s ∷ t ∷ ts

unfoldable pub sorted_texts : List Text → List Text
unfolding insert_text
sorted_texts [] = []
sorted_texts (s ∷ ts) = insert_text s (sorted_texts ts)
