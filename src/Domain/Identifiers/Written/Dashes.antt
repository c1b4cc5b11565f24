-- ===== src/Domain/Identifiers/Written/Dashes.antt =====
-- domain/identifiers.py: the characters that `parse` leaves out of a text.
use portfolio_manager.Domain.Identifiers.Written.{
  grouped, take_text, drop_text, without_dashes, without_text, lstrip_braces, rstrip_braces,
  is_brace,
}
use portfolio_manager.Base.{
  Bool, Bool-cases, List, Text, [], all, all-append, and_iff, ap, arith, false, inl, inr, is_hex,
  refl, suc, true, zero, ℕ, ◌++◌, ◌==◌, ◌||◌, ◌∷◌, ◌≡◌,
}

all-take_text : (p : ℕ → Bool) (n : ℕ) (s : Text) → all p s ≡ true → all p (take_text n s) ≡ true
unfolding all take_text
all-take_text p zero s h = refl
all-take_text p (suc n) [] h = refl
all-take_text p (suc n) (c ∷ s) h = ground (arith, all-take_text p n s)

all-drop_text : (p : ℕ → Bool) (n : ℕ) (s : Text) → all p s ≡ true → all p (drop_text n s) ≡ true
unfolding all drop_text
all-drop_text p zero s h = h
all-drop_text p (suc n) [] h = refl
all-drop_text p (suc n) (c ∷ s) h = all-drop_text p n s (ground arith)

take_text-drop_text : (n : ℕ) (s : Text) → take_text n s ++ drop_text n s ≡ s
unfolding take_text drop_text
take_text-drop_text zero s = refl
take_text-drop_text (suc n) [] = refl
take_text-drop_text (suc n) (c ∷ s) = ap (λ (t : Text). c ∷ t) (take_text-drop_text n s)

abbrev pub is_dashed : ℕ → Bool
is_dashed c = is_hex c || c == b'-'

hex-dashed : (s : Text) → all is_hex s ≡ true → all is_dashed s ≡ true
unfolding all
hex-dashed [] h = refl
hex-dashed (c ∷ s) h = ground (arith, hex-dashed s)

pub all-grouped :
    (ns : List ℕ) (s : Text) → all is_hex s ≡ true → all is_dashed (grouped ns s) ≡ true
unfolding grouped all
all-grouped [] s h = hex-dashed s h
all-grouped (n ∷ ns) s h =
    rw
      (
        all-append is_dashed (take_text n s) (b'-' ∷ grouped ns (drop_text n s)),
        hex-dashed (take_text n s) (all-take_text is_hex n s h),
        all-grouped ns (drop_text n s) (all-drop_text is_hex n s h),
      )
      refl

without_dashes-append :
    (s t : Text) → without_dashes (s ++ t) ≡ without_dashes s ++ without_dashes t
unfolding without_dashes
without_dashes-append [] t = refl
without_dashes-append (c ∷ s) t = elim (Bool-cases (c == b'-')) [
  | inl dash ↦ rw (dash, without_dashes-append s t) refl
  | inr other ↦ rw (other, without_dashes-append s t) refl
]

without_dashes-hex : (s : Text) → all is_hex s ≡ true → without_dashes s ≡ s
unfolding without_dashes all
without_dashes-hex [] h = refl
without_dashes-hex (c ∷ s) h =
    let (x, xs) = (and_iff (is_hex c) (all is_hex s)).0 h in
    let other : (c == b'-') ≡ false = ground (arith, x) in rw (other, without_dashes-hex s xs) refl

pub without_dashes-grouped :
    (ns : List ℕ) (s : Text) → all is_hex s ≡ true → without_dashes (grouped ns s) ≡ s
unfolding grouped without_dashes
without_dashes-grouped [] s h = without_dashes-hex s h
without_dashes-grouped (n ∷ ns) s h =
    rw
      (
        without_dashes-append (take_text n s) (b'-' ∷ grouped ns (drop_text n s)),
        without_dashes-hex (take_text n s) (all-take_text is_hex n s h),
        without_dashes-grouped ns (drop_text n s) (all-drop_text is_hex n s h),
      )
      (take_text-drop_text n s)

pub without_text-dashed :
    (c : ℕ) (p s : Text)
    → is_dashed c ≡ false
    → all is_dashed s ≡ true
    → without_text (c ∷ p) 0 s ≡ s
unfolding without_text all
without_text-dashed c p [] o h = refl
without_text-dashed c p (d ∷ s) o h =
    let (x, xs) = (and_iff (is_dashed d) (all is_dashed s)).0 h in
    let other : (c == d) ≡ false = ground (arith, o, x) in
    rw (other, without_text-dashed c p s o xs) refl

not_brace : (c : ℕ) → is_dashed c ≡ true → is_brace c ≡ false
not_brace c h = ground arith

pub lstrip_braces-dashed : (s : Text) → all is_dashed s ≡ true → lstrip_braces s ≡ s
unfolding lstrip_braces all
lstrip_braces-dashed [] h = refl
lstrip_braces-dashed (c ∷ s) h =
    rw (not_brace c ((and_iff (is_dashed c) (all is_dashed s)).0 h).0) refl

pub rstrip_braces-dashed : (s : Text) → all is_dashed s ≡ true → rstrip_braces s ≡ s
unfolding rstrip_braces all
rstrip_braces-dashed [] h = refl
rstrip_braces-dashed (c ∷ s) h =
    let (x, xs) = (and_iff (is_dashed c) (all is_dashed s)).0 h in
    rw (not_brace c x, rstrip_braces-dashed s xs) refl
