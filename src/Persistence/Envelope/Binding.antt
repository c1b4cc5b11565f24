-- ===== src/Persistence/Envelope/Binding.antt =====
-- persistence/envelope.py: what `_bind_associated_data` binds.
use portfolio_manager.Persistence.Envelope.{
  bind_associated_data, not_version_char, validate_key_version,
}
use portfolio_manager.Base.{
  Bytes, Text, [], any, arith, codes, false, is_ascii, is_empty, length, ltb, not-false, ok,
  ok-injective, or-false, raise_if-ok, refl, sym, true, ℕ, ◌++◌, ◌∙◌, ◌∷◌, ◌≡◌,
}

append-cancel : (p xs ys : Bytes) → p ++ xs ≡ p ++ ys → xs ≡ ys
append-cancel [] xs ys h = h
append-cancel (b ∷ p) xs ys h = append-cancel p xs ys (cc)

not_zero : (c : ℕ) → not_version_char c ≡ false → c ≡ 0 → ⊥
not_zero c h e = ground arith

-- A text of a version ends at the first zero after it.
split_zero :
    (v v' a a' : Bytes)
    → any not_version_char v ≡ false
    → any not_version_char v' ≡ false
    → v ++ 0 ∷ a ≡ v' ++ 0 ∷ a'
    → (v ≡ v') × (a ≡ a')
unfolding any
split_zero [] [] a a' h h' e = (refl, cc)
split_zero [] (c ∷ v') a a' h h' e =
    absurd (not_zero c ((or-false (not_version_char c) _ h').0) (cc))
split_zero (c ∷ v) [] a a' h h' e = absurd (not_zero c ((or-false (not_version_char c) _ h).0) (cc))
split_zero (c ∷ v) (c' ∷ v') a a' h h' e =
    let (same, rest) =
      split_zero v v' a a' ((or-false (not_version_char c) _ h).1)
        ((or-false (not_version_char c') _ h').1) (cc) in
    (cc (same, e), rest)

-- What a version that is accepted is made of.
pub record IsVersion (version : Text) : Type 0 where
  pub some_character : is_empty version ≡ false
  pub short : ltb 64 (length version) ≡ false
  pub ascii : is_ascii version ≡ true
  pub characters : any not_version_char version ≡ false

pub validate_key_version-IsVersion :
    (version : Text) → validate_key_version version ≡ ok tt → IsVersion version
unfolding validate_key_version
validate_key_version-IsVersion version h =
    let (h1, characters) = or-false _ _ (raise_if-ok _ _ h) in
    let (h2, not_ascii) = or-false _ _ h1 in
    let (h3, short) = or-false _ _ h2 in
    record {
      some_character = (or-false _ _ h3).0;
      short = short;
      ascii = not-false _ not_ascii;
      characters = characters;
    }

pub bind_associated_data-ok :
    (associated_data : Bytes) (version : Text)
    → IsVersion version
    → bind_associated_data associated_data version
      ≡ ok (codes "portfolio-manager:v1" ++ 0 ∷ version ++ 0 ∷ associated_data)
unfolding bind_associated_data
bind_associated_data-ok associated_data version v = rw v.ascii refl

-- For two versions that are accepted, the same bytes are bound only for the same associated data and
-- the same version.
pub bind_associated_data-injective :
    (a a' : Bytes) (version version' : Text)
    → validate_key_version version ≡ ok tt
    → validate_key_version version' ≡ ok tt
    → bind_associated_data a version ≡ bind_associated_data a' version'
    → (a ≡ a') × (version ≡ version')
bind_associated_data-injective a a' version version' h h' e =
    let v = validate_key_version-IsVersion version h in
    let v' = validate_key_version-IsVersion version' h' in
    let same : codes "portfolio-manager:v1" ++ 0 ∷ version ++ 0 ∷ a
        ≡ codes "portfolio-manager:v1" ++ 0 ∷ version' ++ 0 ∷ a' =
      ok-injective
        (sym (bind_associated_data-ok a version v) ∙ e ∙ bind_associated_data-ok a' version' v') in
    let rest : 0 ∷ version ++ 0 ∷ a ≡ 0 ∷ version' ++ 0 ∷ a' =
      append-cancel (codes "portfolio-manager:v1") _ _ same in
    let (p, q) = split_zero version version' a a' v.characters v'.characters (cc (rest)) in (q, p)
