-- ===== src/Persistence/Schema/Storing.antt =====
-- persistence/envelope.py and persistence/models.py: an encrypted secret in its table.
use portfolio_manager.Persistence.Envelope.{
  EncryptedSecret, encrypted_secret_post_init, the_algorithm, the_format_version, nonce_size,
  validate_key_version,
}
use portfolio_manager.Persistence.Schema.{
  Column, ColumnType, Table, integer, large_binary, string, not_null,
}
use portfolio_manager.Persistence.Schema.Models.{encrypted_secret_record}
use portfolio_manager.Base.{
  ==_iff, >>=-eq-ok, All, Bytes, List, Text, [], arith, codes, is_empty, length, not, not-false, ok,
  ok-injective, or-false, raise_if, raise_if-ok, refl, text_eq, value_error, ℕ, ◌<◌, ◌==◌, ◌^◌,
  ◌||◌, ◌∷◌, ◌≡◌, ◌≤◌, Option, if◌then◌else◌, none, some,
}
use portfolio_manager.Base.Texts.Strip.{text_eq_iff}
use portfolio_manager.Persistence.Envelope.Binding.{validate_key_version-IsVersion}

pub data Value : Type 0 where
  a_text : Text → Value
  a_number : ℕ → Value
  some_bytes : Bytes → Value

-- A value that a column of the type takes.
abbrev pub Fits : ColumnType → Value → Type 0
Fits (string n) (a_text s) = length s ≤ n
Fits integer (a_number n) = n < 2 ^ 31
Fits large_binary (some_bytes b) = Unit
Fits _ _ = ⊥

-- The fields of a secret, under the names of their columns.
abbrev pub fields_of : EncryptedSecret → List (Text × Value)
fields_of secret =
    (codes "algorithm", a_text secret.algorithm)
    ∷ (codes "format_version", a_number secret.format_version)
    ∷ (codes "key_version", a_text secret.key_version)
    ∷ (codes "wrapped_dek", some_bytes secret.wrapped_dek)
    ∷ (codes "nonce", some_bytes secret.nonce)
    ∷ (codes "ciphertext", some_bytes secret.ciphertext)
    ∷ []

-- The first column of that name.
abbrev column_of : Text → List Column → Option Column
column_of name [] = none
column_of name (c ∷ cs) =
    let rest = column_of name cs in if text_eq c.name name then some c else rest

-- The table has a column of that name, and it takes the value.
abbrev pub IsStorable : Table → Text × Value → Type 0
IsStorable t (name, value) = (c : Column) × (column_of name t.columns ≡ some c) × Fits c.kind value

record IsSecret (secret : EncryptedSecret) : Type 0 where
  of_algorithm : secret.algorithm ≡ the_algorithm
  of_format : secret.format_version ≡ the_format_version
  of_version : validate_key_version secret.key_version ≡ ok tt

encrypted_secret-IsSecret :
    (raw secret : EncryptedSecret) → encrypted_secret_post_init raw ≡ ok secret → IsSecret secret
unfolding encrypted_secret_post_init
encrypted_secret-IsSecret raw secret h =
    let (_, a, h1) =
      >>=-eq-ok
        (raise_if
          (not (text_eq raw.algorithm the_algorithm)
            || not (raw.format_version == the_format_version))
          (value_error "unsupported encrypted-secret format"))
        _ h in
    let (_, b, h2) = >>=-eq-ok (validate_key_version raw.key_version) _ h1 in
    let (_, c, h3) =
      >>=-eq-ok
        (raise_if (not (length raw.nonce == nonce_size))
          (value_error "encrypted secret nonce must be 96 bits"))
        _ h2 in
    let (_, d, h4) =
      >>=-eq-ok
        (raise_if (is_empty raw.wrapped_dek || is_empty raw.ciphertext)
          (value_error "encrypted secret ciphertext fields cannot be empty"))
        _ h3 in
    let same : raw ≡ secret = ok-injective h4 in
    let (p, q) = or-false (not (text_eq raw.algorithm the_algorithm)) _ (raise_if-ok _ _ a) in
    let made : IsSecret raw = record {
      of_algorithm = (text_eq_iff raw.algorithm the_algorithm).0 (not-false _ p);
      of_format = (==_iff raw.format_version the_format_version).0 (not-false _ q);
      of_version = b;
    } in
    rw same at made

-- Each field of a secret that is accepted has a column of its name in the table of the secrets, and
-- the column takes its value: no text is longer than its column, and the number is in range.
pub encrypted_secret-IsStorable :
    (raw secret : EncryptedSecret)
    → encrypted_secret_post_init raw ≡ ok secret
    → All (IsStorable encrypted_secret_record) (fields_of secret)
encrypted_secret-IsStorable raw secret h =
    let s = encrypted_secret-IsSecret raw secret h in
    let v = validate_key_version-IsVersion secret.key_version s.of_version in
    let short : length secret.key_version ≤ 64 = ground (arith, v.short) in
    (
      (not_null "algorithm" (string 64), refl, rw s.of_algorithm (omega arith)),
      (
        (not_null "format_version" integer, refl, rw s.of_format (omega arith)),
        (
          (not_null "key_version" (string 64), refl, short),
          (
            (not_null "wrapped_dek" large_binary, refl, tt),
            (
              (not_null "nonce" large_binary, refl, tt),
              ((not_null "ciphertext" large_binary, refl, tt), tt),
            ),
          ),
        ),
      ),
    )
