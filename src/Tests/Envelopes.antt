-- ===== src/Tests/Envelopes.antt =====
-- persistence/envelope.py: a key file, and a cipher that hides nothing but keeps the laws.
use portfolio_manager.Persistence.Envelope.{
  EncryptedSecret, KeyEncryptionKey, key_encryption_key_post_init, validate_inputs,
  validate_key_version, encrypted_secret_post_init,
}
use portfolio_manager.Persistence.Envelope.Cipher.{Cryptography, decrypt_secret, encrypt_secret}
use portfolio_manager.Persistence.Envelope.Cipher.Laws.{IsAuthenticating, IsCipher, IsRandom}
use portfolio_manager.Persistence.Envelope.KeyFile.{
  FileKeyEncryptionKeyProvider, FileSystem, get, load, current, file_provider,
}
use portfolio_manager.Base.{
  ==_iff, ==_refl, Bool-cases, Bytes, Result, [], all, any, arith, codes, err, if◌then◌else◌, inl,
  inr, invalid_tag, invalid_unwrap, is_space, length, lstrip, ok, ok-injective, refl, rstrip,
  secret_decryption_error, strip, suc, zero, ℕ, ◌++◌, ◌==◌, ◌↔◌, ◌∷◌, ◌≡◌, false-ne-true, All,
}
use portfolio_manager.Base.Exec.{Exec}
use portfolio_manager.Persistence.Envelope.Binding.{bind_associated_data-injective}
use portfolio_manager.Persistence.Envelope.Cipher.RoundTrip.{
  decrypt_secret-authenticates, decrypt_secret-encrypt_secret,
}
use portfolio_manager.Persistence.Envelope.KeyFile.Loading.{IsKeyFile, get_iff}
use portfolio_manager.Base.Texts.Strip.{text_eq_iff}
use portfolio_manager.Persistence.Schema.Models.{encrypted_secret_record}
use portfolio_manager.Persistence.Schema.Storing.{
  IsStorable, encrypted_secret-IsStorable, fields_of,
}
use portfolio_manager.Persistence.Envelope.Keys.{IsKey}

-- What follows the prefix.
without_prefix : Bytes → Bytes → Result Bytes
without_prefix [] c = ok c
without_prefix (b ∷ p) [] = err invalid_tag
without_prefix (b ∷ p) (d ∷ c) =
    let rest = without_prefix p c in if b == d then rest else err invalid_tag

without_prefix-append : (p c : Bytes) → without_prefix p (p ++ c) ≡ ok c
unfolding without_prefix
without_prefix-append [] c = refl
without_prefix-append (b ∷ p) c = rw ==_refl (without_prefix-append p c)

without_prefix-other :
    (p q c : Bytes) → length p ≡ length q → ¬ (q ≡ p) → without_prefix p (q ++ c) ≡ err invalid_tag
unfolding without_prefix
without_prefix-other [] [] c h differ = absurd (differ refl)
without_prefix-other [] (d ∷ q) c h differ = absurd (omega arith)
without_prefix-other (b ∷ p) [] c h differ = absurd (omega arith)
without_prefix-other (b ∷ p) (d ∷ q) c h differ = elim (Bool-cases (b == d)) [
  | inl same ↦
      rw same (without_prefix-other p q c (omega arith) (λ e. differ (cc (e, (==_iff b d).0 same))))
  | inr other ↦ rw other refl
]

abbrev unwrap : Bytes → Result Bytes
unwrap [] = err invalid_unwrap
unwrap (b ∷ key) = ok key

abbrev plain : Cryptography
plain = record {
  encrypt = λ key nonce plaintext aad. ok (length aad ∷ aad ++ plaintext);
  decrypt = λ key nonce ciphertext aad. without_prefix (length aad ∷ aad) ciphertext;
  aes_key_wrap_with_padding = λ wrapping_key key. ok (0 ∷ key);
  aes_key_unwrap_with_padding = λ wrapping_key wrapped. unwrap wrapped;
}

plain-IsCipher : IsCipher plain
plain-IsCipher = record {
  encrypts = λ key nonce plaintext aad _ _ _ _. (length aad ∷ aad ++ plaintext, refl, refl);
  decrypts = λ key nonce plaintext aad ciphertext h.
      rw (← ok-injective h) (without_prefix-append (length aad ∷ aad) plaintext);
  wraps = λ wrapping_key key _ _. (0 ∷ key, refl, refl, refl);
}

other_aad :
    (aad aad' plaintext : Bytes)
    → ¬ (aad ≡ aad')
    → without_prefix (length aad' ∷ aad') (length aad ∷ aad ++ plaintext) ≡ err invalid_tag
unfolding without_prefix
other_aad aad aad' plaintext differ = elim (Bool-cases (length aad' == length aad)) [
  | inl same ↦
      rw same (
        without_prefix-other aad' aad plaintext ((==_iff (length aad') (length aad)).0 same) differ)
  | inr other ↦ rw other refl
]

plain-IsAuthenticating : IsAuthenticating plain
plain-IsAuthenticating = λ key nonce plaintext aad aad' ciphertext h differ.
    rw (← ok-injective h) (other_aad aad aad' plaintext differ)

zeros : ℕ → Bytes
zeros zero = []
zeros (suc n) = 0 ∷ zeros n

length-zeros : (n : ℕ) → length (zeros n) ≡ n
unfolding zeros
length-zeros zero = refl
length-zeros (suc n) = omega (arith, length-zeros n)

abbrev token_bytes : ℕ → Exec (Unit {0}) Bytes
token_bytes n s = (ok (zeros n), s)

token_bytes-IsRandom : IsRandom token_bytes
token_bytes-IsRandom = λ n s. (zeros n, s, refl, length-zeros n)

abbrev material : Bytes
material = codes "0123456789abcdef0123456789abcdef"

-- A regular file that its owner can read and write, and others cannot.
abbrev files : FileSystem (Unit {0})
files = record { st_mode = λ path s. (ok 0o100600, s); read_bytes = λ path s. (ok material, s) }

abbrev key_file : FileKeyEncryptionKeyProvider
key_file = record { path = codes "/run/secrets/kek"; version = codes "kek-2026.1" }

abbrev key : KeyEncryptionKey
key = record { version = codes "kek-2026.1"; material = material }

key-IsKey : IsKey key
unfolding key_encryption_key_post_init validate_key_version strip lstrip rstrip is_space any all
key-IsKey = refl

key_file-current : current files key_file tt ≡ (ok key, tt)
unfolding current load key_encryption_key_post_init validate_key_version strip lstrip rstrip
    is_space any all
key_file-current = refl

key_file-get : get files key_file (codes "kek-2026.1") tt ≡ (ok key, tt)
unfolding get load key_encryption_key_post_init validate_key_version strip lstrip rstrip is_space
    any all
key_file-get = refl

accepted : validate_inputs (codes "tenant:1") ≡ ok tt
unfolding validate_inputs
accepted = refl

accepted_other : validate_inputs (codes "tenant:2") ≡ ok tt
unfolding validate_inputs
accepted_other = refl

decrypt_secret-encrypt_secret_example :
    (secret : EncryptedSecret) × (s' : Unit {0}) × (encrypt_secret plain token_bytes
        (codes "token")
        (codes "tenant:1")
        (file_provider files key_file)
        tt
      ≡ (ok secret, s'))
    × (secret.key_version ≡ key.version)
    × (decrypt_secret plain secret (codes "tenant:1") (file_provider files key_file) tt
        ≡ (ok (codes "token"), tt))
decrypt_secret-encrypt_secret_example =
    decrypt_secret-encrypt_secret plain plain-IsCipher token_bytes token_bytes-IsRandom
      (file_provider files key_file) (codes "token") (codes "tenant:1") key tt tt tt tt accepted
      (omega arith) key_file-current key-IsKey key_file-get

differ : ¬ (codes "tenant:1" ≡ codes "tenant:2")
differ e = false-ne-true ((text_eq_iff (codes "tenant:1") (codes "tenant:2")).1 e)

decrypt_secret-authenticates_example :
    (secret : EncryptedSecret) × (s' : Unit {0}) × (encrypt_secret plain token_bytes
        (codes "token")
        (codes "tenant:1")
        (file_provider files key_file)
        tt
      ≡ (ok secret, s'))
    × (decrypt_secret plain secret (codes "tenant:2") (file_provider files key_file) tt
        ≡ (err secret_decryption_error, tt))
decrypt_secret-authenticates_example =
    decrypt_secret-authenticates plain plain-IsCipher token_bytes token_bytes-IsRandom
      (file_provider files key_file) (codes "token") (codes "tenant:1") (codes "tenant:2") key tt tt
      tt tt plain-IsAuthenticating accepted accepted_other differ (omega arith) key_file-current
      key-IsKey key_file-get

get_iff_example :
    (get files key_file (codes "kek-2026.1") tt ≡ (ok key, tt))
    ↔ ((codes "kek-2026.1" ≡ key_file.version) × IsKeyFile files key_file tt key tt)
get_iff_example = get_iff files key_file (codes "kek-2026.1") tt key tt

version-accepted : validate_key_version (codes "kek-2026.1") ≡ ok tt
unfolding validate_key_version strip lstrip rstrip is_space any all
version-accepted = refl

bind_associated_data-injective_example :
    (codes "tenant:1" ≡ codes "tenant:1") × (codes "kek-2026.1" ≡ codes "kek-2026.1")
bind_associated_data-injective_example =
    bind_associated_data-injective (codes "tenant:1") (codes "tenant:1") (codes "kek-2026.1")
      (codes "kek-2026.1") version-accepted version-accepted refl

abbrev a_secret : EncryptedSecret
a_secret = record {
  key_version = codes "kek-2026.1";
  wrapped_dek = 0 ∷ material;
  nonce = codes "0123456789ab";
  ciphertext = codes "sealed";
  algorithm = codes "AES-256-GCM+AES-KWP";
  format_version = 1;
}

a_secret-accepted : encrypted_secret_post_init a_secret ≡ ok a_secret
unfolding encrypted_secret_post_init validate_key_version strip lstrip rstrip is_space any all
a_secret-accepted = refl

encrypted_secret-IsStorable_example : All (IsStorable encrypted_secret_record) (fields_of a_secret)
encrypted_secret-IsStorable_example =
    encrypted_secret-IsStorable a_secret a_secret a_secret-accepted
