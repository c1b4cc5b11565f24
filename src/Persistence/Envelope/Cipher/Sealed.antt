-- ===== src/Persistence/Envelope/Cipher/Sealed.antt =====
-- persistence/envelope.py: what `encrypt_secret` puts into a secret, and `decrypt_secret` takes out.
use portfolio_manager.Persistence.Envelope.{
  EncryptedSecret, KeyEncryptionKey, KeyEncryptionKeyProvider, validate_inputs,
  validate_key_version, encrypted_secret_post_init, the_algorithm, the_format_version,
  max_associated_data,
}
use portfolio_manager.Persistence.Envelope.Binding.{
  IsVersion, bind_associated_data-ok, validate_key_version-IsVersion,
}
use portfolio_manager.Persistence.Envelope.Cipher.{Cryptography, encrypt_secret, decrypt_secret}
use portfolio_manager.Persistence.Envelope.Cipher.Laws.{IsCipher, IsRandom}
use portfolio_manager.Base.{
  Bytes, arith, codes, is_empty, length, length-append, ok, or-false, raise_if-ok, ◌++◌, ◌<◌, ◌^◌,
  ◌∷◌, ◌≡◌, ◌≤◌, false, refl, ℕ, ltb,
}
use portfolio_manager.Base.Exec.{Exec}
use portfolio_manager.Persistence.Envelope.Keys.{IsKey, IsKey-material, IsKey-version}

-- The bytes that are bound to a key.
abbrev pub bound : Bytes → KeyEncryptionKey → Bytes
bound associated_data key = codes "portfolio-manager:v1" ++ 0 ∷ key.version ++ 0 ∷ associated_data

bound-short :
    (associated_data : Bytes) (key : KeyEncryptionKey)
    → validate_inputs associated_data ≡ ok tt
    → IsVersion key.version
    → length (bound associated_data key) < 2 ^ 31
unfolding validate_inputs
bound-short associated_data key h v =
    let short : ltb max_associated_data (length associated_data) ≡ false =
      (or-false (is_empty associated_data) _ (raise_if-ok _ _ h)).1 in
    let size = length-append key.version (0 ∷ associated_data) in
    let limit : length associated_data ≤ 8192 = ground (arith, short) in
    let few : length key.version ≤ 64 = ground (arith, v.short) in omega (arith, size, limit, few)

-- A secret that was made of the plaintext with the key.
pub record IsSealed (cryptography : Cryptography) (plaintext associated_data : Bytes)
    (key : KeyEncryptionKey) (secret : EncryptedSecret) : Type 0 where
  pub dek : Bytes
  pub of_version : secret.key_version ≡ key.version
  pub wrapped : cryptography.aes_key_unwrap_with_padding key.material secret.wrapped_dek ≡ ok dek
  pub encrypted :
      cryptography.encrypt dek secret.nonce plaintext (bound associated_data key)
      ≡ ok secret.ciphertext

abbrev secret_of : KeyEncryptionKey → Bytes → Bytes → Bytes → EncryptedSecret
secret_of key wrapped_dek nonce ciphertext = record {
  key_version = key.version;
  wrapped_dek = wrapped_dek;
  nonce = nonce;
  ciphertext = ciphertext;
  algorithm = the_algorithm;
  format_version = the_format_version;
}

secret_of-accepted :
    (key : KeyEncryptionKey) (wrapped_dek nonce ciphertext : Bytes)
    → validate_key_version key.version ≡ ok tt
    → length nonce ≡ 12
    → is_empty wrapped_dek ≡ false
    → is_empty ciphertext ≡ false
    → encrypted_secret_post_init (secret_of key wrapped_dek nonce ciphertext)
      ≡ ok (secret_of key wrapped_dek nonce ciphertext)
unfolding encrypted_secret_post_init
secret_of-accepted key wrapped_dek nonce ciphertext v n w c = rw (v, n, w, c) refl

module _ {S : Type 0} (cryptography : Cryptography) (cipher : IsCipher cryptography)
    (token_bytes : ℕ → Exec S Bytes) (random : IsRandom token_bytes)
    (provider : KeyEncryptionKeyProvider S) where
  -- Where the associated data are accepted, the provider has a key and the plaintext is shorter than
  -- 2 GiB.
  pub record CanSeal (plaintext associated_data : Bytes) (key : KeyEncryptionKey) (s s1 : S)
      : Type 0 where
    pub accepted : validate_inputs associated_data ≡ ok tt
    pub short : length plaintext < 2 ^ 31
    pub current : provider.current s ≡ (ok key, s1)
    pub made : IsKey key

  pub encrypt_secret-IsSealed :
      (plaintext associated_data : Bytes) (key : KeyEncryptionKey) (s s1 : S)
      → CanSeal plaintext associated_data key s s1
      → (secret : EncryptedSecret) × (s' : S) × (encrypt_secret cryptography token_bytes plaintext
            associated_data provider s
          ≡ (ok secret, s'))
        × IsSealed cryptography plaintext associated_data key secret
  unfolding encrypt_secret
  encrypt_secret-IsSealed plaintext associated_data key s s1 can =
      let version = IsKey-version key can.made in
      let v = validate_key_version-IsVersion key.version version in
      let (dek, s2, drawn, size) = random 32 s1 in
      let (nonce, s3, drawn', size') = random 12 s2 in
      let (ciphertext, made, filled) =
        cipher.encrypts dek nonce plaintext (bound associated_data key) size size' can.short
          (bound-short associated_data key can.accepted v) in
      let (wrapped_dek, wraps, filled', unwraps) =
        cipher.wraps key.material dek (IsKey-material key can.made) size in
      (
        secret_of key wrapped_dek nonce ciphertext,
        s3,
        rw
            (
              can.accepted,
              can.current,
              drawn,
              drawn',
              bind_associated_data-ok associated_data key.version v,
              made,
              wraps,
              secret_of-accepted key wrapped_dek nonce ciphertext version size' filled' filled,
            )
            refl,
        record { dek = dek; of_version = refl; wrapped = unwraps; encrypted = made },
      )

  pub decrypt_secret-IsSealed :
      (plaintext associated_data : Bytes) (key : KeyEncryptionKey) (secret : EncryptedSecret)
      (t t' : S)
      → IsSealed cryptography plaintext associated_data key secret
      → validate_inputs associated_data ≡ ok tt
      → IsKey key
      → provider.get key.version t ≡ (ok key, t')
      → decrypt_secret cryptography secret associated_data provider t ≡ (ok plaintext, t')
  unfolding decrypt_secret
  decrypt_secret-IsSealed plaintext associated_data key secret t t' sealed accepted made got =
      let v = validate_key_version-IsVersion key.version (IsKey-version key made) in
      rw
        (
          accepted,
          sealed.of_version,
          got,
          bind_associated_data-ok associated_data key.version v,
          sealed.wrapped,
          cipher.decrypts sealed.dek secret.nonce plaintext (bound associated_data key)
              secret.ciphertext sealed.encrypted,
        )
        refl
