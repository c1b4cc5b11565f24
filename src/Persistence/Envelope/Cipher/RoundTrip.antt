-- ===== src/Persistence/Envelope/Cipher/RoundTrip.antt =====
-- persistence/envelope.py: a secret from `encrypt_secret` to `decrypt_secret`.
use portfolio_manager.Persistence.Envelope.{
  EncryptedSecret, KeyEncryptionKey, KeyEncryptionKeyProvider, validate_inputs,
}
use portfolio_manager.Persistence.Envelope.Binding.{
  bind_associated_data-ok, bind_associated_data-injective, validate_key_version-IsVersion,
}
use portfolio_manager.Persistence.Envelope.Cipher.{Cryptography, encrypt_secret, decrypt_secret}
use portfolio_manager.Persistence.Envelope.Cipher.Laws.{IsCipher, IsAuthenticating, IsRandom}
use portfolio_manager.Base.{
  Bytes, length, ok, ◌<◌, ◌^◌, ◌≡◌, refl, ℕ, ap, err, secret_decryption_error, sym, ◌∙◌,
}
use portfolio_manager.Base.Exec.{Exec}
use portfolio_manager.Persistence.Envelope.KeyFile.{current}
use portfolio_manager.Domain.Activities.{differ}
use portfolio_manager.Persistence.Envelope.Keys.{IsKey, IsKey-version}
use portfolio_manager.Persistence.Envelope.Cipher.Sealed.{
  IsSealed, bound, decrypt_secret-IsSealed, encrypt_secret-IsSealed,
}

module _ {S : Type 0} (cryptography : Cryptography) (cipher : IsCipher cryptography)
    (token_bytes : ℕ → Exec S Bytes) (random : IsRandom token_bytes)
    (provider : KeyEncryptionKeyProvider S) where
  -- With a cipher and a source of random bytes that keep their laws, a key that the provider gives
  -- at any later time for its version, associated data that are accepted and a plaintext of less
  -- than 2 GiB: encrypt_secret returns, its secret names the key's version, and decrypt_secret with
  -- the same associated data gives the plaintext back.
  pub decrypt_secret-encrypt_secret :
      (plaintext associated_data : Bytes) (key : KeyEncryptionKey) (s s1 t t' : S)
      → validate_inputs associated_data ≡ ok tt
      → length plaintext < 2 ^ 31
      → provider.current s ≡ (ok key, s1)
      → IsKey key
      → provider.get key.version t ≡ (ok key, t')
      → (secret : EncryptedSecret) × (s' : S) × (encrypt_secret cryptography token_bytes plaintext
            associated_data provider s
          ≡ (ok secret, s'))
        × (secret.key_version ≡ key.version)
        × (decrypt_secret cryptography secret associated_data provider t ≡ (ok plaintext, t'))
  decrypt_secret-encrypt_secret plaintext associated_data key s s1 t t' accepted short current made
        got =
      let (secret, s', sealed_at, sealed) =
        encrypt_secret-IsSealed cryptography cipher token_bytes random provider plaintext
          associated_data key s s1
          (record { accepted = accepted; short = short; current = current; made = made }) in
      (
        secret,
        s',
        sealed_at,
        sealed.of_version,
        decrypt_secret-IsSealed cryptography cipher token_bytes random provider plaintext
            associated_data key secret t t' sealed accepted made got,
      )

  decrypt_secret-other :
      (plaintext associated_data other : Bytes) (key : KeyEncryptionKey) (secret : EncryptedSecret)
      (t t' : S)
      → IsAuthenticating cryptography
      → IsSealed cryptography plaintext associated_data key secret
      → ¬ (associated_data ≡ other)
      → validate_inputs other ≡ ok tt
      → IsKey key
      → provider.get key.version t ≡ (ok key, t')
      → decrypt_secret cryptography secret other provider t ≡ (err secret_decryption_error, t')
  unfolding decrypt_secret
  decrypt_secret-other plaintext associated_data other key secret t t' tags sealed differ accepted
        made got =
      let version = IsKey-version key made in
      let v = validate_key_version-IsVersion key.version version in
      let apart : ¬ (bound associated_data key ≡ bound other key) = λ e.
        differ
          (bind_associated_data-injective associated_data other key.version key.version version
            version
            (bind_associated_data-ok associated_data key.version v
              ∙ ap (λ (b : Bytes). ok b) e
              ∙ sym (bind_associated_data-ok other key.version v))).0 in
      rw
        (
          accepted,
          sealed.of_version,
          got,
          bind_associated_data-ok other key.version v,
          sealed.wrapped,
          tags sealed.dek secret.nonce plaintext (bound associated_data key) (bound other key)
              secret.ciphertext sealed.encrypted apart,
        )
        refl

  -- With a cipher and a source of random bytes that keep their laws, where decryption refuses other
  -- associated data than those of the ciphertext, a key that the provider gives at any later time
  -- for its version, two different associated data that are accepted and a plaintext of less than 2
  -- GiB: encrypt_secret with the first returns, and decrypt_secret with the second raises a
  -- SecretDecryptionError.
  pub decrypt_secret-authenticates :
      (plaintext associated_data other : Bytes) (key : KeyEncryptionKey) (s s1 t t' : S)
      → IsAuthenticating cryptography
      → validate_inputs associated_data ≡ ok tt
      → validate_inputs other ≡ ok tt
      → ¬ (associated_data ≡ other)
      → length plaintext < 2 ^ 31
      → provider.current s ≡ (ok key, s1)
      → IsKey key
      → provider.get key.version t ≡ (ok key, t')
      → (secret : EncryptedSecret) × (s' : S) × (encrypt_secret cryptography token_bytes plaintext
            associated_data provider s
          ≡ (ok secret, s'))
        × (decrypt_secret cryptography secret other provider t ≡ (err secret_decryption_error, t'))
  decrypt_secret-authenticates plaintext associated_data other key s s1 t t' tags accepted accepted'
        differ short current made got =
      let (secret, s', sealed_at, sealed) =
        encrypt_secret-IsSealed cryptography cipher token_bytes random provider plaintext
          associated_data key s s1
          (record { accepted = accepted; short = short; current = current; made = made }) in
      (
        secret,
        s',
        sealed_at,
        decrypt_secret-other plaintext associated_data other key secret t t' tags sealed differ
            accepted' made got,
      )
