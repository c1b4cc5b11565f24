-- ===== src/Persistence/Envelope/Cipher/Laws.antt =====
-- persistence/envelope.py: what `encrypt_secret` and `decrypt_secret` rely on of the package
-- cryptography and of the source of random bytes.
use portfolio_manager.Persistence.Envelope.Cipher.{Cryptography}
use portfolio_manager.Base.{Bytes, err, false, invalid_tag, is_empty, length, ok, ℕ, ◌<◌, ◌^◌, ◌≡◌}
use portfolio_manager.Base.Exec.{Exec}

-- AES-GCM takes less than 2 GiB of data and of associated data, and gives a tag with them.
pub record IsCipher (cryptography : Cryptography) : Type 0 where
  pub encrypts :
      (key nonce plaintext aad : Bytes)
      → length key ≡ 32
      → length nonce ≡ 12
      → length plaintext < 2 ^ 31
      → length aad < 2 ^ 31
      → (ciphertext : Bytes) × (cryptography.encrypt key nonce plaintext aad ≡ ok ciphertext)
        × (is_empty ciphertext ≡ false)
  pub decrypts :
      (key nonce plaintext aad ciphertext : Bytes)
      → cryptography.encrypt key nonce plaintext aad ≡ ok ciphertext
      → cryptography.decrypt key nonce ciphertext aad ≡ ok plaintext
  pub wraps :
      (wrapping_key key : Bytes)
      → length wrapping_key ≡ 32
      → length key ≡ 32
      → (wrapped : Bytes) × (cryptography.aes_key_wrap_with_padding wrapping_key key ≡ ok wrapped)
        × (is_empty wrapped ≡ false)
        × (cryptography.aes_key_unwrap_with_padding wrapping_key wrapped ≡ ok key)

-- Other associated data than the ciphertext was made with fail the tag.
abbrev pub IsAuthenticating : Cryptography → Type 0
IsAuthenticating cryptography =
    (key nonce plaintext aad aad' ciphertext : Bytes)
    → cryptography.encrypt key nonce plaintext aad ≡ ok ciphertext
    → ¬ (aad ≡ aad')
    → cryptography.decrypt key nonce ciphertext aad' ≡ err invalid_tag

abbrev pub IsRandom : {S : Type 0} → (ℕ → Exec S Bytes) → Type 0
IsRandom {S} token_bytes =
    (n : ℕ) (s : S)
    → (token : Bytes) × (s' : S) × (token_bytes n s ≡ (ok token, s')) × (length token ≡ n)
