-- ===== src/Persistence/Envelope/Cipher.antt =====
-- persistence/envelope.py: `encrypt_secret` and `decrypt_secret`. The source of random bytes and the
-- package cryptography are parameters.
pub mod Laws
pub mod Sealed
pub mod RoundTrip
use portfolio_manager.Base.Exec.{Exec, lift, ◌>>=◌, ◌>>◌}
use portfolio_manager.Base.{
  Bool, Bytes, Error, Result, Text, err, true, false, ok, if◌then◌else◌, ℕ, secret_decryption_error,
}
use portfolio_manager.Base.{invalid_tag, invalid_unwrap, is_value_error}
use portfolio_manager.Persistence.Envelope.{
  EncryptedSecret, KeyEncryptionKey, KeyEncryptionKeyProvider, bind_associated_data,
  encrypted_secret_post_init, key_size, nonce_size, the_algorithm, the_format_version,
  validate_inputs,
}
use portfolio_manager.Persistence.Envelope.KeyFile.{current, get}

-- `AESGCM(key).encrypt(nonce, data, associated_data)`, `AESGCM(key).decrypt(…)`, and the wrapping of
-- one key by another.
pub record Cryptography : Type 0 where
  pub encrypt : Bytes → Bytes → Bytes → Bytes → Result Bytes
  pub decrypt : Bytes → Bytes → Bytes → Bytes → Result Bytes
  pub aes_key_wrap_with_padding : Bytes → Bytes → Result Bytes
  pub aes_key_unwrap_with_padding : Bytes → Bytes → Result Bytes

-- `except (InvalidTag, InvalidUnwrap, ValueError)`
abbrev pub is_failure : Error → Bool
is_failure invalid_tag = true
is_failure invalid_unwrap = true
is_failure e = is_value_error e

abbrev pub authenticated : Result Bytes → Result Bytes
authenticated (ok plaintext) = ok plaintext
authenticated (err e) = if is_failure e then err secret_decryption_error else err e

module _ {S : Type 0} (cryptography : Cryptography) (token_bytes : ℕ → Exec S Bytes) where
  unfoldable pub encrypt_secret :
      Bytes → Bytes → KeyEncryptionKeyProvider S → Exec S EncryptedSecret
  encrypt_secret plaintext associated_data provider = do
    lift (validate_inputs associated_data)
    key ← provider.current
    dek ← token_bytes key_size
    nonce ← token_bytes nonce_size
    aad ← lift (bind_associated_data associated_data key.version)
    ciphertext ← lift (cryptography.encrypt dek nonce plaintext aad)
    wrapped_dek ← lift (cryptography.aes_key_wrap_with_padding key.material dek)
    lift (
        encrypted_secret_post_init (record {
          key_version = key.version;
          wrapped_dek = wrapped_dek;
          nonce = nonce;
          ciphertext = ciphertext;
          algorithm = the_algorithm;
          format_version = the_format_version;
        }))

module _ {S : Type 0} (cryptography : Cryptography) where
  -- The body of the `try`.
  abbrev pub unwrapped : KeyEncryptionKey → EncryptedSecret → Bytes → Exec S Bytes
  unwrapped key encrypted aad = do
    dek ← lift (cryptography.aes_key_unwrap_with_padding key.material encrypted.wrapped_dek)
    lift (cryptography.decrypt dek encrypted.nonce encrypted.ciphertext aad)

  abbrev pub authenticating : Exec S Bytes → Exec S Bytes
  authenticating m s = let (r, s') = m s in (authenticated r, s')

  unfoldable pub decrypt_secret :
      EncryptedSecret → Bytes → KeyEncryptionKeyProvider S → Exec S Bytes
  decrypt_secret encrypted associated_data provider = do
    lift (validate_inputs associated_data)
    key ← provider.get encrypted.key_version
    aad ← lift (bind_associated_data associated_data key.version)
    authenticating (unwrapped key encrypted aad)
