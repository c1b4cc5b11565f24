-- ===== src/Persistence/Envelope.antt =====
-- persistence/envelope.py: the keys, the encrypted secrets and the checks of both.
pub mod Cipher
pub mod Keys
pub mod KeyFile
pub mod Binding
use portfolio_manager.Base.Exec.{Exec}
use portfolio_manager.Base.{
  Bool, Bytes, Result, Text, any, codes, err, if◌then◌else◌, is_alnum, is_ascii, is_empty, length,
  ltb, not, ok, raise_if, strip, text_eq, value_error, ℕ, ◌*◌, ◌++◌, ◌==◌, ◌>>=◌, ◌>>◌, ◌||◌, ◌∷◌,
}

abbrev pub the_algorithm : Text
the_algorithm = codes "AES-256-GCM+AES-KWP"

abbrev pub the_format_version : ℕ
the_format_version = 1

abbrev pub key_size : ℕ
key_size = 32

abbrev pub nonce_size : ℕ
nonce_size = 12

abbrev pub max_associated_data : ℕ
max_associated_data = 8 * 1024

abbrev pub not_version_char : ℕ → Bool
not_version_char c = not (is_alnum c || c == b'.' || c == b'_' || c == b'-')

-- `_validate_key_version`
unfoldable pub validate_key_version : Text → Result (Unit {0})
validate_key_version version =
    raise_if
      (is_empty version
        || not (text_eq version (strip version))
        || ltb 64 (length version)
        || not (is_ascii version)
        || any not_version_char version)
      (value_error "KEK version must be a short ASCII identifier")

pub record KeyEncryptionKey : Type 0 where
  pub version : Text
  pub material : Bytes

unfoldable pub key_encryption_key_post_init : KeyEncryptionKey → Result KeyEncryptionKey
key_encryption_key_post_init self = do
  validate_key_version self.version
  raise_if (is_empty self.material || not (length self.material == key_size))
      (value_error "KEK material must be 256 bits")
  ok self

-- The protocol.
pub record KeyEncryptionKeyProvider (S : Type 0) : Type 0 where
  pub current : Exec S KeyEncryptionKey
  pub get : Text → Exec S KeyEncryptionKey

pub record EncryptedSecret : Type 0 where
  pub key_version : Text
  pub wrapped_dek : Bytes
  pub nonce : Bytes
  pub ciphertext : Bytes
  pub algorithm : Text
  pub format_version : ℕ

unfoldable pub encrypted_secret_post_init : EncryptedSecret → Result EncryptedSecret
encrypted_secret_post_init self = do
  raise_if
      (not (text_eq self.algorithm the_algorithm)
        || not (self.format_version == the_format_version))
      (value_error "unsupported encrypted-secret format")
  validate_key_version self.key_version
  raise_if (not (length self.nonce == nonce_size))
      (value_error "encrypted secret nonce must be 96 bits")
  raise_if (is_empty self.wrapped_dek || is_empty self.ciphertext)
      (value_error "encrypted secret ciphertext fields cannot be empty")
  ok self

-- `_validate_inputs`, of a plaintext that is `bytes`.
unfoldable pub validate_inputs : Bytes → Result (Unit {0})
validate_inputs associated_data =
    raise_if (is_empty associated_data || ltb max_associated_data (length associated_data))
      (value_error "associated data must be non-empty and at most 8 KiB")

-- `text.encode("ascii")`, where `UnicodeEncodeError` is a `ValueError`.
abbrev pub encode_ascii : Text → Result Bytes
encode_ascii text = if is_ascii text then ok text else err (value_error "ordinal not in range(128)")

-- `_bind_associated_data`
unfoldable pub bind_associated_data : Bytes → Text → Result Bytes
bind_associated_data associated_data key_version = do
  version ← encode_ascii key_version
  ok (codes "portfolio-manager:v1" ++ 0 ∷ version ++ 0 ∷ associated_data)
