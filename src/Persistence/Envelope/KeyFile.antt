-- ===== src/Persistence/Envelope/KeyFile.antt =====
-- persistence/envelope.py: `FileKeyEncryptionKeyProvider`. The file system is a parameter.
pub mod Loading
use portfolio_manager.Base.Exec.{Exec, lift, ◌>>=◌, ◌>>◌}
use portfolio_manager.Base.{
  Bool, Bytes, Text, not, raise_if, secret_decryption_error, text_eq, value_error, ℕ, ◌%◌, ◌/◌,
  ◌==◌, ◌||◌,
}
use portfolio_manager.Persistence.Envelope.{
  KeyEncryptionKey, KeyEncryptionKeyProvider, key_encryption_key_post_init,
}

-- `path.lstat().st_mode` and `path.read_bytes()`
pub record FileSystem (S : Type 0) : Type 0 where
  pub st_mode : Text → Exec S ℕ
  pub read_bytes : Text → Exec S Bytes

pub record FileKeyEncryptionKeyProvider : Type 0 where
  pub path : Text
  pub version : Text

-- `stat.S_ISREG(mode)`: the bits from 12 on say what the file is, and 8 is a regular file.
abbrev pub s_isreg : ℕ → Bool
s_isreg mode = (mode / 4096) % 16 == 8

-- `mode & 0o077`, which is a number other than 0 if others than the owner have a permission.
abbrev pub others_bits : ℕ → ℕ
others_bits mode = mode % 64

module _ {S : Type 0} (files : FileSystem S) (self : FileKeyEncryptionKeyProvider) where
  -- `_load`
  unfoldable pub load : Exec S KeyEncryptionKey
  load = do
    mode ← files.st_mode self.path
    lift (
        raise_if (not (s_isreg mode) || not (others_bits mode == 0))
          (value_error "KEK file must be a regular owner-only file"))
    material ← files.read_bytes self.path
    lift (key_encryption_key_post_init (record { version = self.version; material = material }))

  unfoldable pub current : Exec S KeyEncryptionKey
  current = load

  unfoldable pub get : Text → Exec S KeyEncryptionKey
  get version = do
    lift (raise_if (not (text_eq version self.version)) secret_decryption_error)
    load

  -- The class, as the protocol.
  abbrev pub file_provider : KeyEncryptionKeyProvider S
  file_provider = record { current = current; get = get }
