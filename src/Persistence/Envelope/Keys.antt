-- ===== src/Persistence/Envelope/Keys.antt =====
-- persistence/envelope.py: the keys that `__post_init__` accepts.
use portfolio_manager.Persistence.Envelope.{
  KeyEncryptionKey, key_encryption_key_post_init, key_size, validate_key_version,
}
use portfolio_manager.Base.{
  ==_iff, >>=-eq-ok, is_empty, length, not, not-false, ok, ok-injective, or-false, raise_if,
  raise_if-ok, value_error, ◌==◌, ◌||◌, ◌≡◌,
}

pub key_encryption_key-inv :
    (made key : KeyEncryptionKey)
    → key_encryption_key_post_init made ≡ ok key
    → (made ≡ key) × (validate_key_version made.version ≡ ok tt) × (length made.material ≡ 32)
unfolding key_encryption_key_post_init
key_encryption_key-inv made key h =
    let (_, a, h1) = >>=-eq-ok (validate_key_version made.version) _ h in
    let (_, b, h2) =
      >>=-eq-ok
        (raise_if (is_empty made.material || not (length made.material == key_size))
          (value_error "KEK material must be 256 bits"))
        _ h1 in
    (
      ok-injective h2,
      a,
      (==_iff (length made.material) 32).0 (not-false _ (or-false _ _ (raise_if-ok _ _ b)).1),
    )

-- What the constructor gives.
abbrev pub IsKey : KeyEncryptionKey → Type 0
IsKey key = key_encryption_key_post_init key ≡ ok key

pub IsKey-version : (key : KeyEncryptionKey) → IsKey key → validate_key_version key.version ≡ ok tt
IsKey-version key h = (key_encryption_key-inv key key h).1

pub IsKey-material : (key : KeyEncryptionKey) → IsKey key → length key.material ≡ 32
IsKey-material key h = (key_encryption_key-inv key key h).2
