-- ===== src/Persistence/Envelope/KeyFile/Loading.antt =====
-- persistence/envelope.py: the keys that `FileKeyEncryptionKeyProvider` gives.
use portfolio_manager.Persistence.Envelope.{
  KeyEncryptionKey, key_encryption_key_post_init, validate_key_version,
}
use portfolio_manager.Persistence.Envelope.KeyFile.{
  FileKeyEncryptionKeyProvider, FileSystem, get, load, others_bits, s_isreg,
}
use portfolio_manager.Base.{
  ==_iff, Result, ap, is_empty, length, not, not-false, ok, or-false, raise_if, raise_if-ok,
  value_error, ℕ, ◌==◌, ◌||◌, ◌≡◌, Bytes, Text, [], false, refl, secret_decryption_error, sym,
  text_eq, ◌↔◌, ◌∷◌, arith, ◌%◌, ◌/◌,
}
use portfolio_manager.Base.Exec.{>>=-returns, lift-returns}
use portfolio_manager.Base.Texts.Strip.{text_eq_iff}
use portfolio_manager.Persistence.Envelope.Keys.{key_encryption_key-inv}

filled : (material : Bytes) → length material ≡ 32 → is_empty material ≡ false
filled [] h = cc
filled (b ∷ material) h = refl

module _ {S : Type 0} (files : FileSystem S) (self : FileKeyEncryptionKeyProvider) where
  -- The key that a file holds.
  pub record IsKeyFile (s : S) (key : KeyEncryptionKey) (s' : S) : Type 0 where
    pub mode : ℕ
    pub looked : S
    pub stat : files.st_mode self.path s ≡ (ok mode, looked)
    -- the type in the upper bits, and the permissions of the group and of the others
    pub regular : (mode / 4096) % 16 ≡ 8
    pub group_none : (mode / 8) % 8 ≡ 0
    pub others_none : mode % 8 ≡ 0
    pub read : files.read_bytes self.path looked ≡ (ok key.material, s')
    pub version_accepted : validate_key_version self.version ≡ ok tt
    pub of_version : key.version ≡ self.version
    pub size : length key.material ≡ 32

  load-IsKeyFile :
      (s : S) (key : KeyEncryptionKey) (s' : S)
      → load files self s ≡ (ok key, s')
      → IsKeyFile s key s'
  unfolding load
  load-IsKeyFile s key s' h =
      let (mode, s1, stat, h1) = >>=-returns (files.st_mode self.path) _ h in
      let (_, checked, h2) =
        lift-returns
          (raise_if (not (s_isreg mode) || not (others_bits mode == 0))
            (value_error "KEK file must be a regular owner-only file"))
          _ h1 in
      let (material, s3, read, h3) = >>=-returns (files.read_bytes self.path) _ h2 in
      let (same, v, size) =
        key_encryption_key-inv (record { version = self.version; material = material }) key
          (ap (λ (x : Result KeyEncryptionKey × S). x.0) h3) in
      let world : s3 ≡ s' = ap (λ (x : Result KeyEncryptionKey × S). x.1) h3 in
      let owned = or-false (not (s_isreg mode)) _ (raise_if-ok _ _ checked) in
      let made : (material ≡ key.material) × (self.version ≡ key.version) = (
        ap (λ (k : KeyEncryptionKey). k.material) same,
        ap (λ (k : KeyEncryptionKey). k.version) same,
      ) in
      record {
        mode = mode;
        looked = s1;
        stat = stat;
        regular = (==_iff ((mode / 4096) % 16) 8).0 (not-false _ owned.0);
        group_none = omega (arith, (==_iff (mode % 64) 0).0 (not-false _ owned.1));
        others_none = omega (arith, (==_iff (mode % 64) 0).0 (not-false _ owned.1));
        read = rw (made.0, world) at read;
        version_accepted = v;
        of_version = sym made.1;
        size = rw made.0 at size;
      }

  IsKeyFile-load :
      (s : S) (key : KeyEncryptionKey) (s' : S)
      → IsKeyFile s key s'
      → load files self s ≡ (ok key, s')
  unfolding load key_encryption_key_post_init
  IsKeyFile-load s key s' f =
      let owner_only : f.mode % 64 ≡ 0 = omega (arith, f.group_none, f.others_none) in
      rw
        (
          f.stat,
          f.regular,
          owner_only,
          f.read,
          f.version_accepted,
          filled key.material f.size,
          f.size,
          ← f.of_version,
        )
        refl

  -- get gives a key exactly if the version is the provider's, the path is a regular file on which
  -- only its owner has permissions, and the file holds the 32 bytes of the key, which has the
  -- provider's version, a short ASCII identifier.
  pub get_iff :
      (version : Text) (s : S) (key : KeyEncryptionKey) (s' : S)
      → (get files self version s ≡ (ok key, s')) ↔ ((version ≡ self.version) × IsKeyFile s key s')
  unfolding get
  get_iff version s key s' = (
    λ h.
        let (_, same, h1) =
          lift-returns (raise_if (not (text_eq version self.version)) secret_decryption_error) _
            h in
        (
          (text_eq_iff version self.version).0 (not-false _ (raise_if-ok _ _ same)),
          load-IsKeyFile s key s' h1,
        ),
    λ (same, f). rw ((text_eq_iff version self.version).1 same) (IsKeyFile-load s key s' f),
  )
