-- ===== src/Persistence/NonceStore/SingleUse.antt =====
-- persistence/nonce_store.py: a nonce from issue to consume.
use portfolio_manager.Persistence.NonceStore.{
  AsyncSession, StoredAuthorizationNonce, issue, consume,
}
use portfolio_manager.Persistence.NonceStore.Table.{IsNonceTable}
use portfolio_manager.Persistence.NonceStore.Refines.{
  Represents, consume-Represents, issue-Represents,
}
use portfolio_manager.Persistence.NonceStore.Rows.{IsStored, Nonces, with_nonce, without_digest}
use portfolio_manager.Base.{
  Bool, ℕ, Bool-cases, Text, ap, inl, inr, none, ok, refl, some, sym, text_eq, true, ◌∙◌, ◌≡◌,
}
use portfolio_manager.Base.Texts.Strip.{text_eq_iff, text_eq_refl}
use portfolio_manager.Domain.Identifiers.{new}

module _ {S Rows : Type 0} (session : AsyncSession S Rows) (table : IsNonceTable session) where
  -- The stages of a nonce that is issued and consumed twice.
  pub record IsUsedOnce (s : S) (m : Nonces) (nonce : StoredAuthorizationNonce) : Type 0 where
    pub issued : S
    pub used : S
    pub left : S
    pub issues : issue session nonce s ≡ (ok tt, issued)
    pub first : consume session nonce.digest issued ≡ (ok (some nonce), used)
    pub second : consume session nonce.digest used ≡ (ok none, left)
    pub restored : Represents session table left m

  with_nonce-digest :
      (m : Nonces) (nonce : StoredAuthorizationNonce) → with_nonce nonce m nonce.digest ≡ some nonce
  with_nonce-digest m nonce = rw text_eq_refl refl

  without_digest-digest :
      (permits : ℕ → Bool) (m : Nonces) (nonce : StoredAuthorizationNonce)
      → permits nonce.tenant_id.value ≡ true
      → without_digest permits nonce.digest (with_nonce nonce m) nonce.digest ≡ none
  without_digest-digest permits m nonce permitted = rw (text_eq_refl, permitted) refl

  removed :
      (permits permits' : ℕ → Bool) (m : Nonces) (nonce : StoredAuthorizationNonce) (d : Text)
      → m nonce.digest ≡ none
      → permits nonce.tenant_id.value ≡ true
      → without_digest permits' nonce.digest
          (without_digest permits nonce.digest (with_nonce nonce m))
          d
        ≡ m d
  removed permits permits' m nonce d new permitted = elim (Bool-cases (text_eq d nonce.digest)) [
    | inl here ↦ rw (here, permitted) (sym new ∙ ap m (sym ((text_eq_iff d nonce.digest).0 here)))
    | inr other ↦ rw other refl
  ]

  -- Over a database that keeps the laws of the table: a nonce whose digest is new, whose broker
  -- connection is there and whose tenant the session may write and see can be issued; the first
  -- consume of its digest gives it back as it was, the second gives nothing, and the table then holds
  -- what it held before.
  pub issue-IsUsedOnce :
      (s : S) (m : Nonces) (nonce : StoredAuthorizationNonce)
      → Represents session table s m
      → IsStored nonce
      → m nonce.digest ≡ none
      → table.refers s nonce.tenant_id.value nonce.connection_id.value ≡ true
      → table.permits s nonce.tenant_id.value ≡ true
      → IsUsedOnce s m nonce
  issue-IsUsedOnce s m nonce r stored new known permitted =
      let (s1, issues, r1, kept) =
        issue-Represents session table s m nonce r stored new known permitted in
      let still : table.permits s1 nonce.tenant_id.value ≡ true =
        kept nonce.tenant_id.value ∙ permitted in
      let (s2, first, r2, _) =
        consume-Represents session table s1 (with_nonce nonce m) nonce.digest r1 in
      let m2 = without_digest (table.permits s1) nonce.digest (with_nonce nonce m) in
      let (s3, second, r3, _) = consume-Represents session table s2 m2 nonce.digest r2 in
      record {
        issued = s1;
        used = s2;
        left = s3;
        issues = issues;
        first = rw (with_nonce-digest m nonce, still) at first;
        second = rw (without_digest-digest (table.permits s1) m nonce still) at second;
        restored = record {
          ready = r3.ready;
          rows = λ d.
              rw (removed (table.permits s1) (table.permits s2) m nonce d new still) at (r3.rows d);
        };
      }
