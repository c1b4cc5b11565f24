-- ===== src/Persistence/NonceStore/Refines.antt =====
-- persistence/nonce_store.py: the store as a map from digests to nonces.
use portfolio_manager.Persistence.NonceStore.{
  AsyncSession, AuthorizationNonceRecord, StoredAuthorizationNonce, issue, consume, consumed,
  record_of,
}
use portfolio_manager.Persistence.NonceStore.Table.{IsNonceTable}
use portfolio_manager.Base.{
  ℕ, Bool-cases, Option, Text, inl, inr, none, ok, refl, some, text_eq, true, ◌↔◌, ◌≡◌,
}
use portfolio_manager.Domain.Identifiers.{new}
use portfolio_manager.Persistence.NonceStore.Rows.{
  Nonces, with_nonce, without_digest, readable, IsRowOf, IsStored, IsStored-IsNormal,
  from_row-IsNormal, visible-IsRowOf, hidden-IsRowOf,
}

module _ {S Rows : Type 0} (session : AsyncSession S Rows) (table : IsNonceTable session) where
  -- The session is ready, and its table holds the nonces of `m`.
  pub record Represents (s : S) (m : Nonces) : Type 0 where
    pub ready : table.IsReady s
    pub rows : (d : Text) → IsRowOf (table.row_of s d) (m d)

  unused :
      (row : Option AuthorizationNonceRecord) (nonce : Option StoredAuthorizationNonce)
      → IsRowOf row nonce
      → (row ≡ none) ↔ (nonce ≡ none)
  unused none none h = (λ e. refl, λ e. refl)
  unused none (some nonce) h = absurd h
  unused (some row) none h = absurd h
  unused (some row) (some nonce) h = (λ e. cc, λ e. cc)

  -- Over a database that keeps the laws of the table, where the table holds the nonces of a map,
  -- the nonce was made by its constructor, its digest is not among them, its broker connection is
  -- there and its tenant is one that the session may write: issue returns, the table then holds the
  -- map with the nonce, and the session is permitted what it was.
  pub issue-Represents :
      (s : S) (m : Nonces) (nonce : StoredAuthorizationNonce)
      → Represents s m
      → IsStored nonce
      → m nonce.digest ≡ none
      → table.refers s nonce.tenant_id.value nonce.connection_id.value ≡ true
      → table.permits s nonce.tenant_id.value ≡ true
      → (s' : S) × (issue session nonce s ≡ (ok tt, s'))
        × Represents s' (with_nonce nonce m)
        × ((t : ℕ) → table.permits s' t ≡ table.permits s t)
  unfolding issue
  issue-Represents s m nonce r stored new known permitted =
      let (row', s', flushed, ready, kept, same, rows) =
        table.flush_stores (record_of nonce) s r.ready ((unused _ _ (r.rows nonce.digest)).1 new)
          known permitted in
      (
        s',
        rw flushed refl,
        record {
          ready = ready;
          rows = λ d. elim (Bool-cases (text_eq d nonce.digest)) [
            | inl here ↦
                rw (rows d, here)
                  (from_row-IsNormal nonce row' (IsStored-IsNormal nonce stored) same)
            | inr other ↦ rw (rows d, other) (r.rows d)
          ];
        },
        kept,
      )

  consumed-IsRowOf :
      (rows : Rows) (row : Option AuthorizationNonceRecord)
      (nonce : Option StoredAuthorizationNonce)
      → session.one_or_none rows ≡ ok row
      → IsRowOf row nonce
      → consumed session rows ≡ ok nonce
  consumed-IsRowOf rows none none e h = rw e refl
  consumed-IsRowOf rows none (some nonce) e h = absurd h
  consumed-IsRowOf rows (some row) none e h = absurd h
  consumed-IsRowOf rows (some row) (some nonce) e h = rw (e, h) refl

  -- Over a database that keeps the laws of the table, where the table holds the nonces of a map:
  -- consume gives the nonce of the digest, if there is one of a tenant that the session may see, and
  -- the table then holds the map without it; otherwise consume gives nothing, and the table holds
  -- what it held. The session is permitted what it was.
  pub consume-Represents :
      (s : S) (m : Nonces) (digest : Text)
      → Represents s m
      → (s' : S) × (consume session digest s ≡ (ok (readable (table.permits s) (m digest)), s'))
        × Represents s' (without_digest (table.permits s) digest m)
        × ((t : ℕ) → table.permits s' t ≡ table.permits s t)
  unfolding consume
  consume-Represents s m digest r =
      let (rows, s', deleted, found, ready, kept, left) = table.execute_deletes digest s r.ready in
      let answer =
        visible-IsRowOf (table.permits s) (table.row_of s digest) (m digest) (r.rows digest) in
      (
        s',
        rw (deleted, consumed-IsRowOf rows _ _ found answer) refl,
        record {
          ready = ready;
          rows = λ d. elim (Bool-cases (text_eq d digest)) [
            | inl here ↦
                rw (left d, here)
                  (hidden-IsRowOf (table.permits s) (table.row_of s d) (m d) (r.rows d))
            | inr other ↦ rw (left d, other) (r.rows d)
          ];
        },
        kept,
      )
