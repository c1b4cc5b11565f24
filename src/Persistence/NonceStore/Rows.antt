-- ===== src/Persistence/NonceStore/Rows.antt =====
-- persistence/nonce_store.py: the nonces of a map, and the rows that stand for them.
use portfolio_manager.Persistence.NonceStore.{
  AuthorizationNonceRecord, StoredAuthorizationNonce, from_row, record_of, stored_nonce_post_init,
}
use portfolio_manager.Persistence.NonceStore.Table.{hidden, visible, IsSameRow}
use portfolio_manager.Base.{
  ap, ℕ, >>=-eq-ok, Bool, Bool-cases, Option, Text, any, false, if◌then◌else◌, inl, inr, is_hex,
  length, none, not, ok, ok-injective, raise_if, raise_if-ok, refl, some, text_eq, value_error,
  ◌==◌, ◌||◌, ◌≡◌, sym, ◌∙◌,
}
use portfolio_manager.Domain.Temporal.{as_utc}
use portfolio_manager.Domain.Temporal.Laws.{as_utc_idempotent}

abbrev pub Nonces : Type 0
Nonces = Text → Option StoredAuthorizationNonce

abbrev pub with_nonce : StoredAuthorizationNonce → Nonces → Nonces
with_nonce nonce m d = if text_eq d nonce.digest then some nonce else m d

-- What a session reads of an answer, and what it takes out of the map, if it is permitted to see the
-- nonces of some tenants alone.
module _ (permits : ℕ → Bool) where
  abbrev pub is_permitted : StoredAuthorizationNonce → Bool
  is_permitted nonce = permits nonce.tenant_id.value

  abbrev pub readable : Option StoredAuthorizationNonce → Option StoredAuthorizationNonce
  readable o = visible is_permitted o

  abbrev pub without_digest : Text → Nonces → Nonces
  without_digest digest m d = if text_eq d digest then hidden is_permitted (m d) else m d

-- The row is the nonce's.
abbrev pub IsRowOf : Option AuthorizationNonceRecord → Option StoredAuthorizationNonce → Type 0
IsRowOf none none = Unit
IsRowOf none (some nonce) = ⊥
IsRowOf (some row) none = ⊥
IsRowOf (some row) (some nonce) = from_row row ≡ ok nonce

-- What the constructor gives.
abbrev pub IsStored : StoredAuthorizationNonce → Type 0
IsStored nonce = (raw : StoredAuthorizationNonce) × (stored_nonce_post_init raw ≡ ok nonce)

not_digest : Text → Bool
not_digest s = not (length s == 64) || any (λ c. not (is_hex c)) s

pub record IsNormal (nonce : StoredAuthorizationNonce) : Type 0 where
  hexadecimal : not_digest nonce.digest ≡ false
  expiry : as_utc nonce.expires_at "expires_at" ≡ ok nonce.expires_at
  creation : as_utc nonce.created_at "created_at" ≡ ok nonce.created_at

pub IsStored-IsNormal : (nonce : StoredAuthorizationNonce) → IsStored nonce → IsNormal nonce
unfolding stored_nonce_post_init not_digest
IsStored-IsNormal nonce (raw, h) =
    let (_, a, h1) =
      >>=-eq-ok
        (raise_if (not_digest raw.digest)
          (value_error "authorization nonce digest must be lowercase SHA-256"))
        _ h in
    let (expires_at, b, h2) = >>=-eq-ok (as_utc raw.expires_at "expires_at") _ h1 in
    let (created_at, c, h3) = >>=-eq-ok (as_utc raw.created_at "created_at") _ h2 in
    let same : record raw { expires_at = expires_at; created_at = created_at } ≡ nonce =
      ok-injective h3 in
    let normal : IsNormal (record raw { expires_at = expires_at; created_at = created_at }) =
      record {
        hexadecimal = raise_if-ok _ _ a;
        expiry = as_utc_idempotent raw.expires_at "expires_at" "expires_at" expires_at b;
        creation = as_utc_idempotent raw.created_at "created_at" "created_at" created_at c;
      } in
    rw same at normal

from_row-tenant :
    (row : AuthorizationNonceRecord) (nonce : StoredAuthorizationNonce)
    → from_row row ≡ ok nonce
    → row.tenant_id ≡ nonce.tenant_id.value
unfolding stored_nonce_post_init not_digest
from_row-tenant row nonce h =
    let (_, a, h1) =
      >>=-eq-ok
        (raise_if (not_digest row.digest)
          (value_error "authorization nonce digest must be lowercase SHA-256"))
        _ h in
    let (expires_at, b, h2) = >>=-eq-ok (as_utc row.expires_at "expires_at") _ h1 in
    let (created_at, c, h3) = >>=-eq-ok (as_utc row.created_at "created_at") _ h2 in
    ap (λ (x : StoredAuthorizationNonce). x.tenant_id.value) (ok-injective h3)

pub from_row-IsNormal :
    (nonce : StoredAuthorizationNonce) (row : AuthorizationNonceRecord)
    → IsNormal nonce
    → IsSameRow (record_of nonce) row
    → from_row row ≡ ok nonce
unfolding stored_nonce_post_init not_digest
from_row-IsNormal nonce row n same =
    rw
      (
        same.same_digest,
        same.same_tenant,
        same.same_connection,
        n.hexadecimal,
        same.same_expiry "expires_at",
        n.expiry,
        same.same_creation "created_at",
        n.creation,
      )
      refl

-- A policy on the tenants shows and hides a row as it does the nonce.
module _ (permits : ℕ → Bool) where
  pub visible-IsRowOf :
      (row : Option AuthorizationNonceRecord) (nonce : Option StoredAuthorizationNonce)
      → IsRowOf row nonce
      → IsRowOf
          (visible (λ (r : AuthorizationNonceRecord). permits r.tenant_id) row)
          (readable permits nonce)
  visible-IsRowOf none none h = tt
  visible-IsRowOf none (some nonce) h = absurd h
  visible-IsRowOf (some row) none h = absurd h
  visible-IsRowOf (some row) (some nonce) h =
      let same = sym (ap permits (from_row-tenant row nonce h)) in
      elim (Bool-cases (permits row.tenant_id)) [
        | inl shown ↦ rw (shown, same ∙ shown) h
        | inr not_shown ↦ rw (not_shown, same ∙ not_shown) tt
      ]

  pub hidden-IsRowOf :
      (row : Option AuthorizationNonceRecord) (nonce : Option StoredAuthorizationNonce)
      → IsRowOf row nonce
      → IsRowOf
          (hidden (λ (r : AuthorizationNonceRecord). permits r.tenant_id) row)
          (hidden (is_permitted permits) nonce)
  hidden-IsRowOf none none h = tt
  hidden-IsRowOf none (some nonce) h = absurd h
  hidden-IsRowOf (some row) none h = absurd h
  hidden-IsRowOf (some row) (some nonce) h =
      let same = sym (ap permits (from_row-tenant row nonce h)) in
      elim (Bool-cases (permits row.tenant_id)) [
        | inl shown ↦ rw (shown, same ∙ shown) tt
        | inr not_shown ↦ rw (not_shown, same ∙ not_shown) h
      ]
