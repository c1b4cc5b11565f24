-- ===== src/Persistence/NonceStore.antt =====
-- persistence/nonce_store.py, and the row of persistence/models.py that it stores. The session is a
-- parameter: SQLAlchemy and the database behind it.
pub mod Table
pub mod Rows
pub mod Refines
pub mod SingleUse
use portfolio_manager.Base.Exec.{Exec, lift}
use portfolio_manager.Domain.Identifiers.{BrokerConnectionId, TenantId}
use portfolio_manager.Domain.Temporal.{Datetime, as_utc}
use portfolio_manager.Base.{
  Option, Result, Text, any, err, for_some, integrity_error, is_hex, length, nonce_conflict, not,
  ok, raise_if, value_error, ℕ, ◌==◌, ◌>>=◌, ◌>>◌, ◌||◌,
}

pub record StoredAuthorizationNonce : Type 0 where
  pub tenant_id : TenantId
  pub connection_id : BrokerConnectionId
  pub digest : Text
  pub expires_at : Datetime
  pub created_at : Datetime

unfoldable pub stored_nonce_post_init : StoredAuthorizationNonce → Result StoredAuthorizationNonce
stored_nonce_post_init self = do
  raise_if (not (length self.digest == 64) || any (λ c. not (is_hex c)) self.digest)
      (value_error "authorization nonce digest must be lowercase SHA-256")
  expires_at ← as_utc self.expires_at "expires_at"
  created_at ← as_utc self.created_at "created_at"
  ok (record self { expires_at = expires_at; created_at = created_at })

pub record AuthorizationNonceRecord : Type 0 where
  pub digest : Text
  pub tenant_id : ℕ
  pub connection_id : ℕ
  pub expires_at : Datetime
  pub created_at : Datetime

-- `delete(AuthorizationNonceRecord).where(AuthorizationNonceRecord.digest == digest)`, which returns
-- every column.
pub record DeleteStatement : Type 0 where
  pub digest : Text

-- The methods of `AsyncSession` that the store calls, over a world `S`, and the `one_or_none` of the
-- mappings that a statement returns.
pub record AsyncSession (S Rows : Type 0) : Type 0 where
  pub add : AuthorizationNonceRecord → S → S
  pub flush : Exec S (Unit {0})
  pub execute : DeleteStatement → Exec S Rows
  pub one_or_none : Rows → Result (Option AuthorizationNonceRecord)

abbrev pub record_of : StoredAuthorizationNonce → AuthorizationNonceRecord
record_of nonce = record {
  digest = nonce.digest;
  tenant_id = nonce.tenant_id.value;
  connection_id = nonce.connection_id.value;
  expires_at = nonce.expires_at;
  created_at = nonce.created_at;
}

-- The handler of `issue`.
abbrev pub conflict_of : Result (Unit {0}) → Result (Unit {0})
conflict_of (err integrity_error) = err nonce_conflict
conflict_of r = r

abbrev pub from_row : AuthorizationNonceRecord → Result StoredAuthorizationNonce
from_row row = stored_nonce_post_init (record {
  tenant_id = record { value = row.tenant_id };
  connection_id = record { value = row.connection_id };
  digest = row.digest;
  expires_at = row.expires_at;
  created_at = row.created_at;
})

module _ {S Rows : Type 0} (session : AsyncSession S Rows) where
  unfoldable pub issue : StoredAuthorizationNonce → Exec S (Unit {0})
  issue nonce s =
      let (flushed, s') = session.flush (session.add (record_of nonce) s) in
      (conflict_of flushed, s')

  -- What `consume` makes of the answer.
  abbrev pub consumed : Rows → Result (Option StoredAuthorizationNonce)
  consumed result = do row ← session.one_or_none result; for_some row from_row

  unfoldable pub consume : Text → Exec S (Option StoredAuthorizationNonce)
  consume digest s =
      let (result, s') = session.execute (record { digest = digest }) s in (result >>= consumed, s')
