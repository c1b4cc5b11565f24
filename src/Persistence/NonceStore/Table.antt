-- ===== src/Persistence/NonceStore/Table.antt =====
-- persistence/nonce_store.py: what the store relies on of the database.
use portfolio_manager.Persistence.NonceStore.{AsyncSession, AuthorizationNonceRecord}
use portfolio_manager.Base.{
  Bool, Option, String, Text, if◌then◌else◌, none, ok, some, text_eq, true, ℕ, ◌≡◌,
}
use portfolio_manager.Domain.Temporal.{as_utc}

-- A row as it comes back: a timestamp is at the same instant, but may have another offset.
pub record IsSameRow (row row' : AuthorizationNonceRecord) : Type 0 where
  pub same_digest : row'.digest ≡ row.digest
  pub same_tenant : row'.tenant_id ≡ row.tenant_id
  pub same_connection : row'.connection_id ≡ row.connection_id
  pub same_expiry : (name : String) → as_utc row'.expires_at name ≡ as_utc row.expires_at name
  pub same_creation : (name : String) → as_utc row'.created_at name ≡ as_utc row.created_at name

-- What `p` is true of, and what it is not.
module _ {A : Type 0} (p : A → Bool) where
  abbrev pub visible : Option A → Option A
  visible none = none
  visible (some a) = if p a then some a else none

  abbrev pub hidden : Option A → Option A
  hidden none = none
  hidden (some a) = if p a then none else some a

-- A session on the table of nonces. Its primary key is the digest, its foreign key is a broker
-- connection, and its policy lets the session write, read and delete the rows of some tenants alone.
-- A flush that fails promises nothing of the world after it.
pub record IsNonceTable {S Rows : Type 0} (session : AsyncSession S Rows) : Type 1 where
  -- The transaction is active and nothing is pending.
  pub IsReady : S → Type 0
  -- The row of a digest, whoever may see it.
  pub row_of : S → Text → Option AuthorizationNonceRecord
  -- There is a broker connection of this tenant with this id.
  pub refers : S → ℕ → ℕ → Bool
  -- The session's setting, which the policy compares with the tenant of a row.
  pub permits : S → ℕ → Bool
  pub flush_stores :
      (row : AuthorizationNonceRecord) (s : S)
      → IsReady s
      → row_of s row.digest ≡ none
      → refers s row.tenant_id row.connection_id ≡ true
      → permits s row.tenant_id ≡ true
      → (row' : AuthorizationNonceRecord) × (s' : S) × (session.flush (session.add row s)
          ≡ (ok tt, s'))
        × IsReady s'
        × ((t : ℕ) → permits s' t ≡ permits s t)
        × IsSameRow row row'
        × ((d : Text) → row_of s' d ≡ (if text_eq d row.digest then some row' else row_of s d))
  pub execute_deletes :
      (digest : Text) (s : S)
      → IsReady s
      → (rows : Rows) × (s' : S) × (session.execute (record { digest = digest }) s ≡ (ok rows, s'))
        × (session.one_or_none rows
            ≡ ok (
                visible
                  (λ (row : AuthorizationNonceRecord). permits s row.tenant_id)
                  (row_of s digest)))
        × IsReady s'
        × ((t : ℕ) → permits s' t ≡ permits s t)
        × ((d : Text)
            → row_of s' d ≡ (
                if text_eq d digest
                then hidden
                    (λ (row : AuthorizationNonceRecord). permits s row.tenant_id)
                    (row_of s d)
                else row_of s d))
