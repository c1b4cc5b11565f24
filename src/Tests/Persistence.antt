-- ===== src/Tests/Persistence.antt =====
-- persistence/nonce_store.py: a table that is kept in a function, with one row pending at most.
use portfolio_manager.Persistence.NonceStore.{
  AsyncSession, AuthorizationNonceRecord, StoredAuthorizationNonce, issue, consume,
  stored_nonce_post_init, from_row, record_of,
}
use portfolio_manager.Persistence.NonceStore.Table.{hidden, visible, IsNonceTable}
use portfolio_manager.Base.{
  Bool, Option, Text, any, codes, err, false, if◌then◌else◌, inl, inr, integrity_error, none, ok,
  pos, refl, some, text_eq, true, ℕ, ◌&&◌, ◌==◌, ◌≡◌, Bool-cases,
}
use portfolio_manager.Base.Exec.{Exec}
use portfolio_manager.Domain.Temporal.{as_utc, astimezone_utc, utc, utc_offset}
use portfolio_manager.Persistence.NonceStore.Refines.{
  Represents, consume-Represents, issue-Represents,
}
use portfolio_manager.Persistence.NonceStore.Rows.{IsStored, with_nonce, without_digest}
use portfolio_manager.Persistence.NonceStore.SingleUse.{IsUsedOnce, issue-IsUsedOnce}

record World : Type 0 where
  rows : Text → Option AuthorizationNonceRecord
  pending : Option AuthorizationNonceRecord

-- The session is of the first tenant.
abbrev is_own : AuthorizationNonceRecord → Bool
is_own row = row.tenant_id == 1

-- There is one broker connection.
abbrev is_connection : ℕ → ℕ → Bool
is_connection tenant_id connection_id = tenant_id == 1 && connection_id == 2

abbrev is_free : Option AuthorizationNonceRecord → Bool
is_free none = true
is_free (some row) = false

abbrev flush_pending : Option AuthorizationNonceRecord → Exec World (Unit {0})
flush_pending none w = (ok tt, w)
flush_pending (some row) w =
    if is_free (w.rows row.digest) && is_connection row.tenant_id row.connection_id
    then (
      ok tt,
      record { rows = λ d. if text_eq d row.digest then some row else w.rows d; pending = none },
    )
    else (err integrity_error, w)

abbrev session : AsyncSession World (Option AuthorizationNonceRecord)
session = record {
  add = λ row w. record w { pending = some row };
  flush = λ w. flush_pending w.pending w;
  execute = λ statement w. (
    ok (visible is_own (w.rows statement.digest)),
    record w {
      rows = λ d. if text_eq d statement.digest then hidden is_own (w.rows d) else w.rows d;
    },
  );
  one_or_none = λ row. ok row;
}

abbrev nonce_table : IsNonceTable session
nonce_table = record {
  IsReady = λ w. w.pending ≡ none;
  row_of = λ w. w.rows;
  refers = λ w. is_connection;
  permits = λ w tenant_id. tenant_id == 1;
  flush_stores = λ row w ready free known permitted. (
    row,
    record { rows = λ d. if text_eq d row.digest then some row else w.rows d; pending = none },
    rw (free, known) refl,
    refl,
    λ t. refl,
    record {
      same_digest = refl;
      same_tenant = refl;
      same_connection = refl;
      same_expiry = λ name. refl;
      same_creation = λ name. refl;
    },
    λ d. refl,
  );
  execute_deletes = λ digest w ready. (
    visible is_own (w.rows digest),
    record w { rows = λ d. if text_eq d digest then hidden is_own (w.rows d) else w.rows d },
    refl,
    refl,
    ready,
    λ t. refl,
    λ d. refl,
  );
}

abbrev empty_table : World
empty_table = record { rows = λ d. none; pending = none }

empty_table-Represents : Represents session nonce_table empty_table (λ d. none)
empty_table-Represents = record { ready = refl; rows = λ d. tt }

-- 64 digits, and half past five in the east.
abbrev raw : StoredAuthorizationNonce
raw = record {
  tenant_id = record { value = 1 };
  connection_id = record { value = 2 };
  digest = codes "0123456789abcdef0123456789abcdef0123456789abcdef0123456789abcdef";
  expires_at = record { wall = 63000000000000000; tzinfo = utc_offset (pos 19800000000) };
  created_at = utc 62999000000000000;
}

abbrev nonce : StoredAuthorizationNonce
nonce = record raw { expires_at = utc 62999980200000000 }

nonce-IsStored : IsStored nonce
unfolding stored_nonce_post_init as_utc astimezone_utc any
nonce-IsStored = (raw, refl)

issue-Represents_example :
    (w : World) × (issue session nonce empty_table ≡ (ok tt, w))
    × Represents session nonce_table w (with_nonce nonce (λ d. none))
    × ((t : ℕ) → nonce_table.permits w t ≡ nonce_table.permits empty_table t)
issue-Represents_example =
    issue-Represents session nonce_table empty_table (λ d. none) nonce empty_table-Represents
      nonce-IsStored refl refl refl

-- The table with that nonce alone.
abbrev one_row : World
one_row = record {
  rows = λ d. if text_eq d nonce.digest then some (record_of nonce) else none;
  pending = none;
}

from_row-nonce : from_row (record_of nonce) ≡ ok nonce
unfolding stored_nonce_post_init as_utc astimezone_utc any
from_row-nonce = refl

one_row-Represents : Represents session nonce_table one_row (with_nonce nonce (λ d. none))
one_row-Represents = record {
  ready = refl;
  rows = λ d. elim (Bool-cases (text_eq d nonce.digest)) [
    | inl here ↦ rw here from_row-nonce
    | inr other ↦ rw other tt
  ];
}

consume-Represents_example :
    (w : World) × (consume session nonce.digest one_row ≡ (ok (some nonce), w))
    × Represents session nonce_table w
        (without_digest (nonce_table.permits one_row) nonce.digest (with_nonce nonce (λ d. none)))
    × ((t : ℕ) → nonce_table.permits w t ≡ nonce_table.permits one_row t)
consume-Represents_example =
    consume-Represents session nonce_table one_row (with_nonce nonce (λ d. none)) nonce.digest
      one_row-Represents

issue-IsUsedOnce_example : IsUsedOnce session nonce_table empty_table (λ d. none) nonce
issue-IsUsedOnce_example =
    issue-IsUsedOnce session nonce_table empty_table (λ d. none) nonce empty_table-Represents
      nonce-IsStored refl refl refl
