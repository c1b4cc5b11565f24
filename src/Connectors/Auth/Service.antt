-- ===== src/Connectors/Auth/Service.antt =====
-- connectors/zerodha_auth.py: `KiteAuthorizationService`, over a nonce store, a token exchanger, a
-- clock and a source of nonces that act on a world of type `S`.
pub mod SingleUse
pub mod Login
use portfolio_manager.Base.Exec.{Exec, pure, lift, ◌>>=◌, ◌>>◌}
use portfolio_manager.Application.{raise_connector_error}
use portfolio_manager.Base.{
  ConnectorFailureKind, Option, Text, codes, if◌then◌else◌, none, some, validation, ℕ, ◌*◌,
}
use portfolio_manager.Connectors.Auth.{
  KiteApiCredentials, KiteAuthorizationResult, KiteAuthorizationStart, KiteNonceStore,
  KiteTokenExchanger, PendingKiteAuthorization, authorization_start_post_init, login_url,
  pending_post_init, validate_credential, validate_nonce,
}
use portfolio_manager.Connectors.Http.Transport.{now}
use portfolio_manager.Domain.Identifiers.{BrokerConnectionId, TenantId}
use portfolio_manager.Domain.Temporal.{Datetime, add_micros, not_after}

-- `_NONCE_TTL`, in microseconds
abbrev pub nonce_ttl : ℕ
nonce_ttl = 5 * 60 * 1000000

module _ (sha256_hex : Text → Text) {S : Type 0} (nonce_store : KiteNonceStore S)
    (exchange : KiteTokenExchanger S) (clock : Exec S Datetime) (nonce_factory : Exec S Text) where
  unfoldable pub start : TenantId → BrokerConnectionId → Text → Exec S KiteAuthorizationStart
  start tenant_id connection_id api_key = do
    lift (validate_credential api_key "API key")
    nonce ← nonce_factory
    lift (validate_nonce nonce)
    at ← now clock
    expires_at ← lift (add_micros at nonce_ttl)
    pending ← lift (
        pending_post_init (record {
          tenant_id = tenant_id;
          connection_id = connection_id;
          nonce_digest = sha256_hex nonce;
          expires_at = expires_at;
        }))
    nonce_store.issue pending
    lift (
        authorization_start_post_init
          (record { login_url = login_url api_key nonce; expires_at = expires_at }))

  -- The end of `complete`, once the clock is read.
  abbrev pub redeem :
      KiteApiCredentials
      → Text
      → PendingKiteAuthorization
      → Datetime
      → Exec S KiteAuthorizationResult
  redeem credentials request_token authorization at =
      if not_after authorization.expires_at at
      then lift
          (raise_connector_error ConnectorFailureKind.validation (codes "auth.state_expired") none)
      else (do
        session ← exchange credentials request_token
        pure (record {
          tenant_id = authorization.tenant_id;
          connection_id = authorization.connection_id;
          session = session;
        }))

  abbrev pub consumed :
      KiteApiCredentials → Text → Option PendingKiteAuthorization → Exec S KiteAuthorizationResult
  consumed credentials request_token none =
      lift (raise_connector_error ConnectorFailureKind.validation (codes "auth.state_invalid") none)
  consumed credentials request_token (some authorization) = do
    at ← now clock
    redeem credentials request_token authorization at

  unfoldable pub complete : Text → Text → KiteApiCredentials → Exec S KiteAuthorizationResult
  complete state request_token credentials = do
    lift (validate_nonce state)
    lift (validate_credential request_token "request token")
    authorization ← nonce_store.consume (sha256_hex state)
    consumed credentials request_token authorization
