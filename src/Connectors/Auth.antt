-- ===== src/Connectors/Auth.antt =====
-- connectors/zerodha_auth.py: credentials, the state of an authorization, and the nonce store's
-- protocol. SHA-256 of an ASCII text is the parameter `sha256_hex`, at its code points.
pub mod Service
pub mod Expiry
pub mod Exchange
use portfolio_manager.Base.Exec.{Exec}
use portfolio_manager.Application.{raise_connector_error}
use portfolio_manager.Base.{
  ConnectorFailureKind, Option, Result, String, Text, [], any, codes, if◌then◌else◌, is_alnum,
  is_ascii, is_hex, leb, length, ltb, none, not, not_trimmed, ok, raise_if, validation, value_error,
  ℕ, ◌%◌, ◌&&◌, ◌++◌, ◌+◌, ◌-◌, ◌/◌, ◌<>◌, ◌==◌, ◌>>=◌, ◌>>◌, ◌||◌, ◌∷◌,
}
use portfolio_manager.Connectors.Http.{KiteSession}
use portfolio_manager.Domain.Identifiers.{BrokerConnectionId, TenantId}
use portfolio_manager.Domain.Temporal.{Datetime, as_utc}

-- `_validate_credential`
unfoldable pub validate_credential : Text → String → Result (Unit {0})
validate_credential value name =
    raise_if
      (not_trimmed value
        || ltb 512 (length value)
        || not (is_ascii value)
        || any (λ c. ltb c 33 || ltb 126 c) value)
      (value_error ("Kite " <> name <> " must be a valid non-empty ASCII value"))

pub record KiteApiCredentials : Type 0 where
  pub api_key : Text
  pub api_secret : Text

unfoldable pub kite_api_credentials_post_init : KiteApiCredentials → Result KiteApiCredentials
kite_api_credentials_post_init self = do
  validate_credential self.api_key "API key"
  validate_credential self.api_secret "API secret"
  ok self

pub record PendingKiteAuthorization : Type 0 where
  pub tenant_id : TenantId
  pub connection_id : BrokerConnectionId
  pub nonce_digest : Text
  pub expires_at : Datetime

unfoldable pub pending_post_init : PendingKiteAuthorization → Result PendingKiteAuthorization
pending_post_init self = do
  raise_if (not (length self.nonce_digest == 64) || any (λ c. not (is_hex c)) self.nonce_digest)
      (value_error "authorization nonce digest must be lowercase SHA-256")
  expires_at ← as_utc self.expires_at "expires_at"
  ok (record self { expires_at = expires_at })

pub record KiteAuthorizationStart : Type 0 where
  pub login_url : Text
  pub expires_at : Datetime

unfoldable pub authorization_start_post_init :
    KiteAuthorizationStart → Result KiteAuthorizationStart
authorization_start_post_init self = do
  expires_at ← as_utc self.expires_at "expires_at"
  ok (record self { expires_at = expires_at })

pub record KiteAuthorizationResult : Type 0 where
  pub tenant_id : TenantId
  pub connection_id : BrokerConnectionId
  pub session : KiteSession

-- The protocols `KiteNonceStore` and `KiteTokenExchanger`.
pub record KiteNonceStore (S : Type 0) : Type 0 where
  pub issue : PendingKiteAuthorization → Exec S (Unit {0})
  pub consume : Text → Exec S (Option PendingKiteAuthorization)

abbrev pub KiteTokenExchanger : Type 0 → Type 0
KiteTokenExchanger S = KiteApiCredentials → Text → Exec S KiteSession

-- `_validate_nonce`
unfoldable pub validate_nonce : Text → Result (Unit {0})
validate_nonce nonce =
    if not (leb 32 (length nonce) && leb (length nonce) 128)
      || not (is_ascii nonce)
      || any (λ c. not (is_alnum c || c == b'-' || c == b'_')) nonce
    then raise_connector_error ConnectorFailureKind.validation (codes "auth.state_invalid") none
    else ok tt

-- `urllib.parse.quote_plus` of ASCII text.
unfoldable pub hex_digit : ℕ → ℕ
hex_digit n = if ltb n 10 then b'0' + n else b'A' + (n - 10)

unfoldable pub quote_plus : Text → Text
unfolding hex_digit
quote_plus [] = []
quote_plus (c ∷ s) =
    let rest = quote_plus s in
    if is_alnum c || c == b'_' || c == b'.' || c == b'-' || c == b'~'
    then c ∷ rest
    else if c == 32
    then b'+' ∷ rest
    else b'%' ∷ hex_digit (c / 16) ∷ hex_digit (c % 16) ∷ rest

-- The URL that the user is sent to, with the nonce in its redirect parameters.
unfoldable pub login_url : Text → Text → Text
unfolding quote_plus
login_url api_key nonce =
    codes "https://kite.zerodha.com/connect/login?v=3&api_key="
    ++ (quote_plus api_key
        ++ (codes "&redirect_params=" ++ quote_plus (codes "state=" ++ quote_plus nonce)))
