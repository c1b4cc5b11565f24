-- ===== src/Connectors/Auth/Exchange.antt =====
-- connectors/zerodha_auth.py: `HttpxKiteTokenExchanger`. Parameters: SHA-256 of an ASCII text, what
-- pydantic makes of a response (`none` is its `ValidationError`), the offsets of Kolkata, the clock,
-- and the client's `stream`, which posts a form.
pub mod Expiring
pub mod Posted
pub mod Returns
pub mod Session
use portfolio_manager.Base.Exec.{Exec, pure, lift, ◌>>=◌, ◌>>◌}
use portfolio_manager.Application.{Bytes, raise_connector_error}
use portfolio_manager.Base.{
  Bool, ConnectorFailureKind, List, Option, Result, Text, [], authentication, codes, err, false,
  if◌then◌else◌, is_ascii, leb, ltb, negsuc, none, ok, overflow_error, permanent, pos, raise_if,
  rate_limit, some, suc, text_eq, too_long, transient, true, type_error, validation, is_value_error,
  ℕ, ℤ, ◌&&◌, ◌*◌, ◌++◌, ◌+◌, ◌-◌, ◌/◌, ◌==◌, ◌||◌, ◌∷◌,
}
use portfolio_manager.Connectors.Auth.{KiteApiCredentials, KiteTokenExchanger, validate_credential}
use portfolio_manager.Connectors.Http.{KiteSession, Response, kite_session_post_init, read_chunks}
use portfolio_manager.Connectors.Http.Transport.{Header, catching, now}
use portfolio_manager.Domain.Temporal.{Datetime, astimezone_utc, max_wall}
use portfolio_manager.Connectors.Auth.Expiry.{session_expiry}

-- `_TokenEnvelope`, of which the `data` alone is read.
pub record TokenData : Type 0 where
  pub api_key : Text
  pub access_token : Text

abbrev pub max_auth_response_bytes : ℕ
max_auth_response_bytes = 1024 * 1024

-- `hmac.compare_digest` of two strings: it compares ASCII only.
unfoldable pub compare_digest : Text → Text → Result Bool
compare_digest a b = if is_ascii a && is_ascii b then ok (text_eq a b) else err type_error

unfoldable pub raise_for_status : Response → Result (Unit {0})
raise_for_status response =
    let status = response.status_code in
    if leb 200 status && ltb status 300
    then ok tt
    else if status == 400 || status == 403
    then raise_connector_error ConnectorFailureKind.authentication (codes "auth.exchange_rejected")
        none
    else if status == 429
    then raise_connector_error ConnectorFailureKind.rate_limit (codes "provider.rate_limit") none
    else if leb 500 status && ltb status 600
    then raise_connector_error ConnectorFailureKind.transient (codes "provider.unavailable") none
    else raise_connector_error ConnectorFailureKind.permanent (codes "provider.exchange_failed")
        none

-- `_read_bounded`
unfoldable pub read_bounded : Response → Result Bytes
read_bounded response = read_chunks max_auth_response_bytes 0 [] response.stream

-- `except ValueError` around the construction of the session.
abbrev pub reworded {ℓ} : {A : Type ℓ} → Result A → Result A
reworded (ok a) = ok a
reworded (err e) =
    if is_value_error e
    then raise_connector_error ConnectorFailureKind.validation (codes "provider.invalid_response")
        none
    else err e

abbrev pub catching_value {ℓ} : {S A : Type ℓ} → Exec S A → Exec S A
catching_value m s = let (r, s') = m s in (reworded r, s')

module _ (sha256_hex : Text → Text) (model_validate_json : Bytes → Option TokenData)
    (offset_at_utc offset_at_wall : ℕ → ℤ) {S : Type 0} (clock : Exec S Datetime)
    (stream : Text → List Header → List Header → Exec S Response) where
  -- The body of the `try`.
  unfoldable pub post_token : KiteApiCredentials → Text → Exec S Bytes
  post_token credentials request_token = do
    response ←
        stream (codes "/session/token")
          (record { name = codes "X-Kite-Version"; value = codes "3" } ∷ [])
          (record { name = codes "api_key"; value = credentials.api_key }
            ∷ record { name = codes "request_token"; value = request_token }
            ∷ record {
              name = codes "checksum";
              value = sha256_hex (credentials.api_key ++ (request_token ++ credentials.api_secret));
            }
            ∷ [])
    lift (raise_for_status response)
    lift (read_bounded response)

  abbrev pub validated : Option TokenData → Result TokenData
  validated none =
      raise_connector_error ConnectorFailureKind.validation (codes "provider.invalid_response") none
  validated (some data_of) = ok data_of

  abbrev pub matching : Bool → Result (Unit {0})
  matching true = ok tt
  matching false =
      raise_connector_error ConnectorFailureKind.validation (codes "provider.api_key_mismatch") none

  unfoldable pub session_of : KiteApiCredentials → TokenData → Exec S KiteSession
  session_of credentials envelope = do
    at ← now clock
    expires_at ← lift (session_expiry offset_at_utc offset_at_wall at)
    lift (
        kite_session_post_init (record {
          api_key = credentials.api_key;
          access_token = some envelope.access_token;
          expires_at = some expires_at;
        }))

  unfoldable pub exchange : KiteTokenExchanger S
  exchange credentials request_token = do
    lift (validate_credential request_token "request token")
    content ← catching (post_token credentials request_token)
    envelope ← lift (validated (model_validate_json content))
    same ← lift (compare_digest envelope.api_key credentials.api_key)
    lift (matching same)
    catching_value (session_of credentials envelope)
