-- ===== src/Connectors/Http/Transport.antt =====
-- connectors/zerodha_http.py: `HttpxKiteTransport` over the client's `stream`, which sends a request
-- and gives the response, or raises.
use portfolio_manager.Base.Exec.{Exec, pure, lift, ◌>>=◌, ◌>>◌}
use portfolio_manager.Application.{
  AuthenticationState, AuthenticationStatus, Bytes, authentication_state_post_init, is_ready,
  raise_connector_error,
}
use portfolio_manager.Base.{
  ConnectorFailureKind, List, Option, Result, Text, [], codes, err, if◌then◌else◌, is_empty,
  network_error, none, ok, some, timeout_exception, ℕ, ◌++◌, ◌∷◌,
}
use portfolio_manager.Connectors.Http.{
  KiteSession, Response, max_bytes, path_of, raise_for_status, read_bounded,
}
use portfolio_manager.Connectors.Kite.{KiteEndpoint, KitePayload, kite_payload_post_init}
use portfolio_manager.Connectors.Zerodha.{KiteTransport, or_text}
use portfolio_manager.Domain.Temporal.{Datetime, as_utc, not_after}

pub record Header : Type 0 where
  pub name : Text
  pub value : Text

-- `_now`, over the clock that the transport was given.
unfoldable pub now : {S : Type 0} → Exec S Datetime → Exec S Datetime
now clock = do value ← clock; lift (as_utc value "clock value")

-- The two `except` clauses around a request.
abbrev pub translate {ℓ} : {A : Type ℓ} → Result A → Result A
translate (err timeout_exception) =
    raise_connector_error ConnectorFailureKind.transient (codes "provider.timeout") none
translate (err network_error) =
    raise_connector_error ConnectorFailureKind.transient (codes "provider.network_error") none
translate r = r

abbrev pub catching {ℓ} : {S A : Type ℓ} → Exec S A → Exec S A
catching m s = let (r, s') = m s in (translate r, s')

module _ (unicode_decimal : ℕ → Option ℕ) {S : Type 0} (clock : Exec S Datetime)
    (stream : Text → List Header → Exec S Response) (session : KiteSession) where
  abbrev pub ready_state : Exec S AuthenticationState
  ready_state = lift (
      authentication_state_post_init (record {
        status = AuthenticationStatus.ready;
        reason_code = none;
        expires_at = session.expires_at;
      }))

  abbrev pub state_of : Option Text → Option Datetime → Exec S AuthenticationState
  state_of none expires_at = lift (
      authentication_state_post_init (record {
        status = AuthenticationStatus.action_required;
        reason_code = some (codes "session.missing");
        expires_at = none;
      }))
  state_of (some token) none = ready_state
  state_of (some token) (some expires_at) = do
    at ← now clock
    (if not_after expires_at at
        then lift (
            authentication_state_post_init (record {
              status = AuthenticationStatus.expired;
              reason_code = some (codes "session.expired");
              expires_at = some expires_at;
            }))
        else ready_state)

  unfoldable pub authentication_state : Exec S AuthenticationState
  authentication_state = state_of session.access_token session.expires_at

  abbrev pub headers_of : Option Text → Result (List Header)
  headers_of none =
      raise_connector_error ConnectorFailureKind.authentication (codes "session.missing") none
  headers_of (some token) = ok (
      record {
        name = codes "Authorization";
        value = codes "token " ++ (session.api_key ++ (codes ":" ++ token));
      }
      ∷ record { name = codes "X-Kite-Version"; value = codes "3" }
      ∷ record { name = codes "Accept"; value = codes "application/json, text/csv" }
      ∷ [])

  -- `_headers`
  unfoldable pub headers : Result (List Header)
  headers = headers_of session.access_token

  abbrev pub media_type_of : Option Text → Text
  media_type_of none = codes "application/octet-stream"
  media_type_of (some text) = text

  -- The body of the `try`: the response's bytes and media type.
  unfoldable pub request : KiteEndpoint → Exec S (Bytes × Text)
  request endpoint = do
    fields ← lift headers
    response ← stream (path_of endpoint) fields
    lift (raise_for_status unicode_decimal response)
    body ← lift (read_bounded unicode_decimal response (max_bytes endpoint))
    pure (body, media_type_of (response.header (codes "content-type")))

  abbrev pub payload_of : Bytes × Text → Result KitePayload
  payload_of (body, media_type) =
      if is_empty body
      then raise_connector_error ConnectorFailureKind.validation (codes "provider.empty_response")
          none
      else kite_payload_post_init
          (record { body = body; media_type = media_type; source_at = none })

  unfoldable pub fetch : KiteEndpoint → Exec S KitePayload
  fetch endpoint = do
    state ← authentication_state
    (if is_ready state.status
        then (do received ← catching (request endpoint); lift (payload_of received))
        else lift (
            raise_connector_error ConnectorFailureKind.authentication
              (or_text state.reason_code (codes "session.not_ready")) none))

  abbrev pub httpx_kite_transport : KiteTransport S
  httpx_kite_transport = record { authentication_state = authentication_state; fetch = fetch }
