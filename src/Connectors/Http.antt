-- ===== src/Connectors/Http.antt =====
-- connectors/zerodha_http.py: the session, and the classification of a response. httpx is not
-- modelled: a response is its status, its headers and what its stream gives, chunk by chunk.
pub mod Transport
pub mod Fetch
pub mod Collected
pub mod Contract
pub mod Status
pub mod Reading
use portfolio_manager.Application.{Bytes, raise_connector_error}
use portfolio_manager.Base.{
  ConnectorFailureKind, List, Option, Result, String, Text, [], authentication, check_some, codes,
  err, for_some, if◌then◌else◌, is_ascii, is_decimal, leb, length, ltb, ltb_ℤ, none, not,
  not_printable, ok, permanent, permission, raise_if, rate_limit, some, transient, validation,
  value_error, ℕ, ℤ, ◌&&◌, ◌*◌, ◌++◌, ◌+◌, ◌<>◌, ◌==◌, ◌>>=◌, ◌>>◌, ◌||◌, ◌∷◌, negsuc, pos,
}
use portfolio_manager.Connectors.Kite.{KiteEndpoint}
use portfolio_manager.Domain.Temporal.{Datetime, as_utc}
use portfolio_manager.Base.Integer.{int_of}

-- `KiteSession._validate_secret`
unfoldable pub validate_secret : Text → String → Result (Unit {0})
validate_secret value field_name =
    raise_if (not_printable value)
      (value_error ("Kite " <> field_name <> " must be a valid non-empty ASCII header value"))

pub record KiteSession : Type 0 where
  pub api_key : Text
  pub access_token : Option Text
  pub expires_at : Option Datetime

unfoldable pub kite_session_post_init : KiteSession → Result KiteSession
kite_session_post_init self = do
  validate_secret self.api_key "API key"
  check_some self.access_token (λ token. validate_secret token "access token")
  expires_at ← for_some self.expires_at (λ d. as_utc d "expires_at")
  ok (record self { expires_at = expires_at })

-- `header` is `response.headers.get`; an item of `stream` is a chunk, or the exception that ends it.
pub record Response : Type 0 where
  pub status_code : ℕ
  pub header : Text → Option Text
  pub stream : List (Result Bytes)

unfoldable pub max_bytes : KiteEndpoint → ℕ
max_bytes KiteEndpoint.instruments = 64 * 1024 * 1024
max_bytes _ = 16 * 1024 * 1024

-- `_PATHS[endpoint]`
unfoldable pub path_of : KiteEndpoint → Text
path_of KiteEndpoint.holdings = codes "/portfolio/holdings"
path_of KiteEndpoint.positions = codes "/portfolio/positions"
path_of KiteEndpoint.funds = codes "/user/margins"
path_of KiteEndpoint.orders = codes "/orders"
path_of KiteEndpoint.trades = codes "/trades"
path_of KiteEndpoint.instruments = codes "/instruments"

abbrev pub too_large {ℓ} : {A : Type ℓ} → Result A
too_large =
    raise_connector_error ConnectorFailureKind.permanent (codes "provider.response_too_large") none

-- The loop over the chunks; `size` counts the bytes that have come.
unfoldable pub read_chunks : ℕ → ℕ → Bytes → List (Result Bytes) → Result Bytes
read_chunks limit size chunks [] = ok chunks
read_chunks limit size chunks (err e ∷ rest) = err e
read_chunks limit size chunks (ok chunk ∷ rest) =
    let more = read_chunks limit (size + length chunk) (chunks ++ chunk) rest in
    if ltb limit (size + length chunk) then too_large else more

module _ (unicode_decimal : ℕ → Option ℕ) where
  abbrev check_length : ℕ → Option ℤ → Result (Unit {0})
  check_length limit none =
      raise_connector_error ConnectorFailureKind.validation
        (codes "provider.invalid_content_length") none
  check_length limit (some n) = if ltb_ℤ n (pos 0) || ltb_ℤ (pos limit) n then too_large else ok tt

  unfoldable pub read_bounded : Response → ℕ → Result Bytes
  unfolding read_chunks
  read_bounded response limit = do
    check_some (response.header (codes "content-length"))
        (λ text. check_length limit (int_of unicode_decimal text))
    read_chunks limit 0 [] response.stream

  abbrev retry_seconds : Option ℤ → Result (Option ℤ)
  retry_seconds none = err (value_error "invalid literal for int() with base 10")
  retry_seconds (some (negsuc n)) = ok none
  retry_seconds (some (pos seconds)) =
      if leb seconds 0 || ltb 86400 seconds then ok none else ok (some (pos (seconds * 1000000)))

  abbrev retry_text : Option Text → Result (Option ℤ)
  retry_text none = ok none
  retry_text (some value) =
      if not (is_ascii value) || not (is_decimal value)
      then ok none
      else retry_seconds (int_of unicode_decimal value)

  -- `_retry_after`, in microseconds.
  unfoldable pub retry_after : Response → Result (Option ℤ)
  retry_after response = retry_text (response.header (codes "retry-after"))

  unfoldable pub raise_for_status : Response → Result (Unit {0})
  unfolding retry_after
  raise_for_status response =
      let status = response.status_code in
      if leb 200 status && ltb status 300
      then ok tt
      else if status == 401 || status == 403
      then raise_connector_error ConnectorFailureKind.authentication (codes "session.expired") none
      else if status == 429
      then (do
        after ← retry_after response
        raise_connector_error ConnectorFailureKind.rate_limit (codes "provider.rate_limit") after)
      else if status == 400
      then raise_connector_error ConnectorFailureKind.validation (codes "provider.invalid_request")
          none
      else if status == 404 || status == 405 || status == 410
      then raise_connector_error ConnectorFailureKind.permanent
          (codes "provider.endpoint_unavailable") none
      else if leb 500 status && ltb status 600
      then raise_connector_error ConnectorFailureKind.transient (codes "provider.unavailable") none
      else raise_connector_error ConnectorFailureKind.permission (codes "provider.request_denied")
          none
