-- ===== src/Application.antt =====
-- packages/application/src/portfolio_manager/application/connectors.py: the broker-neutral port for
-- connectors. As in Domain, `X(…)` is the record and then `x_post_init`. SHA-256 is hashlib's: it is
-- the parameter `sha256_hex`, which gives the hexadecimal digest.
pub mod Collection
pub mod Laws
pub use portfolio_manager.Base.{Bytes}
use portfolio_manager.Base.{
  Bool, ConnectorFailureKind, List, Option, Result, String, Text, check_some, codes,
  connector_error, err, false, for_some, if◌then◌else◌, is_empty, is_none, is_some, leb_ℤ,
  matches_digest, matches_key, not, not_trimmed, ok, pos, raise_if, text_eq, true, value_error, ℕ,
  ℤ, ◌<>◌, ◌>>=◌, ◌>>◌,
}
use portfolio_manager.Domain.Temporal.{Datetime, as_utc}

pub data Capability : Type 0 where
  accounts holdings positions balances activities instruments prices tax_lots : Capability

unfoldable pub require_key : Text → String → Result (Unit {0})
require_key value field_name =
    raise_if (not (matches_key value))
      (value_error (field_name <> " must be a stable lowercase identifier"))

unfoldable pub capability_eq : Capability → Capability → Bool
capability_eq Capability.accounts Capability.accounts = true
capability_eq Capability.holdings Capability.holdings = true
capability_eq Capability.positions Capability.positions = true
capability_eq Capability.balances Capability.balances = true
capability_eq Capability.activities Capability.activities = true
capability_eq Capability.instruments Capability.instruments = true
capability_eq Capability.prices Capability.prices = true
capability_eq Capability.tax_lots Capability.tax_lots = true
capability_eq _ _ = false

-- `item.value`
unfoldable pub capability_value : Capability → Text
capability_value Capability.accounts = codes "accounts"
capability_value Capability.holdings = codes "holdings"
capability_value Capability.positions = codes "positions"
capability_value Capability.balances = codes "balances"
capability_value Capability.activities = codes "activities"
capability_value Capability.instruments = codes "instruments"
capability_value Capability.prices = codes "prices"
capability_value Capability.tax_lots = codes "tax_lots"

-- A `frozenset` is the list of its items in the order of its iteration.
pub record ConnectorDescriptor : Type 0 where
  pub key : Text
  pub schema_version : Text
  pub capabilities : List Capability

unfoldable pub connector_descriptor_post_init : ConnectorDescriptor → Result ConnectorDescriptor
connector_descriptor_post_init self = do
  require_key self.key "connector key"
  require_key self.schema_version "connector schema version"
  raise_if (is_empty self.capabilities) (value_error "connector requires at least one capability")
  ok self

pub data AuthenticationStatus : Type 0 where
  ready action_required expired revoked unavailable : AuthenticationStatus

abbrev pub is_ready : AuthenticationStatus → Bool
is_ready AuthenticationStatus.ready = true
is_ready _ = false

pub record AuthenticationState : Type 0 where
  pub status : AuthenticationStatus
  pub reason_code : Option Text
  pub expires_at : Option Datetime

unfoldable pub authentication_state_post_init : AuthenticationState → Result AuthenticationState
authentication_state_post_init self = do
  (if is_ready self.status
      then raise_if (is_some self.reason_code)
          (value_error "ready authentication cannot have a failure reason")
      else raise_if (is_none self.reason_code)
          (value_error "non-ready authentication requires a safe reason code"))
  check_some self.reason_code (λ code. require_key code "authentication reason code")
  expires_at ← for_some self.expires_at (λ d. as_utc d "expires_at")
  ok (record self { expires_at = expires_at })

-- The constructor of `ConnectorError`, and the `raise` of what it makes. `retry_after` is in
-- microseconds.
unfoldable pub raise_connector_error {ℓ} :
    {A : Type ℓ} → ConnectorFailureKind → Text → Option ℤ → Result A
unfolding require_key
raise_connector_error kind reason_code retry_after = do
  require_key reason_code "connector error reason code"
  check_some retry_after
      (λ r. raise_if (leb_ℤ r (pos 0)) (value_error "retry_after must be positive"))
  err (connector_error kind reason_code retry_after)

pub record Checkpoint : Type 0 where
  pub version : Text
  pub value : Bytes

unfoldable pub checkpoint_post_init : Checkpoint → Result Checkpoint
checkpoint_post_init self = do
  require_key self.version "checkpoint version"
  raise_if (is_empty self.value) (value_error "checkpoint value cannot be empty")
  ok self

pub record RawArtifact : Type 0 where
  pub payload : Bytes
  pub media_type : Text
  pub retrieved_at : Datetime
  pub connector_key : Text
  pub schema_version : Text
  pub content_digest : Text
  pub source_at : Option Datetime

module _ (sha256_hex : Bytes → Text) where
  unfoldable pub raw_artifact_post_init : RawArtifact → Result RawArtifact
  raw_artifact_post_init self = do
    raise_if (is_empty self.payload) (value_error "raw artifact payload cannot be empty")
    raise_if (not_trimmed self.media_type) (value_error "media type must be non-empty and trimmed")
    require_key self.connector_key "connector key"
    require_key self.schema_version "connector schema version"
    raise_if (not (matches_digest self.content_digest))
        (value_error "content digest must be a lowercase SHA-256 digest")
    raise_if (not (text_eq self.content_digest (sha256_hex self.payload)))
        (value_error "content digest does not match raw artifact payload")
    retrieved_at ← as_utc self.retrieved_at "retrieved_at"
    source_at ← for_some self.source_at (λ d. as_utc d "source_at")
    ok (record self { retrieved_at = retrieved_at; source_at = source_at })

  unfoldable pub from_payload :
      Bytes → Text → Datetime → Text → Text → Option Datetime → Result RawArtifact
  from_payload payload media_type retrieved_at connector_key schema_version source_at =
      raw_artifact_post_init (record {
        payload = payload;
        media_type = media_type;
        retrieved_at = retrieved_at;
        connector_key = connector_key;
        schema_version = schema_version;
        content_digest = sha256_hex payload;
        source_at = source_at;
      })
