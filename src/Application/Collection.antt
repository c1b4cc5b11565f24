-- ===== src/Application/Collection.antt =====
-- application/connectors.py: requests for a collection, their outcomes and results.
use portfolio_manager.Domain.Temporal.{TimeRange}
use portfolio_manager.Application.{Capability, Checkpoint, RawArtifact, capability_eq, require_key}
use portfolio_manager.Base.{
  Bool, List, Option, Result, Text, false, is_empty, length, ltb, map, not, not_trimmed, ok,
  raise_if, set_of, text_eq, too_long, true, value_error, ◌&&◌, ◌==◌, ◌>>◌,
}
use portfolio_manager.Domain.Activities.Record.{Activity}
use portfolio_manager.Domain.Identifiers.{BrokerAccountId, BrokerConnectionId, TenantId}
use portfolio_manager.Domain.Observations.{Observation}

pub record CollectionRequest : Type 0 where
  pub tenant_id : TenantId
  pub connection_id : BrokerConnectionId
  pub capabilities : List Capability
  pub idempotency_key : Text
  pub account_id : Option BrokerAccountId
  pub period : Option TimeRange
  pub checkpoint : Option Checkpoint

unfoldable pub collection_request_post_init : CollectionRequest → Result CollectionRequest
collection_request_post_init self = do
  raise_if (is_empty self.capabilities)
      (value_error "collection request requires at least one capability")
  raise_if (not_trimmed self.idempotency_key)
      (value_error "idempotency key must be non-empty and trimmed")
  raise_if (ltb 200 (length self.idempotency_key)) (too_long "idempotency key" 200)
  ok self

pub data OutcomeStatus : Type 0 where
  succeeded partial failed unsupported : OutcomeStatus

abbrev pub is_succeeded : OutcomeStatus → Bool
is_succeeded OutcomeStatus.succeeded = true
is_succeeded _ = false

pub record ConnectorIssue : Type 0 where
  pub code : Text

abbrev pub issue_eq : ConnectorIssue → ConnectorIssue → Bool
issue_eq a b = text_eq a.code b.code

unfoldable pub connector_issue_post_init : ConnectorIssue → Result ConnectorIssue
connector_issue_post_init self = do require_key self.code "connector issue code"; ok self

pub record CapabilityOutcome : Type 0 where
  pub capability : Capability
  pub status : OutcomeStatus
  pub issues : List ConnectorIssue

unfoldable pub capability_outcome_post_init : CapabilityOutcome → Result CapabilityOutcome
capability_outcome_post_init self = do
  raise_if (is_succeeded self.status && not (is_empty self.issues))
      (value_error "successful capability outcome cannot have issues")
  raise_if (not (is_succeeded self.status) && is_empty self.issues)
      (value_error "non-successful capability outcome requires an issue")
  raise_if (not (length (set_of issue_eq self.issues) == length self.issues))
      (value_error "capability issues must not be duplicated")
  ok self

pub record CollectionResult : Type 0 where
  pub artifacts : List RawArtifact
  pub outcomes : List CapabilityOutcome
  pub next_checkpoint : Option Checkpoint
  pub coverage : Option TimeRange

unfoldable pub collection_result_post_init : CollectionResult → Result CollectionResult
collection_result_post_init self = do
  raise_if (is_empty self.outcomes)
      (value_error "collection result requires at least one capability outcome")
  let capabilities = map (λ o. o.capability) self.outcomes
  raise_if (not (length (set_of capability_eq capabilities) == length capabilities))
      (value_error "collection result cannot repeat capability outcomes")
  ok self

-- `NormalizedRecord = Activity | Observation`
pub data NormalizedRecord : Type 0 where
  activity : Activity → NormalizedRecord
  observation : Observation → NormalizedRecord

pub record NormalizationResult : Type 0 where
  pub records : List NormalizedRecord
  pub issues : List ConnectorIssue
