-- ===== src/Connectors/Zerodha.antt =====
-- connectors/zerodha.py: the adapter between the connector port and a Kite transport. The transport
-- and the clock act on a world of type `S`; their exceptions are results, and what was done to the
-- world before an exception stays done.
pub mod Fetching
pub mod Outcomes
pub mod Returns
pub mod Total
pub mod Sorting
pub mod Stopped
pub mod Collection
use portfolio_manager.Base.Exec.{Exec, pure, lift, ◌>>=◌, ◌>>◌}
use portfolio_manager.Application.Collection.{
  issue_eq, CapabilityOutcome, CollectionRequest, CollectionResult, ConnectorIssue, OutcomeStatus,
  capability_outcome_post_init, collection_result_post_init, connector_issue_post_init,
}
use portfolio_manager.Application.{
  AuthenticationState, Bytes, Capability, RawArtifact, from_payload, is_ready,
  raise_connector_error,
}
use portfolio_manager.Base.{
  Bool, ConnectorFailureKind, List, Option, Result, Text, [], authentication, codes,
  connector_error, contains, err, false, if◌then◌else◌, none, ok, some, true, unsupported, ℕ, ◌++◌,
  ◌+◌, ◌==◌, ◌∷◌,
}
use portfolio_manager.Connectors.Kite.{
  KiteEndpoint, KitePayload, connector_key, endpoint_value, endpoints_of, sorted_capabilities,
}
use portfolio_manager.Domain.Temporal.{Datetime}

-- The protocol `KiteTransport`.
pub record KiteTransport (S : Type 0) : Type 0 where
  pub authentication_state : Exec S AuthenticationState
  pub fetch : KiteEndpoint → Exec S KitePayload

-- The variables of the loop over the endpoints of one capability.
pub record Fetched : Type 0 where
  pub artifacts : List RawArtifact
  pub successful_endpoints : ℕ
  pub issues : List ConnectorIssue
  pub authentication_issue : Option ConnectorIssue

-- The variables of the loop over the capabilities.
pub record Collected : Type 0 where
  pub artifacts : List RawArtifact
  pub outcomes : List CapabilityOutcome
  pub authentication_issue : Option ConnectorIssue

abbrev pub is_authentication : ConnectorFailureKind → Bool
is_authentication ConnectorFailureKind.authentication = true
is_authentication _ = false

-- `if issue not in issues: issues.append(issue)`
abbrev pub noted : ConnectorIssue → Fetched → Fetched
noted issue acc = record acc {
  issues = if contains issue_eq issue acc.issues then acc.issues else acc.issues ++ issue ∷ [];
}

-- `text or default`
abbrev pub or_text : Option Text → Text → Text
or_text none default = default
or_text (some []) default = default
or_text (some (c ∷ s)) default = c ∷ s

unfoldable pub status_of : List ConnectorIssue → ℕ → OutcomeStatus
status_of [] successful = OutcomeStatus.succeeded
status_of (i ∷ is) successful =
    if successful == 0 then OutcomeStatus.failed else OutcomeStatus.partial

module _ {S : Type 0} where
  -- `outcomes.append(CapabilityOutcome(capability, status, issues))`
  abbrev pub append_outcome :
      Capability → OutcomeStatus → List ConnectorIssue → Collected → Exec S Collected
  append_outcome capability status issues acc = do
    outcome ← lift (
        capability_outcome_post_init
          (record { capability = capability; status = status; issues = issues }))
    pure (record acc { outcomes = acc.outcomes ++ outcome ∷ [] })

module _ (sha256_hex : Bytes → Text) {S : Type 0} (transport : KiteTransport S) where
  -- The body of the `try`.
  unfoldable pub fetch_artifact : Datetime → KiteEndpoint → Exec S RawArtifact
  fetch_artifact retrieved_at endpoint = do
    payload ← transport.fetch endpoint
    lift (
        from_payload sha256_hex payload.body payload.media_type retrieved_at connector_key
          (endpoint_value endpoint ++ codes ".v1") payload.source_at)

  -- The end of the `try`, and its handler; `next` goes on with the next endpoint.
  unfoldable pub after_fetch :
      (Fetched → Exec S Fetched) → Fetched → Result RawArtifact → Exec S Fetched
  after_fetch next acc (ok artifact) = next (record acc {
    artifacts = acc.artifacts ++ artifact ∷ [];
    successful_endpoints = acc.successful_endpoints + 1;
  })
  after_fetch next acc (err (connector_error kind reason_code retry_after)) = do
    issue ← lift (connector_issue_post_init (record { code = reason_code }))
    (if is_authentication kind
        then pure (record (noted issue acc) { authentication_issue = some issue })
        else next (noted issue acc))
  after_fetch next acc (err e) = lift (err e)

  unfoldable pub fetch_endpoints : Datetime → List KiteEndpoint → Fetched → Exec S Fetched
  unfolding after_fetch
  fetch_endpoints retrieved_at [] acc s = pure acc s
  fetch_endpoints retrieved_at (endpoint ∷ endpoints) acc s =
      let (r, s') = fetch_artifact retrieved_at endpoint s in
      after_fetch (fetch_endpoints retrieved_at endpoints) acc r s'

  -- The body of the loop over the capabilities.
  unfoldable pub collect_endpoints :
      Datetime
      → Capability
      → Option (List KiteEndpoint)
      → Option ConnectorIssue
      → Collected
      → Exec S Collected
  collect_endpoints retrieved_at capability none authentication_issue acc = do
    issue ← lift (connector_issue_post_init (record { code = codes "capability.unsupported" }))
    append_outcome capability OutcomeStatus.unsupported (issue ∷ []) acc
  collect_endpoints retrieved_at capability (some endpoints) (some issue) acc =
      append_outcome capability OutcomeStatus.failed (issue ∷ []) acc
  collect_endpoints retrieved_at capability (some endpoints) none acc = do
    fetched ← fetch_endpoints retrieved_at endpoints (record {
      artifacts = acc.artifacts;
      successful_endpoints = 0;
      issues = [];
      authentication_issue = none;
    })
    append_outcome capability (status_of fetched.issues fetched.successful_endpoints) fetched.issues
        (record {
          artifacts = fetched.artifacts;
          outcomes = acc.outcomes;
          authentication_issue = fetched.authentication_issue;
        })

  unfoldable pub collect_capabilities : Datetime → List Capability → Collected → Exec S Collected
  collect_capabilities retrieved_at [] acc = pure acc
  collect_capabilities retrieved_at (capability ∷ capabilities) acc = do
    acc' ←
        collect_endpoints retrieved_at capability (endpoints_of capability) acc.authentication_issue
          acc
    collect_capabilities retrieved_at capabilities acc'

module _ (sha256_hex : Bytes → Text) {S : Type 0} (transport : KiteTransport S)
    (clock : Exec S Datetime) where
  -- `ZerodhaConnector.collect`, once the authentication is known.
  unfoldable pub collect_ready : CollectionRequest → Exec S CollectionResult
  collect_ready request = do
    retrieved_at ← clock
    collected ←
        collect_capabilities sha256_hex transport retrieved_at
          (sorted_capabilities request.capabilities)
          (record { artifacts = []; outcomes = []; authentication_issue = none })
    lift (
        collection_result_post_init (record {
          artifacts = collected.artifacts;
          outcomes = collected.outcomes;
          next_checkpoint = none;
          coverage = none;
        }))

  unfoldable pub collect : CollectionRequest → Exec S CollectionResult
  collect request = do
    state ← transport.authentication_state
    (if is_ready state.status
        then collect_ready request
        else lift (
            raise_connector_error ConnectorFailureKind.authentication
              (or_text state.reason_code (codes "session.not_ready")) none))
