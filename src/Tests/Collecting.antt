-- ===== src/Tests/Collecting.antt =====
-- connectors/zerodha.py: collections over a small broker. The world counts the requests.
use mathlib.Core.List.Perm
use portfolio_manager.Application.{require_key}
use portfolio_manager.Base.Exec.{Exec, Returns}
use portfolio_manager.Application.{
  AuthenticationState, AuthenticationStatus, Bytes, Capability, capability_eq, RawArtifact,
  capability_value, from_payload, raw_artifact_post_init,
}
use portfolio_manager.Application.Collection.{
  CollectionRequest, CollectionResult, OutcomeStatus, CapabilityOutcome, ConnectorIssue,
  capability_outcome_post_init, collection_result_post_init, connector_issue_post_init,
}
use portfolio_manager.Base.{
  ConnectorFailureKind, Result, Text, [], all, codes, connector_error, contains, distinct, err,
  is_space, lstrip, matches_digest, none, ok, refl, rstrip, strip, true, ℕ, ◌+◌, ◌∷◌, ◌≡◌, String,
  map, matches_key, set_of, some, text_lt, ◌++◌,
}
use portfolio_manager.Connectors.Kite.{
  KiteEndpoint, KitePayload, connector_key, endpoint_value, endpoints_of, insert_sorted,
  sorted_capabilities,
}
use portfolio_manager.Connectors.Zerodha.{
  KiteTransport, collect, Collected, after_fetch, collect_capabilities, collect_endpoints,
  collect_ready, fetch_artifact, fetch_endpoints, status_of,
}
use portfolio_manager.Connectors.Zerodha.Returns.{Answers, IsAware, collect-Returns}
use portfolio_manager.Connectors.Zerodha.Total.{IsGoodFetch}
use portfolio_manager.Domain.Temporal.{Datetime, as_utc, utc, astimezone_utc}
use portfolio_manager.Connectors.Zerodha.Collection.{collect-Explained, collect-perm}
use portfolio_manager.Connectors.Zerodha.Outcomes.{Explained}
use portfolio_manager.Connectors.Zerodha.Stopped.{collect_capabilities-stopped, skipped}

-- Stands for the digest of every payload.
abbrev digest : Bytes → Text
digest b = codes "0123456789abcdef0123456789abcdef0123456789abcdef0123456789abcdef"

digest-matches : (b : Bytes) → matches_digest (digest b) ≡ true
unfolding all
digest-matches b = refl

abbrev noon : Datetime
noon = utc 63000000000000000

abbrev clock : Exec ℕ Datetime
clock n = (ok noon, n)

clock-ticks : (n : ℕ) → Returns IsAware (clock n)
unfolding as_utc
clock-ticks n = record { value = noon; world = n; ends = refl; good = (noon, refl) }

abbrev body_of : KiteEndpoint → Bytes
body_of e = codes "{}"

-- Holdings and orders are there, positions fail, and the session is lost at the trades.
abbrev answer : KiteEndpoint → Result KitePayload
answer KiteEndpoint.positions =
    err (connector_error ConnectorFailureKind.transient (codes "provider.timeout") none)
answer KiteEndpoint.trades =
    err (connector_error ConnectorFailureKind.authentication (codes "session.expired") none)
answer e =
    ok (record { body = codes "{}"; media_type = codes "application/json"; source_at = none })

abbrev ready : AuthenticationState
ready = record { status = AuthenticationStatus.ready; reason_code = none; expires_at = none }

abbrev broker : KiteTransport ℕ
broker = record { authentication_state = λ n. (ok ready, n); fetch = λ e n. (answer e, n + 1) }

answer-good : (e : KiteEndpoint) → IsGoodFetch (answer e)
unfolding all strip lstrip rstrip is_space
answer-good KiteEndpoint.positions = refl
answer-good KiteEndpoint.trades = refl
answer-good _ = (refl, refl, tt)

abbrev request : CollectionRequest
request = record {
  tenant_id = record { value = 1 };
  connection_id = record { value = 2 };
  capabilities = Capability.positions ∷ Capability.activities ∷ Capability.holdings ∷ [];
  idempotency_key = codes "first";
  account_id = none;
  period = none;
  checkpoint = none;
}

request-distinct : distinct capability_eq request.capabilities ≡ true
unfolding distinct contains capability_eq
request-distinct = refl

collect-Returns_example : Returns (Answers request) (collect digest broker clock request 0)
collect-Returns_example =
    collect-Returns digest digest-matches broker (λ e n. answer-good e) clock clock-ticks request
      refl request-distinct ready 0 0 refl refl

-- The artifact of a fetched payload.
abbrev artifact : String → RawArtifact
artifact version = record {
  payload = codes "{}";
  media_type = codes "application/json";
  retrieved_at = noon;
  connector_key = connector_key;
  schema_version = codes version;
  content_digest = digest (codes "{}");
  source_at = none;
}

abbrev lost : ConnectorIssue
lost = record { code = codes "session.expired" }

abbrev failed_outcome : Capability → CapabilityOutcome
failed_outcome c = record { capability = c; status = OutcomeStatus.failed; issues = lost ∷ [] }

abbrev activities_outcome : CapabilityOutcome
activities_outcome = record {
  capability = Capability.activities;
  status = OutcomeStatus.partial;
  issues = lost ∷ [];
}

-- The session is lost at the second endpoint of the first capability: two requests are made.
abbrev collected : CollectionResult
collected = record {
  artifacts = artifact "orders.v1" ∷ [];
  outcomes =
      activities_outcome
      ∷ failed_outcome Capability.holdings
      ∷ failed_outcome Capability.positions
      ∷ [];
  next_checkpoint = none;
  coverage = none;
}

collect-collected : collect digest broker clock request 0 ≡ (ok collected, 2)
unfolding collect collect_ready collect_capabilities collect_endpoints fetch_endpoints
    fetch_artifact after_fetch status_of sorted_capabilities insert_sorted text_lt capability_value
    endpoints_of endpoint_value capability_outcome_post_init collection_result_post_init
    connector_issue_post_init require_key raw_artifact_post_init from_payload as_utc astimezone_utc
    set_of contains all strip lstrip rstrip is_space capability_eq
collect-collected = refl

collect-Explained_example :
    (map (λ o. o.capability) collected.outcomes ≡ sorted_capabilities request.capabilities)
    × Explained collected.outcomes collected.artifacts
collect-Explained_example =
    collect-Explained digest broker clock request collected 0 2 collect-collected

collect-perm_example :
    collect digest broker clock
      (record request {
        capabilities = Capability.activities ∷ Capability.positions ∷ Capability.holdings ∷ [];
      })
      0
    ≡ collect digest broker clock request 0
collect-perm_example =
    collect-perm digest broker clock request
      (Capability.activities ∷ Capability.positions ∷ Capability.holdings ∷ []) 0
      (Perm.swap Capability.activities Capability.positions (Capability.holdings ∷ []))

abbrev so_far : Collected
so_far = record {
  artifacts = artifact "orders.v1" ∷ [];
  outcomes = activities_outcome ∷ [];
  authentication_issue = some lost;
}

collect_capabilities-stopped_example :
    collect_capabilities digest broker noon (Capability.holdings ∷ Capability.prices ∷ []) so_far 2
    ≡ (
      ok (record so_far {
        outcomes =
            so_far.outcomes ++ map (skipped lost) (Capability.holdings ∷ Capability.prices ∷ []);
      }),
      2,
    )
collect_capabilities-stopped_example =
    collect_capabilities-stopped digest broker noon lost
      (Capability.holdings ∷ Capability.prices ∷ []) so_far 2 refl

abbrev revoked : AuthenticationState
revoked = record {
  status = AuthenticationStatus.revoked;
  reason_code = some (codes "session.revoked");
  expires_at = none;
}

abbrev closed : KiteTransport ℕ
closed = record { authentication_state = λ n. (ok revoked, n); fetch = λ e n. (answer e, n + 1) }

reason-matches : matches_key (codes "session.revoked") ≡ true
unfolding all
reason-matches = refl
