-- ===== src/Connectors/Zerodha/Total.antt =====
-- connectors/zerodha.py: the steps of a collection over a transport with a protocol.
use portfolio_manager.Base.Exec.{Exec, continue, lift, Returns, Returns-bind}
use portfolio_manager.Application.{
  require_key, Bytes, RawArtifact, from_payload, raw_artifact_post_init, Capability,
}
use portfolio_manager.Application.Collection.{
  issue_eq, ConnectorIssue, connector_issue_post_init, CapabilityOutcome, OutcomeStatus,
  capability_outcome_post_init, is_succeeded,
}
use portfolio_manager.Base.{
  Option, Result, Text, all, connector_error, err, false, is_empty, matches_digest, matches_key,
  none, not_trimmed, ok, refl, some, true, ◌≡◌, arith, ConnectorFailureKind, List, [], distinct,
  distinct-snoc, ◌∷◌, codes, ℕ, ◌++◌,
}
use portfolio_manager.Base.Texts.Strip.{text_eq_refl}
use portfolio_manager.Connectors.Kite.{
  KiteEndpoint, KitePayload, connector_key, endpoint_value, endpoints_of,
}
use portfolio_manager.Connectors.Zerodha.Fetching.{schema}
use portfolio_manager.Domain.Temporal.{Datetime, as_utc}
use portfolio_manager.Application.Laws.{issue_eq_iff, capability_outcome_iff}
use portfolio_manager.Connectors.Zerodha.{
  Fetched, KiteTransport, after_fetch, fetch_artifact, fetch_endpoints, noted, Collected,
  append_outcome, collect_capabilities, collect_endpoints, status_of,
}
use portfolio_manager.Connectors.Zerodha.Stopped.{unsupported-ok}

abbrev pub GoodSource : Option Datetime → Type 0
GoodSource none = Unit
GoodSource (some d) = (u : Datetime) × (as_utc d "source_at" ≡ ok u)

-- What a transport's `fetch` may end in: a payload that its own constructor accepts, with an aware
-- source time or none, or a `ConnectorError` with a stable reason code.
abbrev pub IsGoodFetch : Result KitePayload → Type 0
IsGoodFetch (ok p) =
    (is_empty p.body ≡ false) × (not_trimmed p.media_type ≡ false) × GoodSource p.source_at
IsGoodFetch (err (connector_error kind reason_code retry_after)) = matches_key reason_code ≡ true
IsGoodFetch (err _) = ⊥

abbrev IsGoodArtifact : Result RawArtifact → Type 0
IsGoodArtifact (ok a) = Unit
IsGoodArtifact (err (connector_error kind reason_code retry_after)) = matches_key reason_code ≡ true
IsGoodArtifact (err _) = ⊥

schema-matches_key : (e : KiteEndpoint) → matches_key (schema e) ≡ true
unfolding endpoint_value all
schema-matches_key KiteEndpoint.holdings = refl
schema-matches_key _ = refl

connector_key-matches_key : matches_key connector_key ≡ true
unfolding all
connector_key-matches_key = refl

module _ (sha256_hex : Bytes → Text)
    (hexdigest : (b : Bytes) → matches_digest (sha256_hex b) ≡ true) where
  from_payload-good :
      (p : KitePayload) (at u : Datetime) (e : KiteEndpoint)
      → IsGoodFetch (ok p)
      → as_utc at "retrieved_at" ≡ ok u
      → IsGoodArtifact
          (from_payload sha256_hex p.body p.media_type at connector_key (schema e) p.source_at)
  unfolding from_payload raw_artifact_post_init require_key
  from_payload-good p at u e (some_body, trimmed, source) aware =
      rw
        (
          some_body,
          trimmed,
          connector_key-matches_key,
          schema-matches_key e,
          hexdigest,
          text_eq_refl,
          aware,
        )
        (ground (arith, source))

noted-distinct :
    (i : ConnectorIssue) (acc : Fetched)
    → distinct issue_eq acc.issues ≡ true
    → distinct issue_eq (noted i acc).issues ≡ true
noted-distinct i acc h = ground (arith, distinct-snoc issue_eq issue_eq_iff acc.issues i)

abbrev IsDistinct : Fetched → Type 0
IsDistinct acc = distinct issue_eq acc.issues ≡ true

abbrev pub Anything : Collected → Type 0
Anything acc = Unit

append_outcome-Returns :
    {S : Type 0} (c : Capability) (status : OutcomeStatus) (issues : List ConnectorIssue)
    (acc : Collected) (s : S)
    → is_succeeded status ≡ is_empty issues
    → distinct issue_eq issues ≡ true
    → Returns Anything (append_outcome c status issues acc s)
append_outcome-Returns c status issues acc s shape d =
    let o : CapabilityOutcome = record { capability = c; status = status; issues = issues } in
    let made : capability_outcome_post_init o ≡ ok o = (capability_outcome_iff o).1 (shape, d) in
    rw made (record {
      value = record acc { outcomes = acc.outcomes ++ o ∷ [] };
      world = s;
      ends = refl;
      good = tt;
    })

status_of-succeeded :
    (issues : List ConnectorIssue) (n : ℕ) → is_succeeded (status_of issues n) ≡ is_empty issues
unfolding status_of
status_of-succeeded [] n = refl
status_of-succeeded (i ∷ is) n = ground arith

module _ (sha256_hex : Bytes → Text)
    (hexdigest : (b : Bytes) → matches_digest (sha256_hex b) ≡ true) {S : Type 0}
    (transport : KiteTransport S)
    (fetches : (e : KiteEndpoint) (s : S) → IsGoodFetch (transport.fetch e s).0) (at u : Datetime)
    (aware : as_utc at "retrieved_at" ≡ ok u) where
  fetch_artifact-good :
      (e : KiteEndpoint) (s : S) → IsGoodArtifact (fetch_artifact sha256_hex transport at e s).0
  unfolding fetch_artifact
  fetch_artifact-good e s = go (transport.fetch e s).0 (transport.fetch e s).1 (fetches e s)
    where
      go :
          (r : Result KitePayload) (s' : S)
          → IsGoodFetch r
          → IsGoodArtifact
              (continue r
                (λ p. lift (
                  from_payload sha256_hex p.body p.media_type at connector_key
                    (schema e)
                    p.source_at))
                s').0
      go (ok p) s' g = from_payload-good sha256_hex hexdigest p at u e g aware
      go (err (connector_error kind reason_code retry_after)) s' g = g
      go (err _) s' g = absurd g

  after_fetch-Returns :
      (next : Fetched → Exec S Fetched)
      → ((acc : Fetched) (s : S) → IsDistinct acc → Returns IsDistinct (next acc s))
      → (acc : Fetched) (r : Result RawArtifact) (s : S) → IsDistinct acc
      → IsGoodArtifact r
      → Returns IsDistinct (after_fetch sha256_hex transport next acc r s)
  unfolding after_fetch connector_issue_post_init require_key
  after_fetch-Returns next ih acc (ok a) s d g = ih _ s d
  after_fetch-Returns next ih acc
        (err (connector_error ConnectorFailureKind.authentication reason_code retry_after)) s d g =
      let issue : ConnectorIssue = record { code = reason_code } in
      rw g (record {
        value = record (noted issue acc) { authentication_issue = some issue };
        world = s;
        ends = refl;
        good = noted-distinct issue acc d;
      })
  after_fetch-Returns next ih acc (err (connector_error _ reason_code retry_after)) s d g =
      rw g (ih _ s (noted-distinct (record { code = reason_code }) acc d))
  after_fetch-Returns next ih acc (err _) s d g = absurd g

  fetch_endpoints-Returns :
      (es : List KiteEndpoint) (acc : Fetched) (s : S)
      → IsDistinct acc
      → Returns IsDistinct (fetch_endpoints sha256_hex transport at es acc s)
  unfolding fetch_endpoints
  fetch_endpoints-Returns [] acc s d = record { value = acc; world = s; ends = refl; good = d }
  fetch_endpoints-Returns (e ∷ es) acc s d =
      after_fetch-Returns (fetch_endpoints sha256_hex transport at es) (fetch_endpoints-Returns es)
        acc (fetch_artifact sha256_hex transport at e s).0
        (fetch_artifact sha256_hex transport at e s).1 d (fetch_artifact-good e s)

  collect_endpoints-Returns :
      (c : Capability) (o : Option (List KiteEndpoint)) (issue : Option ConnectorIssue)
      (acc : Collected) (s : S)
      → Returns Anything (collect_endpoints sha256_hex transport at c o issue acc s)
  unfolding collect_endpoints distinct
  collect_endpoints-Returns c none issue acc s = rw unsupported-ok (
      append_outcome-Returns c OutcomeStatus.unsupported
        (record { code = codes "capability.unsupported" } ∷ []) acc s refl refl)
  collect_endpoints-Returns c (some es) (some i) acc s =
      append_outcome-Returns c OutcomeStatus.failed (i ∷ []) acc s refl refl
  collect_endpoints-Returns c (some es) none acc s =
      Returns-bind (fetch_endpoints sha256_hex transport at es _) _ s
        (fetch_endpoints-Returns es _ s refl)
        (λ f s1 d.
          append_outcome-Returns c (status_of f.issues f.successful_endpoints) f.issues _ s1
            (status_of-succeeded f.issues f.successful_endpoints) d)

  pub collect_capabilities-Returns :
      (cs : List Capability) (acc : Collected) (s : S)
      → Returns Anything (collect_capabilities sha256_hex transport at cs acc s)
  unfolding collect_capabilities
  collect_capabilities-Returns [] acc s = record { value = acc; world = s; ends = refl; good = tt }
  collect_capabilities-Returns (c ∷ cs) acc s =
      Returns-bind
        (collect_endpoints sha256_hex transport at c (endpoints_of c) acc.authentication_issue acc)
        _ s (collect_endpoints-Returns c (endpoints_of c) acc.authentication_issue acc s)
        (λ acc1 s1 _. collect_capabilities-Returns cs acc1 s1)
