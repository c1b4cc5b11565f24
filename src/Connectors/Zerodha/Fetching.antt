-- ===== src/Connectors/Zerodha/Fetching.antt =====
-- connectors/zerodha.py: what the loop over the endpoints of one capability gains.
use portfolio_manager.Base.Exec.{Exec, continue, lift, pure}
use portfolio_manager.Application.Collection.{issue_eq, ConnectorIssue, connector_issue_post_init}
use mathlib.Core.Path.{ap₂, subst}
use portfolio_manager.Application.{Bytes, RawArtifact, raw_artifact_post_init, from_payload}
use portfolio_manager.Base.{
  List, Text, [], arith, codes, contains, false, is_empty, length, map, ok, refl, ◌++◌, ◌+◌, ◌<◌,
  ◌∷◌, ◌≡◌, ◌≤◌, ◌⊎◌, Result, err, if◌then◌else◌, inr, ◌∙◌, Bool, connector_error, inl, some, sym,
  true,
}
use portfolio_manager.Connectors.Kite.{KiteEndpoint, endpoint_value, KitePayload, connector_key}
use portfolio_manager.Connectors.Zerodha.{
  Fetched, noted, KiteTransport, fetch_artifact, fetch_endpoints, after_fetch, is_authentication,
}
use portfolio_manager.Domain.Temporal.{Datetime}
use mathlib.Core.List.{append_assoc, append-nil}

-- The schema version of an endpoint's artifact.
abbrev pub schema : KiteEndpoint → Text
schema endpoint = endpoint_value endpoint ++ codes ".v1"

-- The artifacts come from some of the endpoints, in their order.
pub data From : List KiteEndpoint → List RawArtifact → Type 0 where
  done : From [] []
  got :
      {e : KiteEndpoint} {es : List KiteEndpoint} {a : RawArtifact} {rest : List RawArtifact}
      → a.schema_version ≡ schema e
      → From es rest
      → From (e ∷ es) (a ∷ rest)
  missed :
      {e : KiteEndpoint} {es : List KiteEndpoint} {rest : List RawArtifact}
      → From es rest
      → From (e ∷ es) rest

From-nil : (es : List KiteEndpoint) → From es []
From-nil [] = done
From-nil (e ∷ es) = missed (From-nil es)

From-length-le :
    {es : List KiteEndpoint} {rest : List RawArtifact} → From es rest → length rest ≤ length es
From-length-le done = omega arith
From-length-le (got e f) = omega (arith, From-length-le f)
From-length-le (missed f) = omega (arith, From-length-le f)

-- As many artifacts as endpoints: one from each.
pub From-full :
    {es : List KiteEndpoint} {rest : List RawArtifact}
    → From es rest
    → length rest ≡ length es
    → map (λ a. a.schema_version) rest ≡ map schema es
From-full done h = refl
From-full (got e f) h = ap₂ ◌∷◌ e (From-full f (omega arith))
From-full (missed f) h = absurd (omega (arith, From-length-le f))

-- What a run of the loop adds to its variables: the artifacts of some endpoints. Either every
-- endpoint gave one and no issue was noted, or some endpoint gave none and there is an issue.
pub record Gained (es : List KiteEndpoint) (acc acc' : Fetched) : Type 0 where
  pub gained : List RawArtifact
  pub artifacts : acc'.artifacts ≡ acc.artifacts ++ gained
  pub successful : acc'.successful_endpoints ≡ acc.successful_endpoints + length gained
  pub origin : From es gained
  pub tally :
      ((acc'.issues ≡ acc.issues) × (length gained ≡ length es))
      ⊎ ((is_empty acc'.issues ≡ false) × (length gained < length es))

added-ne-nil :
    (i : ConnectorIssue) (is : List ConnectorIssue)
    → is_empty (if contains issue_eq i is then is else is ++ i ∷ []) ≡ false
unfolding contains
added-ne-nil i [] = refl
added-ne-nil i (j ∷ is) = ground arith

pub noted-issues : (i : ConnectorIssue) (acc : Fetched) → is_empty (noted i acc).issues ≡ false
noted-issues i acc = added-ne-nil i acc.issues

raw_artifact-schema :
    (sha256_hex : Bytes → Text) (a a' : RawArtifact)
    → raw_artifact_post_init sha256_hex a ≡ ok a'
    → a'.schema_version ≡ a.schema_version
unfolding raw_artifact_post_init
raw_artifact-schema sha256_hex a a' h = ground arith

module _ (sha256_hex : Bytes → Text) {S : Type 0} (transport : KiteTransport S)
    (retrieved_at : Datetime) where
  fetch_artifact-schema :
      (e : KiteEndpoint) (s : S) (a : RawArtifact)
      → (fetch_artifact sha256_hex transport retrieved_at e s).0 ≡ ok a
      → a.schema_version ≡ schema e
  unfolding fetch_artifact from_payload
  fetch_artifact-schema e s a h = let (r, s') = transport.fetch e s in go r s' h
    where
      go :
          (r : Result KitePayload) (s' : S)
          → (continue r
              (λ p. lift (
                from_payload sha256_hex p.body p.media_type retrieved_at connector_key
                  (schema e)
                  p.source_at))
              s').0
            ≡ ok a
          → a.schema_version ≡ schema e
      go (ok p) s' k = raw_artifact-schema sha256_hex _ a k
      go (err x) s' k = cc

  module _ {e : KiteEndpoint} {es : List KiteEndpoint} where
    Gained-got :
        {acc acc' : Fetched} (a : RawArtifact)
        → a.schema_version ≡ schema e
        → Gained es
            (record acc {
              artifacts = acc.artifacts ++ a ∷ [];
              successful_endpoints = acc.successful_endpoints + 1;
            })
            acc'
        → Gained (e ∷ es) acc acc'
    Gained-got {acc} a same g = record {
      gained = a ∷ g.gained;
      artifacts = g.artifacts ∙ append_assoc acc.artifacts (a ∷ []) g.gained;
      successful = omega (arith, g.successful);
      origin = got same g.origin;
      tally = ground (arith, g.tally);
    }

    Gained-missed :
        {acc acc' : Fetched} (i : ConnectorIssue)
        → Gained es (noted i acc) acc'
        → Gained (e ∷ es) acc acc'
    Gained-missed {acc} i g = record {
      gained = g.gained;
      artifacts = g.artifacts;
      successful = g.successful;
      origin = missed g.origin;
      tally =
          inr (ground (arith, g.tally, noted-issues i acc), omega (arith, From-length-le g.origin));
    }

    Gained-stopped :
        (acc : Fetched) (i : ConnectorIssue)
        → Gained (e ∷ es) acc (record (noted i acc) { authentication_issue = some i })
    Gained-stopped acc i = record {
      gained = [];
      artifacts = sym (append-nil acc.artifacts);
      successful = omega arith;
      origin = missed (From-nil es);
      tally = inr (noted-issues i acc, omega arith);
    }

    module _ {next : Fetched → Exec S Fetched}
        (ih : (acc acc' : Fetched) (s s' : S) → next acc s ≡ (ok acc', s') → Gained es acc acc')
        (acc acc' : Fetched) (s s' : S) where
      issue-Gained :
          (r : Result ConnectorIssue) (stop : Bool)
          → continue r
              (λ issue.
                if stop
                then pure (record (noted issue acc) { authentication_issue = some issue })
                else next (noted issue acc))
              s
            ≡ (ok acc', s')
          → Gained (e ∷ es) acc acc'
      issue-Gained (err x) stop h = cc
      issue-Gained (ok i) true h = subst (Gained (e ∷ es) acc) (ground arith) (Gained-stopped acc i)
      issue-Gained (ok i) false h = Gained-missed i (ih (noted i acc) acc' s s' h)

      after_fetch-Gained :
          (r : Result RawArtifact)
          → ((a : RawArtifact) → r ≡ ok a → a.schema_version ≡ schema e)
          → after_fetch sha256_hex transport next acc r s ≡ (ok acc', s')
          → Gained (e ∷ es) acc acc'
      unfolding after_fetch
      after_fetch-Gained (ok a) same h = Gained-got a (same a refl) (ih _ acc' s s' h)
      after_fetch-Gained (err (connector_error kind reason_code retry_after)) same h =
          issue-Gained (connector_issue_post_init (record { code = reason_code }))
            (is_authentication kind) h
      after_fetch-Gained (err _) same h = cc

  -- A run that returns gains artifacts as `Gained` says.
  pub fetch_endpoints-Gained :
      (es : List KiteEndpoint) (acc acc' : Fetched) (s s' : S)
      → fetch_endpoints sha256_hex transport retrieved_at es acc s ≡ (ok acc', s')
      → Gained es acc acc'
  unfolding fetch_endpoints
  fetch_endpoints-Gained [] acc acc' s s' h =
      let same : acc ≡ acc' = ground arith in
      subst (Gained [] acc) same (record {
        gained = [];
        artifacts = sym (append-nil acc.artifacts);
        successful = omega arith;
        origin = done;
        tally = inl (refl, refl);
      })
  fetch_endpoints-Gained (e ∷ es) acc acc' s s' h =
      after_fetch-Gained (fetch_endpoints-Gained es) acc acc' _ s' _
        (λ a. fetch_artifact-schema e s a) h
