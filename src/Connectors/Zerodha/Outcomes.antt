-- ===== src/Connectors/Zerodha/Outcomes.antt =====
-- connectors/zerodha.py: what the outcomes of a collection say of its artifacts.
use portfolio_manager.Base.Exec.{lift, >>=-returns}
use portfolio_manager.Application.Collection.{
  CapabilityOutcome, ConnectorIssue, OutcomeStatus, capability_outcome_post_init,
  connector_issue_post_init,
}
use portfolio_manager.Application.{Capability, RawArtifact, Bytes}
use portfolio_manager.Base.{
  List, Option, [], arith, codes, false, is_empty, length, map, none, ok, some, ◌++◌, ◌<◌, ◌∷◌, ◌≡◌,
  Result, refl, Text, inl, inr, suc, sym, zero, ℕ, ◌⊎◌, ap, ◌==◌,
}
use portfolio_manager.Connectors.Kite.{KiteEndpoint, endpoints_of}
use portfolio_manager.Connectors.Zerodha.{
  Collected, append_outcome, KiteTransport, collect_endpoints, status_of, Fetched,
  collect_capabilities, fetch_endpoints,
}
use portfolio_manager.Connectors.Zerodha.Fetching.{From, schema, From-full, fetch_endpoints-Gained}
use mathlib.Core.List.{append-nil, append_assoc}
use portfolio_manager.Domain.Temporal.{Datetime}
use mathlib.Core.Path.{ap₂, subst}

abbrev pub ExplainsAs :
    OutcomeStatus → Option (List KiteEndpoint) → List ConnectorIssue → List RawArtifact → Type 0
ExplainsAs OutcomeStatus.succeeded (some es) issues rest =
    (map (λ a. a.schema_version) rest ≡ map schema es) × (issues ≡ [])
ExplainsAs OutcomeStatus.partial (some es) issues rest =
    From es rest × (0 < length rest) × (length rest < length es) × (is_empty issues ≡ false)
ExplainsAs OutcomeStatus.failed (some es) issues rest = (rest ≡ []) × (is_empty issues ≡ false)
ExplainsAs OutcomeStatus.unsupported none issues rest =
    (rest ≡ []) × (issues ≡ record { code = codes "capability.unsupported" } ∷ [])
ExplainsAs _ _ issues rest = ⊥

-- The outcome of a capability tells which of its artifacts there are. Succeeded: one from each of
-- its endpoints, in order, and no issue. Partial: from some and not from all, with an issue.
-- Failed: none, with an issue. Unsupported: the capability has no endpoints.
abbrev pub Explains : CapabilityOutcome → List RawArtifact → Type 0
Explains o rest = ExplainsAs o.status (endpoints_of o.capability) o.issues rest

-- The artifacts of a collection are those of its outcomes, one after another.
pub data Explained : List CapabilityOutcome → List RawArtifact → Type 0 where
  none_left : Explained [] []
  one_more :
      {o : CapabilityOutcome} {os : List CapabilityOutcome} {artifacts : List RawArtifact}
      (new rest : List RawArtifact)
      → Explains o new
      → Explained os rest
      → artifacts ≡ new ++ rest
      → Explained (o ∷ os) artifacts

outcome-inv : (o o' : CapabilityOutcome) → capability_outcome_post_init o ≡ ok o' → o' ≡ o
unfolding capability_outcome_post_init
outcome-inv o o' h = ground arith

-- What one round of the outer loop adds.
pub record Round (c : Capability) (acc acc' : Collected) : Type 0 where
  pub outcome : CapabilityOutcome
  pub gained : List RawArtifact
  pub of_capability : outcome.capability ≡ c
  pub outcomes : acc'.outcomes ≡ acc.outcomes ++ outcome ∷ []
  pub artifacts : acc'.artifacts ≡ acc.artifacts ++ gained
  pub explains : Explains outcome gained

-- What the rounds for several capabilities add.
pub record Run (cs : List Capability) (acc acc' : Collected) : Type 0 where
  pub outcomes_new : List CapabilityOutcome
  pub gained : List RawArtifact
  pub of_capabilities : map (λ o. o.capability) outcomes_new ≡ cs
  pub outcomes : acc'.outcomes ≡ acc.outcomes ++ outcomes_new
  pub artifacts : acc'.artifacts ≡ acc.artifacts ++ gained
  pub explained : Explained outcomes_new gained

Run-nil : (acc : Collected) → Run [] acc acc
Run-nil acc = record {
  outcomes_new = [];
  gained = [];
  of_capabilities = refl;
  outcomes = sym (append-nil acc.outcomes);
  artifacts = sym (append-nil acc.artifacts);
  explained = none_left;
}

Run-cons :
    {c : Capability} {cs : List Capability} {acc acc1 acc' : Collected}
    → Round c acc acc1
    → Run cs acc1 acc'
    → Run (c ∷ cs) acc acc'
Run-cons {acc} r rs = record {
  outcomes_new = r.outcome ∷ rs.outcomes_new;
  gained = r.gained ++ rs.gained;
  of_capabilities = ap₂ ◌∷◌ r.of_capability rs.of_capabilities;
  outcomes =
      rw (rs.outcomes, r.outcomes) (append_assoc acc.outcomes (r.outcome ∷ []) rs.outcomes_new);
  artifacts = rw (rs.artifacts, r.artifacts) (append_assoc acc.artifacts r.gained rs.gained);
  explained = one_more r.gained rs.gained r.explains rs.explained refl;
}

module _ {S : Type 0} where
  -- A round that ends in `append_outcome`.
  append-Round :
      (c : Capability) (status : OutcomeStatus) (issues : List ConnectorIssue)
      (acc acc0 acc' : Collected) (gained : List RawArtifact) (s s' : S)
      → append_outcome c status issues acc0 s ≡ (ok acc', s')
      → acc0.outcomes ≡ acc.outcomes
      → acc0.artifacts ≡ acc.artifacts ++ gained
      → ExplainsAs status (endpoints_of c) issues gained
      → Round c acc acc'
  append-Round c status issues acc acc0 acc' gained s s' h same arts ex =
      let o : CapabilityOutcome = record { capability = c; status = status; issues = issues } in
      let (x, s1, e, k) = >>=-returns (lift (capability_outcome_post_init o)) _ h in
      record {
        outcome = o;
        gained = gained;
        of_capability = refl;
        outcomes = ground (arith, outcome-inv o x);
        artifacts = ground arith;
        explains = ex;
      }

length-zero {ℓ} : {A : Type ℓ} (xs : List A) → length xs ≡ 0 → xs ≡ []
length-zero [] h = refl
length-zero (x ∷ xs) h = absurd (omega arith)

status-explains :
    (es : List KiteEndpoint) (issues : List ConnectorIssue) (n : ℕ) (gained : List RawArtifact)
    → n ≡ length gained
    → From es gained
    → ((issues ≡ []) × (length gained ≡ length es))
      ⊎ ((is_empty issues ≡ false) × (length gained < length es))
    → ExplainsAs (status_of issues n) (some es) issues gained
unfolding status_of
status-explains es [] n gained e f (inl (_, full)) = (From-full f full, refl)
status-explains es [] n gained e f (inr (some_issue, _)) = cc
status-explains es (i ∷ is) n gained e f (inl (no_issue, _)) = cc
status-explains es (i ∷ is) zero gained e f (inr (_, less)) = (length-zero gained (sym e), refl)
status-explains es (i ∷ is) (suc n) gained e f (inr (_, less)) =
    let some_artifact : (suc n == 0) ≡ false = ground arith in
    rw some_artifact (f, omega arith, less, refl)

issue-inv : (i i' : ConnectorIssue) → connector_issue_post_init i ≡ ok i' → i' ≡ i
unfolding connector_issue_post_init
issue-inv i i' h = ground arith

module _ (sha256_hex : Bytes → Text) {S : Type 0} (transport : KiteTransport S)
    (retrieved_at : Datetime) where
  collect_endpoints-Round :
      (c : Capability) (o : Option (List KiteEndpoint)) (issue : Option ConnectorIssue)
      (acc acc' : Collected) (s s' : S)
      → endpoints_of c ≡ o
      → collect_endpoints sha256_hex transport retrieved_at c o issue acc s ≡ (ok acc', s')
      → Round c acc acc'
  unfolding collect_endpoints
  collect_endpoints-Round c none issue acc acc' s s' e h =
      let code : ConnectorIssue = record { code = codes "capability.unsupported" } in
      let (i, s1, q, k) = >>=-returns (lift (connector_issue_post_init code)) _ h in
      append-Round c OutcomeStatus.unsupported (i ∷ []) acc acc acc' [] s1 s' k refl
        (sym (append-nil acc.artifacts))
        (rw e (
          refl,
          ap (λ (j : ConnectorIssue). j ∷ [])
              (issue-inv code i (ap (λ (p : Result ConnectorIssue × S). p.0) q)),
        ))
  collect_endpoints-Round c (some es) (some i) acc acc' s s' e h =
      append-Round c OutcomeStatus.failed (i ∷ []) acc acc acc' [] s s' h refl
        (sym (append-nil acc.artifacts)) (rw e (refl, refl))
  collect_endpoints-Round c (some es) none acc acc' s s' e h =
      let start : Fetched = record {
        artifacts = acc.artifacts;
        successful_endpoints = 0;
        issues = [];
        authentication_issue = none;
      } in
      let (f, s1, q, k) =
        >>=-returns (fetch_endpoints sha256_hex transport retrieved_at es start) _ h in
      let g = fetch_endpoints-Gained sha256_hex transport retrieved_at es start f s s1 q in
      append-Round c (status_of f.issues f.successful_endpoints) f.issues acc _ acc' g.gained s1 s'
        k refl g.artifacts
        (rw e (
          status-explains es f.issues f.successful_endpoints g.gained (omega (arith, g.successful))
            g.origin g.tally))

  pub collect_capabilities-Run :
      (cs : List Capability) (acc acc' : Collected) (s s' : S)
      → collect_capabilities sha256_hex transport retrieved_at cs acc s ≡ (ok acc', s')
      → Run cs acc acc'
  unfolding collect_capabilities
  collect_capabilities-Run [] acc acc' s s' h =
      let same : acc ≡ acc' = ground arith in subst (Run [] acc) same (Run-nil acc)
  collect_capabilities-Run (c ∷ cs) acc acc' s s' h =
      let (acc1, s1, q, k) =
        >>=-returns
          (collect_endpoints sha256_hex transport retrieved_at c (endpoints_of c)
            acc.authentication_issue acc)
          (collect_capabilities sha256_hex transport retrieved_at cs) h in
      Run-cons
        (collect_endpoints-Round c (endpoints_of c) acc.authentication_issue acc acc1 s s1 refl q)
        (collect_capabilities-Run cs acc1 acc' s1 s' k)
