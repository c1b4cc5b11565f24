-- ===== src/Connectors/Zerodha/Stopped.antt =====
-- connectors/zerodha.py: collecting once an authentication failure is noted.
use portfolio_manager.Application.{require_key}
use portfolio_manager.Application.Collection.{
  CapabilityOutcome, ConnectorIssue, OutcomeStatus, capability_outcome_post_init,
  connector_issue_post_init, is_succeeded,
}
use mathlib.Core.List.{append-nil, append_assoc}
use portfolio_manager.Application.{Bytes, Capability}
use portfolio_manager.Base.{
  List, Option, Text, [], codes, contains, false, map, none, ok, set_of, some, ◌++◌, ◌∷◌, ◌≡◌, all,
  refl,
}
use portfolio_manager.Connectors.Kite.{KiteEndpoint, endpoints_of}
use portfolio_manager.Connectors.Zerodha.{
  Collected, KiteTransport, collect_capabilities, collect_endpoints,
}
use portfolio_manager.Domain.Temporal.{Datetime}

-- The outcome of a capability that is not fetched because of `issue`.
abbrev pub skipped_of : ConnectorIssue → Capability → Option (List KiteEndpoint) → CapabilityOutcome
skipped_of issue c none = record {
  capability = c;
  status = OutcomeStatus.unsupported;
  issues = record { code = codes "capability.unsupported" } ∷ [];
}
skipped_of issue c (some es) = record {
  capability = c;
  status = OutcomeStatus.failed;
  issues = issue ∷ [];
}

abbrev pub skipped : ConnectorIssue → Capability → CapabilityOutcome
skipped issue c = skipped_of issue c (endpoints_of c)

one_issue-ok :
    (c : Capability) (status : OutcomeStatus) (issue : ConnectorIssue)
    → is_succeeded status ≡ false
    → capability_outcome_post_init (record { capability = c; status = status; issues = issue ∷ [] })
      ≡ ok (record { capability = c; status = status; issues = issue ∷ [] })
unfolding capability_outcome_post_init set_of contains
one_issue-ok c status issue h = rw h

pub unsupported-ok :
    connector_issue_post_init (record { code = codes "capability.unsupported" })
    ≡ ok (record { code = codes "capability.unsupported" })
unfolding connector_issue_post_init require_key all
unsupported-ok = refl

module _ (sha256_hex : Bytes → Text) {S : Type 0} (transport : KiteTransport S)
    (retrieved_at : Datetime) (issue : ConnectorIssue) where
  collect_endpoints-skipped :
      (c : Capability) (o : Option (List KiteEndpoint)) (acc : Collected) (s : S)
      → collect_endpoints sha256_hex transport retrieved_at c o (some issue) acc s
        ≡ (ok (record acc { outcomes = acc.outcomes ++ skipped_of issue c o ∷ [] }), s)
  unfolding collect_endpoints
  collect_endpoints-skipped c none acc s = rw (
    unsupported-ok,
    one_issue-ok c OutcomeStatus.unsupported (record { code = codes "capability.unsupported" })
        refl,
  )
  collect_endpoints-skipped c (some es) acc s = rw (one_issue-ok c OutcomeStatus.failed issue refl)

  -- Once an authentication failure is noted, the rest of the capabilities are not fetched: the world
  -- stays as it is and no artifact comes in. Each of them is failed with that issue, or unsupported.
  pub collect_capabilities-stopped :
      (cs : List Capability) (acc : Collected) (s : S)
      → acc.authentication_issue ≡ some issue
      → collect_capabilities sha256_hex transport retrieved_at cs acc s
        ≡ (ok (record acc { outcomes = acc.outcomes ++ map (skipped issue) cs }), s)
  unfolding collect_capabilities
  collect_capabilities-stopped [] acc s e = rw append-nil
  collect_capabilities-stopped (c ∷ cs) acc s e = simp e (
      rw (collect_endpoints-skipped c (endpoints_of c) acc s) (
        rw
          (collect_capabilities-stopped cs
            (record acc { outcomes = acc.outcomes ++ skipped issue c ∷ [] }) s e)
          (rw append_assoc (simp e))))
