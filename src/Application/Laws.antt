-- ===== src/Application/Laws.antt =====
-- application/connectors.py: what a raw artifact, an outcome and a result promise.
use portfolio_manager.Application.Collection.{
  issue_eq, CapabilityOutcome, ConnectorIssue, capability_outcome_post_init, is_succeeded,
}
use portfolio_manager.Application.{Capability, capability_eq, raise_connector_error}
use portfolio_manager.Base.{
  ap, arith, distinct, is_empty, length-set_of, ok, true, ◌↔◌, ◌≡◌, ConnectorFailureKind, Option,
  Text, connector_error, err, matches_key, none, ◌≢◌, ℤ,
}
use portfolio_manager.Base.Texts.Strip.{text_eq_iff}

pub capability_eq_iff : (a b : Capability) → (capability_eq a b ≡ true) ↔ (a ≡ b)
unfolding capability_eq
capability_eq_iff a b = ground arith

pub issue_eq_iff : (a b : ConnectorIssue) → (issue_eq a b ≡ true) ↔ (a ≡ b)
issue_eq_iff a b = (
  λ h. let e = (text_eq_iff a.code b.code).0 h in λ i. record { code = e i },
  λ e. (text_eq_iff a.code b.code).1 (ap (λ (c : ConnectorIssue). c.code) e),
)

-- `CapabilityOutcome(…)` is accepted, as it is, exactly when it succeeded with no issue or did not
-- succeed and has one, and no issue stands twice.
pub capability_outcome_iff :
    (o : CapabilityOutcome)
    → (capability_outcome_post_init o ≡ ok o)
      ↔ ((is_succeeded o.status ≡ is_empty o.issues) × (distinct issue_eq o.issues ≡ true))
unfolding capability_outcome_post_init
capability_outcome_iff o = rw (length-set_of issue_eq issue_eq_iff o.issues) (ground arith)

-- `raise ConnectorError(…)` raises, whatever is wrong with its arguments.
pub raise_connector_error-ne-ok {ℓ} :
    {A : Type ℓ} (kind : ConnectorFailureKind) (reason_code : Text) (retry_after : Option ℤ) (a : A)
    → raise_connector_error kind reason_code retry_after ≢ ok a
unfolding raise_connector_error
raise_connector_error-ne-ok kind reason_code retry_after a h = ground arith

-- With a stable reason code and no `retry_after` it raises what it says.
pub raise_connector_error_lem {ℓ} :
    {A : Type ℓ} (kind : ConnectorFailureKind) (reason_code : Text)
    → matches_key reason_code ≡ true
    → raise_connector_error {A = A} kind reason_code none
      ≡ err (connector_error kind reason_code none)
unfolding raise_connector_error
raise_connector_error_lem kind reason_code h = rw h
