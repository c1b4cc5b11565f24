-- ===== src/Connectors/Http/Status.antt =====
-- connectors/zerodha_http.py: which status raises which kind of failure.
use portfolio_manager.Application.{raise_connector_error}
use portfolio_manager.Application.Laws.{raise_connector_error-ne-ok}
use portfolio_manager.Base.{
  >>=-eq-ok, ConnectorFailureKind, Option, arith, codes, none, ok, ℕ, ◌<◌, ◌↔◌, ◌≡◌, ◌≢◌, ◌≤◌,
  ◌>>=◌,
}
use portfolio_manager.Connectors.Http.{Response, raise_for_status, retry_after}

module _ (unicode_decimal : ℕ → Option ℕ) where
  rate_limited-ne-ok :
      (response : Response)
      → (do
        after ← retry_after unicode_decimal response
        raise_connector_error {A = Unit {0}} ConnectorFailureKind.rate_limit
            (codes "provider.rate_limit")
            after)
        ≢ ok tt
  rate_limited-ne-ok response h =
      let (after, _, k) = >>=-eq-ok (retry_after unicode_decimal response) _ h in
      raise_connector_error-ne-ok ConnectorFailureKind.rate_limit (codes "provider.rate_limit")
        after tt k

  -- `_raise_for_status` passes a response exactly when its status is from 200 to 299; whatever the
  -- header asks for, every other status raises.
  pub raise_for_status-passes :
      (response : Response)
      → (raise_for_status unicode_decimal response ≡ ok tt)
        ↔ ((200 ≤ response.status_code) × (response.status_code < 300))
  unfolding raise_for_status
  raise_for_status-passes response = ground (
    arith,
    rate_limited-ne-ok response,
    raise_connector_error-ne-ok {0} ConnectorFailureKind.authentication (codes "session.expired")
        none tt,
    raise_connector_error-ne-ok {0} ConnectorFailureKind.validation
        (codes "provider.invalid_request") none tt,
    raise_connector_error-ne-ok {0} ConnectorFailureKind.permanent
        (codes "provider.endpoint_unavailable") none tt,
    raise_connector_error-ne-ok {0} ConnectorFailureKind.transient (codes "provider.unavailable")
        none tt,
    raise_connector_error-ne-ok {0} ConnectorFailureKind.permission
        (codes "provider.request_denied") none tt,
  )
