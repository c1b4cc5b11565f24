-- ===== src/Domain/Scope.antt =====
-- domain/scope.py: which part of a tenant's portfolio a query is about. A `frozenset` is a list.
use portfolio_manager.Base.{Bool, List, is_empty, not, ◌||◌}
use portfolio_manager.Domain.Identifiers.{
  BrokerAccountId, BrokerConnectionId, InstitutionId, TenantId,
}

pub record PortfolioScope : Type 0 where
  pub tenant_id : TenantId
  pub institution_ids : List InstitutionId
  pub broker_connection_ids : List BrokerConnectionId
  pub broker_account_ids : List BrokerAccountId

-- `not (a or b or c)`, where an empty set is false.
unfoldable pub is_consolidated : PortfolioScope → Bool
is_consolidated self = not (
    not (is_empty self.institution_ids)
    || not (is_empty self.broker_connection_ids)
    || not (is_empty self.broker_account_ids))
