-- ===== src/Domain/Ownership.antt =====
-- domain/ownership.py: tenants, accounts and instruments. `repr=False` of a field is not modelled.
pub mod Instruments
use portfolio_manager.Base.{
  Option, Result, String, Text, for_some, length, ltb, matches_key, not, not_trimmed, ok, raise_if,
  value_error, ℕ, ◌<>◌, ◌>>=◌, ◌>>◌, check_some, too_long,
}
use portfolio_manager.Domain.Identifiers.{
  BrokerAccountId, BrokerConnectionId, ExternalCashAccountId, InstitutionId, TenantId, UserId,
}
use portfolio_manager.Domain.Numeric.{Currency}
use portfolio_manager.Domain.Temporal.{Datetime, as_utc}

-- A calendar date, as its ordinal.
abbrev pub Date : Type 0
Date = ℕ

unfoldable pub require_text : Text → String → ℕ → Result (Unit {0})
require_text value field_name maximum = do
  raise_if (not_trimmed value) (value_error (field_name <> " must be non-empty and trimmed"))
  raise_if (ltb maximum (length value)) (too_long field_name maximum)

unfoldable pub require_key : Text → String → Result (Unit {0})
require_key value field_name =
    raise_if (not (matches_key value))
      (value_error (field_name <> " must be a stable lowercase identifier"))

pub data MembershipRole : Type 0 where
  owner admin viewer : MembershipRole

pub data AssetClass : Type 0 where
  cash equity etf mutual_fund bond option future commodity currency cfd warrant structured_product
        other :
      AssetClass

pub data OptionRight : Type 0 where
  call put : OptionRight

pub record ExternalIdentifier : Type 0 where
  pub namespace : Text
  pub value : Text

unfoldable pub external_identifier_post_init : ExternalIdentifier → Result ExternalIdentifier
external_identifier_post_init self = do
  require_key self.namespace "external identifier namespace"
  require_text self.value "external identifier value" 512
  ok self

pub record Tenant : Type 0 where
  pub id : TenantId
  pub name : Text
  pub created_at : Datetime

unfoldable pub tenant_post_init : Tenant → Result Tenant
tenant_post_init self = do
  require_text self.name "tenant name" 120
  created_at ← as_utc self.created_at "created_at"
  ok (record self { created_at = created_at })

pub record User : Type 0 where
  pub id : UserId
  pub display_name : Option Text

unfoldable pub user_post_init : User → Result User
user_post_init self = do
  check_some self.display_name (λ name. require_text name "display name" 120)
  ok self

pub record TenantMembership : Type 0 where
  pub tenant_id : TenantId
  pub user_id : UserId
  pub role : MembershipRole
  pub created_at : Datetime

unfoldable pub tenant_membership_post_init : TenantMembership → Result TenantMembership
tenant_membership_post_init self = do
  created_at ← as_utc self.created_at "created_at"
  ok (record self { created_at = created_at })

pub record Institution : Type 0 where
  pub id : InstitutionId
  pub key : Text
  pub name : Text

unfoldable pub institution_post_init : Institution → Result Institution
institution_post_init self = do
  require_key self.key "institution key"
  require_text self.name "institution name" 120
  ok self

pub record BrokerConnection : Type 0 where
  pub id : BrokerConnectionId
  pub tenant_id : TenantId
  pub institution_id : InstitutionId
  pub label : Text
  pub created_at : Datetime

unfoldable pub broker_connection_post_init : BrokerConnection → Result BrokerConnection
broker_connection_post_init self = do
  require_text self.label "broker connection label" 120
  created_at ← as_utc self.created_at "created_at"
  ok (record self { created_at = created_at })

pub record BrokerAccount : Type 0 where
  pub id : BrokerAccountId
  pub tenant_id : TenantId
  pub connection_id : BrokerConnectionId
  pub external_id : ExternalIdentifier
  pub label : Text
  pub base_currency : Option Currency

unfoldable pub broker_account_post_init : BrokerAccount → Result BrokerAccount
broker_account_post_init self = do require_text self.label "broker account label" 120; ok self

pub record ExternalCashAccount : Type 0 where
  pub id : ExternalCashAccountId
  pub tenant_id : TenantId
  pub institution_id : InstitutionId
  pub label : Text
  pub currency : Currency
  pub masked_hint : Option Text

unfoldable pub external_cash_account_post_init : ExternalCashAccount → Result ExternalCashAccount
external_cash_account_post_init self = do
  require_text self.label "cash account label" 120
  check_some self.masked_hint (λ hint. require_text hint "masked account hint" 32)
  ok self
