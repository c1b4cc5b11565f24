-- ===== src/Domain/Observations.antt =====
-- domain/observations.py: claims about the state of a portfolio at a point in time.
pub mod Accepted
use portfolio_manager.Domain.Ownership.{Date}
use portfolio_manager.Domain.Ownership.Instruments.{is_id}
use portfolio_manager.Base.{
  Option, Result, Text, check_some, err, is_none, none, not, not_trimmed, ok, raise_if, some,
  value_error, ◌&&◌, ◌>>=◌, ◌>>◌,
}
use portfolio_manager.Domain.Identifiers.{
  BrokerAccountId, ExternalCashAccountId, InstrumentId, ListingId, ObservationId, SourceRecordId,
  TenantId,
}
use portfolio_manager.Domain.Numeric.{FxRate, Money, Price, Quantity}
use portfolio_manager.Domain.Quality.{DataQuality}
use portfolio_manager.Domain.Temporal.{Datetime, as_utc, same_time}

pub data TaxLotAuthority : Type 0 where
  broker_reported derived : TaxLotAuthority

pub data AccountMetricKind : Type 0 where
  total_cash settled_cash net_liquidation_value accrued_interest dividend_accrual :
      AccountMetricKind

pub data AccrualKind : Type 0 where
  interest dividend : AccrualKind

pub record PositionValue : Type 0 where
  pub broker_account_id : BrokerAccountId
  pub instrument_id : InstrumentId
  pub quantity : Quantity

-- `BrokerAccountId | ExternalCashAccountId`
pub data CashAccountId : Type 0 where
  broker_account : BrokerAccountId → CashAccountId
  external_cash_account : ExternalCashAccountId → CashAccountId

pub record CashBalanceValue : Type 0 where
  pub account_id : CashAccountId
  pub balance : Money

pub record PriceValue : Type 0 where
  pub listing_id : ListingId
  pub price : Price

pub record FxRateValue : Type 0 where
  pub rate : FxRate

pub record PositionValuationValue : Type 0 where
  pub broker_account_id : BrokerAccountId
  pub instrument_id : InstrumentId
  pub mark_price : Option Price
  pub market_value : Option Money
  pub cost_basis : Option Money
  pub realized_pnl : Option Money
  pub unrealized_pnl : Option Money

unfoldable pub position_valuation_post_init : PositionValuationValue → Result PositionValuationValue
position_valuation_post_init self = do
  let all_none =
      is_none self.mark_price
      && is_none self.market_value
      && is_none self.cost_basis
      && is_none self.realized_pnl
      && is_none self.unrealized_pnl
  raise_if all_none (value_error "position valuation requires at least one metric")
  ok self

pub record AccountMetricValue : Type 0 where
  pub broker_account_id : BrokerAccountId
  pub kind : AccountMetricKind
  pub value : Money

pub record AccrualValue : Type 0 where
  pub broker_account_id : BrokerAccountId
  pub kind : AccrualKind
  pub amount : Money
  pub instrument_id : Option InstrumentId
  pub expected_on : Option Date

pub record TaxLotValue : Type 0 where
  pub broker_account_id : BrokerAccountId
  pub instrument_id : InstrumentId
  pub quantity : Quantity
  pub total_cost : Money
  pub acquisition_date : Date
  pub authority : TaxLotAuthority
  pub policy_version : Option Text

abbrev policy_shape : TaxLotAuthority → Option Text → Result (Unit {0})
policy_shape derived none = err (value_error "derived tax lot requires a policy version")
policy_shape derived (some v) = ok tt
policy_shape broker_reported none = ok tt
policy_shape broker_reported (some v) =
    err (value_error "broker-reported tax lot cannot have a policy version")

unfoldable pub tax_lot_post_init : TaxLotValue → Result TaxLotValue
tax_lot_post_init self = do
  policy_shape self.authority self.policy_version
  check_some self.policy_version
      (λ v. raise_if (not_trimmed v) (value_error "policy version must be non-empty and trimmed"))
  ok self

pub data ObservationValue : Type 0 where
  position : PositionValue → ObservationValue
  cash_balance : CashBalanceValue → ObservationValue
  price : PriceValue → ObservationValue
  fx_rate : FxRateValue → ObservationValue
  position_valuation : PositionValuationValue → ObservationValue
  account_metric : AccountMetricValue → ObservationValue
  accrual : AccrualValue → ObservationValue
  tax_lot : TaxLotValue → ObservationValue

pub record Observation : Type 0 where
  pub id : ObservationId
  pub tenant_id : TenantId
  pub source_record_id : SourceRecordId
  pub value : ObservationValue
  pub as_of : Datetime
  pub ingested_at : Datetime
  pub quality : DataQuality
  pub supersedes_id : Option ObservationId

unfoldable pub observation_post_init : Observation → Result Observation
observation_post_init self = do
  raise_if (is_id self.supersedes_id self.id) (value_error "observation cannot supersede itself")
  as_of ← as_utc self.as_of "as_of"
  ingested_at ← as_utc self.ingested_at "ingested_at"
  raise_if (not (same_time self.quality.observed_at as_of))
      (value_error "quality observed_at must equal observation as_of")
  ok (record self { as_of = as_of; ingested_at = ingested_at })
