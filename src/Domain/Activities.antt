-- ===== src/Domain/Activities.antt =====
-- domain/activities.py: economic activities and their legs. The vocabulary, and the cash leg.
pub mod Record
use portfolio_manager.Domain.Ownership.{Date}
use portfolio_manager.Base.{
  Bool, Option, Result, Text, check_some, false, is_alpha, is_ascii, is_some, length, not,
  not_trimmed, ok, raise_if, text_eq, true, upper, value_error, ◌&&◌, ◌==◌, ◌>>=◌, ◌>>◌, ◌||◌,
}
use portfolio_manager.Domain.Identifiers.{InstrumentId}
use portfolio_manager.Domain.Numeric.{Money, Price, Quantity}

pub data ActivityKind : Type 0 where
  trade deposit withdrawal dividend interest fee tax transfer fx_conversion corporate_action :
      ActivityKind

pub data InstrumentLegRole : Type 0 where
  position corporate_action transfer : InstrumentLegRole

pub data CashLegRole : Type 0 where
  principal income fee tax transfer : CashLegRole

pub data FeeCategory : Type 0 where
  brokerage platform exchange regulatory depository bank fx account_maintenance interest other :
      FeeCategory

pub data TaxCategory : Type 0 where
  securities_transaction commodities_transaction gst_vat stamp_duty domestic_withholding
        foreign_withholding tcs other_transaction other :
      TaxCategory

pub data TransferDirection : Type 0 where
  inbound outbound : TransferDirection

pub data TransferMethod : Type 0 where
  acats broker_to_broker bank other : TransferMethod

pub data CorporateActionType : Type 0 where
  split merger spin_off exercise assignment expiration cash_settlement other : CorporateActionType

-- `a is b` of two roles.
unfoldable pub cash_role_eq : CashLegRole → CashLegRole → Bool
cash_role_eq CashLegRole.principal CashLegRole.principal = true
cash_role_eq CashLegRole.income CashLegRole.income = true
cash_role_eq CashLegRole.fee CashLegRole.fee = true
cash_role_eq CashLegRole.tax CashLegRole.tax = true
cash_role_eq CashLegRole.transfer CashLegRole.transfer = true
cash_role_eq _ _ = false

pub record InstrumentLeg : Type 0 where
  pub instrument_id : InstrumentId
  pub quantity : Quantity
  pub role : InstrumentLegRole
  pub execution_price : Option Price

pub record CashLeg : Type 0 where
  pub money : Money
  pub role : CashLegRole
  pub fee_category : Option FeeCategory
  pub tax_category : Option TaxCategory
  pub tax_jurisdiction : Option Text
  pub source_label : Option Text

-- `a != b` of two Booleans
abbrev pub differ : Bool → Bool → Bool
differ true b = not b
differ false b = b

abbrev pub not_country_code : Text → Bool
not_country_code s =
    not (length s == 2) || not (is_ascii s) || not (is_alpha s) || not (text_eq s (upper s))

unfoldable pub cash_leg_post_init : CashLeg → Result CashLeg
unfolding cash_role_eq
cash_leg_post_init self = do
  raise_if (differ (cash_role_eq self.role CashLegRole.fee) (is_some self.fee_category))
      (value_error "fee category is required only for fee legs")
  raise_if (differ (cash_role_eq self.role CashLegRole.tax) (is_some self.tax_category))
      (value_error "tax category is required only for tax legs")
  raise_if (not (cash_role_eq self.role CashLegRole.tax) && is_some self.tax_jurisdiction)
      (value_error "tax jurisdiction is allowed only for tax legs")
  check_some self.tax_jurisdiction (λ j.
      raise_if (not_country_code j)
        (value_error "tax jurisdiction must be a two-letter uppercase country code"))
  check_some self.source_label
      (λ l. raise_if (not_trimmed l) (value_error "source label must be non-empty and trimmed"))
  ok self

-- `ActivityLeg = InstrumentLeg | CashLeg`
pub data ActivityLeg : Type 0 where
  instrument_leg : InstrumentLeg → ActivityLeg
  cash_leg : CashLeg → ActivityLeg
