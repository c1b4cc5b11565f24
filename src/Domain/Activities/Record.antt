-- ===== src/Domain/Activities/Record.antt =====
-- domain/activities.py: the activity, and the shape that its kind asks of its legs.
pub mod Shape
pub mod Kinds
pub mod Accepted
use portfolio_manager.Domain.Ownership.{Date}
use portfolio_manager.Domain.Ownership.Instruments.{is_id, ends_before}
use portfolio_manager.Domain.Activities.{
  instrument_leg, cash_leg, ActivityKind, ActivityLeg, CashLeg, CashLegRole, CorporateActionType,
  InstrumentLeg, InstrumentLegRole, TransferDirection, TransferMethod, cash_role_eq,
  corporate_action, deposit, dividend, fee, fx_conversion, income, interest, principal, tax, trade,
  transfer, withdrawal,
}
use portfolio_manager.Base.{
  Bool, List, Option, Result, [], any, contains, false, is_empty, is_none, is_some, length, ltb,
  map, not, ok, raise_if, set_of, true, value_error, ℕ, ◌&&◌, ◌>>=◌, ◌>>◌, ◌||◌, ◌∷◌,
}
use portfolio_manager.Domain.Identifiers.{
  ActivityId, BrokerAccountId, SourceRecordId, TenantId, TransferId,
}
use portfolio_manager.Domain.Numeric.{currency_eq}
use portfolio_manager.Domain.Temporal.{Datetime, as_utc}

pub record Activity : Type 0 where
  pub id : ActivityId
  pub tenant_id : TenantId
  pub broker_account_id : BrokerAccountId
  pub source_record_id : SourceRecordId
  pub kind : ActivityKind
  pub legs : List ActivityLeg
  pub effective_at : Datetime
  pub ingested_at : Datetime
  pub trade_date : Option Date
  pub settlement_date : Option Date
  pub supersedes_id : Option ActivityId
  pub transfer_id : Option TransferId
  pub transfer_direction : Option TransferDirection
  pub transfer_method : Option TransferMethod
  pub corporate_action_type : Option CorporateActionType

unfoldable pub instrument_legs_of : List ActivityLeg → List InstrumentLeg
instrument_legs_of [] = []
instrument_legs_of (instrument_leg l ∷ legs) = l ∷ instrument_legs_of legs
instrument_legs_of (cash_leg l ∷ legs) = instrument_legs_of legs

unfoldable pub cash_legs_of : List ActivityLeg → List CashLeg
cash_legs_of [] = []
cash_legs_of (instrument_leg l ∷ legs) = cash_legs_of legs
cash_legs_of (cash_leg l ∷ legs) = l ∷ cash_legs_of legs

-- `role in {leg.role for leg in cash_legs}`
unfoldable pub has_role : CashLegRole → List CashLeg → Bool
has_role role legs = contains cash_role_eq role (set_of cash_role_eq (map (λ l. l.role) legs))

abbrev pub is_transfer_role : InstrumentLegRole → Bool
is_transfer_role InstrumentLegRole.transfer = true
is_transfer_role _ = false

-- `len({leg.money.currency for leg in cash_legs})`
unfoldable pub currency_count : List CashLeg → ℕ
currency_count legs = length (set_of currency_eq (map (λ l. l.money.currency) legs))

-- What the kind alone asks of the legs, and what it asks of the fields for transfers and corporate
-- actions, in the order of the tests of `_validate_leg_shape`.
module _ (instrument_legs : List InstrumentLeg) (cash_legs : List CashLeg) where
  abbrev legs_check : ActivityKind → Result (Unit {0})
  legs_check ActivityKind.trade =
      raise_if (is_empty instrument_legs || is_empty cash_legs)
        (value_error "trade requires instrument and cash legs")
  legs_check ActivityKind.dividend =
      raise_if (not (has_role CashLegRole.income cash_legs))
        (value_error "income activity requires an income leg")
  legs_check ActivityKind.interest =
      raise_if (not (has_role CashLegRole.income cash_legs))
        (value_error "income activity requires an income leg")
  legs_check ActivityKind.fee =
      raise_if (not (has_role CashLegRole.fee cash_legs))
        (value_error "fee activity requires a fee leg")
  legs_check ActivityKind.tax =
      raise_if (not (has_role CashLegRole.tax cash_legs))
        (value_error "tax activity requires a tax leg")
  legs_check ActivityKind.deposit =
      raise_if (not (has_role CashLegRole.principal cash_legs))
        (value_error "cash movement requires a principal leg")
  legs_check ActivityKind.withdrawal =
      raise_if (not (has_role CashLegRole.principal cash_legs))
        (value_error "cash movement requires a principal leg")
  legs_check _ = ok tt

  abbrev transfer_check : ActivityKind → Bool → Bool → Result (Unit {0})
  transfer_check ActivityKind.transfer any_none any_some = do
    raise_if any_none (value_error "transfer requires identity, direction, and method")
    raise_if
        (not (has_role CashLegRole.transfer cash_legs)
          && not (any (λ l. is_transfer_role l.role) instrument_legs))
        (value_error "transfer requires a transfer leg")
  transfer_check _ any_none any_some =
      raise_if any_some (value_error "transfer metadata is allowed only for transfer activities")

  abbrev corporate_check : ActivityKind → Option CorporateActionType → Result (Unit {0})
  corporate_check ActivityKind.corporate_action subtype = do
    raise_if (is_empty instrument_legs) (value_error "corporate action requires an instrument leg")
    raise_if (is_none subtype) (value_error "corporate action requires a subtype")
  corporate_check _ subtype =
      raise_if (is_some subtype)
        (value_error "corporate action subtype is allowed only for corporate actions")

  abbrev fx_check : ActivityKind → Result (Unit {0})
  fx_check ActivityKind.fx_conversion =
      raise_if (ltb (length cash_legs) 2 || ltb (currency_count cash_legs) 2)
        (value_error "FX conversion requires cash legs in at least two currencies")
  fx_check _ = ok tt

unfoldable pub validate_leg_shape : Activity → Result (Unit {0})
validate_leg_shape self = do
  let instrument_legs = instrument_legs_of self.legs
  let cash_legs = cash_legs_of self.legs
  legs_check instrument_legs cash_legs self.kind
  transfer_check instrument_legs cash_legs self.kind
      (is_none self.transfer_id || is_none self.transfer_direction || is_none self.transfer_method)
      (is_some self.transfer_id || is_some self.transfer_direction || is_some self.transfer_method)
  corporate_check instrument_legs cash_legs self.kind self.corporate_action_type
  fx_check instrument_legs cash_legs self.kind

unfoldable pub activity_post_init : Activity → Result Activity
activity_post_init self = do
  raise_if (is_empty self.legs) (value_error "activity requires at least one leg")
  raise_if (is_id self.supersedes_id self.id) (value_error "activity cannot supersede itself")
  raise_if (ends_before self.trade_date self.settlement_date)
      (value_error "settlement date cannot precede trade date")
  effective_at ← as_utc self.effective_at "effective_at"
  ingested_at ← as_utc self.ingested_at "ingested_at"
  validate_leg_shape (record self { effective_at = effective_at; ingested_at = ingested_at })
  ok (record self { effective_at = effective_at; ingested_at = ingested_at })
