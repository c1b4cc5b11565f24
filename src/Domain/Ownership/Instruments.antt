-- ===== src/Domain/Ownership/Instruments.antt =====
-- domain/ownership.py: instruments, their listings, and the broker's names for them.
pub mod Accepted
use portfolio_manager.Base.{
  Bool, Option, Result, Text, false, for_some, if◌then◌else◌, is_none, is_some, ltb, none, ok,
  raise_if, some, true, value_error, ◌>>=◌, ◌>>◌, ◌||◌,
}
use portfolio_manager.Domain.Identifiers.{
  BrokerConnectionId, Identifier, InstrumentId, ListingId, TenantId, id_eq,
}
use portfolio_manager.Domain.Numeric.{Currency, Price, Quantity, is_not_positive}
use portfolio_manager.Domain.Ownership.{
  AssetClass, Date, ExternalIdentifier, OptionRight, require_text,
}
use portfolio_manager.Domain.Temporal.{Datetime, as_utc, before}

pub record Instrument : Type 0 where
  pub id : InstrumentId
  pub name : Text
  pub asset_class : AssetClass
  pub multiplier : Option Quantity
  pub underlying_id : Option InstrumentId
  pub expiry : Option Date
  pub strike : Option Price
  pub option_right : Option OptionRight

-- `maybe == id`, where `maybe` may be `None`.
abbrev pub is_id :
    {EntityTag : Type 0} → Option (Identifier EntityTag) → Identifier EntityTag → Bool
is_id none id = false
is_id (some this) id = id_eq this id

abbrev pub multiplier_not_positive : Option Quantity → Bool
multiplier_not_positive none = false
multiplier_not_positive (some m) = is_not_positive m.value

abbrev pub is_option : AssetClass → Bool
is_option AssetClass.option = true
is_option _ = false

unfoldable pub instrument_post_init : Instrument → Result Instrument
instrument_post_init self = do
  require_text self.name "instrument name" 240
  raise_if (multiplier_not_positive self.multiplier)
      (value_error "instrument multiplier must be positive")
  raise_if (is_id self.underlying_id self.id)
      (value_error "instrument cannot be its own underlying")
  let absent = is_none self.expiry || is_none self.strike || is_none self.option_right
  let present = is_some self.expiry || is_some self.strike || is_some self.option_right
  (if is_option self.asset_class
      then raise_if absent (value_error "option requires expiry, strike, and option right")
      else raise_if present (value_error "option terms are allowed only for options"))
  ok self

pub record Listing : Type 0 where
  pub id : ListingId
  pub instrument_id : InstrumentId
  pub symbol : Text
  pub venue : Text
  pub currency : Currency
  pub valid_from : Option Date
  pub valid_to : Option Date

-- `a is not None and b is not None and b < a`
abbrev pub ends_before : Option Date → Option Date → Bool
ends_before (some a) (some b) = ltb b a
ends_before _ _ = false

unfoldable pub listing_post_init : Listing → Result Listing
listing_post_init self = do
  require_text self.symbol "listing symbol" 64
  require_text self.venue "listing venue" 64
  raise_if (ends_before self.valid_from self.valid_to)
      (value_error "listing validity end cannot precede start")
  ok self

pub record BrokerInstrumentMapping : Type 0 where
  pub tenant_id : TenantId
  pub connection_id : BrokerConnectionId
  pub listing_id : ListingId
  pub external_id : ExternalIdentifier
  pub valid_from : Datetime
  pub valid_to : Option Datetime

mapping_end : Datetime → Datetime → Result Datetime
mapping_end valid_from end = do
  valid_to ← as_utc end "valid_to"
  raise_if (before valid_to valid_from) (value_error "mapping validity end cannot precede start")
  ok valid_to

unfoldable pub broker_instrument_mapping_post_init :
    BrokerInstrumentMapping → Result BrokerInstrumentMapping
unfolding mapping_end
broker_instrument_mapping_post_init self = do
  valid_from ← as_utc self.valid_from "valid_from"
  valid_to ← for_some self.valid_to (mapping_end valid_from)
  ok (record self { valid_from = valid_from; valid_to = valid_to })
