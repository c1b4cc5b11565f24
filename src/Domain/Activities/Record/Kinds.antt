-- ===== src/Domain/Activities/Record/Kinds.antt =====
-- domain/activities.py: the legs and the metadata that each kind of activity must have.
use portfolio_manager.Domain.Activities.{
  instrument_leg, cash_leg, ActivityKind, ActivityLeg, CashLeg, CashLegRole, InstrumentLegRole,
}
use portfolio_manager.Base.{
  List, [], arith, contains, false, is_some, length, length-map, length-set_of-le,
  length-set_of-two, ltb, map, none, ok, true, ◌↔◌, ◌∷◌, ◌≡◌, ◌⊎◌, refl,
}
use portfolio_manager.Domain.Activities.Record.{
  Activity, cash_legs_of, currency_count, validate_leg_shape,
}
use portfolio_manager.Domain.Activities.Record.Shape.{
  HasCash, HasInstrument, currency_eq_iff, cash_legs-HasCash, has_role-HasCash,
  instrument_legs-HasInstrument, transfer_role-HasInstrument,
}
use portfolio_manager.Domain.Numeric.{Currency, currency_eq}

-- Two cash legs are in different currencies.
abbrev pub HasTwoCurrencies : List ActivityLeg → Type 0
HasTwoCurrencies legs =
    (c : Currency) × (d : Currency) × HasCash (λ l. c ≡ l.money.currency) legs
    × HasCash (λ l. d ≡ l.money.currency) legs
    × (currency_eq c d ≡ false)

contains-currency :
    (c : Currency) (legs : List ActivityLeg)
    → (contains currency_eq c (map (λ l. l.money.currency) (cash_legs_of legs)) ≡ true)
      ↔ HasCash (λ l. c ≡ l.money.currency) legs
unfolding contains cash_legs_of
contains-currency c [] = ground arith
contains-currency c (instrument_leg l ∷ legs) = contains-currency c legs
contains-currency c (cash_leg l ∷ legs) =
    ground (arith, contains-currency c legs, currency_eq_iff c l.money.currency)

currency_count-HasTwoCurrencies :
    (legs : List ActivityLeg)
    → (ltb (currency_count (cash_legs_of legs)) 2 ≡ false) ↔ HasTwoCurrencies legs
unfolding currency_count
currency_count-HasTwoCurrencies legs =
    let two =
      length-set_of-two currency_eq currency_eq_iff
        (map (λ l. l.money.currency) (cash_legs_of legs)) in
    (
      λ h.
          let (c, d, p, q, ne) = two.0 h in
          (c, d, (contains-currency c legs).0 p, (contains-currency d legs).0 q, ne),
      λ (c, d, p, q, ne).
          two.1 (c, d, (contains-currency c legs).1 p, (contains-currency d legs).1 q, ne),
    )

-- The first of the two tests for an FX conversion follows from the second.
cash_legs-two :
    (legs : List CashLeg) → ltb (currency_count legs) 2 ≡ false → ltb (length legs) 2 ≡ false
unfolding currency_count
cash_legs-two legs h = ground (
  arith,
  length-set_of-le currency_eq currency_eq_iff (map (λ l. l.money.currency) legs),
  length-map (λ (l : CashLeg). l.money.currency) legs,
)

-- The legs that a kind of activity must have.
abbrev pub LegsOf : ActivityKind → List ActivityLeg → Type 0
LegsOf ActivityKind.trade legs = HasInstrument (λ l. Unit {0}) legs × HasCash (λ l. Unit {0}) legs
LegsOf ActivityKind.deposit legs = HasCash (λ l. CashLegRole.principal ≡ l.role) legs
LegsOf ActivityKind.withdrawal legs = HasCash (λ l. CashLegRole.principal ≡ l.role) legs
LegsOf ActivityKind.dividend legs = HasCash (λ l. CashLegRole.income ≡ l.role) legs
LegsOf ActivityKind.interest legs = HasCash (λ l. CashLegRole.income ≡ l.role) legs
LegsOf ActivityKind.fee legs = HasCash (λ l. CashLegRole.fee ≡ l.role) legs
LegsOf ActivityKind.tax legs = HasCash (λ l. CashLegRole.tax ≡ l.role) legs
LegsOf ActivityKind.transfer legs =
    HasCash (λ l. CashLegRole.transfer ≡ l.role) legs
    ⊎ HasInstrument (λ l. l.role ≡ InstrumentLegRole.transfer) legs
LegsOf ActivityKind.fx_conversion legs = HasTwoCurrencies legs
LegsOf ActivityKind.corporate_action legs = HasInstrument (λ l. Unit {0}) legs

-- Transfer metadata stands on transfers alone, and there all of it does; the subtype stands on
-- corporate actions alone, and always there.
abbrev pub MetadataOf : ActivityKind → Activity → Type 0
MetadataOf ActivityKind.transfer a =
    (is_some a.transfer_id ≡ true)
    × (is_some a.transfer_direction ≡ true)
    × (is_some a.transfer_method ≡ true)
    × (a.corporate_action_type ≡ none)
MetadataOf ActivityKind.corporate_action a =
    (a.transfer_id ≡ none)
    × (a.transfer_direction ≡ none)
    × (a.transfer_method ≡ none)
    × (is_some a.corporate_action_type ≡ true)
MetadataOf _ a =
    (a.transfer_id ≡ none)
    × (a.transfer_direction ≡ none)
    × (a.transfer_method ≡ none)
    × (a.corporate_action_type ≡ none)

shape_of :
    (k : ActivityKind) (a : Activity)
    → a.kind ≡ k
    → (validate_leg_shape a ≡ ok tt) ↔ (LegsOf k a.legs × MetadataOf k a)
unfolding validate_leg_shape
shape_of ActivityKind.trade a e =
    ground (arith, cash_legs-HasCash a.legs, instrument_legs-HasInstrument a.legs)
shape_of ActivityKind.deposit a e = ground (arith, has_role-HasCash CashLegRole.principal a.legs)
shape_of ActivityKind.withdrawal a e = ground (arith, has_role-HasCash CashLegRole.principal a.legs)
shape_of ActivityKind.dividend a e = ground (arith, has_role-HasCash CashLegRole.income a.legs)
shape_of ActivityKind.interest a e = ground (arith, has_role-HasCash CashLegRole.income a.legs)
shape_of ActivityKind.fee a e = ground (arith, has_role-HasCash CashLegRole.fee a.legs)
shape_of ActivityKind.tax a e = ground (arith, has_role-HasCash CashLegRole.tax a.legs)
shape_of ActivityKind.transfer a e =
    ground (arith, has_role-HasCash CashLegRole.transfer a.legs, transfer_role-HasInstrument a.legs)
shape_of ActivityKind.fx_conversion a e =
    ground (arith, currency_count-HasTwoCurrencies a.legs, cash_legs-two (cash_legs_of a.legs))
shape_of ActivityKind.corporate_action a e = ground (arith, instrument_legs-HasInstrument a.legs)

pub validate_leg_shape_iff :
    (a : Activity) → (validate_leg_shape a ≡ ok tt) ↔ (LegsOf a.kind a.legs × MetadataOf a.kind a)
validate_leg_shape_iff a = shape_of a.kind a refl

-- Every kind asks for some leg.
pub LegsOf-nil : (k : ActivityKind) → ¬ (LegsOf k [])
LegsOf-nil ActivityKind.trade h = h.0
LegsOf-nil ActivityKind.fx_conversion (c, d, p, q, ne) = p
LegsOf-nil ActivityKind.transfer h = ground arith
LegsOf-nil _ h = h
