-- ===== src/Domain/Activities/Record/Shape.antt =====
-- domain/activities.py: the legs that an activity has, told by what stands in the list.
use portfolio_manager.Domain.Activities.{
  instrument_leg, cash_leg, ActivityLeg, CashLeg, CashLegRole, InstrumentLeg, InstrumentLegRole,
  cash_role_eq,
}
use portfolio_manager.Base.{
  List, [], any, ap, arith, contains, contains-set_of, false, inl, is_empty, map, refl, true, ◌↔◌,
  ◌∷◌, ◌≡◌, ◌⊎◌,
}
use portfolio_manager.Base.Texts.Strip.{text_eq_iff}
use portfolio_manager.Domain.Activities.Record.{
  cash_legs_of, has_role, instrument_legs_of, is_transfer_role,
}
use portfolio_manager.Domain.Numeric.{Currency, currency_eq}

pub cash_role_eq_iff : (a b : CashLegRole) → (cash_role_eq a b ≡ true) ↔ (a ≡ b)
unfolding cash_role_eq
cash_role_eq_iff a b = ground arith

pub currency_eq_iff : (a b : Currency) → (currency_eq a b ≡ true) ↔ (a ≡ b)
currency_eq_iff a b = (
  λ h. let e = (text_eq_iff a.code b.code).0 h in λ i. record { code = e i },
  λ e. (text_eq_iff a.code b.code).1 (ap (λ (c : Currency). c.code) e),
)

-- Some cash leg meets `P`; some instrument leg meets `P`.
abbrev pub HasCash : (CashLeg → Type 0) → List ActivityLeg → Type 0
HasCash P [] = ⊥
HasCash P (instrument_leg l ∷ legs) = HasCash P legs
HasCash P (cash_leg l ∷ legs) = P l ⊎ HasCash P legs

abbrev pub HasInstrument : (InstrumentLeg → Type 0) → List ActivityLeg → Type 0
HasInstrument P [] = ⊥
HasInstrument P (instrument_leg l ∷ legs) = P l ⊎ HasInstrument P legs
HasInstrument P (cash_leg l ∷ legs) = HasInstrument P legs

pub cash_legs-HasCash :
    (legs : List ActivityLeg)
    → (is_empty (cash_legs_of legs) ≡ false) ↔ HasCash (λ l. Unit {0}) legs
unfolding cash_legs_of
cash_legs-HasCash [] = ground arith
cash_legs-HasCash (instrument_leg l ∷ legs) = cash_legs-HasCash legs
cash_legs-HasCash (cash_leg l ∷ legs) = (λ h. inl tt, λ h. refl)

pub instrument_legs-HasInstrument :
    (legs : List ActivityLeg)
    → (is_empty (instrument_legs_of legs) ≡ false) ↔ HasInstrument (λ l. Unit {0}) legs
unfolding instrument_legs_of
instrument_legs-HasInstrument [] = ground arith
instrument_legs-HasInstrument (instrument_leg l ∷ legs) = (λ h. inl tt, λ h. refl)
instrument_legs-HasInstrument (cash_leg l ∷ legs) = instrument_legs-HasInstrument legs

contains-HasCash :
    (role : CashLegRole) (legs : List ActivityLeg)
    → (contains cash_role_eq role (map (λ l. l.role) (cash_legs_of legs)) ≡ true)
      ↔ HasCash (λ l. role ≡ l.role) legs
unfolding contains cash_legs_of
contains-HasCash role [] = ground arith
contains-HasCash role (instrument_leg l ∷ legs) = contains-HasCash role legs
contains-HasCash role (cash_leg l ∷ legs) =
    ground (arith, contains-HasCash role legs, cash_role_eq_iff role l.role)

pub has_role-HasCash :
    (role : CashLegRole) (legs : List ActivityLeg)
    → (has_role role (cash_legs_of legs) ≡ true) ↔ HasCash (λ l. role ≡ l.role) legs
unfolding has_role
has_role-HasCash role legs =
    rw (contains-set_of cash_role_eq cash_role_eq_iff) (contains-HasCash role legs)

pub transfer_role-HasInstrument :
    (legs : List ActivityLeg)
    → (any (λ l. is_transfer_role l.role) (instrument_legs_of legs) ≡ true)
      ↔ HasInstrument (λ l. l.role ≡ InstrumentLegRole.transfer) legs
unfolding any instrument_legs_of
transfer_role-HasInstrument [] = ground arith
transfer_role-HasInstrument (instrument_leg l ∷ legs) =
    ground (arith, transfer_role-HasInstrument legs)
transfer_role-HasInstrument (cash_leg l ∷ legs) = transfer_role-HasInstrument legs
