-- ===== src/Domain/Ownership/Instruments/Accepted.antt =====
-- domain/ownership.py: the instruments that `__post_init__` accepts, told without the code's tests.
use portfolio_manager.Domain.Identifiers.{Identifier}
use portfolio_manager.Domain.Ownership.{AssetClass, Date, OptionRight, require_text}
use portfolio_manager.Domain.Ownership.Instruments.{
  Instrument, instrument_post_init, is_id, is_option, multiplier_not_positive,
}
use portfolio_manager.Base.{
  Bool, Option, Result, arith, false, if◌then◌else◌, is_none, is_some, length, none, not_trimmed,
  ok, raise_if, refl, some, true, value_error, ◌||◌, ◌↔◌, ◌≡◌, ◌≢◌, ◌≤◌, >>=-eq-ok, ltb,
  raise_if-ok,
}
use portfolio_manager.Domain.Numeric.{Price, Quantity, is_not_positive}
use mathlib.Core.Option.{some-injective}

pub is_id_iff :
    {EntityTag : Type 0} (o : Option (Identifier EntityTag)) (id : Identifier EntityTag)
    → (is_id o id ≡ true) ↔ (o ≡ some id)
is_id_iff none id = (λ h. cc, λ h. cc)
is_id_iff (some x) id = ground arith

pub not_self-is_id :
    {EntityTag : Type 0} (o : Option (Identifier EntityTag)) (id : Identifier EntityTag)
    → o ≢ some id
    → is_id o id ≡ false
not_self-is_id o id h = ground (arith, is_id_iff o id)

-- The terms of an option, for an option alone.
abbrev pub HasTermsOf : AssetClass → Option Date → Option Price → Option OptionRight → Type 0
HasTermsOf AssetClass.option (some expiry) (some strike) (some right) = Unit
HasTermsOf AssetClass.option _ _ _ = ⊥
HasTermsOf _ none none none = Unit
HasTermsOf _ _ _ _ = ⊥

pub record IsInstrument (i : Instrument) : Type 0 where
  pub trimmed : not_trimmed i.name ≡ false
  pub short : length i.name ≤ 240
  pub multiplier : (m : Quantity) → i.multiplier ≡ some m → is_not_positive m.value ≡ false
  pub not_self : i.underlying_id ≢ some i.id
  pub terms : HasTermsOf i.asset_class i.expiry i.strike i.option_right

abbrev option_check : Bool → Option Date → Option Price → Option OptionRight → Result (Unit {0})
option_check is_option expiry strike option_right =
    if is_option
    then raise_if (is_none expiry || is_none strike || is_none option_right)
        (value_error "option requires expiry, strike, and option right")
    else raise_if (is_some expiry || is_some strike || is_some option_right)
        (value_error "option terms are allowed only for options")

option_terms :
    (e : Option Date) (s : Option Price) (r : Option OptionRight)
    → (option_check true e s r ≡ ok tt) ↔ HasTermsOf AssetClass.option e s r
option_terms none s r = (λ h. cc, λ h. absurd h)
option_terms (some e) none r = (λ h. cc, λ h. absurd h)
option_terms (some e) (some s) none = (λ h. cc, λ h. absurd h)
option_terms (some e) (some s) (some r) = (λ h. tt, λ h. refl)

no_terms :
    (c : AssetClass)
    → is_option c ≡ false
    → (e : Option Date) (s : Option Price) (r : Option OptionRight)
    → (option_check false e s r ≡ ok tt) ↔ HasTermsOf c e s r
no_terms AssetClass.option h e s r = cc
no_terms _ h none none none = (λ h. tt, λ h. refl)
no_terms _ h none none (some r) = (λ h. cc, λ h. absurd h)
no_terms _ h none (some s) r = (λ h. cc, λ h. absurd h)
no_terms _ h (some e) s r = (λ h. cc, λ h. absurd h)

terms_iff :
    (c : AssetClass) (e : Option Date) (s : Option Price) (r : Option OptionRight)
    → (option_check (is_option c) e s r ≡ ok tt) ↔ HasTermsOf c e s r
terms_iff AssetClass.option e s r = option_terms e s r
terms_iff c e s r = no_terms c refl e s r

multiplier_iff :
    (o : Option Quantity)
    → (multiplier_not_positive o ≡ false)
      ↔ ((m : Quantity) → o ≡ some m → is_not_positive m.value ≡ false)
multiplier_iff none = (λ h m e. cc, λ h. refl)
multiplier_iff (some x) = (λ h m e. rw (some-injective x m e) at h, λ h. h x refl)

instrument-IsInstrument : (i : Instrument) → instrument_post_init i ≡ ok i → IsInstrument i
unfolding instrument_post_init require_text
instrument-IsInstrument i h =
    let (_, a, h1) = >>=-eq-ok (require_text i.name "instrument name" 240) _ h in
    let (_, b, c) =
      >>=-eq-ok
        (raise_if (not_trimmed i.name)
          (value_error "instrument name must be non-empty and trimmed"))
        _ a in
    let short : ltb 240 (length i.name) ≡ false = raise_if-ok _ _ c in
    let (_, d, h2) =
      >>=-eq-ok
        (raise_if (multiplier_not_positive i.multiplier)
          (value_error "instrument multiplier must be positive"))
        _ h1 in
    let (_, e, h3) =
      >>=-eq-ok
        (raise_if (is_id i.underlying_id i.id)
          (value_error "instrument cannot be its own underlying"))
        _ h2 in
    let (_, f, _) =
      >>=-eq-ok (option_check (is_option i.asset_class) i.expiry i.strike i.option_right) _ h3 in
    record {
      trimmed = raise_if-ok _ _ b;
      short = ground (arith, short);
      multiplier = (multiplier_iff i.multiplier).0 (raise_if-ok _ _ d);
      not_self = λ same. cc (raise_if-ok _ _ e, (is_id_iff i.underlying_id i.id).1 same);
      terms = (terms_iff i.asset_class i.expiry i.strike i.option_right).0 f;
    }

-- `Instrument(…)` is accepted, and kept as it is, exactly when its name is trimmed, not empty and of at
-- most 240 characters, a multiplier is positive, it is not its own underlying, and an option has an
-- expiry, a strike and a right, while no other instrument has any of them.
pub instrument_iff : (i : Instrument) → (instrument_post_init i ≡ ok i) ↔ IsInstrument i
unfolding instrument_post_init require_text
instrument_iff i = (
  instrument-IsInstrument i,
  λ v.
      let short : ltb 240 (length i.name) ≡ false = ground (arith, v.short) in
      rw
        (
          v.trimmed,
          short,
          (multiplier_iff i.multiplier).1 v.multiplier,
          not_self-is_id i.underlying_id i.id v.not_self,
          (terms_iff i.asset_class i.expiry i.strike i.option_right).1 v.terms,
        )
        refl,
)
