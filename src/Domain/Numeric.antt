-- ===== src/Domain/Numeric.antt =====
-- domain/numeric.py: exact numbers. The test that a value is a `Decimal` at all is the type here.
-- Reading a `Decimal` from text is not modelled.
use portfolio_manager.Base.{
  Bool, Result, String, Text, false, is_alpha, is_ascii, length, not, ok, raise_if, text_eq, true,
  upper, value_error, ℕ, ℤ, ◌&&◌, ◌<>◌, ◌==◌, ◌>>◌, ◌||◌,
}

-- A `Decimal`: a sign and coefficient with an exponent of ten, an infinity, or a NaN.
pub data Decimal : Type 0 where
  finite : Bool → ℕ → ℤ → Decimal
  infinity : Bool → Decimal
  nan : Decimal

unfoldable pub is_finite : Decimal → Bool
is_finite (finite sign coefficient exponent) = true
is_finite (infinity sign) = false
is_finite nan = false

-- `value < 0` and `value <= 0` of a finite number: -0 is not less than 0.
unfoldable pub is_negative : Decimal → Bool
is_negative (finite sign coefficient exponent) = sign && not (coefficient == 0)
is_negative (infinity sign) = sign
is_negative nan = false

unfoldable pub is_not_positive : Decimal → Bool
is_not_positive (finite sign coefficient exponent) = sign || coefficient == 0
is_not_positive (infinity sign) = sign
is_not_positive nan = false

unfoldable pub require_finite : Decimal → String → Result (Unit {0})
require_finite value field_name =
    raise_if (not (is_finite value)) (value_error (field_name <> " must be finite"))

pub record Currency : Type 0 where
  pub code : Text

abbrev pub currency_eq : Currency → Currency → Bool
currency_eq a b = text_eq a.code b.code

unfoldable pub currency_post_init : Currency → Result Currency
currency_post_init self = do
  raise_if (not (length self.code == 3) || not (is_ascii self.code) || not (is_alpha self.code))
      (value_error "currency code must contain three ASCII letters")
  raise_if (not (text_eq self.code (upper self.code)))
      (value_error "currency code must be uppercase")
  ok self

pub record Money : Type 0 where
  pub amount : Decimal
  pub currency : Currency

unfoldable pub money_post_init : Money → Result Money
money_post_init self = do require_finite self.amount "money amount"; ok self

pub record Quantity : Type 0 where
  pub value : Decimal

unfoldable pub quantity_post_init : Quantity → Result Quantity
quantity_post_init self = do require_finite self.value "quantity"; ok self

pub record Price : Type 0 where
  pub value : Decimal
  pub currency : Currency

unfoldable pub price_post_init : Price → Result Price
price_post_init self = do
  require_finite self.value "price"
  raise_if (is_negative self.value) (value_error "price cannot be negative")
  ok self

pub record FxRate : Type 0 where
  pub value : Decimal
  pub base_currency : Currency
  pub quote_currency : Currency

unfoldable pub fx_rate_post_init : FxRate → Result FxRate
fx_rate_post_init self = do
  require_finite self.value "FX rate"
  raise_if (is_not_positive self.value) (value_error "FX rate must be positive")
  ok self
