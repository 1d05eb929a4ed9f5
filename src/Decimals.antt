-- ===== src/Decimals.antt =====
-- Code: src/common/helpers/decimal-utils.js.
-- A JavaScript number that holds a tonnage is an integer: the count of a fixed decimal unit of a
-- tonne (0.01 t, say). decimal.js is a parameter: its type, its conversions and its operations,
-- with its documented behaviour, exact addition and subtraction within its 34 digits.
use epr_backend.Prelude.{◌≡◌, refl, ap₂, ◌∙◌, ℤ, pos, ◌+ℤ◌, ◌-ℤ◌}

pub record DecimalArithmetic : Type 1 where
  pub Decimal : Type 0
  -- `new ConfiguredDecimal(n)`, `x.toNumber()`, `x.plus(y)`, `x.minus(y)`
  pub of_number : ℤ → Decimal
  pub as_number : Decimal → ℤ
  pub plus : Decimal → Decimal → Decimal
  pub minus : Decimal → Decimal → Decimal
  pub of_number_exact : (n : ℤ) → as_number (of_number n) ≡ n
  pub plus_exact : (x y : Decimal) → as_number (plus x y) ≡ as_number x +ℤ as_number y
  pub minus_exact : (x y : Decimal) → as_number (minus x y) ≡ as_number x -ℤ as_number y

module _ ⦃d : DecimalArithmetic⦄ where
  -- `DecimalValue | null`: what the helpers accept.
  pub data DecimalValue : Type 0 where
    absent : DecimalValue
    number : ℤ → DecimalValue
    decimal : d.Decimal → DecimalValue

  unfoldable pub to_decimal : DecimalValue → d.Decimal
  to_decimal absent = d.of_number (pos 0)
  to_decimal (number n) = d.of_number n
  to_decimal (decimal x) = x

  abbrev pub to_number : DecimalValue → ℤ
  to_number absent = pos 0
  to_number (number n) = n
  to_number (decimal x) = d.as_number x

  unfoldable pub add : DecimalValue → DecimalValue → d.Decimal
  add a b = d.plus (to_decimal a) (to_decimal b)

  unfoldable pub subtract : DecimalValue → DecimalValue → d.Decimal
  subtract a b = d.minus (to_decimal a) (to_decimal b)

  to_decimal_lem : (v : DecimalValue) → d.as_number (to_decimal v) ≡ to_number v
  unfolding to_decimal
  to_decimal_lem absent = d.of_number_exact (pos 0)
  to_decimal_lem (number n) = d.of_number_exact n
  to_decimal_lem (decimal x) = refl

  pub add_lem : (a b : DecimalValue) → d.as_number (add a b) ≡ to_number a +ℤ to_number b
  unfolding add
  add_lem a b = d.plus_exact _ _ ∙ ap₂ ◌+ℤ◌ (to_decimal_lem a) (to_decimal_lem b)

  pub subtract_lem : (a b : DecimalValue) → d.as_number (subtract a b) ≡ to_number a -ℤ to_number b
  unfolding subtract
  subtract_lem a b = d.minus_exact _ _ ∙ ap₂ ◌-ℤ◌ (to_decimal_lem a) (to_decimal_lem b)

-- decimal.js with integers for its numbers: the parameter can be met.
abbrev pub exact_decimals : DecimalArithmetic
exact_decimals = record {
  Decimal = ℤ;
  of_number = λ n. n;
  as_number = λ n. n;
  plus = ◌+ℤ◌;
  minus = ◌-ℤ◌;
  of_number_exact = λ n. refl;
  plus_exact = λ x y. refl;
  minus_exact = λ x y. refl;
}
