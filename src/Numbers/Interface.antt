-- ===== src/Numbers/Interface.antt =====
-- The operations of decimal.js and of a `numeric(30,8)` column, as the backend calls them.
use flow_pay.Prelude.{ℕ, Bool, Option}
use flow_pay.Prelude.Int.{ℤ}

pub record Numbers : Type 1 where
  pub Decimal : Type 0
  pub Numeral : Type 0
  -- `new Decimal(text)`; `none` where the constructor throws
  pub parse : Numeral → Option Decimal
  -- `new Decimal(n)` for a JavaScript integer
  pub of_int : ℤ → Decimal
  pub is_finite : Decimal → Bool
  pub is_negative : Decimal → Bool
  pub decimal_places : Decimal → ℕ
  -- the receiver stands first: `plus x y` is `x.plus(y)`
  pub plus : Decimal → Decimal → Decimal
  pub minus : Decimal → Decimal → Decimal
  pub times : Decimal → Decimal → Decimal
  pub divided_by : Decimal → Decimal → Decimal
  pub equals : Decimal → Decimal → Bool
  pub less_than_or_equal_to : Decimal → Decimal → Bool
  pub greater_than : Decimal → Decimal → Bool
  pub greater_than_or_equal_to : Decimal → Decimal → Bool
  -- `x.toDecimalPlaces(n, Decimal.ROUND_HALF_EVEN)`
  pub to_decimal_places : ℕ → Decimal → Decimal
  -- `x.toFixed(n)`
  pub to_fixed : ℕ → Decimal → Numeral
  -- storing a text in a `numeric(30,8)` column, in units of 10⁻⁸; `none` where Postgres refuses it
  pub numeric_in : Numeral → Option ℤ
  -- reading the column back
  pub numeric_out : ℤ → Numeral
  -- the value of a decimal in units of 10⁻⁸, by which the properties speak of it
  pub units : Decimal → ℤ
