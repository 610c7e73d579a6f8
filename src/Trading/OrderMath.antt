-- ===== src/Trading/OrderMath.antt =====
-- backend/src/trading/order-math.util.ts
use flow_pay.Prelude.{ℕ, Option, none, some, if◌then◌else◌}
use flow_pay.Prelude.Text.{Text}
use flow_pay.Numbers.{Numbers}
use flow_pay.Db.{OrderSide, is_buy}

abbrev pub hold_currency_code : OrderSide → Text → Text → Text
hold_currency_code side base_code quote_code = if is_buy side then quote_code else base_code

module _ (n : Numbers) where
  open n use {Numeral}

  -- `new Decimal(text).toDecimalPlaces(places, ROUND_HALF_EVEN).toFixed(places)`
  abbrev pub rounded : ℕ → Numeral → Option Numeral
  rounded places text = elim (n.parse text) [
    | none ↦ none
    | some x ↦ some (n.to_fixed places (n.to_decimal_places places x))
  ]

  -- the same of a product
  abbrev pub rounded_product : ℕ → Numeral → Numeral → Option Numeral
  rounded_product places quantity price = elim (n.parse quantity) [
    | none ↦ none
    | some x ↦ elim (n.parse price) [
      | none ↦ none
      | some y ↦ some (n.to_fixed places (n.to_decimal_places places (n.times x y)))
    ]
  ]

  -- `none` where decimal.js throws
  abbrev pub compute_hold_amount : OrderSide → Numeral → Numeral → ℕ → ℕ → Option Numeral
  compute_hold_amount side quantity limit_price base_decimals quote_decimals =
      if is_buy side
      then rounded_product quote_decimals quantity limit_price
      else rounded base_decimals quantity
