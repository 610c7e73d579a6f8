-- ===== src/Numbers/Laws.antt =====
-- What the backend relies on: decimal.js works exactly on finite decimals of at most 8 places and
-- 20 significant digits (its default precision), and a `numeric(30,8)` column keeps such a value.
use flow_pay.Prelude.{ℕ, ◌^◌, ◌≤◌, ◌<◌, ◌+◌, ◌≡◌, true, false, some}
use flow_pay.Prelude.Int.{ℤ, pos, negsuc, ◌+ℤ◌, ◌-ℤ◌, ◌≤ℤ◌, leb_ℤ, ltb_ℤ, beq_ℤ, magnitude}
use flow_pay.Numbers.Interface.{Numbers}

-- 20 significant digits, in units of 10⁻⁸: amounts below 10¹².
abbrev pub limit : ℕ
limit = 10 ^ 20

-- A decimal on which decimal.js computes exactly.
abbrev pub Fits : (n : Numbers) → n.Decimal → Type 0
Fits n x = (n.is_finite x ≡ true) × (n.decimal_places x ≤ 8) × (magnitude (n.units x) < limit)

pub record IsExact (n : Numbers) : Type 0 where
  pub of_int_zero : Fits n (n.of_int (pos 0)) × (n.units (n.of_int (pos 0)) ≡ pos 0)
  pub plus_exact :
      (x y : n.Decimal)
      → Fits n x
      → Fits n y
      → magnitude (n.units x) + magnitude (n.units y) < limit
      → Fits n (n.plus x y) × (n.units (n.plus x y) ≡ n.units x +ℤ n.units y)
  pub times_one :
      (x : n.Decimal)
      → Fits n x
      → Fits n (n.times x (n.of_int (pos 1))) × (n.units (n.times x (n.of_int (pos 1))) ≡ n.units x)
  pub times_minus_one :
      (x : n.Decimal)
      → Fits n x
      → Fits n (n.times x (n.of_int (negsuc 0)))
        × (n.units (n.times x (n.of_int (negsuc 0))) ≡ pos 0 -ℤ n.units x)
  pub equals_exact :
      (x y : n.Decimal) → Fits n x → Fits n y → n.equals x y ≡ beq_ℤ (n.units x) (n.units y)
  pub lte_exact :
      (x y : n.Decimal)
      → Fits n x
      → Fits n y
      → n.less_than_or_equal_to x y ≡ leb_ℤ (n.units x) (n.units y)
  pub gt_exact :
      (x y : n.Decimal) → Fits n x → Fits n y → n.greater_than x y ≡ ltb_ℤ (n.units y) (n.units x)
  -- the sign of a zero is left open
  pub is_negative_exact : (x : n.Decimal) → Fits n x → n.is_negative x ≡ false → pos 0 ≤ℤ n.units x
  -- a positive amount with more digits than 20 is at least `limit`
  pub parse_numeric :
      (s : n.Numeral) (x : n.Decimal)
      → n.parse s ≡ some x
      → Fits n x
      → n.numeric_in s ≡ some (n.units x)
  pub parse_column :
      (z : ℤ)
      → magnitude z < limit
      → (x : n.Decimal) × (n.parse (n.numeric_out z) ≡ some x) × Fits n x × (n.units x ≡ z)
  pub fixed_numeric : (x : n.Decimal) → Fits n x → n.numeric_in (n.to_fixed 8 x) ≡ some (n.units x)
