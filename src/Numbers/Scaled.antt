-- ===== src/Numbers/Scaled.antt =====
-- The interface is met by counts of 10⁻⁸: a decimal is its number of units, and a text is either
-- the count that it spells or no number at all.
use flow_pay.Prelude.{
  ℕ, suc, ◌+◌, ◌*◌, ◌/◌, ◌%◌, ◌^◌, ◌-◌, ◌≡◌, refl, true, Option, some, arith, ltb, nat_beq,
  if◌then◌else◌,
}
use flow_pay.Prelude.Int.{
  ℤ, pos, negsuc, pos_part, neg_part, sub_ℕ, ◌+ℤ◌, ◌-ℤ◌, leb_ℤ, ltb_ℤ, beq_ℤ, magnitude,
  magnitude-+ℤ, magnitude-neg, int_laws,
}
use flow_pay.Numbers.Interface.{Numbers}
use flow_pay.Numbers.Laws.{IsExact}

-- a / b to the nearest number, and to the even one from the middle; 0 for b = 0
abbrev half_even : ℕ → ℕ → ℕ
half_even a b =
    let q = a / b in
    let r = a % b in
    if ltb (2 * r) b
    then q
    else if ltb b (2 * r)
    then q + 1
    else if nat_beq (q % 2) 0
    then q
    else q + 1

abbrev with_sign : ℤ → (ℕ → ℕ) → ℤ
with_sign (pos a) f = pos (f a)
with_sign (negsuc a) f = sub_ℕ 0 (f (suc a))

abbrev times_units : ℤ → ℤ → ℤ
times_units x y =
    sub_ℕ ((pos_part x * pos_part y + neg_part x * neg_part y) / 10 ^ 8)
      ((pos_part x * neg_part y + neg_part x * pos_part y) / 10 ^ 8)

abbrev divided_units : ℤ → ℤ → ℤ
divided_units x y = with_sign x (λ a. a * 10 ^ 8 / magnitude y)

abbrev round_units : ℕ → ℤ → ℤ
round_units places x = with_sign x (λ a. half_even a (10 ^ (8 - places)) * 10 ^ (8 - places))

abbrev pub scaled : Numbers
scaled = record {
  Decimal = ℤ;
  Numeral = Option ℤ;
  parse = λ s. s;
  of_int = λ z. with_sign z (λ a. a * 10 ^ 8);
  is_finite = λ x. true;
  is_negative = λ x. ltb_ℤ x (pos 0);
  decimal_places = λ x. 8;
  plus = ◌+ℤ◌;
  minus = ◌-ℤ◌;
  times = times_units;
  divided_by = divided_units;
  equals = beq_ℤ;
  less_than_or_equal_to = leb_ℤ;
  greater_than = λ x y. ltb_ℤ y x;
  greater_than_or_equal_to = λ x y. leb_ℤ y x;
  to_decimal_places = round_units;
  to_fixed = λ places x. some x;
  numeric_in = λ s. s;
  numeric_out = λ z. some z;
  units = λ x. x;
}

one_units : (x : ℤ) → times_units x (pos (10 ^ 8)) ≡ x
one_units (pos a) = ground arith
one_units (negsuc a) = ground arith

minus_one_units : (x : ℤ) → times_units x (sub_ℕ 0 (10 ^ 8)) ≡ pos 0 -ℤ x
unfolding ◌-ℤ◌
minus_one_units (pos a) = ground arith
minus_one_units (negsuc a) = ground arith

-- The assumptions on the two libraries can be met.
pub scaled-IsExact : IsExact scaled
scaled-IsExact = record {
  of_int_zero = ground arith;
  plus_exact = λ x y f g h. ((refl, omega arith, omega (arith, magnitude-+ℤ x y)), refl);
  times_one = λ x f. ((refl, omega arith, rw (one_units x) f.2), one_units x);
  times_minus_one = λ x f. (
    (refl, omega arith, rw (minus_one_units x) (omega (int_laws, f.2, magnitude-neg x))),
    minus_one_units x,
  );
  equals_exact = λ x y f g. refl;
  lte_exact = λ x y f g. refl;
  gt_exact = λ x y f g. refl;
  is_negative_exact = λ x f h. ground arith;
  parse_numeric = λ s x e f. e;
  parse_column = λ z h. (z, refl, (refl, omega arith, h), refl);
  fixed_numeric = λ x f. refl;
}
