-- ===== src/Backend/Orders.antt =====
-- What a call on an order leaves when it throws: backend/src/trading/trading.service.ts.
use flow_pay.Prelude.{
  ℕ, false, arith, inl, inr, Option-cases, find, ◌==◌, nat_eq, not, ◌≡◌, refl, sym, ap, ◌∙◌, List,
  [], ◌∷◌, select,
}
use flow_pay.Prelude.Text.{Text, text_eq}
use flow_pay.Numbers.{Numbers}
use flow_pay.Exec.{ok, Result, internal, not_found, conflict, unprocessable}
use flow_pay.Db.{Db, Currency, Order, OrderSide, is_market, is_open}
use flow_pay.TradeExecution.{ExecuteSwapInput}
use flow_pay.Trading.{
  CreateOrderDto, ParsedPair, split_pair, both_currencies, pair_currencies, resolve_pair, rounded,
  compute_hold_amount, stored_hold, limit_text, execute_market_order, place_hold, place_limit_order,
  create_order, find_cancellable, find_fillable, cancel_found, release_hold, cancel_order, crossed,
  fill_crossed, fill_swap, rounded_product, run_fill, fill_at_rate, fill_open_order, try_fill,
  fill_each, scan_and_fill_open_orders, fillable,
}
use flow_pay.Backend.Failing.{
  Fails, IsOpening, transaction-Fails, bind-Fails, bind-IsOpening, or_throw-IsOpening,
  get_currency-IsOpening, ensure_accounts-IsOpening, lift-IsOpening, gets-IsOpening,
  throw_if-IsOpening, pure-IsOpening, if-Fails,
}
use flow_pay.Backend.Payments.{open_accounts-IsOpening}

module _ (n : Numbers) where
  both_currencies-IsOpening : (base quote : Text) → IsOpening (both_currencies base quote)
  unfolding both_currencies
  both_currencies-IsOpening base quote =
      bind-IsOpening _ _ (get_currency-IsOpening base)
        (λ b. bind-IsOpening _ _ (get_currency-IsOpening quote) (λ q. pure-IsOpening _))

  pair_currencies-IsOpening : (pair : Text) → IsOpening (pair_currencies pair)
  unfolding pair_currencies
  pair_currencies-IsOpening pair =
      bind-IsOpening _ _ (lift-IsOpening (split_pair pair))
        (λ parsed. both_currencies-IsOpening parsed.base_code parsed.quote_code)

  resolve_pair-IsOpening : (pair : Text) → IsOpening (resolve_pair pair)
  unfolding resolve_pair
  resolve_pair-IsOpening pair = bind-IsOpening _ _ (pair_currencies-IsOpening pair) (λ p.
      bind-IsOpening _ _ (throw_if-IsOpening (p.base.code == p.quote.code) unprocessable)
        (λ z. pure-IsOpening p))

  execute_market_order-Fails :
      (rates : Text → Text → Result n.Decimal) (user : ℕ) (base quote : Currency)
      (dto : CreateOrderDto n)
      → Fails (execute_market_order n rates user base quote dto)
  unfolding execute_market_order
  execute_market_order-Fails rates user base quote dto =
      bind-Fails _ _ (lift-IsOpening (rates base.code quote.code)) (λ rate.
        bind-Fails _ _ (or_throw-IsOpening (n.parse dto.quantity) internal)
          (λ asked. bind-Fails _ _ (open_accounts-IsOpening n _) (λ accounts. transaction-Fails _)))

  place_hold-Fails :
      (user : ℕ) (pair : Text) (side : OrderSide) (quantity price : n.Numeral) (code : Text)
      (hold : n.Numeral)
      → Fails (place_hold n user pair side quantity price code hold)
  unfolding place_hold
  place_hold-Fails user pair side quantity price code hold =
      bind-Fails _ _ (ensure_accounts-IsOpening _ _) (λ accounts. transaction-Fails _)

  place_limit_order-Fails :
      (user : ℕ) (base quote : Currency) (dto : CreateOrderDto n)
      → Fails (place_limit_order n user base quote dto)
  unfolding place_limit_order
  place_limit_order-Fails user base quote dto =
      bind-Fails _ _ (or_throw-IsOpening (rounded n base.decimals dto.quantity) internal)
        (λ quantity. bind-Fails _ _ (or_throw-IsOpening dto.limit_price internal) (λ asked.
          bind-Fails _ _ (or_throw-IsOpening (rounded n quote.decimals asked) internal) (λ price.
            bind-Fails _ _
              (or_throw-IsOpening
                (compute_hold_amount n dto.side quantity price base.decimals quote.decimals)
                internal)
              (λ hold. place_hold-Fails user _ dto.side quantity price _ hold))))

  pub create_order-Fails :
      (rates : Text → Text → Result n.Decimal) (user : ℕ) (dto : CreateOrderDto n)
      → Fails (create_order n rates user dto)
  unfolding create_order
  create_order-Fails rates user dto = bind-Fails _ _ (resolve_pair-IsOpening dto.pair) (λ p.
      if-Fails (is_market dto.order_type) _ _
        (execute_market_order-Fails rates user p.base p.quote dto)
        (place_limit_order-Fails user p.base p.quote dto))

  find_cancellable-IsOpening : (user id : ℕ) → IsOpening (find_cancellable user id)
  unfolding find_cancellable
  find_cancellable-IsOpening user id =
      bind-IsOpening _ _ (gets-IsOpening (λ db. find (λ o. o.id == id) db.orders)) (λ found.
        bind-IsOpening _ _ (or_throw-IsOpening found not_found) (λ order.
          bind-IsOpening _ _ (throw_if-IsOpening (not (order.user_id == user)) not_found) (λ y.
            bind-IsOpening _ _ (throw_if-IsOpening (not (is_open order.status)) conflict)
              (λ z. pure-IsOpening order))))

  pub cancel_order-Fails : (user id : ℕ) → Fails (cancel_order n user id)
  unfolding cancel_order cancel_found release_hold
  cancel_order-Fails user id = bind-Fails _ _ (find_cancellable-IsOpening user id) (λ order.
      bind-Fails _ _ (pair_currencies-IsOpening order.pair) (λ p.
        bind-Fails _ _ (or_throw-IsOpening (stored_hold n order p.base p.quote) internal) (λ hold.
          bind-Fails _ _ (ensure_accounts-IsOpening _ _) (λ accounts. transaction-Fails _))))

  run_fill-Fails :
      (order : Order) (quote : Currency) (price : n.Decimal) (i : ExecuteSwapInput n)
      → Fails (run_fill n order quote price i)
  unfolding run_fill
  run_fill-Fails order quote price i =
      bind-Fails _ _ (open_accounts-IsOpening n i) (λ accounts. transaction-Fails _)

  fill_crossed-Fails :
      (order : Order) (parsed : ParsedPair) (numeral : n.Numeral) (price : n.Decimal)
      → Fails (fill_crossed n order parsed numeral price)
  unfolding fill_crossed
  fill_crossed-Fails order parsed numeral price =
      bind-Fails _ _ (both_currencies-IsOpening parsed.base_code parsed.quote_code) (λ p.
        bind-Fails _ _
          (or_throw-IsOpening
            (compute_hold_amount n order.side (n.numeric_out order.quantity) numeral p.base.decimals
              p.quote.decimals)
            internal)
          (λ hold.
            bind-Fails _ _
              (or_throw-IsOpening
                (rounded_product n p.quote.decimals (n.numeric_out order.quantity) numeral)
                internal)
              (λ quote.
                run_fill-Fails order p.quote price (fill_swap n order p.base p.quote hold quote))))

  fill_open_order-Fails :
      (rates : Text → Text → Result n.Decimal) (order : Order)
      → Fails (fill_open_order n rates order)
  unfolding fill_open_order fill_at_rate
  fill_open_order-Fails rates order =
      bind-Fails _ _ (lift-IsOpening (split_pair order.pair)) (λ parsed.
        bind-Fails _ _ (lift-IsOpening (rates parsed.base_code parsed.quote_code)) (λ rate.
          bind-Fails _ _ (or_throw-IsOpening (limit_text n order) internal) (λ numeral.
            bind-Fails _ _ (or_throw-IsOpening (n.parse numeral) internal) (λ price.
              if-Fails (crossed n order rate price) _ _
                (fill_crossed-Fails order parsed numeral price) (pure-IsOpening false).fails))))

  pub try_fill-Fails :
      (rates : Text → Text → Result n.Decimal) (id : ℕ) → Fails (try_fill n rates id)
  unfolding try_fill
  try_fill-Fails rates id db e db' h ran = elim (Option-cases (find_fillable id db)) [
    | inl absent ↦ ground (arith, absent, ran)
    | inr (order, found) ↦ fill_open_order-Fails rates order db e db' h (ground (arith, found, ran))
  ]

  fill_each-eq :
      (rates : Text → Text → Result n.Decimal) (rows : List Order) (db : Db)
      → (fill_each n rates rows db).0 ≡ ok tt
  unfolding fill_each
  fill_each-eq rates [] db = refl
  fill_each-eq rates (o ∷ rest) db = fill_each-eq rates rest (try_fill n rates o.id db).1

  -- the worker catches what a fill throws
  pub scan_and_fill_open_orders-Fails :
      (rates : Text → Text → Result n.Decimal) → Fails (scan_and_fill_open_orders n rates)
  unfolding scan_and_fill_open_orders
  scan_and_fill_open_orders-Fails rates db e db' h ran =
      let fine = fill_each-eq rates (select fillable db.orders) db in
      ground (arith, sym fine ∙ ap (λ q. q.0) ran)
