-- ===== src/Backend/Book.antt =====
-- Calls on orders only add to the journal, to the outbox and to the orders, and cancel or fill an open
-- order at most: backend/src/trading.
use flow_pay.Prelude.{ℕ, true, none, some, List, [], ◌∷◌, ◌++◌, refl, nat_eq, ◌==◌}
use flow_pay.Prelude.Int.{ℤ}
use flow_pay.Prelude.Text.{Text, text_eq}
use flow_pay.Numbers.{Numbers}
use flow_pay.Exec.{Result, internal, unprocessable, modify}
use flow_pay.Db.{Db, Currency, Order, OrderSide, OrderType, OrderStatus, DomainEventType, is_market}
use flow_pay.Users.{email_of}
use flow_pay.TradeExecution.{SwapAccounts}
use flow_pay.Trading.{
  CreateOrderDto, MarketAmounts, market_amounts, split_pair, pair_text, both_currencies,
  pair_currencies, resolve_pair, rounded, compute_hold_amount, insert_order, record_market_order,
  execute_market_order, new_limit_order, hold_order, place_hold, place_limit_order, create_order,
}
use flow_pay.Backend.Keeping.{
  Keeps, bind-Keeps, transaction-Keeps, lift-Keeps, gets-Keeps, pure-Keeps, throw_if-Keeps,
  or_throw-Keeps, if-Keeps,
}
use flow_pay.Backend.Growing.{
  Extends-refl, posts, ensure_accounts-Keeps, fresh_id-Keeps, get_currency-Keeps, find_by_id-Keeps,
  append-Keeps, post_entry-Keeps, post_swap-Keeps, open_accounts-Keeps,
}
use flow_pay.Backend.Advancing.{
  RequestStep, request_stays, OrderStep, order_stays, Advances, Advances-refl, Advances-append,
  Evolves, evolves, posts-Evolving,
}

pub with_orders :
    (db : Db) (rows : List Order)
    → Advances (λ o. o.id) OrderStep db.orders rows
    → Evolves db (record db { orders = rows })
with_orders db rows advances = record {
  grows = record {
    entries = Extends-refl db.entries;
    lines = Extends-refl db.lines;
    events = Extends-refl db.outbox_events;
    currencies = refl;
    users = refl;
  };
  requests = Advances-refl (λ r. r.id) RequestStep (λ r. request_stays refl) db.withdrawal_requests;
  orders = advances;
}

insert_order-Keeps : (make : ℕ → Order) → Keeps evolves (insert_order make)
unfolding insert_order
insert_order-Keeps make =
    bind-Keeps evolves _ _ (posts-Evolving _ fresh_id-Keeps)
      (λ id. bind-Keeps evolves _ _ (add_order-Keeps (make id)) (λ z. pure-Keeps evolves (make id)))
  where
    add_order-Keeps :
        (o : Order) → Keeps evolves (modify (λ db. record db { orders = db.orders ++ (o ∷ []) }))
    add_order-Keeps o = record {
      holds = λ db.
          with_orders db _
            (Advances-append (λ x. x.id) OrderStep (λ x. order_stays refl) db.orders (o ∷ []));
    }

pub both_currencies-Keeps : (base quote : Text) → Keeps posts (both_currencies base quote)
unfolding both_currencies
both_currencies-Keeps base quote =
    bind-Keeps posts _ _ (get_currency-Keeps base)
      (λ b. bind-Keeps posts _ _ (get_currency-Keeps quote) (λ q. pure-Keeps posts _))

pub pair_currencies-Keeps : (pair : Text) → Keeps posts (pair_currencies pair)
unfolding pair_currencies
pair_currencies-Keeps pair =
    bind-Keeps posts _ _ (lift-Keeps posts (split_pair pair))
      (λ parsed. both_currencies-Keeps parsed.base_code parsed.quote_code)

resolve_pair-Keeps : (pair : Text) → Keeps posts (resolve_pair pair)
unfolding resolve_pair
resolve_pair-Keeps pair = bind-Keeps posts _ _ (pair_currencies-Keeps pair) (λ p.
    bind-Keeps posts _ _ (throw_if-Keeps posts (p.base.code == p.quote.code) unprocessable)
      (λ z. pure-Keeps posts p))

-- the row of a market order
abbrev market_order : ℕ → OrderSide → Currency → Currency → ℤ → ℤ → ℕ → ℕ → ℕ → Order
market_order user side base quote quantity price entry now id = record {
  id = id;
  user_id = user;
  pair = pair_text base quote;
  side = side;
  order_type = OrderType.market;
  quantity = quantity;
  limit_price = none;
  status = OrderStatus.filled;
  hold_entry_id = none;
  fill_entry_id = some entry;
  filled_price = some price;
  filled_at = some now;
}

module _ (n : Numbers) where
  record_market_order-Keeps :
      (user : ℕ) (side : OrderSide) (base quote : Currency) (rate : n.Decimal) (m : MarketAmounts n)
      (accounts : SwapAccounts)
      → Keeps evolves (record_market_order n user side base quote rate m accounts)
  unfolding record_market_order
  record_market_order-Keeps user side base quote rate m accounts =
      bind-Keeps evolves _ _ (posts-Evolving _ (post_swap-Keeps n _ accounts)) (λ swap.
        bind-Keeps evolves _ _ (or_throw-Keeps evolves (n.numeric_in m.quantity_fixed) internal)
          (λ quantity.
            bind-Keeps evolves _ _
              (or_throw-Keeps evolves (n.numeric_in (n.to_fixed quote.decimals rate)) internal)
              (λ price. bind-Keeps evolves _ _ (gets-Keeps evolves (λ db. db.now)) (λ now.
                bind-Keeps evolves _ _
                  (insert_order-Keeps
                    (market_order user side base quote quantity price swap.entry_id now))
                  (λ order.
                    bind-Keeps evolves _ _ (posts-Evolving _ (find_by_id-Keeps user)) (λ owner.
                      bind-Keeps evolves _ _
                        (posts-Evolving _
                          (append-Keeps DomainEventType.order_filled order.id (email_of owner)))
                        (λ z. pure-Keeps evolves order)))))))

  execute_market_order-Keeps :
      (rates : Text → Text → Result n.Decimal) (user : ℕ) (base quote : Currency)
      (dto : CreateOrderDto n)
      → Keeps evolves (execute_market_order n rates user base quote dto)
  unfolding execute_market_order
  execute_market_order-Keeps rates user base quote dto =
      bind-Keeps evolves _ _ (lift-Keeps evolves (rates base.code quote.code)) (λ rate.
        bind-Keeps evolves _ _ (or_throw-Keeps evolves (n.parse dto.quantity) internal) (λ asked.
          bind-Keeps evolves _ _ (posts-Evolving _ (open_accounts-Keeps n _)) (λ accounts.
            transaction-Keeps evolves _ (
              record_market_order-Keeps user dto.side base quote rate
                (market_amounts n base quote rate asked) accounts))))

  place_hold-Keeps :
      (user : ℕ) (pair : Text) (side : OrderSide) (quantity price : n.Numeral) (code : Text)
      (hold : n.Numeral)
      → Keeps evolves (place_hold n user pair side quantity price code hold)
  unfolding place_hold hold_order
  place_hold-Keeps user pair side quantity price code hold =
      bind-Keeps evolves _ _ (posts-Evolving _ (ensure_accounts-Keeps _ _)) (λ accounts.
        transaction-Keeps evolves _ (
          bind-Keeps evolves _ _ (posts-Evolving _ (post_entry-Keeps n _ true)) (λ result.
            bind-Keeps evolves _ _ (or_throw-Keeps evolves (n.numeric_in quantity) internal) (λ q.
              bind-Keeps evolves _ _ (or_throw-Keeps evolves (n.numeric_in price) internal)
                (λ p. insert_order-Keeps (new_limit_order n user pair side q p result.entry_id))))))

  place_limit_order-Keeps :
      (user : ℕ) (base quote : Currency) (dto : CreateOrderDto n)
      → Keeps evolves (place_limit_order n user base quote dto)
  unfolding place_limit_order
  place_limit_order-Keeps user base quote dto =
      bind-Keeps evolves _ _
        (or_throw-Keeps evolves (rounded n base.decimals dto.quantity) internal)
        (λ quantity.
          bind-Keeps evolves _ _ (or_throw-Keeps evolves dto.limit_price internal) (λ asked.
            bind-Keeps evolves _ _
              (or_throw-Keeps evolves (rounded n quote.decimals asked) internal)
              (λ price.
                bind-Keeps evolves _ _
                  (or_throw-Keeps evolves
                    (compute_hold_amount n dto.side quantity price base.decimals quote.decimals)
                    internal)
                  (λ hold.
                    place_hold-Keeps user (pair_text base quote) dto.side quantity price _ hold))))

  pub create_order-Keeps :
      (rates : Text → Text → Result n.Decimal) (user : ℕ) (dto : CreateOrderDto n)
      → Keeps evolves (create_order n rates user dto)
  unfolding create_order
  create_order-Keeps rates user dto =
      bind-Keeps evolves _ _ (posts-Evolving _ (resolve_pair-Keeps dto.pair)) (λ p.
        if-Keeps evolves (is_market dto.order_type) _ _
          (execute_market_order-Keeps rates user p.base p.quote dto)
          (place_limit_order-Keeps user p.base p.quote dto))
