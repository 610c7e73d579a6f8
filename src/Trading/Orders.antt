-- ===== src/Trading/Orders.antt =====
-- backend/src/trading/orders.service.ts
use flow_pay.Prelude.{
  ℕ, Bool, true, not, ◌&&◌, Option, none, some, [], ◌∷◌, ◌++◌, ◌==◌, nat_eq, find, select,
  if◌then◌else◌,
}
use flow_pay.Prelude.Int.{ℤ}
use flow_pay.Prelude.Rows.{save_row}
use flow_pay.Prelude.Text.{Text, text_eq}
use flow_pay.Numbers.{Numbers}
use flow_pay.Exec.{
  Result, lift, or_throw, throw_if, gets, modify, pure, transaction, not_found, conflict,
  unprocessable, internal, ◌>>=◌, ◌>>◌,
}
use flow_pay.Db.{
  Action, AccountKind, Currency, JournalEntryType, DomainEventType, Order, OrderSide, OrderType,
  OrderStatus, is_buy, is_open, is_market, order_status_beq,
}
use flow_pay.Ledger.{
  wallet_key, system_key, two_lines, get_currency, ensure_accounts, post_entry, fresh_id,
  Pagination, PaginatedResult, page_of,
}
use flow_pay.Outbox.{append}
use flow_pay.Users.{find_by_id, email_of}
use flow_pay.TradeExecution.{ExecuteSwapInput, SwapAccounts, open_accounts, post_swap}
use flow_pay.Trading.Pair.{split_pair}
use flow_pay.Trading.OrderMath.{hold_currency_code, compute_hold_amount, rounded}

pub record CreateOrderDto (n : Numbers) : Type 0 where
  pub pair : Text
  pub side : OrderSide
  pub order_type : OrderType
  pub quantity : n.Numeral
  pub limit_price : Option n.Numeral

-- The base and the quote currency of a pair.
pub record BaseQuote : Type 0 where
  pub base : Currency
  pub quote : Currency

-- `Promise.all([getCurrency(baseCode), getCurrency(quoteCode)])`
unfoldable pub both_currencies : Text → Text → Action BaseQuote
both_currencies base_code quote_code = do
  base ← get_currency base_code
  quote ← get_currency quote_code
  pure (record { base = base; quote = quote })

-- `splitPair` and the look-up of both currencies
unfoldable pub pair_currencies : Text → Action BaseQuote
pair_currencies pair = do
  parsed ← lift (split_pair pair)
  both_currencies parsed.base_code parsed.quote_code

unfoldable pub resolve_pair : Text → Action BaseQuote
resolve_pair pair = do
  p ← pair_currencies pair
  throw_if (p.base.code == p.quote.code) unprocessable
  pure p

abbrev pub pair_text : Currency → Currency → Text
pair_text base quote = base.code ++ (b'/' ∷ quote.code)

-- `repository.save` of a new order
unfoldable pub insert_order : (ℕ → Order) → Action Order
insert_order make = do
  id ← fresh_id
  let order = make id
  modify (λ db. record db { orders = db.orders ++ (order ∷ []) })
  pure order

-- `manager.save(order)` of an order that is in the table
unfoldable pub save_order : Order → Action (Unit {0})
save_order order = modify (λ db. record db { orders = save_row (λ o. o.id) order db.orders })

-- The user's own open order, or a refusal.
unfoldable pub find_cancellable : ℕ → ℕ → Action Order
find_cancellable user id = do
  order ← or_throw (← gets (λ db. find (λ o. o.id == id) db.orders)) not_found
  throw_if (not (order.user_id == user)) not_found
  throw_if (not (is_open order.status)) conflict
  pure order

module _ (n : Numbers) where
  -- The numbers of a market order at a rate.
  pub record MarketAmounts : Type 0 where
    pub quantity_fixed : n.Numeral
    pub quote_amount_fixed : n.Numeral

  abbrev pub market_amounts : Currency → Currency → n.Decimal → n.Decimal → MarketAmounts
  market_amounts base quote rate asked =
      let quantity = n.to_decimal_places base.decimals asked in
      record {
        quantity_fixed = n.to_fixed base.decimals quantity;
        quote_amount_fixed =
            n.to_fixed quote.decimals (n.to_decimal_places quote.decimals (n.times quantity rate));
      }

  abbrev pub market_swap : ℕ → OrderSide → Currency → Currency → MarketAmounts → ExecuteSwapInput n
  market_swap user side base quote m = record {
    source = wallet_key user (if is_buy side then quote.code else base.code);
    from_amount = if is_buy side then m.quote_amount_fixed else m.quantity_fixed;
    to_user_id = user;
    to_currency_code = if is_buy side then base.code else quote.code;
    to_amount = if is_buy side then m.quantity_fixed else m.quote_amount_fixed;
    entry_type = JournalEntryType.trade;
  }

  -- the body of the transaction of `executeMarketOrder`
  unfoldable pub record_market_order :
      ℕ → OrderSide → Currency → Currency → n.Decimal → MarketAmounts → SwapAccounts → Action Order
  record_market_order user side base quote rate m accounts = do
    swap ← post_swap n (market_swap user side base quote m) accounts
    quantity ← or_throw (n.numeric_in m.quantity_fixed) internal
    price ← or_throw (n.numeric_in (n.to_fixed quote.decimals rate)) internal
    now ← gets (λ db. db.now)
    order ← insert_order (λ id. record {
      id = id;
      user_id = user;
      pair = pair_text base quote;
      side = side;
      order_type = OrderType.market;
      quantity = quantity;
      limit_price = none;
      status = OrderStatus.filled;
      hold_entry_id = none;
      fill_entry_id = some swap.entry_id;
      filled_price = some price;
      filled_at = some now;
    })
    owner ← find_by_id user
    append DomainEventType.order_filled order.id (email_of owner)
    pure order

  -- `rates` answers as `RatesService.getRate`.
  unfoldable pub execute_market_order :
      (Text → Text → Result n.Decimal) → ℕ → Currency → Currency → CreateOrderDto n → Action Order
  execute_market_order rates user base quote dto = do
    rate ← lift (rates base.code quote.code)
    asked ← or_throw (n.parse dto.quantity) internal
    let m = market_amounts base quote rate asked
    accounts ← open_accounts n (market_swap user dto.side base quote m)
    transaction (record_market_order user dto.side base quote rate m accounts)

  -- `repository.create({ … })` of a limit order
  abbrev pub new_limit_order : ℕ → Text → OrderSide → ℤ → ℤ → ℕ → ℕ → Order
  new_limit_order user pair side quantity limit_price hold id = record {
    id = id;
    user_id = user;
    pair = pair;
    side = side;
    order_type = OrderType.limit;
    quantity = quantity;
    limit_price = some limit_price;
    status = OrderStatus.open_;
    hold_entry_id = some hold;
    fill_entry_id = none;
    filled_price = none;
    filled_at = none;
  }

  -- the body of the transaction of `placeLimitOrder`
  unfoldable pub hold_order :
      ℕ → Text → OrderSide → n.Numeral → n.Numeral → Text → n.Numeral → ℕ → ℕ → Action Order
  hold_order user pair side quantity limit_price hold_code hold_amount wallet hold = do
    result ←
        post_entry n
          (record {
            entry_type = JournalEntryType.trade_hold;
            metadata = none;
            lines = two_lines n wallet hold hold_amount hold_code;
          })
          true
    quantity_units ← or_throw (n.numeric_in quantity) internal
    price_units ← or_throw (n.numeric_in limit_price) internal
    insert_order (new_limit_order user pair side quantity_units price_units result.entry_id)

  -- `placeLimitOrder` once its numbers are known
  unfoldable pub place_hold :
      ℕ → Text → OrderSide → n.Numeral → n.Numeral → Text → n.Numeral → Action Order
  place_hold user pair side quantity limit_price hold_code hold_amount = do
    accounts ←
        ensure_accounts (wallet_key user hold_code) (system_key AccountKind.trade_hold hold_code)
    transaction (
        hold_order user pair side quantity limit_price hold_code hold_amount accounts.0.id
          accounts.1.id)

  unfoldable pub place_limit_order : ℕ → Currency → Currency → CreateOrderDto n → Action Order
  place_limit_order user base quote dto = do
    quantity ← or_throw (rounded n base.decimals dto.quantity) internal
    asked_price ← or_throw dto.limit_price internal
    limit_price ← or_throw (rounded n quote.decimals asked_price) internal
    let hold_code = hold_currency_code dto.side base.code quote.code
    hold_amount ←
        or_throw (compute_hold_amount n dto.side quantity limit_price base.decimals quote.decimals)
          internal
    place_hold user (pair_text base quote) dto.side quantity limit_price hold_code hold_amount

  unfoldable pub create_order :
      (Text → Text → Result n.Decimal) → ℕ → CreateOrderDto n → Action Order
  create_order rates user dto = do
    p ← resolve_pair dto.pair
    if is_market dto.order_type
        then execute_market_order rates user p.base p.quote dto
        else place_limit_order user p.base p.quote dto

  -- What the text of an order's limit price is; the column is null for a market order, and
  -- `new Decimal(null)` throws.
  abbrev pub limit_text : Order → Option n.Numeral
  limit_text order = elim order.limit_price [ none ↦ none | some z ↦ some (n.numeric_out z) ]

  -- What an order in the table holds: `computeHoldAmount` of its columns; `none` where decimal.js
  -- throws. A sell reads no limit price.
  abbrev pub stored_hold : Order → Currency → Currency → Option n.Numeral
  stored_hold order base quote = elim (limit_text order) [
    | none ↦
        if is_buy order.side then none else rounded n base.decimals (n.numeric_out order.quantity)
    | some limit_price ↦
        compute_hold_amount n order.side (n.numeric_out order.quantity) limit_price base.decimals
          quote.decimals
  ]

  -- the body of the transaction of `cancelOrder` once the accounts are there
  unfoldable pub release_order : Order → Text → n.Numeral → ℕ → ℕ → Action Order
  release_order order hold_code hold_amount hold wallet = do
    post_entry n
        (record {
          entry_type = JournalEntryType.trade_release;
          metadata = none;
          lines = two_lines n hold wallet hold_amount hold_code;
        })
        true
    let cancelled : Order = record order { status = OrderStatus.cancelled }
    save_order cancelled
    pure cancelled

  -- `cancelOrder` once the hold is known
  unfoldable pub release_hold : ℕ → Order → Text → n.Numeral → Action Order
  release_hold user order hold_code hold_amount = do
    accounts ←
        ensure_accounts (system_key AccountKind.trade_hold hold_code) (wallet_key user hold_code)
    transaction (release_order order hold_code hold_amount accounts.0.id accounts.1.id)

  -- `cancelOrder` of an order that may be cancelled
  unfoldable pub cancel_found : ℕ → Order → Action Order
  cancel_found user order = do
    p ← pair_currencies order.pair
    hold_amount ← or_throw (stored_hold order p.base p.quote) internal
    release_hold user order (hold_currency_code order.side p.base.code p.quote.code) hold_amount

  unfoldable pub cancel_order : ℕ → ℕ → Action Order
  cancel_order user id = do order ← find_cancellable user id; cancel_found user order

abbrev pub has_order_status : Option OrderStatus → Order → Bool
has_order_status none o = true
has_order_status (some s) o = order_status_beq o.status s

unfoldable pub list_orders : ℕ → Option OrderStatus → Pagination → Action (PaginatedResult Order)
list_orders user status p =
    gets (λ db. page_of p (select (λ o. o.user_id == user && has_order_status status o) db.orders))
