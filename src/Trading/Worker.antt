-- ===== src/Trading/Worker.antt =====
-- backend/src/trading/orders-worker.service.ts
use flow_pay.Prelude.{
  ℕ, Bool, true, false, ◌&&◌, Option, none, some, List, [], ◌∷◌, ◌==◌, nat_eq, find, select,
  if◌then◌else◌,
}
use flow_pay.Prelude.Text.{Text}
use flow_pay.Numbers.{Numbers}
use flow_pay.Exec.{Result, ok, lift, or_throw, gets, pure, transaction, internal, ◌>>=◌, ◌>>◌}
use flow_pay.Db.{
  Db, Action, AccountKind, Currency, JournalEntryType, DomainEventType, Order, OrderStatus, is_buy,
  is_open, is_limit,
}
use flow_pay.Ledger.{system_key}
use flow_pay.Outbox.{append}
use flow_pay.Users.{find_by_id, email_of}
use flow_pay.TradeExecution.{ExecuteSwapInput, SwapAccounts, open_accounts, post_swap}
use flow_pay.Trading.Pair.{ParsedPair, split_pair}
use flow_pay.Trading.OrderMath.{hold_currency_code, compute_hold_amount, rounded_product}
use flow_pay.Trading.Orders.{limit_text, save_order, both_currencies}

-- The guard of `tryFill`: what is no open limit order is left alone.
abbrev pub fillable : Order → Bool
fillable order = is_open order.status && is_limit order.order_type

abbrev pub find_fillable : ℕ → Db → Option Order
find_fillable id db = elim (find (λ o. o.id == id) db.orders) [
  | none ↦ none
  | some order ↦ if fillable order then some order else none
]

module _ (n : Numbers) where
  abbrev pub crossed : Order → n.Decimal → n.Decimal → Bool
  crossed order rate limit_price =
      if is_buy order.side
      then n.less_than_or_equal_to rate limit_price
      else n.greater_than_or_equal_to rate limit_price

  abbrev pub fill_swap : Order → Currency → Currency → n.Numeral → n.Numeral → ExecuteSwapInput n
  fill_swap order base quote hold_amount quote_amount = record {
    source = system_key AccountKind.trade_hold (hold_currency_code order.side base.code quote.code);
    from_amount = hold_amount;
    to_user_id = order.user_id;
    to_currency_code = if is_buy order.side then base.code else quote.code;
    to_amount = if is_buy order.side then n.numeric_out order.quantity else quote_amount;
    entry_type = JournalEntryType.trade;
  }

  -- the writes of `tryFill`
  unfoldable pub fill_order :
      Order → Currency → n.Decimal → ExecuteSwapInput n → SwapAccounts → Action Bool
  fill_order order quote limit_price swap_input accounts = do
    swap ← post_swap n swap_input accounts
    price ← or_throw (n.numeric_in (n.to_fixed quote.decimals limit_price)) internal
    now ← gets (λ db. db.now)
    save_order (record order {
      status = OrderStatus.filled;
      fill_entry_id = some swap.entry_id;
      filled_price = some price;
      filled_at = some now;
    })
    owner ← find_by_id order.user_id
    append DomainEventType.order_filled order.id (email_of owner)
    pure true

  -- `tryFill` once the swap is known
  unfoldable pub run_fill : Order → Currency → n.Decimal → ExecuteSwapInput n → Action Bool
  run_fill order quote limit_price swap_input = do
    accounts ← open_accounts n swap_input
    transaction (fill_order order quote limit_price swap_input accounts)

  -- `tryFill` of an order whose limit is crossed
  unfoldable pub fill_crossed : Order → ParsedPair → n.Numeral → n.Decimal → Action Bool
  fill_crossed order parsed limit_numeral limit_price = do
    p ← both_currencies parsed.base_code parsed.quote_code
    hold_amount ←
        or_throw
          (compute_hold_amount n order.side (n.numeric_out order.quantity) limit_numeral
            p.base.decimals p.quote.decimals)
          internal
    quote_amount ←
        or_throw (rounded_product n p.quote.decimals (n.numeric_out order.quantity) limit_numeral)
          internal
    run_fill order p.quote limit_price (fill_swap order p.base p.quote hold_amount quote_amount)

  -- `tryFill` at the rate of the pair
  unfoldable pub fill_at_rate : Order → ParsedPair → n.Decimal → Action Bool
  fill_at_rate order parsed rate = do
    limit_numeral ← or_throw (limit_text n order) internal
    limit_price ← or_throw (n.parse limit_numeral) internal
    if crossed order rate limit_price
        then fill_crossed order parsed limit_numeral limit_price
        else pure false

  -- `tryFill` of an open limit order
  unfoldable pub fill_open_order : (Text → Text → Result n.Decimal) → Order → Action Bool
  fill_open_order rates order = do
    parsed ← lift (split_pair order.pair)
    rate ← lift (rates parsed.base_code parsed.quote_code)
    fill_at_rate order parsed rate

  -- `rates` answers as `RatesService.getRate`.
  unfoldable pub try_fill : (Text → Text → Result n.Decimal) → ℕ → Action Bool
  try_fill rates id db = elim (find_fillable id db) [
    | none ↦ (ok false, db)
    | some order ↦ fill_open_order rates order db
  ]

  -- the loop of `scanAndFillOpenOrders`: a failed order is logged, and the next one is tried
  unfoldable pub fill_each : (Text → Text → Result n.Decimal) → List Order → Action (Unit {0})
  fill_each rates [] db = (ok tt, db)
  fill_each rates (o ∷ rest) db = fill_each rates rest (try_fill rates o.id db).1

  unfoldable pub scan_and_fill_open_orders : (Text → Text → Result n.Decimal) → Action (Unit {0})
  scan_and_fill_open_orders rates db = fill_each rates (select fillable db.orders) db
