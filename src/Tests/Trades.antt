-- ===== src/Tests/Trades.antt =====
-- Runs of the orders.
use flow_pay.Prelude.{
  ℕ, ◌+◌, ◌*◌, ◌^◌, ◌<◌, ◌≡◌, ◌∙◌, ◌==◌, true, false, some, ◌∷◌, ◌++◌, refl, arith, ap, sym, inl,
  inr, Bool-cases, find, nat_eq, if◌then◌else◌,
}
use mathlib.Core.Path.{subst}
use flow_pay.Prelude.Int.{ℤ, pos, ◌+ℤ◌, int_laws, magnitude}
use flow_pay.Prelude.Text.{Text, text_eq, split, to_upper}
use flow_pay.Prelude.Dict.{lookup, insert}
use flow_pay.Prelude.Order.{contains, sort, place, unique_from, sorted_set}
use flow_pay.Numbers.{limit}
use flow_pay.Numbers.Scaled.{scaled, scaled-IsExact}
use flow_pay.Exec.{Result, transaction, ok, err, conflict}
use flow_pay.Db.{
  is_open, Db, is_buy, Currency, CurrencyType, Order, OrderSide, OrderType, OrderStatus,
}
use flow_pay.Ledger.{
  ensure_account, ensure_accounts, get_currency, post_entry, validate_entry_lines,
  post_entry_with_manager, prepare_entry, write_entry, check_currencies, sum_deltas, new_balances,
  new_balance, line_rows, update_balances, insert_entry, fresh_id, tally_lines, check_amount,
  check_totals,
}
use flow_pay.Ledger.Amounts.{amount_units}
use flow_pay.Ledger.TwoLines.{Headroom}
use flow_pay.Outbox.{append}
use flow_pay.Users.{find_by_id}
use flow_pay.Deposits.{deposit, credit_wallet, post_deposit}
use flow_pay.TradeExecution.{open_accounts, post_swap}
use flow_pay.TradeExecution.Swapped.{SwapRoom}
use flow_pay.Trading.{
  CreateOrderDto, ParsedPair, rounded, compute_hold_amount, stored_hold, limit_text, split_pair,
  new_limit_order, insert_order, hold_order, place_hold, place_limit_order, try_fill, cancel_order,
  find_cancellable, cancel_found, pair_currencies, both_currencies, release_hold, release_order,
  save_order, fill_order, run_fill, fill_crossed, fill_at_rate, fill_open_order,
}
use flow_pay.Trading.Holds.{IsBacked, hold_key, currency_of}
use flow_pay.Trading.Placed.{IsPair, IsKept, Quoted, Placed, place_limit_order-Placed}
use flow_pay.Trading.Cancelled.{Cancellable, Released, cancel_order-Released}
use flow_pay.Trading.Filled.{Fillable, Filled, fill_of, try_fill-Filled}
use flow_pay.Trading.Closed.{cancel_order-closed, try_fill-closed}
use flow_pay.Tests.{some_injective, usd, btc}
use flow_pay.Tests.Services.{
  deposited, deposited-Credited, deposited-Headroom, deposited-Headroom_at, set_balance-bound,
}

deposited-IsBacked : IsBacked scaled deposited
deposited-IsBacked =
    let (sound, moved, _, _, orders) = deposited-Credited in
    record {
      sound = sound;
      backed = λ c. moved (hold_key c) ∙ elim (Bool-cases (usd == c)) [
        | inl same ↦ rw (orders, same) (omega int_laws)
        | inr other ↦ rw (orders, other) (omega int_laws)
      ];
    }

abbrev dollar : Currency
dollar = record { code = usd; name = usd; currency_type = CurrencyType.fiat; decimals = 8 }

abbrev bitcoin : Currency
bitcoin = record { code = btc; name = btc; currency_type = CurrencyType.crypto; decimals = 8 }

-- One coin at 200 units of the dollar.
abbrev order_dto : CreateOrderDto scaled
order_dto = record {
  pair = btc ++ (b'/' ∷ usd);
  side = OrderSide.buy;
  order_type = OrderType.limit;
  quantity = some (pos (10 ^ 8));
  limit_price = some (some (pos 200));
}

abbrev placed_db : Db
placed_db = (place_limit_order scaled 1 bitcoin dollar order_dto deposited).1

abbrev placed_order : Order
placed_order =
    new_limit_order scaled 1 (btc ++ (b'/' ∷ usd)) OrderSide.buy (pos (10 ^ 8)) (pos 200) 7 8

place_runs :
    place_limit_order scaled 1 bitcoin dollar order_dto deposited ≡ (ok placed_order, placed_db)
unfolding place_limit_order place_hold hold_order insert_order cancel_order find_cancellable
    cancel_found pair_currencies both_currencies split_pair split release_hold release_order
    save_order try_fill fill_open_order fill_at_rate fill_crossed run_fill fill_order open_accounts
    post_swap find_by_id deposit credit_wallet post_deposit append get_currency ensure_accounts
    to_upper post_entry transaction post_entry_with_manager prepare_entry write_entry
    check_currencies sum_deltas new_balances new_balance line_rows update_balances insert_entry
    fresh_id validate_entry_lines tally_lines check_amount check_totals lookup insert ensure_account
    contains sort place unique_from sorted_set ◌+ℤ◌
place_runs = refl

deposited-IsPair : IsPair bitcoin dollar deposited
unfolding place_limit_order place_hold hold_order insert_order cancel_order find_cancellable
    cancel_found pair_currencies both_currencies split_pair split release_hold release_order
    save_order try_fill fill_open_order fill_at_rate fill_crossed run_fill fill_order open_accounts
    post_swap find_by_id deposit credit_wallet post_deposit append get_currency ensure_accounts
    to_upper post_entry transaction post_entry_with_manager prepare_entry write_entry
    check_currencies sum_deltas new_balances new_balance line_rows update_balances insert_entry
    fresh_id validate_entry_lines tally_lines check_amount check_totals lookup insert ensure_account
    contains sort place unique_from sorted_set ◌+ℤ◌
deposited-IsPair = record {
  parsed = record { base_code = btc; quote_code = usd };
  split = refl;
  base_found = refl;
  quote_found = refl;
}

ok_injective : {A : Type 0} (a b : A) → ok a ≡ ok b → a ≡ b
ok_injective a b e = ap (λ o. elim o [ err x ↦ a | ok x ↦ x ]) e

order_dto-fits :
    (t : Quoted scaled bitcoin dollar order_dto)
    → IsKept scaled t.quantity
      × IsKept scaled t.price
      × Headroom (2 * magnitude (amount_units scaled t.hold)) deposited
order_dto-fits t =
    let eq = some_injective (some (pos (10 ^ 8))) t.quantity t.quantity_rounded in
    let ea = some_injective (some (pos 200)) t.asked t.price_asked in
    let ep =
      some_injective (some (pos 200)) t.price (ap (λ a. rounded scaled 8 a) ea ∙ t.price_rounded) in
    let eh = some_injective (some (pos 200)) t.hold (
      ap (λ q. compute_hold_amount scaled OrderSide.buy q (some (pos 200)) 8 8) eq
      ∙ ap (λ p. compute_hold_amount scaled OrderSide.buy t.quantity p 8 8) ep
      ∙ t.computed) in
    (
      (λ z e. sym e),
      (λ z e. sym e),
      subst (λ h. Headroom (2 * magnitude (amount_units scaled h)) deposited) eh deposited-Headroom,
    )

place_limit_order-Placed_example :
    (t : Quoted scaled bitcoin dollar order_dto) × Placed scaled 1 usd t.hold placed_order deposited
      placed_db
place_limit_order-Placed_example =
    place_limit_order-Placed scaled 1 bitcoin dollar order_dto deposited placed_db placed_order
      scaled-IsExact deposited-IsBacked deposited-IsPair order_dto-fits place_runs

placed_db-IsBacked : IsBacked scaled placed_db
placed_db-IsBacked =
    (place_limit_order-Placed scaled 1 bitcoin dollar order_dto deposited placed_db placed_order
      scaled-IsExact deposited-IsBacked deposited-IsPair order_dto-fits place_runs).1.0

abbrev parsed_pair : ParsedPair
parsed_pair = record { base_code = btc; quote_code = usd }

split_runs : split_pair (btc ++ (b'/' ∷ usd)) ≡ ok parsed_pair
unfolding split_pair split to_upper
split_runs = refl

placed_row : find (λ o. o.id == 8) placed_db.orders ≡ some placed_order
unfolding place_limit_order place_hold hold_order insert_order cancel_order find_cancellable
    cancel_found pair_currencies both_currencies split_pair split release_hold release_order
    save_order try_fill fill_open_order fill_at_rate fill_crossed run_fill fill_order open_accounts
    post_swap find_by_id deposit credit_wallet post_deposit append get_currency ensure_accounts
    to_upper post_entry transaction post_entry_with_manager prepare_entry write_entry
    check_currencies sum_deltas new_balances new_balance line_rows update_balances insert_entry
    fresh_id validate_entry_lines tally_lines check_amount check_totals lookup insert ensure_account
    contains sort place unique_from sorted_set ◌+ℤ◌
placed_row = refl

bitcoin_row : currency_of btc placed_db.currencies ≡ some bitcoin
unfolding place_limit_order place_hold hold_order insert_order cancel_order find_cancellable
    cancel_found pair_currencies both_currencies split_pair split release_hold release_order
    save_order try_fill fill_open_order fill_at_rate fill_crossed run_fill fill_order open_accounts
    post_swap find_by_id deposit credit_wallet post_deposit append get_currency ensure_accounts
    to_upper post_entry transaction post_entry_with_manager prepare_entry write_entry
    check_currencies sum_deltas new_balances new_balance line_rows update_balances insert_entry
    fresh_id validate_entry_lines tally_lines check_amount check_totals lookup insert ensure_account
    contains sort place unique_from sorted_set ◌+ℤ◌
bitcoin_row = refl

dollar_row : currency_of usd placed_db.currencies ≡ some dollar
unfolding place_limit_order place_hold hold_order insert_order cancel_order find_cancellable
    cancel_found pair_currencies both_currencies split_pair split release_hold release_order
    save_order try_fill fill_open_order fill_at_rate fill_crossed run_fill fill_order open_accounts
    post_swap find_by_id deposit credit_wallet post_deposit append get_currency ensure_accounts
    to_upper post_entry transaction post_entry_with_manager prepare_entry write_entry
    check_currencies sum_deltas new_balances new_balance line_rows update_balances insert_entry
    fresh_id validate_entry_lines tally_lines check_amount check_totals lookup insert ensure_account
    contains sort place unique_from sorted_set ◌+ℤ◌
dollar_row = refl

placed_db-Headroom : (k : ℕ) → Headroom (400 + k) deposited → 400 + k < limit → Headroom k placed_db
unfolding place_limit_order place_hold hold_order insert_order cancel_order find_cancellable
    cancel_found pair_currencies both_currencies split_pair split release_hold release_order
    save_order try_fill fill_open_order fill_at_rate fill_crossed run_fill fill_order open_accounts
    post_swap find_by_id deposit credit_wallet post_deposit append get_currency ensure_accounts
    to_upper post_entry transaction post_entry_with_manager prepare_entry write_entry
    check_currencies sum_deltas new_balances new_balance line_rows update_balances insert_entry
    fresh_id validate_entry_lines tally_lines check_amount check_totals lookup insert ensure_account
    contains sort place unique_from sorted_set ◌+ℤ◌
placed_db-Headroom k room small =
    set_balance-bound k 6 (pos 200) _
      (set_balance-bound k 2 (pos 300) _
        (set_balance-bound k 6 (pos 0) deposited.balances (λ id. omega (arith, room id))
          (omega arith))
        (omega arith))
      (omega arith)

hold_to_cancel : (c : Cancellable scaled 1 8 placed_db) → some (pos 200) ≡ c.hold
hold_to_cancel c =
    let eo = some_injective placed_order c.order (sym placed_row ∙ c.found) in
    let es = sym split_runs ∙ ap (λ o. split_pair o.pair) eo ∙ c.split in
    let ep = ok_injective parsed_pair c.parsed es in
    let eb = some_injective bitcoin c.base (
      sym bitcoin_row ∙ ap (λ p. currency_of p.base_code placed_db.currencies) ep ∙ c.base_found) in
    let eq = some_injective dollar c.quote (
      sym dollar_row
      ∙ ap (λ p. currency_of p.quote_code placed_db.currencies) ep
      ∙ c.quote_found) in
    some_injective (some (pos 200)) c.hold (
      ap (λ o. stored_hold scaled o bitcoin dollar) eo
      ∙ ap (λ b. stored_hold scaled c.order b dollar) eb
      ∙ ap (λ q. stored_hold scaled c.order c.base q) eq
      ∙ c.held)

cancel_order-Headroom :
    (c : Cancellable scaled 1 8 placed_db)
    → Headroom (2 * magnitude (amount_units scaled c.hold)) placed_db
cancel_order-Headroom c =
    subst (λ h. Headroom (2 * magnitude (amount_units scaled h)) placed_db) (hold_to_cancel c)
      (placed_db-Headroom 400 (deposited-Headroom_at 800 (omega arith)) (omega arith))

abbrev released_db : Db
released_db = (cancel_order scaled 1 8 placed_db).1

abbrev released_order : Order
released_order = record placed_order { status = OrderStatus.cancelled }

cancel_runs : cancel_order scaled 1 8 placed_db ≡ (ok released_order, released_db)
unfolding place_limit_order place_hold hold_order insert_order cancel_order find_cancellable
    cancel_found pair_currencies both_currencies split_pair split release_hold release_order
    save_order try_fill fill_open_order fill_at_rate fill_crossed run_fill fill_order open_accounts
    post_swap find_by_id deposit credit_wallet post_deposit append get_currency ensure_accounts
    to_upper post_entry transaction post_entry_with_manager prepare_entry write_entry
    check_currencies sum_deltas new_balances new_balance line_rows update_balances insert_entry
    fresh_id validate_entry_lines tally_lines check_amount check_totals lookup insert ensure_account
    contains sort place unique_from sorted_set ◌+ℤ◌
cancel_runs = refl

cancel_order-Released_example :
    (c : Cancellable scaled 1 8 placed_db) × Released scaled 1 8 placed_db c released_order
      released_db
cancel_order-Released_example =
    cancel_order-Released scaled 1 8 placed_db released_db released_order scaled-IsExact
      placed_db-IsBacked cancel_order-Headroom cancel_runs

-- A rate below the limit.
abbrev rates : Text → Text → Result ℤ
rates base quote = ok (pos 150)

cancel_order-closed_example :
    (try_fill scaled rates 8 released_db ≡ (ok false, released_db))
    × (cancel_order scaled 1 8 released_db ≡ (err conflict, released_db))
cancel_order-closed_example =
    cancel_order-closed scaled rates 1 8 placed_db released_db released_order scaled-IsExact
      placed_db-IsBacked cancel_order-Headroom cancel_runs

hold_to_fill :
    (f : Fillable scaled rates 8 placed_db)
    → (placed_order ≡ f.order) × (some (pos 200) ≡ f.ready.hold)
hold_to_fill f =
    let eo = some_injective placed_order f.order (sym placed_row ∙ f.found) in
    let es = sym split_runs ∙ ap (λ o. split_pair o.pair) eo ∙ f.split in
    let ep = ok_injective parsed_pair f.parsed es in
    let eb = some_injective bitcoin f.ready.both.base (
      sym bitcoin_row
      ∙ ap (λ p. currency_of p.base_code placed_db.currencies) ep
      ∙ f.ready.base_found) in
    let eq = some_injective dollar f.ready.both.quote (
      sym dollar_row
      ∙ ap (λ p. currency_of p.quote_code placed_db.currencies) ep
      ∙ f.ready.quote_found) in
    let el =
      some_injective (some (pos 200)) f.ready.limit_numeral
        (ap (λ o. limit_text scaled o) eo ∙ f.ready.limit_known) in
    (
      eo,
      some_injective (some (pos 200)) f.ready.hold (
          ap
            (λ o.
              compute_hold_amount scaled o.side (scaled.numeric_out o.quantity) (some (pos 200)) 8
                8)
            eo
          ∙ ap
              (λ l.
                compute_hold_amount scaled f.order.side (scaled.numeric_out f.order.quantity) l 8 8)
              el
          ∙ ap
              (λ b.
                compute_hold_amount scaled f.order.side (scaled.numeric_out f.order.quantity)
                  f.ready.limit_numeral b.decimals 8)
              eb
          ∙ ap
              (λ q.
                compute_hold_amount scaled f.order.side (scaled.numeric_out f.order.quantity)
                  f.ready.limit_numeral f.ready.both.base.decimals q.decimals)
              eq
          ∙ f.ready.held),
    )

try_fill-SwapRoom :
    (f : Fillable scaled rates 8 placed_db)
    → SwapRoom scaled (fill_of scaled rates 8 placed_db f) placed_db
try_fill-SwapRoom f =
    let (eo, eh) = hold_to_fill f in
    subst
      (λ h.
        Headroom
          (2 * magnitude (amount_units scaled h)
            + 2 * magnitude (amount_units scaled (fill_of scaled rates 8 placed_db f).to_amount))
          placed_db)
      eh
      (subst
        (λ o.
          Headroom
            (400
              + 2
                * magnitude (
                    amount_units scaled (
                      if is_buy o.side
                      then scaled.numeric_out o.quantity
                      else f.ready.quote_amount)))
            placed_db)
        eo
        (placed_db-Headroom (400 + 2 * 10 ^ 8)
          (deposited-Headroom_at (800 + 2 * 10 ^ 8) (omega arith)) (omega arith)))

abbrev filled_db : Db
filled_db = (try_fill scaled rates 8 placed_db).1

fill_runs : try_fill scaled rates 8 placed_db ≡ (ok true, filled_db)
unfolding place_limit_order place_hold hold_order insert_order cancel_order find_cancellable
    cancel_found pair_currencies both_currencies split_pair split release_hold release_order
    save_order try_fill fill_open_order fill_at_rate fill_crossed run_fill fill_order open_accounts
    post_swap find_by_id deposit credit_wallet post_deposit append get_currency ensure_accounts
    to_upper post_entry transaction post_entry_with_manager prepare_entry write_entry
    check_currencies sum_deltas new_balances new_balance line_rows update_balances insert_entry
    fresh_id validate_entry_lines tally_lines check_amount check_totals lookup insert ensure_account
    contains sort place unique_from sorted_set ◌+ℤ◌
fill_runs = refl

try_fill-Filled_example :
    (f : Fillable scaled rates 8 placed_db) × Filled scaled f.order f.parsed placed_db f.ready
      filled_db
try_fill-Filled_example =
    try_fill-Filled scaled rates 8 placed_db filled_db scaled-IsExact placed_db-IsBacked
      try_fill-SwapRoom fill_runs

try_fill-closed_example :
    (o : Order) × (find (λ x. x.id == 8) placed_db.orders ≡ some o)
    × (is_open o.status ≡ true)
    × (try_fill scaled rates 8 filled_db ≡ (ok false, filled_db))
    × (cancel_order scaled o.user_id 8 filled_db ≡ (err conflict, filled_db))
try_fill-closed_example =
    try_fill-closed scaled rates rates 8 placed_db filled_db scaled-IsExact placed_db-IsBacked
      try_fill-SwapRoom fill_runs
