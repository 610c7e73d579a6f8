-- ===== src/Trading/Filled.antt =====
-- `tryFill`: an open limit order whose limit the rate has crossed is filled out of its own hold.
use flow_pay.Prelude.{
  ℕ, ◌≡◌, true, Option, some, List, ◌==◌, nat_eq, nat_beq_iff, if◌then◌else◌, find, find-holds,
  arith, refl, ap, sym, ◌∙◌, Bool-cases, Option-cases, inl, inr,
}
use mathlib.Core.Path.{subst}
use flow_pay.Prelude.Int.{ℤ, pos, ◌+ℤ◌, ◌-ℤ◌, int_laws}
use flow_pay.Prelude.Rows.{save_row}
use flow_pay.Prelude.Text.{Text, text_eq}
use flow_pay.Numbers.{Numbers, IsExact}
use flow_pay.Exec.{Result, ok, transaction, transaction-eq-ok, Outcome-cases, Result-cases}
use flow_pay.Db.{Db, Currency, DomainEventType, Order, OrderStatus, User, is_open, is_limit, is_buy}
use flow_pay.Ledger.{fresh_id}
use flow_pay.Ledger.Amounts.{amount_units}
use flow_pay.Ledger.Keys.{Move, Moved, balance_under, key_net, key_eq}
use flow_pay.Ledger.Carried.{Carried, SameBooks, SameBooks-IsSound, SameBooks-Moved}
use flow_pay.Outbox.{append, appended, appended-Moved, Announces}
use flow_pay.Users.{find_by_id, email_of}
use flow_pay.TradeExecution.{ExecuteSwapInput, ExecuteSwapResult, SwapAccounts, post_swap}
use flow_pay.TradeExecution.Swapped.{
  exchange_moves, swap_moves, SwapRoom, open_accounts-Opens, post_swap-Carried,
}
use flow_pay.Trading.Pair.{ParsedPair, split_pair}
use flow_pay.Trading.OrderMath.{hold_currency_code, compute_hold_amount, rounded_product}
use flow_pay.Trading.Orders.{stored_hold, limit_text, save_order, both_currencies, BaseQuote}
use flow_pay.Trading.Worker.{
  find_fillable, crossed, fill_swap, fill_order, run_fill, fill_crossed, fill_at_rate,
  fill_open_order, try_fill,
}
use flow_pay.Trading.Holds.{IsBacked, hold_key, need, need_known, currency_of, backed_closed}
use flow_pay.Trading.Cancelled.{both_currencies-eq-ok}

pub find_fillable-eq-some :
    (id : ℕ) (db : Db) (order : Order)
    → find_fillable id db ≡ some order
    → (find (λ o. o.id == id) db.orders ≡ some order)
      × (is_open order.status ≡ true)
      × (is_limit order.order_type ≡ true)
find_fillable-eq-some id db order e = elim (Option-cases (find (λ o. o.id == id) db.orders)) [
  | inl absent ↦ ground (arith, absent, e)
  | inr (x, found) ↦
      let same : x ≡ order = ground (arith, found, e) in
      let (waits, limits) : (is_open x.status ≡ true) × (is_limit x.order_type ≡ true) =
        ground (arith, found, e) in
      (
        found ∙ ap some same,
        ap (λ o. is_open o.status) (sym same) ∙ waits,
        ap (λ o. is_limit o.order_type) (sym same) ∙ limits,
      )
]

module _ (n : Numbers) where
  -- What `tryFill` reads of an order before it writes.
  pub record Crossed (order : Order) (parsed : ParsedPair) (db : Db) : Type 0 where
    pub limit_numeral : n.Numeral
    pub limit_price : n.Decimal
    pub both : BaseQuote
    pub hold : n.Numeral
    pub quote_amount : n.Numeral
    pub limit_known : limit_text n order ≡ some limit_numeral
    pub price_parsed : n.parse limit_numeral ≡ some limit_price
    pub base_found : currency_of parsed.base_code db.currencies ≡ some both.base
    pub quote_found : currency_of parsed.quote_code db.currencies ≡ some both.quote
    pub held :
        compute_hold_amount n order.side
          (n.numeric_out order.quantity)
          limit_numeral
          both.base.decimals
          both.quote.decimals
        ≡ some hold
    pub product :
        rounded_product n both.quote.decimals (n.numeric_out order.quantity) limit_numeral
        ≡ some quote_amount

  abbrev pub swap_of :
      (order : Order) (parsed : ParsedPair) (db : Db) → Crossed order parsed db → ExecuteSwapInput n
  swap_of order parsed db c = fill_swap n order c.both.base c.both.quote c.hold c.quote_amount

  fill_crossed-eq-ok :
      (order : Order) (parsed : ParsedPair) (limit_numeral : n.Numeral) (limit_price : n.Decimal)
      (db db' : Db)
      → limit_text n order ≡ some limit_numeral
      → n.parse limit_numeral ≡ some limit_price
      → fill_crossed n order parsed limit_numeral limit_price db ≡ (ok true, db')
      → (c : Crossed order parsed db) × (run_fill n order c.both.quote c.limit_price
            (swap_of order parsed db c)
            db
          ≡ (ok true, db'))
        × (c.limit_price ≡ limit_price)
  unfolding fill_crossed
  fill_crossed-eq-ok order parsed text price db db' known parses e =
      elim (Outcome-cases (both_currencies parsed.base_code parsed.quote_code db)) [
        | inl (x, s, bad) ↦ ground (arith, bad, e)
        | inr (p, s, looked) ↦
            let both = both_currencies-eq-ok parsed db s p looked in
            let same = both.same in
            elim (Option-cases (
              compute_hold_amount n order.side (n.numeric_out order.quantity) text p.base.decimals
                p.quote.decimals)) [
                  | inl bad ↦ ground (arith, looked, same, bad, e)
                  | inr (hold, held) ↦
                      elim (Option-cases
                        (rounded_product n p.quote.decimals (n.numeric_out order.quantity) text)) [
                          | inl bad ↦ ground (arith, looked, same, held, bad, e)
                          | inr (amount, product) ↦ (
                            record {
                              limit_numeral = text;
                              limit_price = price;
                              both = p;
                              hold = hold;
                              quote_amount = amount;
                              limit_known = known;
                              price_parsed = parses;
                              base_found = both.base_found;
                              quote_found = both.quote_found;
                              held = held;
                              product = product;
                            },
                            ground (arith, looked, same, held, product, e),
                            refl,
                          )
                        ]
                ]
      ]

  fill_at_rate-eq-ok :
      (order : Order) (parsed : ParsedPair) (rate : n.Decimal) (db db' : Db)
      → fill_at_rate n order parsed rate db ≡ (ok true, db')
      → (c : Crossed order parsed db) × (run_fill n order c.both.quote c.limit_price
            (swap_of order parsed db c)
            db
          ≡ (ok true, db'))
        × (crossed n order rate c.limit_price ≡ true)
  unfolding fill_at_rate
  fill_at_rate-eq-ok order parsed rate db db' e = elim (Option-cases (limit_text n order)) [
    | inl bad ↦ ground (arith, bad, e)
    | inr (text, known) ↦ elim (Option-cases (n.parse text)) [
      | inl bad ↦ ground (arith, known, bad, e)
      | inr (price, parses) ↦ elim (Bool-cases (crossed n order rate price)) [
        | inl over ↦
            let (c, done, same) =
              fill_crossed-eq-ok order parsed text price db db' known parses
                (ground (arith, known, parses, over, e)) in
            (c, done, subst (λ w. crossed n order rate w ≡ true) (sym same) over)
        | inr under ↦ ground (arith, known, parses, under, e)
      ]
    ]
  ]

  abbrev filled : Order → ℕ → ℤ → ℕ → Order
  filled order entry price now = record order {
    status = OrderStatus.filled;
    fill_entry_id = some entry;
    filled_price = some price;
    filled_at = some now;
  }

  abbrev orders_saved : Order → Db → Db
  orders_saved r x = record x { orders = save_row (λ o. o.id) r x.orders }

  abbrev owner : Order → Db → Option User
  owner order db = find (λ u. u.id == order.user_id) db.users

  fill_order-eq-ok :
      (order : Order) (quote : Currency) (price : n.Decimal) (swap : ExecuteSwapInput n)
      (a : SwapAccounts) (d d' : Db)
      → fill_order n order quote price swap a d ≡ (ok true, d')
      → (s : ExecuteSwapResult n) × (x : Db) × (units : ℤ) × (post_swap n swap a d ≡ (ok s, x))
        × (d'
            ≡ appended DomainEventType.order_filled order.id
                (email_of (owner order x))
                (orders_saved (filled order s.entry_id units x.now) x))
  unfolding fill_order save_order append find_by_id fresh_id
  fill_order-eq-ok order quote price swap a d d' e = elim (Outcome-cases (post_swap n swap a d)) [
    | inl (x, s, bad) ↦ ground (arith, bad, e)
    | inr (s, x, swapped) ↦ elim (Option-cases (n.numeric_in (n.to_fixed quote.decimals price))) [
      | inl bad ↦ ground (arith, swapped, bad, e)
      | inr (units, stored) ↦ (s, x, units, swapped, ground (arith, swapped, stored, e))
    ]
  ]

  -- What a swap out of a trade-hold account takes from the trade-hold account of a currency.
  key_net-swap :
      (c : Text) (order : Order) (base quote : Currency) (hold amount : n.Numeral)
      → key_net (hold_key c) (swap_moves n (fill_swap n order base quote hold amount))
        ≡ pos 0
          -ℤ (if hold_currency_code order.side base.code quote.code == c
              then amount_units n hold
              else pos 0)
  key_net-swap c order base quote hold amount =
      let code = hold_currency_code order.side base.code quote.code in
      let to = (fill_swap n order base quote hold amount).to_currency_code in
      elim (Bool-cases (code == c)) [
        | inl same ↦ elim (Bool-cases (to == c)) [
          | inl same' ↦ rw (same, same') (omega int_laws)
          | inr diff' ↦ rw (same, diff') (omega int_laws)
        ]
        | inr diff ↦ elim (Bool-cases (to == c)) [
          | inl same' ↦ rw (diff, same') (omega int_laws)
          | inr diff' ↦ rw (diff, diff') (omega int_laws)
        ]
      ]

  saved-SameBooks : (r : Order) (x : Db) → SameBooks x (orders_saved r x)
  saved-SameBooks r x = record {
    accounts = refl;
    balances = refl;
    lines = refl;
    later = omega arith;
  }

  -- The hold pays the treasury, and the treasury the user: the quantity for a buy, the product for a sell.
  abbrev pub fill_moves :
      (order : Order) (parsed : ParsedPair) (db : Db) → Crossed order parsed db → List Move
  fill_moves order parsed db c =
      exchange_moves n
        (hold_key (if is_buy order.side then c.both.quote.code else c.both.base.code)) c.hold
        order.user_id (if is_buy order.side then c.both.base.code else c.both.quote.code)
        (if is_buy order.side then n.numeric_out order.quantity else c.quote_amount)

  -- The order has been closed as filled, and its swap has moved the money.
  abbrev pub Filled :
      (order : Order) (parsed : ParsedPair) (db : Db) → Crossed order parsed db → Db → Type 0
  Filled order parsed db c db' =
      IsBacked n db'
      × Moved (fill_moves order parsed db c) db db'
      × ((r : Order) × (db'.orders ≡ save_row (λ o. o.id) r db.orders)
          × (r.id ≡ order.id)
          × (r.status ≡ OrderStatus.filled)
          × (r.user_id ≡ order.user_id))
      × Announces DomainEventType.order_filled (email_of (owner order db)) db db'

  need-Crossed :
      (order : Order) (parsed : ParsedPair) (db : Db) (c : Crossed order parsed db) (k : Text)
      → split_pair order.pair ≡ ok parsed
      → need n db.currencies k order ≡ (
          if hold_currency_code order.side c.both.base.code c.both.quote.code == k
          then amount_units n c.hold
          else pos 0)
  need-Crossed order parsed db c k split =
      need_known n db.currencies k order parsed c.both.base c.both.quote c.hold split c.base_found
        c.quote_found (rw (c.limit_known, stored_hold) c.held)

  filled_order :
      (order : Order) (parsed : ParsedPair) (db x : Db) (c : Crossed order parsed db) (entry : ℕ)
      (units : ℤ)
      → IsBacked n db
      → find (λ o. o.id == order.id) db.orders ≡ some order
      → is_open order.status ≡ true
      → split_pair order.pair ≡ ok parsed
      → Carried (swap_moves n (swap_of order parsed db c)) db x
      → Filled order parsed db c (
          appended DomainEventType.order_filled order.id
            (email_of (owner order x))
            (orders_saved (filled order entry units x.now) x))
  filled_order order parsed db x c entry units h found waits split carried =
      let r = filled order entry units x.now in
      let mail = email_of (owner order x) in
      let saved = orders_saved r x in
      let books = saved-SameBooks r x in
      let swap = swap_of order parsed db c in
      let ms = swap_moves n swap in
      let (sound, moved, announced) =
        appended-Moved DomainEventType.order_filled order.id mail ms db saved
          (SameBooks-IsSound x saved books carried.sound)
          (SameBooks-Moved ms db x saved carried.moved books)
          (ap (λ (d : Db). d.outbox_events) carried.frame) in
      let done = appended DomainEventType.order_filled order.id mail saved in
      let rows : done.orders ≡ save_row (λ o. o.id) r db.orders =
        ap (λ (d : Db). save_row (λ o. o.id) r d.orders) carried.frame in
      let money : done.currencies ≡ db.currencies = ap (λ (d : Db). d.currencies) carried.frame in
      let same_mail : mail ≡ email_of (owner order db) =
        ap (λ (d : Db). email_of (owner order d)) carried.frame in
      (
        record {
          sound = sound;
          backed = λ k.
              backed_closed n k order r db done h found waits refl (
                moved (hold_key k)
                ∙ ap (λ z. balance_under (hold_key k) db +ℤ z)
                    (key_net-swap k order c.both.base c.both.quote c.hold c.quote_amount
                      ∙ ap (λ z. pos 0 -ℤ z) (sym (need-Crossed order parsed db c k split))))
              ∙ rw (money, rows) refl;
        },
        moved,
        (r, rows, refl, refl, refl),
        subst (λ w. Announces DomainEventType.order_filled w db done) same_mail announced,
      )

  run_fill-Filled :
      (order : Order) (parsed : ParsedPair) (db db' : Db) (c : Crossed order parsed db)
      → IsExact n
      → IsBacked n db
      → SwapRoom n (swap_of order parsed db c) db
      → find (λ o. o.id == order.id) db.orders ≡ some order
      → is_open order.status ≡ true
      → split_pair order.pair ≡ ok parsed
      → run_fill n order c.both.quote c.limit_price (swap_of order parsed db c) db ≡ (ok true, db')
      → Filled order parsed db c db'
  unfolding run_fill
  run_fill-Filled order parsed db db' c ex h room found waits split e =
      let swap = swap_of order parsed db c in
      let (a, d, ensured, is_open_at, opens) = open_accounts-Opens n swap db h.sound in
      let body = fill_order n order c.both.quote c.limit_price swap a in
      let done : transaction body d ≡ (ok true, db') = ground (arith, ensured, e) in
      let (s, x, units, swapped, there) =
        fill_order-eq-ok order c.both.quote c.limit_price swap a d db'
          (transaction-eq-ok body done) in
      let carried = post_swap-Carried n swap a db d x s ex room is_open_at opens swapped in
      subst (λ z. Filled order parsed db c z) (sym there)
        (filled_order order parsed db x c s.entry_id units h found waits split carried)

  -- What `tryFill` has found when it fills an order.
  pub record Fillable (rates : Text → Text → Result n.Decimal) (id : ℕ) (db : Db) : Type 0 where
    pub order : Order
    pub parsed : ParsedPair
    pub rate : n.Decimal
    pub found : find (λ o. o.id == id) db.orders ≡ some order
    pub waits : is_open order.status ≡ true
    pub limits : is_limit order.order_type ≡ true
    pub split : split_pair order.pair ≡ ok parsed
    pub rated : rates parsed.base_code parsed.quote_code ≡ ok rate
    pub ready : Crossed order parsed db
    pub over : crossed n order rate ready.limit_price ≡ true

  abbrev pub fill_of :
      (rates : Text → Text → Result n.Decimal) (id : ℕ) (db : Db)
      → Fillable rates id db
      → ExecuteSwapInput n
  fill_of rates id db f = swap_of f.order f.parsed db f.ready

  try_fill-eq-ok :
      (rates : Text → Text → Result n.Decimal) (id : ℕ) (db db' : Db)
      → try_fill n rates id db ≡ (ok true, db')
      → (f : Fillable rates id db) × (run_fill n f.order f.ready.both.quote f.ready.limit_price
            (fill_of rates id db f)
            db
          ≡ (ok true, db'))
  unfolding try_fill fill_open_order
  try_fill-eq-ok rates id db db' e = elim (Option-cases (find_fillable id db)) [
    | inl absent ↦ ground (arith, absent, e)
    | inr (order, open_limit) ↦
        let (found, waits, limits) = find_fillable-eq-some id db order open_limit in
        elim (Result-cases (split_pair order.pair)) [
          | inl (x, bad) ↦ ground (arith, open_limit, bad, e)
          | inr (parsed, split) ↦ elim (Result-cases (rates parsed.base_code parsed.quote_code)) [
            | inl (x, bad) ↦ ground (arith, open_limit, split, bad, e)
            | inr (rate, rated) ↦
                let (c, done, over) =
                  fill_at_rate-eq-ok order parsed rate db db'
                    (ground (arith, open_limit, split, rated, e)) in
                (
                  record {
                    order = order;
                    parsed = parsed;
                    rate = rate;
                    found = found;
                    waits = waits;
                    limits = limits;
                    split = split;
                    rated = rated;
                    ready = c;
                    over = over;
                  },
                  done,
                )
          ]
        ]
  ]

  -- A filled order was an open limit order whose limit the rate had crossed. Its hold pays the
  -- treasury, the treasury pays the user in the other currency, the order's quantity for a buy and
  -- the rounded product of quantity and limit price for a sell, and no other balance changes. The
  -- order is closed as filled, one mail to the user is due, and every trade-hold account is still
  -- the sum of the open orders' holds. Balances stay below 20 digits.
  pub try_fill-Filled :
      (rates : Text → Text → Result n.Decimal) (id : ℕ) (db db' : Db)
      → IsExact n
      → IsBacked n db
      → ((f : Fillable rates id db) → SwapRoom n (fill_of rates id db f) db)
      → try_fill n rates id db ≡ (ok true, db')
      → (f : Fillable rates id db) × Filled f.order f.parsed db f.ready db'
  try_fill-Filled rates id db db' ex h room e =
      let (f, done) = try_fill-eq-ok rates id db db' e in
      let mine : f.order.id ≡ id =
        (nat_beq_iff f.order.id id).0 (find-holds (λ o. o.id == id) db.orders f.order f.found) in
      let found = subst (λ w. find (λ o. o.id == w) db.orders ≡ some f.order) (sym mine) f.found in
      (f, run_fill-Filled f.order f.parsed db db' f.ready ex h (room f) found f.waits f.split done)
