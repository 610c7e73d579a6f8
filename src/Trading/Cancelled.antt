-- ===== src/Trading/Cancelled.antt =====
-- `cancelOrder`: an open order of the user is closed, and its hold goes back to the wallet.
use flow_pay.Prelude.{
  ℕ, ◌*◌, ◌≡◌, Bool, true, false, none, some, ◌==◌, nat_eq, nat_beq_iff, if◌then◌else◌, find,
  find-holds, arith, refl, ap, sym, ◌∙◌, Option-cases, inl, inr,
}
use mathlib.Core.Path.{subst}
use flow_pay.Prelude.Int.{ℤ, pos, ◌+ℤ◌, ◌-ℤ◌, int_laws, magnitude}
use flow_pay.Prelude.Rows.{save_row}
use flow_pay.Prelude.Text.{Text, text_eq}
use flow_pay.Numbers.{Numbers, IsExact}
use flow_pay.Exec.{ok, transaction, transaction-eq-ok, Outcome-cases, Result-cases}
use flow_pay.Db.{Db, AccountKind, Currency, JournalEntryType, Order, OrderStatus, is_open}
use flow_pay.Ledger.{
  PostEntryInput, PostEntryResult, wallet_key, two_lines, post_entry, get_currency,
}
use flow_pay.Ledger.Amounts.{amount_units}
use flow_pay.Ledger.Keys.{Moved, balance_under}
use flow_pay.Ledger.Ensured.{ensure_accounts-Opens}
use flow_pay.Ledger.TwoLines.{Headroom, carry}
use flow_pay.Ledger.Carried.{
  Carried, SameBooks, SameBooks-IsSound, SameBooks-Moved, two_lines-Carried,
}
use flow_pay.Ledger.Pools.{key_net-carry_out, wallet_pool}
use flow_pay.Trading.Pair.{ParsedPair, split_pair}
use flow_pay.Trading.OrderMath.{hold_currency_code}
use flow_pay.Trading.Orders.{
  find_cancellable, stored_hold, release_order, release_hold, save_order, cancel_found,
  cancel_order, pair_currencies, both_currencies, BaseQuote,
}
use flow_pay.Trading.Holds.{IsBacked, hold_key, need_known, currency_of, backed_closed}

pub get_currency-eq-ok :
    (code : Text) (db db' : Db) (c : Currency)
    → get_currency code db ≡ (ok c, db')
    → (currency_of code db.currencies ≡ some c) × (db' ≡ db)
unfolding get_currency
get_currency-eq-ok code db db' c e = elim (Option-cases (currency_of code db.currencies)) [
  | inl absent ↦ ground (arith, absent, e)
  | inr (x, found) ↦
      let same : x ≡ c = ground (arith, found, e) in
      (found ∙ ap some same, ground (arith, found, e))
]

pub find_cancellable-eq-ok :
    (user id : ℕ) (db db' : Db) (order : Order)
    → find_cancellable user id db ≡ (ok order, db')
    → (find (λ o. o.id == id) db.orders ≡ some order)
      × (order.user_id ≡ user)
      × (is_open order.status ≡ true)
      × (db' ≡ db)
unfolding find_cancellable
find_cancellable-eq-ok user id db db' order e =
    elim (Option-cases (find (λ o. o.id == id) db.orders)) [
      | inl absent ↦ ground (arith, absent, e)
      | inr (x, found) ↦
          let same : x ≡ order = ground (arith, found, e) in
          let (mine, waits) : (x.user_id ≡ user) × (is_open x.status ≡ true) =
            ground (arith, found, e) in
          (
            found ∙ ap some same,
            ap (λ o. o.user_id) (sym same) ∙ mine,
            ap (λ o. is_open o.status) (sym same) ∙ waits,
            ground (arith, found, e),
          )
    ]

-- How `both_currencies` ends well.
pub record Both (parsed : ParsedPair) (p : BaseQuote) (db db' : Db) : Type 0 where
  pub base_found : currency_of parsed.base_code db.currencies ≡ some p.base
  pub quote_found : currency_of parsed.quote_code db.currencies ≡ some p.quote
  pub same : db' ≡ db

pub both_currencies-eq-ok :
    (parsed : ParsedPair) (db db' : Db) (p : BaseQuote)
    → both_currencies parsed.base_code parsed.quote_code db ≡ (ok p, db')
    → Both parsed p db db'
unfolding both_currencies
both_currencies-eq-ok parsed db db' p e = elim (Outcome-cases (get_currency parsed.base_code db)) [
  | inl (x, s, bad) ↦ ground (arith, bad, e)
  | inr (base, d₁, eb) ↦
      let (fb, s₁) = get_currency-eq-ok parsed.base_code db d₁ base eb in
      elim (Outcome-cases (get_currency parsed.quote_code db)) [
        | inl (x, s, bad) ↦ ground (arith, eb, s₁, bad, e)
        | inr (quote, d₂, eq) ↦
            let (fq, s₂) = get_currency-eq-ok parsed.quote_code db d₂ quote eq in
            let bases : base ≡ p.base = ground (arith, eb, s₁, eq, s₂, e) in
            let quotes : quote ≡ p.quote = ground (arith, eb, s₁, eq, s₂, e) in
            record {
              base_found = fb ∙ ap some bases;
              quote_found = fq ∙ ap some quotes;
              same = ground (arith, eb, s₁, eq, s₂, e);
            }
      ]
]

pub pair_currencies-eq-ok :
    (pair : Text) (db db' : Db) (p : BaseQuote)
    → pair_currencies pair db ≡ (ok p, db')
    → (parsed : ParsedPair) × (split_pair pair ≡ ok parsed) × Both parsed p db db'
unfolding pair_currencies
pair_currencies-eq-ok pair db db' p e = elim (Result-cases (split_pair pair)) [
  | inl (x, bad) ↦ ground (arith, bad, e)
  | inr (parsed, split) ↦
      (parsed, split, both_currencies-eq-ok parsed db db' p (ground (arith, split, e)))
]

module _ (n : Numbers) where
  -- What `cancelOrder` reads before it writes.
  pub record Cancellable (user id : ℕ) (db : Db) : Type 0 where
    pub order : Order
    pub parsed : ParsedPair
    pub base : Currency
    pub quote : Currency
    pub hold : n.Numeral
    pub found : find (λ o. o.id == id) db.orders ≡ some order
    pub owned : order.user_id ≡ user
    pub waits : is_open order.status ≡ true
    pub split : split_pair order.pair ≡ ok parsed
    pub base_found : currency_of parsed.base_code db.currencies ≡ some base
    pub quote_found : currency_of parsed.quote_code db.currencies ≡ some quote
    pub held : stored_hold n order base quote ≡ some hold

  -- The currency in which the order holds.
  abbrev pub hold_code : (user id : ℕ) (db : Db) → Cancellable user id db → Text
  hold_code user id db c = hold_currency_code c.order.side c.base.code c.quote.code

  cancel_found-eq-ok :
      (user : ℕ) (order r : Order) (db db' : Db)
      → cancel_found n user order db ≡ (ok r, db')
      → (p : BaseQuote) × (hold : n.Numeral) × (pair_currencies order.pair db ≡ (ok p, db))
        × (stored_hold n order p.base p.quote ≡ some hold)
        × (release_hold n user order
              (hold_currency_code order.side p.base.code p.quote.code)
              hold
              db
            ≡ (ok r, db'))
  unfolding cancel_found
  cancel_found-eq-ok user order r db db' e = elim (Outcome-cases (pair_currencies order.pair db)) [
    | inl (x, s, bad) ↦ ground (arith, bad, e)
    | inr (p, s, known) ↦
        let same = (pair_currencies-eq-ok order.pair db s p known).2.same in
        elim (Option-cases (stored_hold n order p.base p.quote)) [
          | inl bad ↦ ground (arith, known, same, bad, e)
          | inr (hold, held) ↦
              (p, hold, ground (arith, known, same), held, ground (arith, known, same, held, e))
        ]
  ]

  cancel_order-eq-ok :
      (user id : ℕ) (db db' : Db) (r : Order)
      → cancel_order n user id db ≡ (ok r, db')
      → (c : Cancellable user id db) × (release_hold n user c.order
            (hold_code user id db c)
            c.hold
            db
          ≡ (ok r, db'))
  unfolding cancel_order
  cancel_order-eq-ok user id db db' r e = elim (Outcome-cases (find_cancellable user id db)) [
    | inl (x, s, bad) ↦ ground (arith, bad, e)
    | inr (order, d₀, ready) ↦
        let (found, owned, waits, same) = find_cancellable-eq-ok user id db d₀ order ready in
        let rest : cancel_found n user order db ≡ (ok r, db') = ground (arith, ready, same, e) in
        let (p, hold, known, held, done) = cancel_found-eq-ok user order r db db' rest in
        let (parsed, split, both) = pair_currencies-eq-ok order.pair db db p known in
        (
          record {
            order = order;
            parsed = parsed;
            base = p.base;
            quote = p.quote;
            hold = hold;
            found = found;
            owned = owned;
            waits = waits;
            split = split;
            base_found = both.base_found;
            quote_found = both.quote_found;
            held = held;
          },
          done,
        )
  ]

  abbrev cancelled : Order → Order
  cancelled order = record order { status = OrderStatus.cancelled }

  abbrev orders_saved : Order → Db → Db
  orders_saved r x = record x { orders = save_row (λ o. o.id) r x.orders }

  abbrev release_entry : ℕ → ℕ → n.Numeral → Text → PostEntryInput n
  release_entry hold wallet amount code = record {
    entry_type = JournalEntryType.trade_release;
    metadata = none;
    lines = two_lines n hold wallet amount code;
  }

  release_order-eq-ok :
      (order r : Order) (code : Text) (amount : n.Numeral) (hold wallet : ℕ) (d d' : Db)
      → release_order n order code amount hold wallet d ≡ (ok r, d')
      → (p : PostEntryResult n) × (x : Db) × (post_entry n
            (release_entry hold wallet amount code)
            true
            d
          ≡ (ok p, x))
        × (r ≡ cancelled order)
        × (d' ≡ orders_saved (cancelled order) x)
  unfolding release_order save_order
  release_order-eq-ok order r code amount hold wallet d d' e =
      elim (Outcome-cases (post_entry n (release_entry hold wallet amount code) true d)) [
        | inl (x, s, bad) ↦ ground (arith, bad, e)
        | inr (p, x, posted) ↦ (p, x, posted, ground (arith, posted, e), ground (arith, posted, e))
      ]

  -- The order has been closed, and its hold is back in the user's wallet.
  abbrev pub Released : (user id : ℕ) (db : Db) → Cancellable user id db → Order → Db → Type 0
  Released user id db c r db' =
      IsBacked n db'
      × Moved
          (carry (hold_key (hold_code user id db c)) (wallet_key user (hold_code user id db c))
            (amount_units n c.hold))
          db db'
      × (db'.orders ≡ save_row (λ o. o.id) r db.orders)
      × (r ≡ cancelled c.order)

  saved-SameBooks : (r : Order) (x : Db) → SameBooks x (orders_saved r x)
  saved-SameBooks r x = record {
    accounts = refl;
    balances = refl;
    lines = refl;
    later = omega arith;
  }

  released :
      (user id : ℕ) (db x : Db) (c : Cancellable user id db)
      → IsBacked n db
      → Carried
          (carry
            (hold_key (hold_code user id db c))
            (wallet_key user (hold_code user id db c))
            (amount_units n c.hold))
          db
          x
      → Released user id db c (cancelled c.order) (orders_saved (cancelled c.order) x)
  released user id db x c h carried =
      let r = cancelled c.order in
      let books = saved-SameBooks r x in
      let code = hold_code user id db c in
      let units = amount_units n c.hold in
      let ms = carry (hold_key code) (wallet_key user code) units in
      let done = orders_saved r x in
      let moved = SameBooks-Moved ms db x done carried.moved books in
      let rows : done.orders ≡ save_row (λ o. o.id) r db.orders =
        ap (λ (d : Db). save_row (λ o. o.id) r d.orders) carried.frame in
      let money : done.currencies ≡ db.currencies = ap (λ (d : Db). d.currencies) carried.frame in
      let mine : c.order.id ≡ id =
        (nat_beq_iff c.order.id id).0 (find-holds (λ o. o.id == id) db.orders c.order c.found) in
      let found = subst (λ w. find (λ o. o.id == w) db.orders ≡ some c.order) (sym mine) c.found in
      (
        record {
          sound = SameBooks-IsSound x done books carried.sound;
          backed = λ k.
              let taken =
                key_net-carry_out AccountKind.trade_hold k code (wallet_key user code) units
                  (wallet_pool AccountKind.trade_hold k code user) in
              let needed =
                need_known n db.currencies k c.order c.parsed c.base c.quote c.hold c.split
                  c.base_found c.quote_found c.held in
              backed_closed n k c.order r db done h found c.waits refl (
                moved (hold_key k)
                ∙ ap (λ z. balance_under (hold_key k) db +ℤ z)
                    (taken ∙ negated (code == k) units ∙ ap (λ z. pos 0 -ℤ z) (sym needed)))
              ∙ rw (money, rows) refl;
        },
        moved,
        rows,
        refl,
      )
    where
      negated :
          (b : Bool) (z : ℤ) → (if b then pos 0 -ℤ z else pos 0) ≡ pos 0 -ℤ (if b then z else pos 0)
      negated true z = refl
      negated false z = omega int_laws

  release_hold-Released :
      (user id : ℕ) (db db' : Db) (r : Order) (c : Cancellable user id db)
      → IsExact n
      → IsBacked n db
      → Headroom (2 * magnitude (amount_units n c.hold)) db
      → release_hold n user c.order (hold_code user id db c) c.hold db ≡ (ok r, db')
      → Released user id db c r db'
  unfolding release_hold
  release_hold-Released user id db db' r c ex h room e =
      let code = hold_code user id db c in
      let (a, b, d, ensured, fa, fb, opens) =
        ensure_accounts-Opens (hold_key code) (wallet_key user code) db h.sound in
      let body = release_order n c.order code c.hold a.id b.id in
      let done : transaction body d ≡ (ok r, db') = ground (arith, ensured, e) in
      let (p, x, posted, row, there) =
        release_order-eq-ok c.order r code c.hold a.id b.id d db' (transaction-eq-ok body done) in
      let carried =
        two_lines-Carried n (hold_key code) (wallet_key user code) a b c.hold code
          (release_entry a.id b.id c.hold code) db d x p refl ex opens room fa fb posted in
      subst (λ z. Released user id db c z db') (sym row)
        (subst (λ z. Released user id db c (cancelled c.order) z) (sym there)
          (released user id db x c h carried))

  -- A cancelled order was the user's own and open. Its whole hold moves from the trade-hold account of its
  -- currency back to the user's wallet and no other balance, only its status changes, and every
  -- trade-hold account still has the sum of the open orders' holds. Balances stay below 20 digits.
  pub cancel_order-Released :
      (user id : ℕ) (db db' : Db) (r : Order)
      → IsExact n
      → IsBacked n db
      → ((c : Cancellable user id db) → Headroom (2 * magnitude (amount_units n c.hold)) db)
      → cancel_order n user id db ≡ (ok r, db')
      → (c : Cancellable user id db) × Released user id db c r db'
  cancel_order-Released user id db db' r ex h room e =
      let (c, released_hold) = cancel_order-eq-ok user id db db' r e in
      (c, release_hold-Released user id db db' r c ex h (room c) released_hold)
