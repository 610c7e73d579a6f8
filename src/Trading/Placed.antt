-- ===== src/Trading/Placed.antt =====
-- `placeLimitOrder`: the hold moves to the trade-hold account with the order that needs it.
use flow_pay.Prelude.{
  ℕ, suc, ◌*◌, ◌≡◌, true, none, some, [], ◌∷◌, ◌++◌, ◌==◌, if◌then◌else◌, arith, refl, ap, sym, ◌∙◌,
  inl, inr, Option-cases,
}
use mathlib.Core.Path.{subst}
use flow_pay.Prelude.Int.{ℤ, pos, ◌+ℤ◌, int_laws, magnitude}
use flow_pay.Prelude.Rows.{total, total-append}
use flow_pay.Prelude.Text.{Text, text_eq}
use flow_pay.Numbers.{Numbers, IsExact}
use flow_pay.Exec.{ok, transaction, transaction-eq-ok, Outcome-cases}
use flow_pay.Db.{Db, AccountKind, Currency, JournalEntryType, Order, OrderSide, is_open}
use flow_pay.Ledger.{PostEntryInput, PostEntryResult, wallet_key, two_lines, post_entry, fresh_id}
use flow_pay.Ledger.Amounts.{amount_units}
use flow_pay.Ledger.Keys.{Moved, key_net}
use flow_pay.Ledger.Ensured.{ensure_accounts-Opens}
use flow_pay.Ledger.TwoLines.{Headroom, carry}
use flow_pay.Ledger.Carried.{
  Carried, SameBooks, SameBooks-IsSound, SameBooks-Moved, two_lines-Carried,
}
use flow_pay.Ledger.Pools.{key_net-carry_in, wallet_pool}
use flow_pay.Trading.Pair.{ParsedPair, split_pair}
use flow_pay.Trading.OrderMath.{hold_currency_code, compute_hold_amount, rounded}
use flow_pay.Trading.Orders.{
  CreateOrderDto, pair_text, new_limit_order, insert_order, hold_order, place_hold,
  place_limit_order, stored_hold,
}
use flow_pay.Trading.Holds.{IsBacked, hold_key, held_in, need_known, currency_of}

-- The pair's text names its two currencies: their codes are upper case, have no slash, and are in the table.
pub record IsPair (base quote : Currency) (db : Db) : Type 0 where
  pub parsed : ParsedPair
  pub split : split_pair (pair_text base quote) ≡ ok parsed
  pub base_found : currency_of parsed.base_code db.currencies ≡ some base
  pub quote_found : currency_of parsed.quote_code db.currencies ≡ some quote

module _ (n : Numbers) where
  -- A numeral that a column keeps: it is read back as the same decimal.
  abbrev pub IsKept : n.Numeral → Type 0
  IsKept text = (z : ℤ) → n.numeric_in text ≡ some z → n.parse (n.numeric_out z) ≡ n.parse text

  abbrev entry_of : ℕ → ℕ → n.Numeral → Text → PostEntryInput n
  entry_of wallet hold amount code = record {
    entry_type = JournalEntryType.trade_hold;
    metadata = none;
    lines = two_lines n wallet hold amount code;
  }

  abbrev with_order : Order → Db → Db
  with_order r x = record x { orders = x.orders ++ (r ∷ []); next_id = suc x.next_id }

  hold_order-eq-ok :
      (user : ℕ) (pair : Text) (side : OrderSide) (quantity price : n.Numeral) (code : Text)
      (amount : n.Numeral) (wallet hold : ℕ) (d d' : Db) (r : Order)
      → hold_order n user pair side quantity price code amount wallet hold d ≡ (ok r, d')
      → (p : PostEntryResult n) × (x : Db) × (q : ℤ) × (u : ℤ) × (post_entry n
            (entry_of wallet hold amount code)
            true
            d
          ≡ (ok p, x))
        × (n.numeric_in quantity ≡ some q)
        × (n.numeric_in price ≡ some u)
        × (r ≡ new_limit_order n user pair side q u p.entry_id x.next_id)
        × (d' ≡ with_order (new_limit_order n user pair side q u p.entry_id x.next_id) x)
  unfolding hold_order insert_order fresh_id
  hold_order-eq-ok user pair side quantity price code amount wallet hold d d' r e =
      elim (Outcome-cases (post_entry n (entry_of wallet hold amount code) true d)) [
        | inl (x, s, bad) ↦ ground (arith, bad, e)
        | inr (p, x, posted) ↦ elim (Option-cases (n.numeric_in quantity)) [
          | inl bad ↦ ground (arith, posted, bad, e)
          | inr (q, kq) ↦ elim (Option-cases (n.numeric_in price)) [
            | inl bad ↦ ground (arith, posted, kq, bad, e)
            | inr (u, ku) ↦ (
              p,
              x,
              q,
              u,
              posted,
              kq,
              ku,
              ground (arith, posted, kq, ku, e),
              ground (arith, posted, kq, ku, e),
            )
          ]
        ]
      ]

  -- What is computed from the columns is what was computed from the texts.
  hold_kept :
      (side : OrderSide) (q p q' p' : n.Numeral) (bd qd : ℕ)
      → n.parse q' ≡ n.parse q
      → n.parse p' ≡ n.parse p
      → compute_hold_amount n side q' p' bd qd ≡ compute_hold_amount n side q p bd qd
  hold_kept side q p q' p' bd qd same_q same_p = elim (Option-cases (n.parse q)) [
    | inl none_q ↦ ground (arith, same_q, same_p, none_q)
    | inr (x, some_q) ↦ elim (Option-cases (n.parse p)) [
      | inl none_p ↦ ground (arith, same_q, same_p, some_q, none_p)
      | inr (y, some_p) ↦ ground (arith, same_q, same_p, some_q, some_p)
    ]
  ]

  -- The hold is in the pool, for one new open order.
  abbrev pub Placed : ℕ → Text → n.Numeral → Order → Db → Db → Type 0
  Placed user code hold r db db' =
      IsBacked n db'
      × Moved (carry (wallet_key user code) (hold_key code) (amount_units n hold)) db db'
      × (db'.orders ≡ db.orders ++ (r ∷ []))
      × (is_open r.status ≡ true)
      × (r.user_id ≡ user)

  with_order-SameBooks : (r : Order) (x : Db) → SameBooks x (with_order r x)
  with_order-SameBooks r x = record {
    accounts = refl;
    balances = refl;
    lines = refl;
    later = omega arith;
  }

  placed :
      (user : ℕ) (code : Text) (hold : n.Numeral) (r : Order) (db x : Db)
      → IsBacked n db
      → Carried (carry (wallet_key user code) (hold_key code) (amount_units n hold)) db x
      → ((k : Text)
          → held_in n db.currencies k r ≡ (if code == k then amount_units n hold else pos 0))
      → is_open r.status ≡ true
      → r.user_id ≡ user
      → Placed user code hold r db (with_order r x)
  placed user code hold r db x h carried holds waits mine =
      let ms = carry (wallet_key user code) (hold_key code) (amount_units n hold) in
      let books = with_order-SameBooks r x in
      let moved = SameBooks-Moved ms db x (with_order r x) carried.moved books in
      let rows : (with_order r x).orders ≡ db.orders ++ (r ∷ []) =
        ap (λ (d : Db). d.orders ++ (r ∷ [])) carried.frame in
      let money : (with_order r x).currencies ≡ db.currencies =
        ap (λ (d : Db). d.currencies) carried.frame in
      (
        record {
          sound = SameBooks-IsSound x (with_order r x) books carried.sound;
          backed = λ k.
              let value = held_in n db.currencies k in
              let added =
                key_net-carry_in AccountKind.trade_hold k code (wallet_key user code)
                  (amount_units n hold) (wallet_pool AccountKind.trade_hold k code user) in
              let alone : value r ≡ total value (r ∷ []) = omega int_laws in
              moved (hold_key k)
              ∙ ap (λ z. z +ℤ key_net (hold_key k) ms) (h.backed k)
              ∙ ap (λ z. total value db.orders +ℤ z) (added ∙ sym (holds k) ∙ alone)
              ∙ sym (total-append value db.orders (r ∷ []))
              ∙ rw (money, rows) refl;
        },
        moved,
        rows,
        waits,
        mine,
      )

  place_hold-Placed :
      (user : ℕ) (base quote : Currency) (side : OrderSide) (quantity price hold : n.Numeral)
      (db db' : Db) (r : Order)
      → IsExact n
      → IsBacked n db
      → IsPair base quote db
      → IsKept quantity
      → IsKept price
      → compute_hold_amount n side quantity price base.decimals quote.decimals ≡ some hold
      → Headroom (2 * magnitude (amount_units n hold)) db
      → place_hold n user
          (pair_text base quote)
          side
          quantity
          price
          (hold_currency_code side base.code quote.code)
          hold
          db
        ≡ (ok r, db')
      → Placed user (hold_currency_code side base.code quote.code) hold r db db'
  unfolding place_hold
  place_hold-Placed user base quote side quantity price hold db db' r ex h pair kept_q kept_p
        computed room e =
      let code = hold_currency_code side base.code quote.code in
      let text = pair_text base quote in
      let (w, t, d, ensured, fw, ft, opens) =
        ensure_accounts-Opens (wallet_key user code) (hold_key code) db h.sound in
      let body = hold_order n user text side quantity price code hold w.id t.id in
      let done : transaction body d ≡ (ok r, db') = ground (arith, ensured, e) in
      let (p, x, q, u, posted, kq, ku, row, there) =
        hold_order-eq-ok user text side quantity price code hold w.id t.id d db' r
          (transaction-eq-ok body done) in
      let made = new_limit_order n user text side q u p.entry_id x.next_id in
      let stored : stored_hold n made base quote ≡ some hold =
        hold_kept side quantity price (n.numeric_out q) (n.numeric_out u) base.decimals
          quote.decimals (kept_q q kq) (kept_p u ku)
        ∙ computed in
      let carried =
        two_lines-Carried n (wallet_key user code) (hold_key code) w t hold code
          (entry_of w.id t.id hold code) db d x p refl ex opens room fw ft posted in
      subst (λ z. Placed user code hold z db db') (sym row)
        (subst (λ z. Placed user code hold made db z) (sym there)
          (placed user code hold made db x h carried
            (λ k.
              need_known n db.currencies k made pair.parsed base quote hold pair.split
                pair.base_found pair.quote_found stored)
            refl refl))

  -- The numbers of a limit order: the rounded quantity and price, and the hold.
  pub record Quoted (base quote : Currency) (dto : CreateOrderDto n) : Type 0 where
    pub quantity : n.Numeral
    pub asked : n.Numeral
    pub price : n.Numeral
    pub hold : n.Numeral
    pub quantity_rounded : rounded n base.decimals dto.quantity ≡ some quantity
    pub price_asked : dto.limit_price ≡ some asked
    pub price_rounded : rounded n quote.decimals asked ≡ some price
    pub computed :
        compute_hold_amount n dto.side quantity price base.decimals quote.decimals ≡ some hold

  place_limit_order-eq-ok :
      (user : ℕ) (base quote : Currency) (dto : CreateOrderDto n) (db db' : Db) (r : Order)
      → place_limit_order n user base quote dto db ≡ (ok r, db')
      → (t : Quoted base quote dto) × (place_hold n user
            (pair_text base quote)
            dto.side
            t.quantity
            t.price
            (hold_currency_code dto.side base.code quote.code)
            t.hold
            db
          ≡ (ok r, db'))
  unfolding place_limit_order
  place_limit_order-eq-ok user base quote dto db db' r e =
      elim (Option-cases (rounded n base.decimals dto.quantity)) [
        | inl bad ↦ ground (arith, bad, e)
        | inr (quantity, eq) ↦ elim (Option-cases dto.limit_price) [
          | inl bad ↦ ground (arith, eq, bad, e)
          | inr (asked, ea) ↦ elim (Option-cases (rounded n quote.decimals asked)) [
            | inl bad ↦ ground (arith, eq, ea, bad, e)
            | inr (price, ep) ↦
                elim (Option-cases
                  (compute_hold_amount n dto.side quantity price base.decimals quote.decimals)) [
                    | inl bad ↦ ground (arith, eq, ea, ep, bad, e)
                    | inr (hold, eh) ↦ (
                      record {
                        quantity = quantity;
                        asked = asked;
                        price = price;
                        hold = hold;
                        quantity_rounded = eq;
                        price_asked = ea;
                        price_rounded = ep;
                        computed = eh;
                      },
                      ground (arith, eq, ea, ep, eh, e),
                    )
                  ]
          ]
        ]
      ]

  -- A limit order that is placed moves its hold, computed from the rounded quantity and price, from
  -- the user's wallet to the trade-hold account of the currency that it spends and no other
  -- balance, adds one open order, and every trade-hold account still has the sum of the open
  -- orders' holds. The columns keep the rounded numerals, and balances stay below 20 digits.
  pub place_limit_order-Placed :
      (user : ℕ) (base quote : Currency) (dto : CreateOrderDto n) (db db' : Db) (r : Order)
      → IsExact n
      → IsBacked n db
      → IsPair base quote db
      → ((t : Quoted base quote dto)
          → IsKept t.quantity
            × IsKept t.price
            × Headroom (2 * magnitude (amount_units n t.hold)) db)
      → place_limit_order n user base quote dto db ≡ (ok r, db')
      → (t : Quoted base quote dto) × Placed user
          (hold_currency_code dto.side base.code quote.code)
          t.hold
          r
          db
          db'
  place_limit_order-Placed user base quote dto db db' r ex h pair fine e =
      let (t, done) = place_limit_order-eq-ok user base quote dto db db' r e in
      let (kept_q, kept_p, room) = fine t in
      (
        t,
        place_hold-Placed user base quote dto.side t.quantity t.price t.hold db db' r ex h pair
            kept_q kept_p t.computed room done,
      )
