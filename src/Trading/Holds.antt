-- ===== src/Trading/Holds.antt =====
-- The trade-hold pools hold what the open orders need.
use flow_pay.Prelude.{
  ◌≡◌, true, false, Option, none, some, List, ◌==◌, nat_eq, if◌then◌else◌, find, refl, ap, sym, ◌∙◌,
}
use flow_pay.Prelude.Int.{ℤ, pos, ◌+ℤ◌, ◌-ℤ◌, int_laws, +ℤ-solve}
use flow_pay.Prelude.Rows.{save_row, total, total-save_row}
use flow_pay.Prelude.Text.{Text, text_eq, to_upper}
use flow_pay.Numbers.{Numbers}
use flow_pay.Exec.{ok, err}
use flow_pay.Db.{Db, AccountKind, Currency, Order, is_open}
use flow_pay.Ledger.{EnsureAccountInput, system_key}
use flow_pay.Ledger.Amounts.{amount_units}
use flow_pay.Ledger.Invariant.{IsSound}
use flow_pay.Ledger.Keys.{balance_under}
use flow_pay.Trading.Pair.{ParsedPair, split_pair}
use flow_pay.Trading.OrderMath.{hold_currency_code}
use flow_pay.Trading.Orders.{stored_hold}

abbrev pub hold_key : Text → EnsureAccountInput
hold_key c = system_key AccountKind.trade_hold c

abbrev pub currency_of : Text → List Currency → Option Currency
currency_of code = find (λ c. c.code == to_upper code)

module _ (n : Numbers) where
  abbrev units_of : Option n.Numeral → ℤ
  units_of none = pos 0
  units_of (some text) = amount_units n text

  -- What an order would hold of a currency if it were open.
  abbrev pub need : List Currency → Text → Order → ℤ
  need currencies c order = elim (split_pair order.pair) [
    | err x ↦ pos 0
    | ok p ↦ elim (currency_of p.base_code currencies) [
      | none ↦ pos 0
      | some base ↦ elim (currency_of p.quote_code currencies) [
        | none ↦ pos 0
        | some quote ↦
            if hold_currency_code order.side base.code quote.code == c
            then units_of (stored_hold n order base quote)
            else pos 0
      ]
    ]
  ]

  abbrev pub held_in : List Currency → Text → Order → ℤ
  held_in currencies c order = if is_open order.status then need currencies c order else pos 0

  -- The ledger is sound, and each currency's trade-hold account has the sum of its open orders' holds.
  pub record IsBacked (db : Db) : Type 0 where
    pub sound : IsSound db
    pub backed :
        (c : Text) → balance_under (hold_key c) db ≡ total (held_in db.currencies c) db.orders

  pub need_known :
      (currencies : List Currency) (c : Text) (order : Order) (p : ParsedPair)
      (base quote : Currency) (hold : n.Numeral)
      → split_pair order.pair ≡ ok p
      → currency_of p.base_code currencies ≡ some base
      → currency_of p.quote_code currencies ≡ some quote
      → stored_hold n order base quote ≡ some hold
      → need currencies c order ≡ (
          if hold_currency_code order.side base.code quote.code == c
          then amount_units n hold
          else pos 0)
  need_known currencies c order p base quote hold split eb eq held =
      rw (split, eb, eq, held, need) refl

  -- An open order is closed, and its hold has left the pool.
  pub backed_closed :
      (c : Text) (order r : Order) (db db' : Db)
      → IsBacked db
      → find (λ o. o.id == r.id) db.orders ≡ some order
      → is_open order.status ≡ true
      → is_open r.status ≡ false
      → balance_under (hold_key c) db'
        ≡ balance_under (hold_key c) db +ℤ (pos 0 -ℤ need db.currencies c order)
      → balance_under (hold_key c) db'
        ≡ total (held_in db.currencies c) (save_row (λ o. o.id) r db.orders)
  backed_closed c order r db db' h found waits over moved =
      let value = held_in db.currencies c in
      let rows = save_row (λ (o : Order). o.id) r db.orders in
      let mine : value order ≡ need db.currencies c order = rw (waits, held_in) refl in
      let gone : value r ≡ pos 0 = rw (over, held_in) refl in
      let after : total value rows ≡ total value db.orders +ℤ value r -ℤ value order =
        +ℤ-solve (total value rows) (value order) (total value db.orders) (value r)
          (total-save_row (λ o. o.id) value db.orders order r found) in
      moved
      ∙ ap (λ z. z +ℤ (pos 0 -ℤ need db.currencies c order)) (h.backed c)
      ∙ arranged (total value db.orders) (need db.currencies c order)
      ∙ ap (λ z. total value db.orders +ℤ z -ℤ need db.currencies c order) (sym gone)
      ∙ ap (λ z. total value db.orders +ℤ value r -ℤ z) (sym mine)
      ∙ sym after
    where
      arranged : (a b : ℤ) → a +ℤ (pos 0 -ℤ b) ≡ a +ℤ pos 0 -ℤ b
      arranged a b = omega int_laws
