-- ===== src/Backend/Fills.antt =====
-- A cancellation, a fill and the worker's scan move open orders only: backend/src/trading.
use flow_pay.Prelude.{
  ℕ, ◌≡◌, true, false, some, List, [], ◌∷◌, refl, sym, ap, ◌∙◌, find, find-holds, nat_eq, ◌==◌,
  nat_beq_iff, not, Option-cases, inl, inr, select,
}
use mathlib.Core.Path.{subst}
use flow_pay.Prelude.Text.{Text, text_eq}
use flow_pay.Numbers.{Numbers}
use flow_pay.Exec.{Result, ok, internal, not_found, conflict}
use flow_pay.Db.{Db, Currency, Order, OrderStatus, DomainEventType, is_open}
use flow_pay.Users.{email_of}
use flow_pay.TradeExecution.{ExecuteSwapInput}
use flow_pay.Trading.{
  ParsedPair, split_pair, compute_hold_amount, stored_hold, limit_text, find_cancellable,
  find_fillable, save_order, release_order, cancel_found, release_hold, cancel_order, crossed,
  fill_crossed, fill_swap, rounded_product, fill_order, run_fill, fill_at_rate, fill_open_order,
  try_fill, fill_each, scan_and_fill_open_orders, fillable,
}
use flow_pay.Trading.Cancelled.{find_cancellable-eq-ok}
use flow_pay.Trading.Filled.{find_fillable-eq-some}
use flow_pay.Backend.Keeping.{
  Keeps, bind-Keeps, lift-Keeps, gets-Keeps, pure-Keeps, throw_if-Keeps, or_throw-Keeps,
}
use flow_pay.Backend.Growing.{
  Posts, posts, ensure_accounts-Keeps, find_by_id-Keeps, append-Keeps, post_entry-Keeps,
  post_swap-Keeps, open_accounts-Keeps,
}
use flow_pay.Backend.Advancing.{
  OrderStep, order_stays, order_cancels, order_fills, Advances-save_row, Evolves, Evolves-refl,
  Evolves-trans, evolves, posts-Evolving,
}
use flow_pay.Backend.Within.{
  Within, bind-Within, end-Within, transaction-Within, found-Keeps, anyway-Within, if-Within,
}
use flow_pay.Backend.Book.{with_orders, both_currencies-Keeps, pair_currencies-Keeps}

-- What was read is an open order of the table.
abbrev IsOpen : Order → Db → Type 0
IsOpen o db = (find (λ x. x.id == o.id) db.orders ≡ some o) × (is_open o.status ≡ true)

IsOpen-stable : (o : Order) (db db' : Db) → Posts db db' → IsOpen o db → IsOpen o db'
IsOpen-stable o db db' p (found, opens) = (ap (find (λ x. x.id == o.id)) p.orders ∙ found, opens)

found-IsOpen :
    (id : ℕ) (db : Db) (o : Order)
    → find (λ x. x.id == id) db.orders ≡ some o
    → is_open o.status ≡ true
    → IsOpen o db
found-IsOpen id db o found opens =
    let that : o.id ≡ id =
      (nat_beq_iff o.id id).0 (find-holds (λ x. x.id == id) db.orders o found) in
    (subst (λ k. find (λ x. x.id == k) db.orders ≡ some o) (sym that) found, opens)

find_cancellable-Keeps : (user id : ℕ) → Keeps posts (find_cancellable user id)
unfolding find_cancellable
find_cancellable-Keeps user id =
    bind-Keeps posts _ _ (gets-Keeps posts (λ db. find (λ o. o.id == id) db.orders)) (λ found.
      bind-Keeps posts _ _ (or_throw-Keeps posts found not_found) (λ order.
        bind-Keeps posts _ _ (throw_if-Keeps posts (not (order.user_id == user)) not_found) (λ y.
          bind-Keeps posts _ _ (throw_if-Keeps posts (not (is_open order.status)) conflict)
            (λ z. pure-Keeps posts order))))

find_cancellable-IsOpen :
    (user id : ℕ) (db : Db) (o : Order) (d : Db)
    → find_cancellable user id db ≡ (ok o, d)
    → IsOpen o d
find_cancellable-IsOpen user id db o d e =
    let (found, own, opens, same) = find_cancellable-eq-ok user id db d o e in
    subst (IsOpen o) (sym same) (found-IsOpen id db o found opens)

save_order-Within :
    (o o' : Order)
    → o'.id ≡ o.id
    → (is_open o.status ≡ true → OrderStep o o')
    → Within (IsOpen o) (IsOpen-stable o) (save_order o')
unfolding save_order
save_order-Within o o' same step = record {
  moves = λ db (found, opens). with_orders db _ (
      Advances-save_row (λ x. x.id) OrderStep (λ x. order_stays refl) db.orders o o'
        (subst (λ k. find (λ x. x.id == k) db.orders ≡ some o) (sym same) found) (step opens));
}

module _ (n : Numbers) where
  release_order-Within :
      (o : Order) (code : Text) (hold : n.Numeral) (from to : ℕ)
      → Within (IsOpen o) (IsOpen-stable o) (release_order n o code hold from to)
  unfolding release_order
  release_order-Within o code hold from to =
      bind-Within (IsOpen o) (IsOpen-stable o) _ _ (post_entry-Keeps n _ true) (λ result.
        end-Within (IsOpen o) (IsOpen-stable o) _ _
          (save_order-Within o (record o { status = OrderStatus.cancelled }) refl
            (λ opens. order_cancels opens refl))
          (λ z. pure-Keeps evolves (record o { status = OrderStatus.cancelled })))

  pub cancel_order-Keeps : (user id : ℕ) → Keeps evolves (cancel_order n user id)
  unfolding cancel_order cancel_found release_hold
  cancel_order-Keeps user id =
      found-Keeps IsOpen IsOpen-stable _ _ (find_cancellable-Keeps user id)
        (find_cancellable-IsOpen user id)
        (λ o. bind-Within (IsOpen o) (IsOpen-stable o) _ _ (pair_currencies-Keeps o.pair) (λ p.
          bind-Within (IsOpen o) (IsOpen-stable o) _ _
            (or_throw-Keeps posts (stored_hold n o p.base p.quote) internal)
            (λ hold.
              bind-Within (IsOpen o) (IsOpen-stable o) _ _ (ensure_accounts-Keeps _ _) (λ accounts.
                transaction-Within (IsOpen o) (IsOpen-stable o) _
                  (release_order-Within o _ hold _ _)))))

  run_fill-Within :
      (o : Order) (quote : Currency) (price : n.Decimal) (i : ExecuteSwapInput n)
      → Within (IsOpen o) (IsOpen-stable o) (run_fill n o quote price i)
  unfolding run_fill fill_order
  run_fill-Within o quote price i =
      bind-Within (IsOpen o) (IsOpen-stable o) _ _ (open_accounts-Keeps n i) (λ accounts.
        transaction-Within (IsOpen o) (IsOpen-stable o) _ (
          bind-Within (IsOpen o) (IsOpen-stable o) _ _ (post_swap-Keeps n i accounts) (λ swap.
            bind-Within (IsOpen o) (IsOpen-stable o) _ _
              (or_throw-Keeps posts (n.numeric_in (n.to_fixed quote.decimals price)) internal)
              (λ units.
                bind-Within (IsOpen o) (IsOpen-stable o) _ _ (gets-Keeps posts (λ db. db.now))
                  (λ now.
                    end-Within (IsOpen o) (IsOpen-stable o) _ _
                      (save_order-Within o
                        (record o {
                          status = OrderStatus.filled;
                          fill_entry_id = some swap.entry_id;
                          filled_price = some units;
                          filled_at = some now;
                        })
                        refl (λ opens. order_fills swap.entry_id units now opens refl))
                      (λ z. posts-Evolving _ (
                        bind-Keeps posts _ _ (find_by_id-Keeps o.user_id) (λ owner.
                          bind-Keeps posts _ _
                            (append-Keeps DomainEventType.order_filled o.id (email_of owner))
                            (λ y. pure-Keeps posts true)))))))))

  fill_crossed-Within :
      (o : Order) (parsed : ParsedPair) (numeral : n.Numeral) (price : n.Decimal)
      → Within (IsOpen o) (IsOpen-stable o) (fill_crossed n o parsed numeral price)
  unfolding fill_crossed
  fill_crossed-Within o parsed numeral price =
      bind-Within (IsOpen o) (IsOpen-stable o) _ _
        (both_currencies-Keeps parsed.base_code parsed.quote_code)
        (λ p.
          bind-Within (IsOpen o) (IsOpen-stable o) _ _
            (or_throw-Keeps posts
              (compute_hold_amount n o.side (n.numeric_out o.quantity) numeral p.base.decimals
                p.quote.decimals)
              internal)
            (λ hold.
              bind-Within (IsOpen o) (IsOpen-stable o) _ _
                (or_throw-Keeps posts
                  (rounded_product n p.quote.decimals (n.numeric_out o.quantity) numeral) internal)
                (λ amount.
                  run_fill-Within o p.quote price (fill_swap n o p.base p.quote hold amount))))

  fill_open_order-Within :
      (rates : Text → Text → Result n.Decimal) (o : Order)
      → Within (IsOpen o) (IsOpen-stable o) (fill_open_order n rates o)
  unfolding fill_open_order fill_at_rate
  fill_open_order-Within rates o =
      bind-Within (IsOpen o) (IsOpen-stable o) _ _ (lift-Keeps posts (split_pair o.pair)) (λ parsed.
        bind-Within (IsOpen o) (IsOpen-stable o) _ _
          (lift-Keeps posts (rates parsed.base_code parsed.quote_code))
          (λ rate.
            bind-Within (IsOpen o) (IsOpen-stable o) _ _
              (or_throw-Keeps posts (limit_text n o) internal)
              (λ numeral.
                bind-Within (IsOpen o) (IsOpen-stable o) _ _
                  (or_throw-Keeps posts (n.parse numeral) internal)
                  (λ price.
                    if-Within (IsOpen o) (IsOpen-stable o) (crossed n o rate price) _ _
                      (fill_crossed-Within o parsed numeral price)
                      (anyway-Within (IsOpen o) (IsOpen-stable o) _ (pure-Keeps evolves false))))))

  pub try_fill-Keeps :
      (rates : Text → Text → Result n.Decimal) (id : ℕ) → Keeps evolves (try_fill n rates id)
  unfolding try_fill
  try_fill-Keeps rates id = record {
    holds = λ db. elim (Option-cases (find_fillable id db)) [
      | inl absent ↦
          let ran : try_fill n rates id db ≡ (ok false, db) = rw (absent, try_fill) refl in
          subst (λ q. Evolves db q.1) (sym ran) (Evolves-refl db)
      | inr (o, found) ↦
          let (here, opens, limits) = find_fillable-eq-some id db o found in
          let ran : try_fill n rates id db ≡ fill_open_order n rates o db =
            rw (found, try_fill) refl in
          subst (λ q. Evolves db q.1) (sym ran)
            ((fill_open_order-Within rates o).moves db (found-IsOpen id db o here opens))
    ];
  }

  fill_each-Keeps :
      (rates : Text → Text → Result n.Decimal) (rows : List Order)
      → Keeps evolves (fill_each n rates rows)
  unfolding fill_each
  fill_each-Keeps rates [] = record { holds = λ db. Evolves-refl db }
  fill_each-Keeps rates (o ∷ rest) = record {
    holds = λ db.
        let tried = (try_fill n rates o.id db).1 in
        Evolves-trans db tried (fill_each n rates rest tried).1
          ((try_fill-Keeps rates o.id).holds db) ((fill_each-Keeps rates rest).holds tried);
  }

  pub scan_and_fill_open_orders-Keeps :
      (rates : Text → Text → Result n.Decimal) → Keeps evolves (scan_and_fill_open_orders n rates)
  unfolding scan_and_fill_open_orders
  scan_and_fill_open_orders-Keeps rates = record {
    holds = λ db. (fill_each-Keeps rates (select fillable db.orders)).holds db;
  }
