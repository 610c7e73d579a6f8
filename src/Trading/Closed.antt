-- ===== src/Trading/Closed.antt =====
-- An order that was cancelled or filled, seen by the calls that come later.
use flow_pay.Prelude.{
  ℕ, ◌*◌, ◌≡◌, true, false, some, arith, ap, sym, ◌∙◌, find, find-holds, nat_beq_iff, nat_eq, ◌==◌,
}
use mathlib.Core.Path.{subst}
use flow_pay.Prelude.Int.{magnitude}
use flow_pay.Prelude.Rows.{save_row, find-save_row}
use flow_pay.Prelude.Text.{Text}
use flow_pay.Numbers.{Numbers, IsExact}
use flow_pay.Exec.{Result, ok, err, conflict}
use flow_pay.Db.{Db, Order, is_open}
use flow_pay.Ledger.Amounts.{amount_units}
use flow_pay.Ledger.TwoLines.{Headroom}
use flow_pay.TradeExecution.Swapped.{SwapRoom}
use flow_pay.Trading.Orders.{cancel_order, find_cancellable}
use flow_pay.Trading.Worker.{try_fill}
use flow_pay.Trading.Holds.{IsBacked}
use flow_pay.Trading.Cancelled.{Cancellable, cancel_order-Released}
use flow_pay.Trading.Filled.{Fillable, fill_of, try_fill-Filled}

module _ (n : Numbers) where
  left_alone :
      (rates : Text → Text → Result n.Decimal) (id : ℕ) (db : Db) (r : Order)
      → find (λ o. o.id == id) db.orders ≡ some r
      → is_open r.status ≡ false
      → (try_fill n rates id db ≡ (ok false, db))
        × (cancel_order n r.user_id id db ≡ (err conflict, db))
  unfolding try_fill cancel_order find_cancellable
  left_alone rates id db r found over = (ground (arith, found, over), ground (arith, found, over))

  -- the saved row is the one that is found
  saved_row :
      (id : ℕ) (o r : Order) (db db' : Db)
      → find (λ x. x.id == id) db.orders ≡ some o
      → r.id ≡ o.id
      → db'.orders ≡ save_row (λ x. x.id) r db.orders
      → find (λ x. x.id == id) db'.orders ≡ some r
  saved_row id o r db db' found same rows =
      let mine : o.id ≡ id =
        (nat_beq_iff o.id id).0 (find-holds (λ x. x.id == id) db.orders o found) in
      let key : r.id ≡ id = same ∙ mine in
      let old = subst (λ w. find (λ x. x.id == w) db.orders ≡ some o) (sym key) found in
      subst (λ w. find (λ x. x.id == w) db'.orders ≡ some r) key
        (ap (find (λ x. x.id == r.id)) rows ∙ find-save_row (λ x. x.id) db.orders o r old)

  -- An order is cancelled once, and never filled afterwards: right after a cancellation, the worker
  -- leaves the order alone at whatever rate, and another cancellation of the user is a conflict;
  -- neither changes the database, so no hold is paid out twice. Balances stay below 20 digits.
  pub cancel_order-closed :
      (rates : Text → Text → Result n.Decimal) (user id : ℕ) (db db' : Db) (r : Order)
      → IsExact n
      → IsBacked n db
      → ((c : Cancellable n user id db) → Headroom (2 * magnitude (amount_units n c.hold)) db)
      → cancel_order n user id db ≡ (ok r, db')
      → (try_fill n rates id db' ≡ (ok false, db'))
        × (cancel_order n user id db' ≡ (err conflict, db'))
  cancel_order-closed rates user id db db' r ex h room e =
      let (c, (_, _, rows, row)) = cancel_order-Released n user id db db' r ex h room e in
      let found = saved_row id c.order r db db' c.found (ap (λ o. o.id) row) rows in
      let (alone, refused) = left_alone rates id db' r found (ap (λ o. is_open o.status) row) in
      (
        alone,
        subst (λ u. cancel_order n u id db' ≡ (err conflict, db'))
            (ap (λ o. o.user_id) row ∙ c.owned) refused,
      )

  -- An order is filled once, and not cancelled afterwards: right after a fill, the worker leaves
  -- the order alone at whatever rate, and its owner's cancellation is a conflict; neither changes
  -- the database. Balances stay below 20 digits.
  pub try_fill-closed :
      (rates again : Text → Text → Result n.Decimal) (id : ℕ) (db db' : Db)
      → IsExact n
      → IsBacked n db
      → ((f : Fillable n rates id db) → SwapRoom n (fill_of n rates id db f) db)
      → try_fill n rates id db ≡ (ok true, db')
      → (o : Order) × (find (λ x. x.id == id) db.orders ≡ some o)
        × (is_open o.status ≡ true)
        × (try_fill n again id db' ≡ (ok false, db'))
        × (cancel_order n o.user_id id db' ≡ (err conflict, db'))
  try_fill-closed rates again id db db' ex h room e =
      let (f, (_, _, (r, rows, same, status, owner), _)) =
        try_fill-Filled n rates id db db' ex h room e in
      let found = saved_row id f.order r db db' f.found same rows in
      let (alone, refused) = left_alone again id db' r found (ap is_open status) in
      (
        f.order,
        f.found,
        f.waits,
        alone,
        subst (λ u. cancel_order n u id db' ≡ (err conflict, db')) owner refused,
      )
