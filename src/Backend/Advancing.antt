-- ===== src/Backend/Advancing.antt =====
-- Rows with a status: no row is lost, and each one only takes the steps that its status allows.
use flow_pay.Prelude.{
  ℕ, ◌≡◌, true, false, Option, some, List, [], ◌∷◌, ◌++◌, arith, refl, sym, ap, ◌∙◌, inl, inr,
  Bool-cases, find, find-append, nat_eq, ◌==◌, nat_beq, nat_beq_iff,
}
use mathlib.Core.Path.{subst}
use flow_pay.Prelude.Int.{ℤ}
use flow_pay.Prelude.Rows.{save_row, find-save_row}
use flow_pay.Db.{
  Db, Action, WithdrawalRequest, WithdrawalRequestStatus, Order, OrderStatus, is_pending, is_open,
}
use flow_pay.Withdrawals.{decided}
use flow_pay.Backend.Growing.{Grows, Grows-refl, Grows-trans, Posts, posts}
use flow_pay.Backend.Keeping.{Relation, Keeps}

-- What a request may become: itself, or once, while it is pending, a decided one. Whose it is, its
-- amount, its destination and its hold stay.
pub data RequestStep (r r' : WithdrawalRequest) : Type 0 where
  request_stays : r' ≡ r → RequestStep r r'
  request_decides :
      (status : WithdrawalRequestStatus) (admin now entry : ℕ)
      → is_pending r.status ≡ true
      → is_pending status ≡ false
      → r' ≡ decided status admin now entry r
      → RequestStep r r'

-- What an order may become: itself, or once, while it is open, a cancelled or a filled one.
pub data OrderStep (o o' : Order) : Type 0 where
  order_stays : o' ≡ o → OrderStep o o'
  order_cancels :
      is_open o.status ≡ true → o' ≡ record o { status = OrderStatus.cancelled } → OrderStep o o'
  order_fills :
      (entry : ℕ) (price : ℤ) (now : ℕ)
      → is_open o.status ≡ true
      → o' ≡ record o {
        status = OrderStatus.filled;
        fill_entry_id = some entry;
        filled_price = some price;
        filled_at = some now;
      }
      → OrderStep o o'

RequestStep-trans :
    (a b c : WithdrawalRequest) → RequestStep a b → RequestStep b c → RequestStep a c
RequestStep-trans a b c (request_stays e) g = subst (λ x. RequestStep x c) e g
RequestStep-trans a b c (request_decides s m t n p q e) (request_stays f) =
    request_decides s m t n p q (f ∙ e)
RequestStep-trans a b c (request_decides s m t n p q e) (request_decides s' m' t' n' p' q' e') =
    ground (arith, q, p', ap (λ r. is_pending r.status) e)

OrderStep-trans : (a b c : Order) → OrderStep a b → OrderStep b c → OrderStep a c
OrderStep-trans a b c (order_stays e) g = subst (λ x. OrderStep x c) e g
OrderStep-trans a b c (order_cancels p e) (order_stays f) = order_cancels p (f ∙ e)
OrderStep-trans a b c (order_cancels p e) (order_cancels p' e') =
    ground (arith, p', ap (λ r. is_open r.status) e)
OrderStep-trans a b c (order_cancels p e) (order_fills n z t p' e') =
    ground (arith, p', ap (λ r. is_open r.status) e)
OrderStep-trans a b c (order_fills n z t p e) (order_stays f) = order_fills n z t p (f ∙ e)
OrderStep-trans a b c (order_fills n z t p e) (order_cancels p' e') =
    ground (arith, p', ap (λ r. is_open r.status) e)
OrderStep-trans a b c (order_fills n z t p e) (order_fills n' z' t' p' e') =
    ground (arith, p', ap (λ r. is_open r.status) e)

module _ {A : Type 0} (key : A → ℕ) (Step : A → A → Type 0) where
  abbrev at : ℕ → List A → Option A
  at k rows = find (λ x. key x == k) rows

  -- Each row that is found by its key is found later, and has made a step.
  abbrev pub Advances : List A → List A → Type 0
  Advances xs ys = (k : ℕ) (r : A) → at k xs ≡ some r → (r' : A) × (at k ys ≡ some r') × Step r r'

  pub Advances-refl : ((r : A) → Step r r) → (xs : List A) → Advances xs xs
  Advances-refl stays xs k r e = (r, e, stays r)

  pub Advances-trans :
      ((a b c : A) → Step a b → Step b c → Step a c)
      → (xs ys zs : List A) → Advances xs ys
      → Advances ys zs
      → Advances xs zs
  Advances-trans joins xs ys zs f g k r e =
      let (r', e', s) = f k r e in let (r'', e'', t) = g k r' e' in (r'', e'', joins r r' r'' s t)

  pub Advances-append : ((r : A) → Step r r) → (xs ys : List A) → Advances xs (xs ++ ys)
  Advances-append stays xs ys k r e = (r, find-append (λ x. key x == k) xs ys ∙ rw e refl, stays r)

  find-save_row_other :
      (rows : List A) (r : A) (k : ℕ)
      → nat_beq (key r) k ≡ false
      → at k (save_row key r rows) ≡ at k rows
  find-save_row_other [] r k other = refl
  find-save_row_other (x ∷ rows) r k other = elim (Bool-cases (nat_beq (key x) (key r))) [
    | inl hit ↦
        let same : key x ≡ key r = (nat_beq_iff (key x) (key r)).0 hit in
        let missed : nat_beq (key x) k ≡ false = ap (λ z. nat_beq z k) same ∙ other in
        rw (hit, other, missed) refl
    | inr miss ↦ ground (arith, miss, find-save_row_other rows r k other)
  ]

  -- a save of a row that makes a step
  pub Advances-save_row :
      ((r : A) → Step r r)
      → (rows : List A) (q r : A) → at (key r) rows ≡ some q
      → Step q r
      → Advances rows (save_row key r rows)
  Advances-save_row stays rows q r found step k x e = elim (Bool-cases (nat_beq (key r) k)) [
    | inl hit ↦
        let same : key r ≡ k = (nat_beq_iff (key r) k).0 hit in
        let kept : at k rows ≡ some q = subst (λ z. at z rows ≡ some q) same found in
        let that : x ≡ q = ground (arith, e, kept) in
        (
          r,
          subst (λ z. at z (save_row key r rows) ≡ some r) same (find-save_row key rows q r found),
          subst (λ z. Step z r) (sym that) step,
        )
    | inr miss ↦ (x, find-save_row_other rows r k miss ∙ e, stays x)
  ]

-- What any call does: the journal and the outbox grow, and the requests and the orders advance.
pub record Evolves (db db' : Db) : Type 0 where
  pub grows : Grows db db'
  pub requests : Advances (λ r. r.id) RequestStep db.withdrawal_requests db'.withdrawal_requests
  pub orders : Advances (λ o. o.id) OrderStep db.orders db'.orders

pub Evolves-refl : (db : Db) → Evolves db db
Evolves-refl db = record {
  grows = Grows-refl db;
  requests = Advances-refl (λ r. r.id) RequestStep (λ r. request_stays refl) db.withdrawal_requests;
  orders = Advances-refl (λ o. o.id) OrderStep (λ o. order_stays refl) db.orders;
}

pub Evolves-trans : (a b c : Db) → Evolves a b → Evolves b c → Evolves a c
Evolves-trans a b c f g = record {
  grows = Grows-trans a b c f.grows g.grows;
  requests =
      Advances-trans (λ r. r.id) RequestStep RequestStep-trans a.withdrawal_requests
        b.withdrawal_requests c.withdrawal_requests f.requests g.requests;
  orders =
      Advances-trans (λ o. o.id) OrderStep OrderStep-trans a.orders b.orders c.orders f.orders
        g.orders;
}

abbrev pub evolves : Relation
evolves = record { Holds = Evolves; stays = Evolves-refl; joins = Evolves-trans }

pub Posts-Evolves : (db db' : Db) → Posts db db' → Evolves db db'
Posts-Evolves db db' p = record {
  grows = p.grows;
  requests = λ k r e. (r, ap (find (λ x. x.id == k)) p.requests ∙ e, request_stays refl);
  orders = λ k o e. (o, ap (find (λ x. x.id == k)) p.orders ∙ e, order_stays refl);
}

pub posts-Evolving : {A : Type 0} (m : Action A) → Keeps posts m → Keeps evolves m
posts-Evolving m k = record { holds = λ db. Posts-Evolves db (m db).1 (k.holds db) }
