-- ===== src/Backend/History.antt =====
-- Any number of calls, one after the other, and the clock between them.
use flow_pay.Prelude.{ℕ, refl}
use flow_pay.Numbers.{Numbers}
use flow_pay.Config.{EnvConfig}
use flow_pay.Exec.{Result, ok, err}
use flow_pay.Db.{Db, Action}
use flow_pay.Backend.{
  Call, call, outcome, depositing, transferring, converting, requesting, approving, rejecting,
  ordering, cancelling, filling, scanning,
}
use flow_pay.Backend.Keeping.{Keeps}
use flow_pay.Backend.Growing.{Extends-refl, adds}
use flow_pay.Backend.Advancing.{
  Evolves, Evolves-refl, Evolves-trans, evolves, posts-Evolving, Posts-Evolves,
}
use flow_pay.Backend.Requests.{
  deposit-Keeps, execute_transfer-Keeps, book_conversion-Keeps, request_withdrawal-Keeps,
  approve-Keeps, reject-Keeps,
}
use flow_pay.Backend.Book.{create_order-Keeps}
use flow_pay.Backend.Fills.{cancel_order-Keeps, try_fill-Keeps, scan_and_fill_open_orders-Keeps}

module _ (n : Numbers) (config : EnvConfig n) where
  -- What the database may become: calls end or throw, and time passes.
  pub data Reach (db : Db) : Db → Type 0 where
    start : Reach db db
    calls : (c : Call n) (d : Db) → Reach db d → Reach db (call n config c d).1
    waits : (later : ℕ) (d : Db) → Reach db d → Reach db (record d { now = later })

  outcome-Evolves :
      {A : Type 0} (m : Action A) (db : Db) → Keeps evolves m → Evolves db (outcome (m db)).1
  outcome-Evolves m db k = ended (m db) (k.holds db)
    where
      ended : {A : Type 0} {db : Db} (p : Result A × Db) → Evolves db p.1 → Evolves db (outcome p).1
      ended (ok a, d) first = first
      ended (err e, d) first = first

  call-Evolves : (c : Call n) (db : Db) → Evolves db (call n config c db).1
  unfolding call
  call-Evolves (depositing user email code amount) db =
      outcome-Evolves _ db (posts-Evolving _ (deposit-Keeps n config user email code amount))
  call-Evolves (transferring sender dto) db =
      outcome-Evolves _ db (posts-Evolving _ (execute_transfer-Keeps n config sender dto))
  call-Evolves (converting user c) db =
      outcome-Evolves _ db (posts-Evolving _ (book_conversion-Keeps n user c))
  call-Evolves (requesting user code amount destination) db =
      outcome-Evolves _ db (request_withdrawal-Keeps n user code amount destination)
  call-Evolves (approving id admin) db = outcome-Evolves _ db (approve-Keeps n id admin)
  call-Evolves (rejecting id admin) db = outcome-Evolves _ db (reject-Keeps n id admin)
  call-Evolves (ordering rates user dto) db =
      outcome-Evolves _ db (create_order-Keeps n rates user dto)
  call-Evolves (cancelling user id) db = outcome-Evolves _ db (cancel_order-Keeps n user id)
  call-Evolves (filling rates id) db = outcome-Evolves _ db (try_fill-Keeps n rates id)
  call-Evolves (scanning rates) db = outcome-Evolves _ db (scan_and_fill_open_orders-Keeps n rates)

  -- Whatever calls are made, and whether they end or throw: no entry of the journal, no line and no
  -- event is changed or removed; no withdrawal request and no order is lost; and each keeps its
  -- fields, but that a pending request is decided once, and an open order cancelled or filled once.
  pub Reach-Evolves : (db db' : Db) → Reach db db' → Evolves db db'
  Reach-Evolves db _ start = Evolves-refl db
  Reach-Evolves db _ (calls c d r) =
      Evolves-trans db d (call n config c d).1 (Reach-Evolves db d r) (call-Evolves c d)
  Reach-Evolves db _ (waits later d r) =
      Evolves-trans db d (record d { now = later }) (Reach-Evolves db d r)
        (Posts-Evolves d _
          (adds d _ (Extends-refl _) (Extends-refl _) (Extends-refl _) refl refl refl refl))
