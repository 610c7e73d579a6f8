-- ===== src/Backend/Failed.antt =====
-- A call that throws.
use flow_pay.Prelude.{◌≡◌, some, arith, inl, inr, nat_eq}
use flow_pay.Prelude.Text.{text_eq}
use flow_pay.Numbers.{Numbers}
use flow_pay.Config.{EnvConfig}
use mathlib.Core.Path.{subst}
use flow_pay.Exec.{Error, Outcome-cases}
use flow_pay.Db.{Db, Action}
use flow_pay.Ledger.Invariant.{IsSound}
use flow_pay.Ledger.Ensured.{Opens}
use flow_pay.Backend.{
  Call, call, outcome, depositing, transferring, converting, requesting, approving, rejecting,
  ordering, cancelling, filling, scanning,
}
use flow_pay.Backend.Failing.{Fails}
use flow_pay.Backend.Payments.{
  deposit-Fails, execute_transfer-Fails, book_conversion-Fails, request_withdrawal-Fails,
  approve-Fails, reject-Fails,
}
use flow_pay.Backend.Orders.{
  create_order-Fails, cancel_order-Fails, try_fill-Fails, scan_and_fill_open_orders-Fails,
}

module _ (n : Numbers) where
  outcome-Fails :
      {A : Type 0} (m : Action A) (db db' : Db) (e : Error)
      → Fails m
      → IsSound db
      → outcome (m db) ≡ (some e, db')
      → Opens db db'
  outcome-Fails m db db' e fails h ran = elim (Outcome-cases (m db)) [
    | inr (a, d, ended) ↦ ground (arith, ended, ran)
    | inl (x, d, threw) ↦
        let there : d ≡ db' = ground (arith, threw, ran) in
        subst (Opens db) there (fails db x d h threw)
  ]

  -- Whichever of the services' calls throws, and wherever it throws: it may have opened accounts, without
  -- money, and has changed nothing else; no balance, no journal line, no request, no order and no event.
  pub call-Fails :
      (config : EnvConfig n) (c : Call n) (db db' : Db) (e : Error)
      → IsSound db
      → call n config c db ≡ (some e, db')
      → Opens db db'
  unfolding call
  call-Fails config (depositing user email code amount) db db' e =
      outcome-Fails _ db db' e (deposit-Fails n config user email code amount)
  call-Fails config (transferring sender dto) db db' e =
      outcome-Fails _ db db' e (execute_transfer-Fails n config sender dto)
  call-Fails config (converting user c) db db' e =
      outcome-Fails _ db db' e (book_conversion-Fails n user c)
  call-Fails config (requesting user code amount destination) db db' e =
      outcome-Fails _ db db' e (request_withdrawal-Fails n user code amount destination)
  call-Fails config (approving id admin) db db' e =
      outcome-Fails _ db db' e (approve-Fails n id admin)
  call-Fails config (rejecting id admin) db db' e =
      outcome-Fails _ db db' e (reject-Fails n id admin)
  call-Fails config (ordering rates user dto) db db' e =
      outcome-Fails _ db db' e (create_order-Fails n rates user dto)
  call-Fails config (cancelling user id) db db' e =
      outcome-Fails _ db db' e (cancel_order-Fails n user id)
  call-Fails config (filling rates id) db db' e =
      outcome-Fails _ db db' e (try_fill-Fails n rates id)
  call-Fails config (scanning rates) db db' e =
      outcome-Fails _ db db' e (scan_and_fill_open_orders-Fails n rates)
