-- ===== src/Backend.antt =====
-- The calls that write to the database: backend/src/*/*.service.ts, as one type.
pub mod Failing
pub mod Keeping
pub mod Growing
pub mod Advancing
pub mod Within
pub mod Requests
pub mod Book
pub mod Fills
pub mod History
pub mod Payments
pub mod Orders
pub mod Failed
use flow_pay.Prelude.{ℕ, Option, none, some}
use flow_pay.Prelude.Text.{Text}
use flow_pay.Numbers.{Numbers}
use flow_pay.Config.{EnvConfig}
use flow_pay.Exec.{Error, Result, ok, err}
use flow_pay.Db.{Db}
use flow_pay.Deposits.{deposit}
use flow_pay.Withdrawals.{request_withdrawal, approve, reject}
use flow_pay.Transfers.{CreateTransferDto, execute_transfer}
use flow_pay.Fx.{ConversionComputation, book_conversion}
use flow_pay.Trading.{
  CreateOrderDto, create_order, cancel_order, try_fill, scan_and_fill_open_orders,
}

-- A conversion comes with what it was computed to, an order with the rates that it reads.
pub data Call (n : Numbers) : Type 0 where
  depositing : ℕ → Text → Text → n.Numeral → Call n
  transferring : ℕ → CreateTransferDto n → Call n
  converting : ℕ → ConversionComputation n → Call n
  requesting : ℕ → Text → n.Numeral → Text → Call n
  approving rejecting : ℕ → ℕ → Call n
  ordering : (Text → Text → Result n.Decimal) → ℕ → CreateOrderDto n → Call n
  cancelling : ℕ → ℕ → Call n
  filling : (Text → Text → Result n.Decimal) → ℕ → Call n
  scanning : (Text → Text → Result n.Decimal) → Call n

-- How a call ended, without its answer.
abbrev pub outcome : {A : Type 0} → Result A × Db → Option Error × Db
outcome (ok a, db) = (none, db)
outcome (err e, db) = (some e, db)

unfoldable pub call : (n : Numbers) → EnvConfig n → Call n → Db → Option Error × Db
call n config (depositing user email code amount) db =
    outcome (deposit n config user email code amount db)
call n config (transferring sender dto) db = outcome (execute_transfer n config sender dto db)
call n config (converting user c) db = outcome (book_conversion n user c db)
call n config (requesting user code amount destination) db =
    outcome (request_withdrawal n user code amount destination db)
call n config (approving id admin) db = outcome (approve n id admin db)
call n config (rejecting id admin) db = outcome (reject n id admin db)
call n config (ordering rates user dto) db = outcome (create_order n rates user dto db)
call n config (cancelling user id) db = outcome (cancel_order n user id db)
call n config (filling rates id) db = outcome (try_fill n rates id db)
call n config (scanning rates) db = outcome (scan_and_fill_open_orders n rates db)
