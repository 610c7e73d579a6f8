-- ===== src/Db.antt =====
-- The Postgres database of the backend: its tables, and the supply of keys and the wall clock.
-- A row of `account_balances` is there exactly for the ids of `accounts`, since `ensureAccount`
-- inserts both in one transaction; so the balances are a function of the id.
mod Entities
pub use Entities.*
use flow_pay.Prelude.{ℕ, List}
use flow_pay.Prelude.Int.{ℤ}
use flow_pay.Exec.{Exec}

pub record Db : Type 0 where
  pub currencies : List Currency
  pub users : List User
  pub accounts : List Account
  pub balances : ℕ → ℤ
  pub entries : List JournalEntry
  pub lines : List JournalLine
  pub withdrawal_requests : List WithdrawalRequest
  pub orders : List Order
  pub outbox_events : List OutboxEvent
  pub next_id : ℕ
  pub now : ℕ

abbrev pub Action : Type 0 → Type 0
Action = Exec Db
