-- ===== src/Withdrawals/Held.antt =====
-- The pending accounts hold what the pending requests ask for.
use flow_pay.Prelude.{◌≡◌, ◌&&◌, List, ◌==◌, nat_eq, if◌then◌else◌}
use flow_pay.Prelude.Int.{ℤ, pos}
use flow_pay.Prelude.Rows.{total}
use flow_pay.Prelude.Text.{Text, text_eq}
use flow_pay.Db.{Db, AccountKind, WithdrawalRequest, is_pending, kind_eq}
use flow_pay.Ledger.{EnsureAccountInput, system_key}
use flow_pay.Ledger.Invariant.{IsSound}
use flow_pay.Ledger.Keys.{balance_under, key_eq}

-- what one request holds in a currency
abbrev pub held_by : Text → WithdrawalRequest → ℤ
held_by c r = if is_pending r.status && r.currency_code == c then r.amount else pos 0

abbrev pub held : Text → List WithdrawalRequest → ℤ
held c rows = total (held_by c) rows

abbrev pub pending_key : Text → EnsureAccountInput
pending_key c = system_key AccountKind.withdrawal_pending c

-- The ledger is sound, and each currency's pending account has the sum of its pending requests.
pub record IsHeld (db : Db) : Type 0 where
  pub sound : IsSound db
  pub backed : (c : Text) → balance_under (pending_key c) db ≡ held c db.withdrawal_requests
