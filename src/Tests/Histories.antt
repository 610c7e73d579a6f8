-- ===== src/Tests/Histories.antt =====
-- A history of calls: a deposit, a request for withdrawal, and its approval an hour later.
use flow_pay.Prelude.{◌≡◌, none, some, [], ◌∷◌, refl}
use flow_pay.Prelude.Int.{pos, ◌+ℤ◌, ◌-ℤ◌}
use flow_pay.Prelude.Text.{to_upper}
use flow_pay.Prelude.Dict.{lookup, insert}
use flow_pay.Prelude.Order.{contains, sort, place, unique_from, sorted_set}
use flow_pay.Numbers.Scaled.{scaled}
use flow_pay.Exec.{transaction}
use flow_pay.Db.{Db}
use flow_pay.Ledger.{
  ensure_account, ensure_accounts, get_currency, post_entry, validate_entry_lines,
  post_entry_with_manager, prepare_entry, write_entry, check_currencies, sum_deltas, new_balances,
  new_balance, line_rows, update_balances, insert_entry, fresh_id, tally_lines, check_amount,
  check_totals,
}
use flow_pay.Outbox.{append}
use flow_pay.Users.{find_by_id}
use flow_pay.Deposits.{deposit, credit_wallet, post_deposit}
use flow_pay.Withdrawals.{
  request_withdrawal, hold_request, approve, lock_pending_request, decide_request, save,
}
use flow_pay.Backend.{call, depositing, requesting, approving}
use flow_pay.Backend.Advancing.{Evolves}
use flow_pay.Backend.History.{Reach, start, calls, waits, Reach-Evolves}
use flow_pay.Tests.{usd, config, empty_db}

abbrev funded : Db
funded = (call scaled config (depositing 1 (97 ∷ []) usd (some (pos 500))) empty_db).1

abbrev asked : Db
asked = (call scaled config (requesting 1 usd (some (pos 200)) []) funded).1

abbrev later : Db
later = record asked { now = 3600000 }

abbrev approved : Db
approved = (call scaled config (approving 8 2) later).1

approves : call scaled config (approving 8 2) later ≡ (none, approved)
unfolding call deposit credit_wallet post_deposit append request_withdrawal hold_request approve
    lock_pending_request decide_request save find_by_id get_currency ensure_accounts to_upper
    post_entry transaction post_entry_with_manager prepare_entry write_entry check_currencies
    sum_deltas new_balances new_balance line_rows update_balances insert_entry fresh_id
    validate_entry_lines tally_lines check_amount check_totals lookup insert ensure_account contains
    sort place unique_from sorted_set ◌+ℤ◌ ◌-ℤ◌
approves = refl

history : Reach scaled config empty_db approved
history = calls (approving 8 2) later (
    waits 3600000 asked (
      calls (requesting 1 usd (some (pos 200)) []) funded
        (calls (depositing 1 (97 ∷ []) usd (some (pos 500))) empty_db start)))

Reach-Evolves_example : Evolves empty_db approved
Reach-Evolves_example = Reach-Evolves scaled config empty_db approved history
