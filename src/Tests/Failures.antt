-- ===== src/Tests/Failures.antt =====
-- A call that throws after it has opened accounts.
use flow_pay.Prelude.{◌≡◌, some, [], refl}
use flow_pay.Prelude.Int.{pos, ◌+ℤ◌}
use flow_pay.Prelude.Text.{to_upper}
use flow_pay.Prelude.Dict.{lookup, insert}
use flow_pay.Prelude.Order.{contains, sort, place, unique_from, sorted_set}
use flow_pay.Numbers.Scaled.{scaled}
use flow_pay.Exec.{insufficient_funds, transaction}
use flow_pay.Db.{Db}
use flow_pay.Ledger.{
  ensure_account, ensure_accounts, get_currency, post_entry, validate_entry_lines,
  post_entry_with_manager, prepare_entry, write_entry, check_currencies, sum_deltas, new_balances,
  new_balance, line_rows, update_balances, insert_entry, fresh_id, tally_lines, check_amount,
  check_totals,
}
use flow_pay.Ledger.Ensured.{Opens}
use flow_pay.Withdrawals.{request_withdrawal, hold_request}
use flow_pay.Backend.{Call, call, requesting}
use flow_pay.Backend.Failed.{call-Fails}
use flow_pay.Tests.{usd, config, empty_db, empty_db-IsHeld}

-- A withdrawal from a wallet that is empty.
abbrev too_much : Call scaled
too_much = requesting 1 usd (some (pos 200)) []

abbrev opened_db : Db
opened_db = (call scaled config too_much empty_db).1

too_much_fails : call scaled config too_much empty_db ≡ (some (insufficient_funds 2), opened_db)
unfolding call request_withdrawal hold_request get_currency ensure_accounts to_upper post_entry
    transaction post_entry_with_manager prepare_entry write_entry check_currencies sum_deltas
    new_balances new_balance line_rows update_balances insert_entry fresh_id validate_entry_lines
    tally_lines check_amount check_totals lookup insert ensure_account contains sort place
    unique_from sorted_set ◌+ℤ◌
too_much_fails = refl

call-Fails_example : Opens empty_db opened_db
call-Fails_example =
    call-Fails scaled config too_much empty_db opened_db (insufficient_funds 2)
      empty_db-IsHeld.sound too_much_fails
