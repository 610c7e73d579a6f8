-- ===== src/Tests/Posting.antt =====
-- Runs of the ledger.
use flow_pay.Prelude.{◌≡◌, ◌≤◌, false, none, some, List, [], ◌∷◌, All, refl, arith, length}
use flow_pay.Prelude.Int.{pos, negsuc, ◌+ℤ◌}
use flow_pay.Prelude.Text.{Text}
use flow_pay.Numbers.Scaled.{scaled, scaled-IsExact}
use flow_pay.Prelude.Dict.{lookup, insert}
use flow_pay.Prelude.Order.{contains, sort, place, unique_from, sorted_set}
use flow_pay.Exec.{transaction, ok, err, insufficient_funds}
use flow_pay.Db.{Db, AccountKind, JournalEntryType}
use flow_pay.Ledger.{
  PostEntryInput, PostEntryLineInput, two_lines, wallet_key, system_key, ensure_account, post_entry,
  validate_entry_lines, post_entry_with_manager, prepare_entry, write_entry, check_currencies,
  sum_deltas, new_balances, new_balance, line_rows, update_balances, insert_entry, fresh_id,
  tally_lines, check_amount, check_totals, PostEntryResult,
}
use flow_pay.Ledger.Amounts.{currency_moves, IsAmount, Within}
use flow_pay.Ledger.Opening.{ensure_account_again}
use flow_pay.Ledger.Validated.{validate_entry_lines-balanced}
use flow_pay.Ledger.Invariant.{IsSound, ensure_account-IsSound, post_entry-IsSound}
use flow_pay.Ledger.Posted.{Recorded, Posted, post_entry-Posted, post_entry_refused}
use flow_pay.Tests.{usd, empty_db, empty_db-IsHeld}

-- Ada's wallet and the treasury are accounts 2 and 3.
abbrev wallet_open : Db
wallet_open = (ensure_account (wallet_key 1 usd) empty_db).1

wallet_open-IsSound : IsSound wallet_open
wallet_open-IsSound = ensure_account-IsSound (wallet_key 1 usd) empty_db empty_db-IsHeld.sound

abbrev opened : Db
opened = (ensure_account (system_key AccountKind.treasury usd) wallet_open).1

opened-IsSound : IsSound opened
opened-IsSound =
    ensure_account-IsSound (system_key AccountKind.treasury usd) wallet_open wallet_open-IsSound

ensure_account-IsSound_example : IsSound opened
ensure_account-IsSound_example =
    ensure_account-IsSound (system_key AccountKind.treasury usd) wallet_open wallet_open-IsSound

abbrev five : List (PostEntryLineInput scaled)
five = two_lines scaled 3 2 (some (pos 500)) usd

validate_entry_lines-balanced_example :
    (2 ≤ length five)
    × All (λ l. IsAmount scaled l.amount) five
    × ((c : Text) → currency_moves scaled c five ≡ pos 0)
unfolding validate_entry_lines tally_lines check_amount check_totals lookup insert ◌+ℤ◌
validate_entry_lines-balanced_example =
    validate_entry_lines-balanced scaled five scaled-IsExact (omega arith) refl

abbrev entry : PostEntryInput scaled
entry = record { entry_type = JournalEntryType.deposit; metadata = none; lines = five }

abbrev entry_db : Db
entry_db = (post_entry scaled entry false opened).1

abbrev entry_result : PostEntryResult scaled
entry_result = record { entry_id = 4; balances = (2, some (pos 500)) ∷ (3, some (negsuc 499)) ∷ [] }

entry_runs : post_entry scaled entry false opened ≡ (ok entry_result, entry_db)
unfolding post_entry transaction post_entry_with_manager prepare_entry write_entry check_currencies
    sum_deltas new_balances new_balance line_rows update_balances insert_entry fresh_id
    validate_entry_lines tally_lines check_amount check_totals lookup insert ensure_account contains
    sort place unique_from sorted_set ◌+ℤ◌
entry_runs = refl

opened-Within : Within scaled opened five
unfolding ensure_account
opened-Within id = ground arith

post_entry-Posted_example :
    (2 ≤ length five)
    × Posted scaled five opened entry_db
    × All (λ l. IsAmount scaled l.amount) five
    × Recorded scaled entry entry_result opened entry_db
post_entry-Posted_example =
    post_entry-Posted scaled entry false opened entry_db entry_result scaled-IsExact opened-Within
      entry_runs

post_entry-IsSound_example : IsSound entry_db
post_entry-IsSound_example =
    post_entry-IsSound scaled entry false opened entry_db entry_result scaled-IsExact opened-Within
      opened-IsSound entry_runs

-- Ada has no money yet.
abbrev overdraft : PostEntryInput scaled
overdraft = record {
  entry_type = JournalEntryType.deposit;
  metadata = none;
  lines = two_lines scaled 2 3 (some (pos 500)) usd;
}

abbrev overdraft_db : Db
overdraft_db = (post_entry scaled overdraft false opened).1

overdraft_throws :
    post_entry scaled overdraft false opened ≡ (err (insufficient_funds 2), overdraft_db)
unfolding post_entry transaction post_entry_with_manager prepare_entry write_entry check_currencies
    sum_deltas new_balances new_balance line_rows update_balances insert_entry fresh_id
    validate_entry_lines tally_lines check_amount check_totals lookup insert ensure_account contains
    sort place unique_from sorted_set ◌+ℤ◌
overdraft_throws = refl

post_entry_refused_example : overdraft_db ≡ opened
post_entry_refused_example =
    post_entry_refused scaled overdraft opened overdraft_db (insufficient_funds 2) overdraft_throws

ensure_account_again_example : ensure_account (wallet_key 1 usd) wallet_open ≡ (
  ok (record {
    id = 2;
    owner_user_id = some 1;
    currency_code = usd;
    kind = AccountKind.user_wallet;
  }),
  wallet_open,
)
unfolding ensure_account
ensure_account_again_example = ensure_account_again (wallet_key 1 usd) empty_db wallet_open _ refl
