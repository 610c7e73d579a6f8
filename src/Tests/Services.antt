-- ===== src/Tests/Services.antt =====
-- Runs of the deposits and the withdrawals.
use flow_pay.Prelude.{
  ℕ, ◌+◌, ◌*◌, ◌^◌, ◌<◌, ◌≡◌, ◌==◌, ◌∙◌, Bool-cases, inl, inr, none, some, [], ◌∷◌, refl, arith,
  find, nat_eq, ap, sym,
}
use mathlib.Core.Path.{subst}
use flow_pay.Prelude.Int.{negsuc, ℤ, pos, ◌+ℤ◌, int_laws, magnitude}
use flow_pay.Prelude.Text.{Text, text_eq, to_upper}
use flow_pay.Prelude.Dict.{lookup, insert}
use flow_pay.Prelude.Order.{contains, sort, place, unique_from, sorted_set}
use flow_pay.Numbers.{limit}
use flow_pay.Numbers.Scaled.{scaled, scaled-IsExact}
use flow_pay.Exec.{transaction, ok, err, conflict}
use flow_pay.Db.{Db, AccountKind, DomainEventType, WithdrawalRequest, WithdrawalRequestStatus}
use flow_pay.Ledger.{
  set_balance, wallet_key, system_key, ensure_account, ensure_accounts, get_currency, post_entry,
  validate_entry_lines, post_entry_with_manager, prepare_entry, write_entry, check_currencies,
  sum_deltas, new_balances, new_balance, line_rows, update_balances, insert_entry, fresh_id,
  tally_lines, check_amount, check_totals,
}
use flow_pay.Ledger.Keys.{key_eq}
use flow_pay.Ledger.TwoLines.{Headroom}
use flow_pay.Outbox.{append}
use flow_pay.Users.{find_by_id}
use flow_pay.Deposits.{deposit, credit_wallet, post_deposit, DepositResponse}
use flow_pay.Deposits.Credits.{Credited, IsWithin, deposit-Credited}
use flow_pay.Withdrawals.{
  decided, new_request, request_withdrawal, hold_request, approve, reject, decide_request,
  lock_pending_request, save,
}
use flow_pay.Withdrawals.Held.{IsHeld, pending_key}
use flow_pay.Withdrawals.Requested.{Requested, request_withdrawal-Requested}
use flow_pay.Withdrawals.Decided.{Decides, approve-Decides, reject-Decides, decided_once}
use flow_pay.Tests.{usd, ada_mail, config, empty_db, empty_db-IsHeld}

abbrev pub deposited : Db
deposited = (deposit scaled config 1 ada_mail usd (some (pos 500)) empty_db).1

abbrev receipt : DepositResponse scaled
receipt = record { currency = usd; amount = some (pos 500); balance = some (some (pos 500)) }

deposit_runs :
    deposit scaled config 1 ada_mail usd (some (pos 500)) empty_db ≡ (ok receipt, deposited)
unfolding deposit credit_wallet post_deposit append get_currency ensure_accounts to_upper post_entry
    transaction post_entry_with_manager prepare_entry write_entry check_currencies sum_deltas
    new_balances new_balance line_rows update_balances insert_entry fresh_id validate_entry_lines
    tally_lines check_amount check_totals lookup insert ensure_account contains sort place
    unique_from sorted_set ◌+ℤ◌
deposit_runs = refl

deposit-Credited_example :
    IsWithin scaled (some (pos 500)) (some (pos (1000 * 10 ^ 8)))
    × Credited scaled 1 ada_mail (some (pos 500)) usd empty_db deposited
    × (usd ≡ to_upper usd)
deposit-Credited_example =
    deposit-Credited scaled config 1 ada_mail usd (some (pos 500)) empty_db deposited receipt
      scaled-IsExact empty_db-IsHeld.sound (λ id. omega arith) deposit_runs

pub deposited-Credited : Credited scaled 1 ada_mail (some (pos 500)) usd empty_db deposited
deposited-Credited =
    (deposit-Credited scaled config 1 ada_mail usd (some (pos 500)) empty_db deposited receipt
      scaled-IsExact empty_db-IsHeld.sound (λ id. omega arith) deposit_runs).1

deposited-IsHeld : IsHeld deposited
deposited-IsHeld =
    let (sound, moved, _, requests, _) = deposited-Credited in
    record {
      sound = sound;
      backed = λ c. moved (pending_key c) ∙ elim (Bool-cases (usd == c)) [
        | inl same ↦ rw (requests, same) (omega int_laws)
        | inr other ↦ rw (requests, other) (omega int_laws)
      ];
    }

abbrev iban : Text
iban = 68 ∷ 69 ∷ []

abbrev requested_db : Db
requested_db = (request_withdrawal scaled 1 usd (some (pos 200)) iban deposited).1

abbrev request : WithdrawalRequest
request = new_request 8 1 usd (pos 200) iban 7

request_runs :
    request_withdrawal scaled 1 usd (some (pos 200)) iban deposited ≡ (ok request, requested_db)
unfolding request_withdrawal hold_request deposit credit_wallet post_deposit append get_currency
    ensure_accounts to_upper post_entry transaction post_entry_with_manager prepare_entry
    write_entry check_currencies sum_deltas new_balances new_balance line_rows update_balances
    insert_entry fresh_id validate_entry_lines tally_lines check_amount check_totals lookup insert
    ensure_account contains sort place unique_from sorted_set ◌+ℤ◌
request_runs = refl

-- A balance is set within bounds.
pub set_balance-bound :
    (k id : ℕ) (z : ℤ) (f : ℕ → ℤ)
    → ((a : ℕ) → magnitude (f a) + k < limit)
    → magnitude z + k < limit
    → (a : ℕ) → magnitude (set_balance f id z a) + k < limit
set_balance-bound k id z f old new a = ground (arith, old a, new)

pub deposited-Headroom_at : (k : ℕ) → 500 + k < limit → Headroom k deposited
unfolding deposit credit_wallet post_deposit append get_currency ensure_accounts to_upper post_entry
    transaction post_entry_with_manager prepare_entry write_entry check_currencies sum_deltas
    new_balances new_balance line_rows update_balances insert_entry fresh_id validate_entry_lines
    tally_lines check_amount check_totals lookup insert ensure_account contains sort place
    unique_from sorted_set ◌+ℤ◌
deposited-Headroom_at k small =
    set_balance-bound k 3 (negsuc 499) _
      (set_balance-bound k 2 (pos 500) _
        (set_balance-bound k 3 (pos 0) _
          (set_balance-bound k 2 (pos 0) (λ id. pos 0) (λ id. omega arith) (omega arith))
          (omega arith))
        (omega arith))
      (omega arith)

pub deposited-Headroom : Headroom 400 deposited
deposited-Headroom = deposited-Headroom_at 400 (omega arith)

request_withdrawal-Requested_example :
    Requested scaled 1 (some (pos 200)) request deposited requested_db × (usd ≡ to_upper usd)
request_withdrawal-Requested_example =
    request_withdrawal-Requested scaled 1 usd iban (some (pos 200)) deposited requested_db request
      scaled-IsExact deposited-IsHeld deposited-Headroom request_runs

requested_db-IsHeld : IsHeld requested_db
requested_db-IsHeld =
    (request_withdrawal-Requested scaled 1 usd iban (some (pos 200)) deposited requested_db request
      scaled-IsExact deposited-IsHeld deposited-Headroom request_runs).0.0

requested_db-Headroom : Headroom 400 requested_db
unfolding request_withdrawal hold_request approve reject decide_request lock_pending_request save
    find_by_id deposit credit_wallet post_deposit append get_currency ensure_accounts to_upper
    post_entry transaction post_entry_with_manager prepare_entry write_entry check_currencies
    sum_deltas new_balances new_balance line_rows update_balances insert_entry fresh_id
    validate_entry_lines tally_lines check_amount check_totals lookup insert ensure_account contains
    sort place unique_from sorted_set ◌+ℤ◌
requested_db-Headroom =
    set_balance-bound 400 6 (pos 200) _
      (set_balance-bound 400 2 (pos 300) _
        (set_balance-bound 400 6 (pos 0) deposited.balances deposited-Headroom (omega arith))
        (omega arith))
      (omega arith)

requested_row : find (λ x. x.id == 8) requested_db.withdrawal_requests ≡ some request
unfolding request_withdrawal hold_request approve reject decide_request lock_pending_request save
    find_by_id deposit credit_wallet post_deposit append get_currency ensure_accounts to_upper
    post_entry transaction post_entry_with_manager prepare_entry write_entry check_currencies
    sum_deltas new_balances new_balance line_rows update_balances insert_entry fresh_id
    validate_entry_lines tally_lines check_amount check_totals lookup insert ensure_account contains
    sort place unique_from sorted_set ◌+ℤ◌
requested_row = refl

requested_db_room :
    (q : WithdrawalRequest)
    → find (λ x. x.id == 8) requested_db.withdrawal_requests ≡ some q
    → Headroom (2 * magnitude q.amount) requested_db
requested_db_room q found =
    subst (λ w. Headroom (2 * magnitude w) requested_db)
      (ap (λ o. elim o [ none ↦ pos 200 | some x ↦ x.amount ]) (sym requested_row ∙ found))
      requested_db-Headroom

abbrev approved_db : Db
approved_db = (approve scaled 8 9 requested_db).1

abbrev approved_request : WithdrawalRequest
approved_request = decided WithdrawalRequestStatus.approved 9 1000 9 request

approve_runs : approve scaled 8 9 requested_db ≡ (ok approved_request, approved_db)
unfolding request_withdrawal hold_request approve reject decide_request lock_pending_request save
    find_by_id deposit credit_wallet post_deposit append get_currency ensure_accounts to_upper
    post_entry transaction post_entry_with_manager prepare_entry write_entry check_currencies
    sum_deltas new_balances new_balance line_rows update_balances insert_entry fresh_id
    validate_entry_lines tally_lines check_amount check_totals lookup insert ensure_account contains
    sort place unique_from sorted_set ◌+ℤ◌
approve_runs = refl

approve-Decides_example :
    Decides scaled 8 WithdrawalRequestStatus.approved DomainEventType.withdrawal_approved 9
      (λ q. system_key AccountKind.treasury q.currency_code)
      approved_request
      requested_db
      approved_db
approve-Decides_example =
    approve-Decides scaled 8 9 requested_db approved_db approved_request scaled-IsExact
      requested_db-IsHeld requested_db_room approve_runs

abbrev rejected_db : Db
rejected_db = (reject scaled 8 9 requested_db).1

abbrev rejected_request : WithdrawalRequest
rejected_request = decided WithdrawalRequestStatus.rejected 9 1000 9 request

reject_runs : reject scaled 8 9 requested_db ≡ (ok rejected_request, rejected_db)
unfolding request_withdrawal hold_request approve reject decide_request lock_pending_request save
    find_by_id deposit credit_wallet post_deposit append get_currency ensure_accounts to_upper
    post_entry transaction post_entry_with_manager prepare_entry write_entry check_currencies
    sum_deltas new_balances new_balance line_rows update_balances insert_entry fresh_id
    validate_entry_lines tally_lines check_amount check_totals lookup insert ensure_account contains
    sort place unique_from sorted_set ◌+ℤ◌
reject_runs = refl

rejects :
    Decides scaled 8 WithdrawalRequestStatus.rejected DomainEventType.withdrawal_rejected 9
      (λ q. wallet_key q.user_id q.currency_code)
      rejected_request
      requested_db
      rejected_db
rejects =
    reject-Decides scaled 8 9 requested_db rejected_db rejected_request scaled-IsExact
      requested_db-IsHeld requested_db_room reject_runs

reject-Decides_example :
    Decides scaled 8 WithdrawalRequestStatus.rejected DomainEventType.withdrawal_rejected 9
      (λ q. wallet_key q.user_id q.currency_code)
      rejected_request
      requested_db
      rejected_db
reject-Decides_example =
    reject-Decides scaled 8 9 requested_db rejected_db rejected_request scaled-IsExact
      requested_db-IsHeld requested_db_room reject_runs

decided_once_example :
    (approve scaled 8 3 rejected_db ≡ (err conflict, rejected_db))
    × (reject scaled 8 3 rejected_db ≡ (err conflict, rejected_db))
decided_once_example =
    decided_once scaled 8 9 3 WithdrawalRequestStatus.rejected DomainEventType.withdrawal_rejected
      (λ q. wallet_key q.user_id q.currency_code) rejected_request requested_db rejected_db refl
      rejects
