-- ===== src/Tests/Transfer.antt =====
-- A run of a transfer with a fee.
use flow_pay.Prelude.{◌≡◌, none, some, [], ◌∷◌, true, false, refl, arith}
use mathlib.Core.Path.{subst}
use flow_pay.Prelude.Int.{ℤ, pos, ◌+ℤ◌}
use flow_pay.Prelude.Text.{Text, to_upper, to_lower}
use flow_pay.Prelude.Dict.{lookup, insert}
use flow_pay.Prelude.Order.{contains, sort, place, unique_from, sorted_set}
use flow_pay.Numbers.Scaled.{scaled, scaled-IsExact}
use flow_pay.Exec.{transaction, ok}
use flow_pay.Db.{Db}
use flow_pay.Ledger.{
  ensure_account, ensure_accounts, get_currency, post_entry, validate_entry_lines,
  post_entry_with_manager, prepare_entry, write_entry, check_currencies, sum_deltas, new_balances,
  new_balance, line_rows, update_balances, insert_entry, fresh_id, tally_lines, check_amount,
  check_totals,
}
use flow_pay.Outbox.{append}
use flow_pay.Users.{find_by_id, find_by_email}
use flow_pay.Deposits.{deposit, credit_wallet, post_deposit}
use flow_pay.Idempotency.{
  KeyStore, RunIdempotentResult, body_of, run, steps, step, insert_key, call_handler, finalize,
}
use flow_pay.Idempotency.HashPayload.{Platform}
use flow_pay.Transfers.{
  transfer_handler, create, CreateTransferDto, TransferResponse, fees_account, post_transfer,
  pay_recipient, execute_transfer,
}
use flow_pay.Transfers.Once.{create-Paid}
use flow_pay.Transfers.Paid.{asked, Found, Paid, TransferRoom, execute_transfer-Paid}
use flow_pay.Tests.{some_injective, usd, bob_mail, config}
use flow_pay.Tests.Services.{deposited, deposited-Credited, deposited-Headroom_at}

abbrev to_bob : CreateTransferDto scaled
to_bob = record { recipient_email = bob_mail; currency = usd; amount = some (pos 100); note = none }

abbrev transferred : Db
transferred = (execute_transfer scaled config 1 to_bob deposited).1

abbrev response : TransferResponse scaled
response = record {
  entry_id = 8;
  currency = usd;
  amount = some (pos 100);
  balance = some (some (pos 390));
}

transfer_runs : execute_transfer scaled config 1 to_bob deposited ≡ (ok response, transferred)
unfolding deposit credit_wallet post_deposit append get_currency ensure_accounts to_upper
    execute_transfer pay_recipient post_transfer fees_account find_by_email find_by_id to_lower
    post_entry transaction post_entry_with_manager prepare_entry write_entry check_currencies
    sum_deltas new_balances new_balance line_rows update_balances insert_entry fresh_id
    validate_entry_lines tally_lines check_amount check_totals lookup insert ensure_account contains
    sort place unique_from sorted_set ◌+ℤ◌
transfer_runs = refl

to_bob-TransferRoom :
    (fee value : ℤ)
    → some (pos 10) ≡ some fee
    → some (pos 100) ≡ some value
    → TransferRoom scaled (asked scaled (some (pos 100)) value fee) deposited
unfolding ◌+ℤ◌
to_bob-TransferRoom fee value ef ev =
    let f = some_injective (pos 10) fee ef in
    let v = some_injective (pos 100) value ev in
    subst (λ w. TransferRoom scaled (asked scaled (some (pos 100)) w fee) deposited) v
      (subst (λ w. TransferRoom scaled (asked scaled (some (pos 100)) (pos 100) w) deposited) f
        (deposited-Headroom_at 220 (omega arith)))

execute_transfer-Paid_example :
    (f : Found scaled config 1 to_bob deposited) × (value : ℤ) × (some (pos 100) ≡ some value)
    × Paid scaled 1 f.recipient.id
        (scaled.greater_than f.fee (scaled.of_int (pos 0)))
        (asked scaled (some (pos 100)) value f.fee)
        f.currency.code
        f.recipient.email
        deposited
        transferred
    × (response.currency ≡ f.currency.code)
    × (response.amount ≡ to_bob.amount)
execute_transfer-Paid_example =
    execute_transfer-Paid scaled config 1 to_bob deposited transferred response scaled-IsExact
      deposited-Credited.0 to_bob-TransferRoom transfer_runs

abbrev platform : Platform
platform = record { sha256 = λ t. t; locale_le = λ a b. true }

abbrev text_of : scaled.Numeral → Text
text_of z = []

abbrev store : KeyStore Db (TransferResponse scaled)
store = record { keys = []; store = deposited }

abbrev created : KeyStore Db (TransferResponse scaled)
created = (create scaled platform text_of config 1 (75 ∷ []) to_bob store).1

abbrev answer : RunIdempotentResult (TransferResponse scaled)
answer = record { body = body_of response; status_code = 201; replayed = false }

create_runs : create scaled platform text_of config 1 (75 ∷ []) to_bob store ≡ (ok answer, created)
unfolding create run steps step insert_key call_handler finalize transfer_handler deposit
    credit_wallet post_deposit append get_currency ensure_accounts to_upper execute_transfer
    pay_recipient post_transfer fees_account find_by_email find_by_id to_lower post_entry
    transaction post_entry_with_manager prepare_entry write_entry check_currencies sum_deltas
    new_balances new_balance line_rows update_balances insert_entry fresh_id validate_entry_lines
    tally_lines check_amount check_totals lookup insert ensure_account contains sort place
    unique_from sorted_set ◌+ℤ◌
create_runs = refl

create-Paid_example :
    ((f : Found scaled config 1 to_bob deposited) × (value : ℤ) × (some (pos 100) ≡ some value)
      × Paid scaled 1 f.recipient.id
          (scaled.greater_than f.fee (scaled.of_int (pos 0)))
          (asked scaled (some (pos 100)) value f.fee)
          f.currency.code
          f.recipient.email
          deposited
          created.store)
    × (create scaled platform text_of config 1 (75 ∷ []) to_bob created
        ≡ (ok (record { body = answer.body; status_code = 201; replayed = true }), created))
create-Paid_example =
    create-Paid scaled platform text_of config 1 (75 ∷ []) to_bob store created answer
      scaled-IsExact deposited-Credited.0 refl to_bob-TransferRoom create_runs
