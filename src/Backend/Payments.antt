-- ===== src/Backend/Payments.antt =====
-- What a deposit, a transfer, a conversion or a withdrawal leaves when it throws: backend/src/deposits,
-- backend/src/transfers, backend/src/fx and backend/src/withdrawals.
use flow_pay.Prelude.{ℕ, ◌≡◌, Bool, Option, arith, refl, ap, sym, ◌∙◌, find, ◌==◌, nat_eq, not}
use flow_pay.Prelude.Text.{Text, text_eq}
use flow_pay.Numbers.{Numbers}
use flow_pay.Config.{EnvConfig}
use mathlib.Core.Path.{subst}
use flow_pay.Exec.{internal, bad_request, not_found, conflict, unprocessable, throw_if}
use flow_pay.Db.{User, is_pending}
use flow_pay.Ledger.Ensured.{Opens}
use flow_pay.Users.{find_by_id, find_by_email}
use flow_pay.Deposits.{deposit, credit_wallet}
use flow_pay.Withdrawals.{request_withdrawal, approve, reject, lock_pending_request}
use flow_pay.Transfers.{CreateTransferDto, fees_account, pay_recipient, execute_transfer}
use flow_pay.Transfers.Paid.{fees_account-Opens}
use flow_pay.TradeExecution.{ExecuteSwapInput, open_accounts}
use flow_pay.TradeExecution.Swapped.{open_accounts-Opens}
use flow_pay.Fx.{ConversionComputation, book_conversion}
use flow_pay.Backend.Failing.{
  Fails, IsOpening, still-IsOpening, transaction-Fails, bind-Fails, bind-IsOpening, answer-Fails,
  or_throw-IsOpening, get_currency-IsOpening, ensure_accounts-IsOpening, gets-IsOpening,
  throw_if-IsOpening, pure-IsOpening,
}

module _ (n : Numbers) where
  credit_wallet-Fails :
      (user : ℕ) (email currency : Text) (amount : n.Numeral)
      → Fails (credit_wallet n user email currency amount)
  unfolding credit_wallet
  credit_wallet-Fails user email currency amount =
      bind-Fails _ _ (ensure_accounts-IsOpening _ _)
        (λ accounts. answer-Fails _ _ (transaction-Fails _))

  pub deposit-Fails :
      (config : EnvConfig n) (user : ℕ) (email code : Text) (amount : n.Numeral)
      → Fails (deposit n config user email code amount)
  unfolding deposit
  deposit-Fails config user email code amount =
      bind-Fails _ _ (get_currency-IsOpening code) (λ currency.
        bind-Fails _ _ (or_throw-IsOpening (n.parse amount) internal) (λ value.
          bind-Fails _ _ (or_throw-IsOpening (n.parse config.deposit_max_amount) internal) (λ most.
            bind-Fails _ _
              (still-IsOpening (throw_if (n.greater_than value most) bad_request) (λ db. refl))
              (λ z. credit_wallet-Fails user email currency.code amount))))

  fees_account-IsOpening : (has_fee : Bool) (code : Text) → IsOpening (fees_account has_fee code)
  fees_account-IsOpening has_fee code = record {
    fails = λ db e db' h ran.
        let (o, d, done, is_fees, opens) = fees_account-Opens has_fee code db h in
        ground (arith, done, ran);
    ends = λ db o' db' h ran.
        let (o, d, done, is_fees, opens) = fees_account-Opens has_fee code db h in
        let there : d ≡ db' = ap (λ r. r.1) (sym done ∙ ran) in subst (Opens db) there opens;
  }

  pay_recipient-Fails :
      (sender_id : ℕ) (sender : Option User) (recipient : User) (code : Text) (fee : n.Decimal)
      (dto : CreateTransferDto n)
      → Fails (pay_recipient n sender_id sender recipient code fee dto)
  unfolding pay_recipient
  pay_recipient-Fails sender_id sender recipient code fee dto =
      bind-Fails _ _ (ensure_accounts-IsOpening _ _) (λ wallets.
        bind-Fails _ _ (fees_account-IsOpening _ code) (λ fees.
          bind-Fails _ _ (or_throw-IsOpening (n.parse dto.amount) internal)
            (λ value. answer-Fails _ _ (transaction-Fails _))))

  find_by_id-IsOpening : (id : ℕ) → IsOpening (find_by_id id)
  unfolding find_by_id
  find_by_id-IsOpening id = still-IsOpening (find_by_id id) (λ db. refl)

  find_by_email-IsOpening : (email : Text) → IsOpening (find_by_email email)
  unfolding find_by_email
  find_by_email-IsOpening email = still-IsOpening (find_by_email email) (λ db. refl)

  pub execute_transfer-Fails :
      (config : EnvConfig n) (sender_id : ℕ) (dto : CreateTransferDto n)
      → Fails (execute_transfer n config sender_id dto)
  unfolding execute_transfer
  execute_transfer-Fails config sender_id dto =
      bind-Fails _ _ (get_currency-IsOpening dto.currency) (λ currency.
        bind-Fails _ _ (find_by_id-IsOpening sender_id) (λ sender.
          bind-Fails _ _ (find_by_email-IsOpening dto.recipient_email) (λ found.
            bind-Fails _ _ (or_throw-IsOpening found not_found) (λ recipient.
              bind-Fails _ _ (throw_if-IsOpening _ unprocessable) (λ z.
                bind-Fails _ _ (or_throw-IsOpening (n.parse config.transfer_fee_flat) internal)
                  (λ fee. pay_recipient-Fails sender_id sender recipient currency.code fee dto))))))

  pub open_accounts-IsOpening : (i : ExecuteSwapInput n) → IsOpening (open_accounts n i)
  open_accounts-IsOpening i = record {
    fails = λ db e db' h ran.
        let (a, d, done, opened, opens) = open_accounts-Opens n i db h in ground (arith, done, ran);
    ends = λ db a' db' h ran.
        let (a, d, done, opened, opens) = open_accounts-Opens n i db h in
        let there : d ≡ db' = ap (λ r. r.1) (sym done ∙ ran) in subst (Opens db) there opens;
  }

  pub book_conversion-Fails :
      (user_id : ℕ) (c : ConversionComputation n) → Fails (book_conversion n user_id c)
  unfolding book_conversion
  book_conversion-Fails user_id c =
      bind-Fails _ _ (open_accounts-IsOpening _) (λ accounts. transaction-Fails _)

  pub request_withdrawal-Fails :
      (user : ℕ) (code : Text) (amount : n.Numeral) (destination : Text)
      → Fails (request_withdrawal n user code amount destination)
  unfolding request_withdrawal
  request_withdrawal-Fails user code amount destination =
      bind-Fails _ _ (get_currency-IsOpening code) (λ currency.
        bind-Fails _ _ (ensure_accounts-IsOpening _ _) (λ accounts. transaction-Fails _))

  lock_pending_request-IsOpening : (id : ℕ) → IsOpening (lock_pending_request id)
  unfolding lock_pending_request
  lock_pending_request-IsOpening id =
      bind-IsOpening _ _ (gets-IsOpening (λ db. find (λ r. r.id == id) db.withdrawal_requests))
        (λ found. bind-IsOpening _ _ (or_throw-IsOpening found not_found) (λ request.
          bind-IsOpening _ _ (throw_if-IsOpening (not (is_pending request.status)) conflict)
            (λ z. pure-IsOpening request)))

  pub approve-Fails : (id admin : ℕ) → Fails (approve n id admin)
  unfolding approve
  approve-Fails id admin =
      bind-Fails _ _ (lock_pending_request-IsOpening id) (λ request.
        bind-Fails _ _ (ensure_accounts-IsOpening _ _) (λ accounts. transaction-Fails _))

  pub reject-Fails : (id admin : ℕ) → Fails (reject n id admin)
  unfolding reject
  reject-Fails id admin =
      bind-Fails _ _ (lock_pending_request-IsOpening id) (λ request.
        bind-Fails _ _ (ensure_accounts-IsOpening _ _) (λ accounts. transaction-Fails _))
