-- ===== src/Deposits.antt =====
-- backend/src/deposits/deposits.service.ts
pub mod Credits
use flow_pay.Prelude.{ℕ, true, Option, none, some, nat_eq}
use flow_pay.Prelude.Text.{Text}
use flow_pay.Prelude.Dict.{lookup}
use flow_pay.Numbers.{Numbers}
use flow_pay.Config.{EnvConfig}
use flow_pay.Exec.{or_throw, throw_if, pure, transaction, bad_request, internal, ◌>>=◌, ◌>>◌}
use flow_pay.Db.{Db, Action, AccountKind, JournalEntryType, DomainEventType}
use flow_pay.Ledger.{
  wallet_key, system_key, two_lines, get_currency, ensure_accounts, post_entry, PostEntryResult,
}
use flow_pay.Outbox.{append}

pub record DepositResponse (n : Numbers) : Type 0 where
  pub currency : Text
  pub amount : n.Numeral
  -- `result.balances[wallet.id]`
  pub balance : Option n.Numeral

module _ (n : Numbers) where
  -- the body of the transaction
  unfoldable pub post_deposit : Text → ℕ → ℕ → n.Numeral → Text → Action (PostEntryResult n)
  post_deposit user_email treasury wallet amount currency = do
    result ←
        post_entry n
          (record {
            entry_type = JournalEntryType.deposit;
            metadata = none;
            lines = two_lines n treasury wallet amount currency;
          })
          true
    append DomainEventType.deposit_completed result.entry_id (some user_email)
    pure result

  -- what `deposit` does once the amount is accepted
  unfoldable pub credit_wallet : ℕ → Text → Text → n.Numeral → Action (DepositResponse n)
  credit_wallet user user_email currency amount = do
    accounts ← ensure_accounts (wallet_key user currency) (system_key AccountKind.treasury currency)
    result ← transaction (post_deposit user_email accounts.1.id accounts.0.id amount currency)
    pure (record {
      currency = currency;
      amount = amount;
      balance = lookup accounts.0.id result.balances;
    })

  unfoldable pub deposit : EnvConfig n → ℕ → Text → Text → n.Numeral → Action (DepositResponse n)
  deposit config user user_email code amount = do
    currency ← get_currency code
    value ← or_throw (n.parse amount) internal
    max_amount ← or_throw (n.parse config.deposit_max_amount) internal
    throw_if (n.greater_than value max_amount) bad_request
    credit_wallet user user_email currency.code amount
