-- ===== src/TradeExecution.antt =====
-- backend/src/common/trade-execution/trade-execution.service.ts: the swap of two currencies against
-- the treasury, which conversions, market orders and filled limit orders share.
pub mod Swapped
use flow_pay.Prelude.{ℕ, true, Option, none, List, [], ◌∷◌, nat_eq}
use flow_pay.Prelude.Text.{Text}
use flow_pay.Prelude.Dict.{lookup}
use flow_pay.Numbers.{Numbers}
use flow_pay.Exec.{pure, ◌>>=◌}
use flow_pay.Db.{Action, Account, AccountKind, JournalEntryType, debit, credit}
use flow_pay.Ledger.{
  EnsureAccountInput, PostEntryLineInput, wallet_key, system_key, ensure_accounts, post_entry,
}

pub record ExecuteSwapInput (n : Numbers) : Type 0 where
  pub source : EnsureAccountInput
  pub from_amount : n.Numeral
  pub to_user_id : ℕ
  pub to_currency_code : Text
  pub to_amount : n.Numeral
  pub entry_type : JournalEntryType

pub record ExecuteSwapResult (n : Numbers) : Type 0 where
  pub entry_id : ℕ
  pub source_balance : Option n.Numeral
  pub to_balance : Option n.Numeral

-- The four accounts of a swap.
pub record SwapAccounts : Type 0 where
  pub source_account : Account
  pub treasury_source : Account
  pub treasury_dest : Account
  pub dest_wallet : Account

module _ (n : Numbers) where
  -- the accounts, each opened in a transaction of its own
  unfoldable pub open_accounts : ExecuteSwapInput n → Action SwapAccounts
  open_accounts input = do
    sources ←
        ensure_accounts input.source (system_key AccountKind.treasury input.source.currency_code)
    targets ←
        ensure_accounts (system_key AccountKind.treasury input.to_currency_code)
          (wallet_key input.to_user_id input.to_currency_code)
    pure (record {
      source_account = sources.0;
      treasury_source = sources.1;
      treasury_dest = targets.0;
      dest_wallet = targets.1;
    })

  abbrev pub swap_lines : ExecuteSwapInput n → SwapAccounts → List (PostEntryLineInput n)
  swap_lines input accounts =
      record {
        account_id = accounts.source_account.id;
        direction = debit;
        amount = input.from_amount;
        currency_code = input.source.currency_code;
      }
      ∷ record {
        account_id = accounts.treasury_source.id;
        direction = credit;
        amount = input.from_amount;
        currency_code = input.source.currency_code;
      }
      ∷ record {
        account_id = accounts.treasury_dest.id;
        direction = debit;
        amount = input.to_amount;
        currency_code = input.to_currency_code;
      }
      ∷ record {
        account_id = accounts.dest_wallet.id;
        direction = credit;
        amount = input.to_amount;
        currency_code = input.to_currency_code;
      }
      ∷ []

  -- `executeSwap` once the accounts are there, in the caller's transaction
  unfoldable pub post_swap : ExecuteSwapInput n → SwapAccounts → Action (ExecuteSwapResult n)
  post_swap input accounts = do
    result ←
        post_entry n
          (record {
            entry_type = input.entry_type;
            metadata = none;
            lines = swap_lines input accounts;
          })
          true
    pure (record {
      entry_id = result.entry_id;
      source_balance = lookup accounts.source_account.id result.balances;
      to_balance = lookup accounts.dest_wallet.id result.balances;
    })
