-- ===== src/Ledger/Input.antt =====
-- backend/src/ledger/interfaces: what callers hand to the ledger.
use flow_pay.Prelude.{ℕ, Option, none, some, List, [], ◌∷◌}
use flow_pay.Prelude.Text.{Text}
use flow_pay.Prelude.Dict.{Dict}
use flow_pay.Numbers.{Numbers}
use flow_pay.Db.{
  AccountKind, JournalEntryType, JournalLineDirection, debit, credit, TransferMetadata,
}

pub record EnsureAccountInput : Type 0 where
  pub owner_user_id : Option ℕ
  pub currency_code : Text
  pub kind : AccountKind

-- A user's wallet, and an account of the platform.
abbrev pub wallet_key : ℕ → Text → EnsureAccountInput
wallet_key user currency = record {
  owner_user_id = some user;
  currency_code = currency;
  kind = AccountKind.user_wallet;
}

abbrev pub system_key : AccountKind → Text → EnsureAccountInput
system_key kind currency = record { owner_user_id = none; currency_code = currency; kind = kind }

pub record PostEntryLineInput (n : Numbers) : Type 0 where
  pub account_id : ℕ
  pub direction : JournalLineDirection
  pub amount : n.Numeral
  pub currency_code : Text

pub record PostEntryInput (n : Numbers) : Type 0 where
  pub entry_type : JournalEntryType
  pub metadata : Option TransferMetadata
  pub lines : List (PostEntryLineInput n)

pub record PostEntryResult (n : Numbers) : Type 0 where
  pub entry_id : ℕ
  pub balances : Dict ℕ n.Numeral

module _ (n : Numbers) where
  -- The two lines that move an amount from one account to another.
  abbrev pub two_lines : ℕ → ℕ → n.Numeral → Text → List (PostEntryLineInput n)
  two_lines from to amount currency =
      record { account_id = from; direction = debit; amount = amount; currency_code = currency }
      ∷ record { account_id = to; direction = credit; amount = amount; currency_code = currency }
      ∷ []
