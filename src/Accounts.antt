-- ===== src/Accounts.antt =====
-- backend/src/accounts/accounts.service.ts: what a user sees of the own wallets.
pub mod Seen
use flow_pay.Prelude.{ℕ, List, [], ◌∷◌, map, find, ◌==◌, nat_eq, Option, none, some}
use flow_pay.Prelude.Int.{ℤ}
use flow_pay.Prelude.Text.{Text}
use flow_pay.Exec.{pure, gets, ◌>>=◌}
use flow_pay.Db.{
  Action, Currency, JournalEntry, JournalEntryType, JournalLine, JournalLineDirection,
}
use flow_pay.Ledger.{
  wallet_key, ensure_account, get_balance, get_currency, list_currencies, list_journal_lines,
  Pagination, PaginatedResult,
}

pub record AccountBalance : Type 0 where
  pub currency : Text
  pub balance : ℤ
  pub decimals : ℕ

pub record TransactionLine : Type 0 where
  pub entry_type : Option JournalEntryType
  pub direction : JournalLineDirection
  pub amount : ℤ

-- the body of `currencies.map`
unfoldable pub wallet_balance : ℕ → Currency → Action AccountBalance
wallet_balance user_id currency = do
  wallet ← ensure_account (wallet_key user_id currency.code)
  b ← get_balance wallet.id
  pure (record { currency = currency.code; balance = b.balance; decimals = currency.decimals })

unfoldable pub wallet_balances : ℕ → List Currency → Action (List AccountBalance)
wallet_balances user_id [] = pure []
wallet_balances user_id (currency ∷ rest) = do
  b ← wallet_balance user_id currency
  bs ← wallet_balances user_id rest
  pure (b ∷ bs)

unfoldable pub get_balances : ℕ → Action (List AccountBalance)
get_balances user_id = do currencies ← list_currencies; wallet_balances user_id currencies

-- `line.entry.type`
abbrev pub type_of_entry : List JournalEntry → ℕ → Option JournalEntryType
type_of_entry entries id = elim (find (λ (e : JournalEntry). e.id == id) entries) [
  | none ↦ none
  | some entry ↦ some entry.entry_type
]

abbrev pub transaction_line : List JournalEntry → JournalLine → TransactionLine
transaction_line entries line = record {
  entry_type = type_of_entry entries line.entry_id;
  direction = line.direction;
  amount = line.amount;
}

unfoldable pub get_transactions : ℕ → Text → Pagination → Action (PaginatedResult TransactionLine)
get_transactions user_id currency_code pagination = do
  currency ← get_currency currency_code
  wallet ← ensure_account (wallet_key user_id currency.code)
  lines ← list_journal_lines wallet.id pagination
  entries ← gets (λ db. db.entries)
  pure (record { items = map (transaction_line entries) lines.items; total = lines.total })
