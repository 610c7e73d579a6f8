-- ===== src/Ledger/Queries.antt =====
-- backend/src/ledger/ledger.service.ts: the reads.
use flow_pay.Prelude.{
  ℕ, ◌-◌, ◌*◌, Bool, true, false, ◌&&◌, Option, none, some, List, [], ◌∷◌, if◌then◌else◌, ◌==◌,
  option_eq, nat_eq, find, select, take, drop, length,
}
use mathlib.Core.List.{reverse}
use flow_pay.Prelude.Int.{ℤ}
use flow_pay.Prelude.Text.{Text, text_leb}
use flow_pay.Exec.{or_throw, gets, pure, not_found, ◌>>=◌}
use flow_pay.Db.{Db, Action, Currency, JournalLine, JournalEntryType, entry_type_beq}
use flow_pay.Ledger.Accounts.{find_account}

pub record Balance : Type 0 where
  pub account_id : ℕ
  pub currency_code : Text
  pub balance : ℤ

pub record Pagination : Type 0 where
  pub page : ℕ
  pub limit : ℕ

pub record PaginatedResult (A : Type 0) : Type 0 where
  pub items : List A
  pub total : ℕ

unfoldable pub get_balance : ℕ → Action Balance
get_balance id = do
  account ← or_throw (← gets (λ db. find_account id db.accounts)) not_found
  balance ← gets (λ db. db.balances id)
  pure (record { account_id = id; currency_code = account.currency_code; balance = balance })

-- `findAndCount` with `order: createdAt DESC`, `skip` and `take`.
unfoldable pub page_of : {A : Type 0} → Pagination → List A → PaginatedResult A
page_of p rows = record {
  items = take p.limit (drop ((p.page - 1) * p.limit) (reverse rows));
  total = length rows;
}

unfoldable pub list_journal_lines : ℕ → Pagination → Action (PaginatedResult JournalLine)
unfolding page_of
list_journal_lines id p = gets (λ db. page_of p (select (λ l. l.account_id == id) db.lines))

-- the join of a line to its account's owner
abbrev owned_by : Db → ℕ → JournalLine → Bool
owned_by db owner l = elim (find_account l.account_id db.accounts) [
  | none ↦ false
  | some a ↦ a.owner_user_id == some owner
]

-- the join of a line to its entry, and the filter on the entry's type
abbrev of_type : Db → Option JournalEntryType → JournalLine → Bool
of_type db none l = true
of_type db (some t) l = elim (find (λ e. e.id == l.entry_id) db.entries) [
  | none ↦ false
  | some e ↦ entry_type_beq e.entry_type t
]

unfoldable pub list_journal_lines_for_owner :
    ℕ → Option JournalEntryType → Pagination → Action (PaginatedResult JournalLine)
unfolding page_of
list_journal_lines_for_owner owner t p =
    gets (λ db. page_of p (select (λ l. owned_by db owner l && of_type db t l) db.lines))

-- a row before those of later codes
abbrev pub place_currency : Currency → List Currency → List Currency
place_currency c [] = c ∷ []
place_currency c (d ∷ rest) =
    if text_leb c.code d.code then c ∷ d ∷ rest else d ∷ place_currency c rest

abbrev pub by_code : List Currency → List Currency
by_code [] = []
by_code (c ∷ rest) = place_currency c (by_code rest)

unfoldable pub list_currencies : Action (List Currency)
list_currencies = gets (λ db. by_code db.currencies)
