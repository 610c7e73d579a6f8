-- ===== src/Ledger/Posting.antt =====
-- backend/src/ledger/ledger.service.ts: `postEntry`, the one way to move money.
use flow_pay.Prelude.{
  ℕ, Bool, true, false, ◌&&◌, Option, none, some, List, [], ◌∷◌, ◌++◌, map, ◌==◌, nat_eq, nat_beq,
  length, if◌then◌else◌,
}
use flow_pay.Prelude.Int.{ℤ, pos, negsuc}
use flow_pay.Prelude.Text.{text_eq}
use flow_pay.Prelude.Dict.{Dict, lookup, insert}
use flow_pay.Prelude.Order.{sorted_set}
use flow_pay.Numbers.{Numbers}
use flow_pay.Exec.{
  Result, ok, err, and_then, lift, gets, modify, pure, transaction, invalid_ledger_entry,
  insufficient_funds, internal, ◌>>=◌, ◌>>◌,
}
use flow_pay.Db.{
  Db, Action, Account, JournalEntryType, JournalLine, JournalLineDirection, TransferMetadata,
  is_credit,
}
use flow_pay.Ledger.Input.{PostEntryLineInput, PostEntryInput, PostEntryResult}
use flow_pay.Ledger.Validator.{validate_entry_lines}
use flow_pay.Ledger.Accounts.{find_account, set_balance, fresh_id}

-- The rows that `SELECT … WHERE account_id = ANY(ids) ORDER BY account_id FOR UPDATE` locks.
abbrev pub lock_rows : List ℕ → List Account → List Account
lock_rows [] accounts = []
lock_rows (id ∷ ids) accounts = elim (find_account id accounts) [
  | none ↦ lock_rows ids accounts
  | some a ↦ a ∷ lock_rows ids accounts
]

abbrev pub is_owned : Account → Bool
is_owned a = elim a.owner_user_id [ none ↦ false | some _ ↦ true ]

module _ (n : Numbers) where
  open n use {Decimal, Numeral}

  abbrev pub account_ids : List (PostEntryLineInput n) → List ℕ
  account_ids lines = sorted_set (map (λ l. l.account_id) lines)

  unfoldable pub check_currencies : List Account → List (PostEntryLineInput n) → Result (Unit {0})
  check_currencies rows [] = ok tt
  check_currencies rows (l ∷ ls) = elim (find_account l.account_id rows) [
    | none ↦ check_currencies rows ls
    | some row ↦
        if row.currency_code == l.currency_code
        then check_currencies rows ls
        else err invalid_ledger_entry
  ]

  abbrev pub sign_of : JournalLineDirection → Decimal
  sign_of d = n.of_int (if is_credit d then pos 1 else negsuc 0)

  abbrev pub delta_at : ℕ → Dict ℕ Decimal → Decimal
  delta_at id deltas = elim (lookup id deltas) [ none ↦ n.of_int (pos 0) | some d ↦ d ]

  unfoldable pub sum_deltas : List (PostEntryLineInput n) → Dict ℕ Decimal → Result (Dict ℕ Decimal)
  sum_deltas [] deltas = ok deltas
  sum_deltas (l ∷ ls) deltas = elim (n.parse l.amount) [
    | none ↦ err internal
    | some amount ↦ sum_deltas ls (
        insert l.account_id
          (n.plus (delta_at l.account_id deltas) (n.times amount (sign_of l.direction))) deltas)
  ]

  -- one account's new balance, refused where a user's account would fall below zero
  unfoldable pub new_balance : Db → List Account → Dict ℕ Decimal → ℕ → Result Decimal
  new_balance db rows deltas id = elim (find_account id rows) [
    | none ↦ err internal
    | some row ↦ elim (n.parse (n.numeric_out (db.balances id))) [
      | none ↦ err internal
      | some balance ↦
          let b = n.plus balance (delta_at id deltas) in
          if is_owned row && n.is_negative b then err (insufficient_funds id) else ok b
    ]
  ]

  unfoldable pub new_balances :
      Db → List Account → Dict ℕ Decimal → List ℕ → Result (Dict ℕ Decimal)
  new_balances db rows deltas [] = ok []
  new_balances db rows deltas (id ∷ ids) =
      and_then (new_balance db rows deltas id)
        λ b. and_then (new_balances db rows deltas ids) λ rest. ok ((id, b) ∷ rest)

  -- everything that `postEntryWithManager` does before its first write
  unfoldable pub prepare_entry : Db → List (PostEntryLineInput n) → Result (Dict ℕ Decimal)
  prepare_entry db lines =
      let ids = account_ids lines in
      let rows = lock_rows ids db.accounts in
      if nat_beq (length rows) (length ids)
      then (and_then (check_currencies rows lines)
          λ _. and_then (sum_deltas lines []) λ deltas. new_balances db rows deltas ids)
      else err invalid_ledger_entry

  unfoldable pub insert_entry : JournalEntryType → Option TransferMetadata → Action ℕ
  unfolding fresh_id
  insert_entry t metadata = do
    id ← fresh_id
    modify (λ db. record db {
      entries = db.entries ++ (record { id = id; entry_type = t; metadata = metadata } ∷ []);
    })
    pure id

  unfoldable pub line_rows : ℕ → List (PostEntryLineInput n) → Result (List JournalLine)
  line_rows entry [] = ok []
  line_rows entry (l ∷ ls) = elim (n.numeric_in l.amount) [
    | none ↦ err internal
    | some amount ↦ and_then (line_rows entry ls) λ rest. ok (
        record {
          entry_id = entry;
          account_id = l.account_id;
          direction = l.direction;
          amount = amount;
          currency_code = l.currency_code;
        }
        ∷ rest)
  ]

  unfoldable pub update_balances : Dict ℕ Decimal → (ℕ → ℤ) → Result (ℕ → ℤ)
  update_balances [] f = ok f
  update_balances ((id, b) ∷ rest) f = elim (n.numeric_in (n.to_fixed 8 b)) [
    | none ↦ err internal
    | some z ↦ update_balances rest (set_balance f id z)
  ]

  abbrev pub format_balances : Dict ℕ Decimal → Dict ℕ Numeral
  format_balances [] = []
  format_balances ((id, b) ∷ rest) = (id, n.to_fixed 8 b) ∷ format_balances rest

  -- the writes: the entry, its lines, and the new balances
  unfoldable pub write_entry : PostEntryInput n → Dict ℕ Decimal → Action (PostEntryResult n)
  unfolding insert_entry
  write_entry input balances = do
    entry ← insert_entry input.entry_type input.metadata
    rows ← lift (line_rows entry input.lines)
    modify (λ db. record db { lines = db.lines ++ rows })
    updated ← lift (update_balances balances (← gets (λ db. db.balances)))
    modify (λ db. record db { balances = updated })
    pure (record { entry_id = entry; balances = format_balances balances })

  unfoldable pub post_entry_with_manager : PostEntryInput n → Action (PostEntryResult n)
  unfolding prepare_entry write_entry
  post_entry_with_manager input = do
    balances ← lift (prepare_entry (← gets (λ db. db)) input.lines)
    write_entry input balances

  -- `manager` says whether the caller supplies a transaction to take part in.
  unfoldable pub post_entry : PostEntryInput n → Bool → Action (PostEntryResult n)
  unfolding post_entry_with_manager transaction
  post_entry input manager = do
    lift (validate_entry_lines n input.lines)
    if manager then post_entry_with_manager input else transaction (post_entry_with_manager input)
