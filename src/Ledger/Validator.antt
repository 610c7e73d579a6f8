-- ===== src/Ledger/Validator.antt =====
-- backend/src/ledger/ledger-entry-validator.ts
use flow_pay.Prelude.{ℕ, ◌||◌, not, none, some, List, [], ◌∷◌, ltb, length, if◌then◌else◌}
use flow_pay.Prelude.Int.{pos}
use flow_pay.Prelude.Text.{Text, text_eq}
use flow_pay.Prelude.Dict.{Dict, lookup, insert}
use flow_pay.Numbers.{Numbers}
use flow_pay.Exec.{Result, ok, err, and_then, invalid_ledger_entry}
use flow_pay.Db.{JournalLineDirection, is_credit}
use flow_pay.Ledger.Input.{PostEntryLineInput}

abbrev pub max_amount_decimals : ℕ
max_amount_decimals = 8

-- What is debited and credited in one currency.
pub record Bucket (n : Numbers) : Type 0 where
  pub debit : n.Decimal
  pub credit : n.Decimal

module _ (n : Numbers) where
  open n use {Decimal, Numeral}

  -- The checks on one line's amount: it parses, is positive, and has at most 8 places.
  unfoldable pub check_amount : Numeral → Result Decimal
  check_amount text = elim (n.parse text) [
    | none ↦ err invalid_ledger_entry
    | some amount ↦
        if not (n.is_finite amount) || n.less_than_or_equal_to amount (n.of_int (pos 0))
        then err invalid_ledger_entry
        else if ltb max_amount_decimals (n.decimal_places amount)
        then err invalid_ledger_entry
        else ok amount
  ]

  abbrev pub zero_bucket : Bucket n
  zero_bucket = record { debit = n.of_int (pos 0); credit = n.of_int (pos 0) }

  abbrev pub bucket_at : Text → Dict Text (Bucket n) → Bucket n
  bucket_at code totals = elim (lookup code totals) [ none ↦ zero_bucket | some b ↦ b ]

  abbrev pub add_to_bucket : JournalLineDirection → Decimal → Bucket n → Bucket n
  add_to_bucket d amount b =
      if is_credit d
      then record b { credit = n.plus b.credit amount }
      else record b { debit = n.plus b.debit amount }

  unfoldable pub tally_lines :
      List (PostEntryLineInput n) → Dict Text (Bucket n) → Result (Dict Text (Bucket n))
  tally_lines [] totals = ok totals
  tally_lines (l ∷ ls) totals = and_then (check_amount l.amount) λ amount. tally_lines ls (
      insert l.currency_code (add_to_bucket l.direction amount (bucket_at l.currency_code totals))
        totals)

  unfoldable pub check_totals : Dict Text (Bucket n) → Result (Unit {0})
  check_totals [] = ok tt
  check_totals ((code, b) ∷ totals) =
      if n.equals b.debit b.credit then check_totals totals else err invalid_ledger_entry

  unfoldable pub validate_entry_lines : List (PostEntryLineInput n) → Result (Unit {0})
  validate_entry_lines lines =
      if ltb (length lines) 2
      then err invalid_ledger_entry
      else and_then (tally_lines lines []) check_totals
