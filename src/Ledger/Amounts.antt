-- ===== src/Ledger/Amounts.antt =====
-- How the properties read the ledger: the amount of a line, what lines move, and when the
-- arithmetic is exact.
use flow_pay.Prelude.{
  ℕ, ◌+◌, ◌≤◌, ◌<◌, ◌≡◌, Bool, true, false, none, some, List, [], ◌∷◌, ◌++◌, ◌==◌, nat_eq, arith,
  if◌then◌else◌, refl,
}
use flow_pay.Prelude.Int.{
  ℤ, pos, ◌+ℤ◌, ◌-ℤ◌, ◌≤ℤ◌, magnitude, magnitude-+ℤ, magnitude-neg, int_laws,
}
use flow_pay.Prelude.Text.{Text, text_eq}
use flow_pay.Numbers.{Numbers, Fits, limit}
use flow_pay.Db.{Db, JournalLine, JournalLineDirection, debit, credit, is_credit}
use flow_pay.Ledger.Input.{PostEntryLineInput}

-- A credit adds to an account, a debit takes from it.
abbrev pub signed : JournalLineDirection → ℤ → ℤ
signed d z = if is_credit d then z else pos 0 -ℤ z

pub magnitude-signed : (d : JournalLineDirection) (z : ℤ) → magnitude (signed d z) ≡ magnitude z
magnitude-signed debit z = magnitude-neg z
magnitude-signed credit z = refl

-- Σ credits − Σ debits of one account over the journal.
abbrev pub journal_net : ℕ → List JournalLine → ℤ
journal_net id [] = pos 0
journal_net id (l ∷ ls) =
    (if l.account_id == id then signed l.direction l.amount else pos 0) +ℤ journal_net id ls

-- Σ credits − Σ debits of one currency over the journal.
abbrev pub currency_net : Text → List JournalLine → ℤ
currency_net c [] = pos 0
currency_net c (l ∷ ls) =
    (if l.currency_code == c then signed l.direction l.amount else pos 0) +ℤ currency_net c ls

pub journal_net-append :
    (id : ℕ) (xs ys : List JournalLine)
    → journal_net id (xs ++ ys) ≡ journal_net id xs +ℤ journal_net id ys
journal_net-append id [] ys = omega int_laws
journal_net-append id (x ∷ xs) ys = rw (journal_net-append id xs ys) (omega int_laws)

pub currency_net-append :
    (c : Text) (xs ys : List JournalLine)
    → currency_net c (xs ++ ys) ≡ currency_net c xs +ℤ currency_net c ys
currency_net-append c [] ys = omega int_laws
currency_net-append c (x ∷ xs) ys = rw (currency_net-append c xs ys) (omega int_laws)

module _ (n : Numbers) where
  abbrev pub amount_units : n.Numeral → ℤ
  amount_units s = elim (n.parse s) [ none ↦ pos 0 | some x ↦ n.units x ]

  pub amount_units-parse :
      (s : n.Numeral) (x : n.Decimal) → n.parse s ≡ some x → amount_units s ≡ n.units x
  amount_units-parse s x e = rw (e, amount_units)

  -- What the lines of an entry move on one account.
  abbrev pub net : ℕ → List (PostEntryLineInput n) → ℤ
  net id [] = pos 0
  net id (l ∷ ls) =
      (if l.account_id == id then signed l.direction (amount_units l.amount) else pos 0)
      +ℤ net id ls

  -- What the lines of an entry move in one currency.
  abbrev pub currency_moves : Text → List (PostEntryLineInput n) → ℤ
  currency_moves c [] = pos 0
  currency_moves c (l ∷ ls) =
      (if l.currency_code == c then signed l.direction (amount_units l.amount) else pos 0)
      +ℤ currency_moves c ls

  -- The amounts of all lines together.
  abbrev pub turnover : List (PostEntryLineInput n) → ℕ
  turnover [] = 0
  turnover (l ∷ ls) = magnitude (amount_units l.amount) + turnover ls

  -- No account, and no sum of the entry, reaches 20 significant digits.
  abbrev pub Within : Db → List (PostEntryLineInput n) → Type 0
  Within db lines = (id : ℕ) → magnitude (db.balances id) + turnover lines < limit

  -- A text that the validator takes for an amount: a positive decimal of at most 8 places.
  pub record IsAmount (s : n.Numeral) : Type 0 where
    pub value : n.Decimal
    pub parses : n.parse s ≡ some value
    pub fits : Fits n value
    pub positive : pos 1 ≤ℤ n.units value

  magnitude-if : (b : Bool) (z : ℤ) → magnitude (if b then z else pos 0) ≤ magnitude z
  magnitude-if true z = omega arith
  magnitude-if false z = omega arith

  pub magnitude-net :
      (id : ℕ) (lines : List (PostEntryLineInput n)) → magnitude (net id lines) ≤ turnover lines
  magnitude-net id [] = omega arith
  magnitude-net id (l ∷ ls) =
      let moved = signed l.direction (amount_units l.amount) in
      omega (
        arith,
        magnitude-+ℤ (if l.account_id == id then moved else pos 0) (net id ls),
        magnitude-if (l.account_id == id) moved,
        magnitude-signed l.direction (amount_units l.amount),
        magnitude-net id ls,
      )
