-- ===== src/Ledger/Carried.antt =====
-- What a posted entry and the opening of its accounts have done together, and what a write to
-- another table leaves of it.
use flow_pay.Prelude.{
  All, Bool, ◌<◌, suc, ◌*◌, ◌<◌, ◌≤◌, ◌≡◌, Bool, true, some, List, arith, refl, ap, ◌∙◌, find, inl,
  inr, Option-cases,
}
use flow_pay.Prelude.Int.{ℤ, magnitude, ◌+ℤ◌}
use flow_pay.Prelude.Text.{Text}
use flow_pay.Numbers.{Numbers, IsExact, limit}
use flow_pay.Exec.{ok}
use flow_pay.Db.{Db, Account}
use flow_pay.Ledger.Input.{EnsureAccountInput, PostEntryInput, PostEntryResult, two_lines}
use flow_pay.Ledger.Accounts.{matches}
use flow_pay.Ledger.Posting.{post_entry}
use flow_pay.Ledger.Amounts.{amount_units, amount_units-parse, Within, IsAmount}
use flow_pay.Ledger.Invariant.{IsSound, Posted-IsSound}
use flow_pay.Ledger.Keys.{
  Move, Moved, Keyed, Posted-Moved, balance_under, balance_under-found, balance_under-absent,
  key_net,
}
use flow_pay.Ledger.Posted.{post_entry-Posted}
use flow_pay.Ledger.Ensured.{Opens}
use flow_pay.Ledger.TwoLines.{Headroom, carry}

-- The moves are made, the ledger is sound, and no table outside the ledger has changed.
pub record Carried (ms : List Move) (db db' : Db) : Type 0 where
  pub sound : IsSound db'
  pub moved : Moved ms db db'
  pub frame : db' ≡ record db {
    accounts = db'.accounts;
    balances = db'.balances;
    lines = db'.lines;
    entries = db'.entries;
    next_id = db'.next_id;
  }

-- The ledger's tables are the same; fresh keys may have been taken.
pub record SameBooks (db db' : Db) : Type 0 where
  pub accounts : db'.accounts ≡ db.accounts
  pub balances : db'.balances ≡ db.balances
  pub lines : db'.lines ≡ db.lines
  pub later : db.next_id ≤ db'.next_id

pub SameBooks-IsSound : (db db' : Db) → SameBooks db db' → IsSound db → IsSound db'
SameBooks-IsSound db db' s h = record {
  reconciled = λ id. rw (s.balances, s.lines) (h.reconciled id);
  balanced = λ c. rw s.lines (h.balanced c);
  solvent = λ id a found owned. rw s.balances (h.solvent id a (rw s.accounts at found) owned);
  indexed = λ p a found. rw s.accounts (h.indexed p a (rw s.accounts at found));
  numbered = λ id a found. omega (arith, h.numbered id a (rw s.accounts at found), s.later);
  unused = λ id le. rw s.balances (h.unused id (omega (arith, le, s.later)));
}

pub SameBooks-under :
    (db db' : Db)
    → SameBooks db db'
    → (q : EnsureAccountInput) → balance_under q db' ≡ balance_under q db
SameBooks-under db db' s q = elim (Option-cases (find (matches q) db.accounts)) [
  | inl absent ↦
      rw (balance_under-absent q db absent, balance_under-absent q db' (rw s.accounts absent)) refl
  | inr (a, found) ↦
      rw
        (
          balance_under-found q db a found,
          balance_under-found q db' a (rw s.accounts found),
          s.balances,
        )
        refl
]

pub SameBooks-Moved :
    (ms : List Move) (db d db' : Db) → Moved ms db d → SameBooks d db' → Moved ms db db'
SameBooks-Moved ms db d db' m s q = SameBooks-under d db' s q ∙ m q

module _ (n : Numbers) where
  -- An entry posted on accounts that may just have been opened.
  pub post_entry-Carried :
      (ms : List Move) (input : PostEntryInput n) (db d d' : Db) (r : PostEntryResult n)
      → IsExact n
      → Opens db d
      → Within n d input.lines
      → Keyed n d input.lines ms
      → post_entry n input true d ≡ (ok r, d')
      → Carried ms db d'
  post_entry-Carried ms input db d d' r ex o within keyed e =
      let (_, posted, _, _) = post_entry-Posted n input true d d' r ex within e in
      record {
        sound = Posted-IsSound n input.lines d d' o.sound posted;
        moved = λ q.
            Posted-Moved n input.lines ms d d' o.sound keyed posted q
            ∙ ap (λ z. z +ℤ key_net q ms) (o.under q);
        frame =
            posted.frame
            ∙ ap
                (λ (x : Db). record x {
                  balances = d'.balances;
                  lines = d'.lines;
                  entries = d'.entries;
                  next_id = suc d.next_id;
                })
                o.frame
            ∙ rw (ap (λ (x : Db). x.accounts) posted.frame, ap (λ (x : Db). x.next_id) posted.frame)
                refl;
      }

  pub two_lines-Carried :
      (p q : EnsureAccountInput) (a b : Account) (amount : n.Numeral) (c : Text)
      (input : PostEntryInput n) (db d d' : Db) (r : PostEntryResult n)
      → input.lines ≡ two_lines n a.id b.id amount c
      → IsExact n
      → Opens db d
      → Headroom (2 * magnitude (amount_units n amount)) db
      → find (matches p) d.accounts ≡ some a
      → find (matches q) d.accounts ≡ some b
      → post_entry n input true d ≡ (ok r, d')
      → Carried (carry p q (amount_units n amount)) db d'
  two_lines-Carried p q a b amount c input db d d' r lines ex o room fa fb e =
      let within : Within n d input.lines =
        rw lines (λ id. rw (o.balances id) (omega (arith, room id))) in
      post_entry-Carried (carry p q (amount_units n amount)) input db d d' r ex o within
        (rw lines ((a, fa, refl), refl, refl, ((b, fb, refl), refl, refl, tt))) e

  -- The amounts of a posted entry were accepted by the validator.
  pub post_entry-IsAmount :
      (input : PostEntryInput n) (manager : Bool) (d d' : Db) (r : PostEntryResult n)
      → IsExact n
      → Within n d input.lines
      → post_entry n input manager d ≡ (ok r, d')
      → All (λ l. IsAmount n l.amount) input.lines
  post_entry-IsAmount input manager d d' r ex within e =
      let (_, _, amounts, _) = post_entry-Posted n input manager d d' r ex within e in amounts

  pub amount_units-column :
      (z : ℤ) → IsExact n → magnitude z < limit → amount_units n (n.numeric_out z) ≡ z
  amount_units-column z ex lt =
      let (x, parses, fits, units) = ex.parse_column z lt in
      amount_units-parse n (n.numeric_out z) x parses ∙ units
