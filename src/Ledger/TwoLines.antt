-- ===== src/Ledger/TwoLines.antt =====
-- An entry of two lines, which most services post: one amount, from one key to another.
use flow_pay.Prelude.{ℕ, ◌+◌, ◌*◌, ◌<◌, ◌≡◌, true, some, List, [], ◌∷◌, arith, refl, find}
use flow_pay.Prelude.Int.{ℤ, magnitude}
use flow_pay.Prelude.Text.{Text}
use flow_pay.Numbers.{Numbers, IsExact, limit}
use flow_pay.Exec.{ok}
use flow_pay.Db.{Db, Account, debit, credit}
use flow_pay.Ledger.Input.{EnsureAccountInput, PostEntryInput, PostEntryResult, two_lines}
use flow_pay.Ledger.Accounts.{matches}
use flow_pay.Ledger.Posting.{post_entry}
use flow_pay.Ledger.Amounts.{amount_units, Within}
use flow_pay.Ledger.Invariant.{IsSound, Posted-IsSound}
use flow_pay.Ledger.Keys.{Move, Moved, Posted-Moved}
use flow_pay.Ledger.Posted.{Posted, post_entry-Posted}

-- Every balance has room for `k` more.
abbrev pub Headroom : ℕ → Db → Type 0
Headroom k db = (id : ℕ) → magnitude (db.balances id) + k < limit

-- An amount goes from one key to another.
abbrev pub carry : EnsureAccountInput → EnsureAccountInput → ℤ → List Move
carry p q z =
    record { key = p; direction = debit; units = z }
    ∷ record { key = q; direction = credit; units = z }
    ∷ []

module _ (n : Numbers) where
  pub two_lines-Moved :
      (p q : EnsureAccountInput) (a b : Account) (amount : n.Numeral) (c : Text)
      (input : PostEntryInput n) (db db' : Db) (r : PostEntryResult n)
      → input.lines ≡ two_lines n a.id b.id amount c
      → IsExact n
      → IsSound db
      → Headroom (2 * magnitude (amount_units n amount)) db
      → find (matches p) db.accounts ≡ some a
      → find (matches q) db.accounts ≡ some b
      → post_entry n input true db ≡ (ok r, db')
      → IsSound db' × Moved (carry p q (amount_units n amount)) db db' × Posted n input.lines db db'
  two_lines-Moved p q a b amount c input db db' r lines ex h room fa fb e =
      let within : Within n db input.lines = rw lines (λ id. omega (arith, room id)) in
      let (_, posted, _, _) = post_entry-Posted n input true db db' r ex within e in
      (
        Posted-IsSound n input.lines db db' h posted,
        Posted-Moved n input.lines (carry p q (amount_units n amount)) db db' h
            (rw lines ((a, fa, refl), refl, refl, ((b, fb, refl), refl, refl, tt))) posted,
        posted,
      )
