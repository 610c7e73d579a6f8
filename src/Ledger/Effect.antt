-- ===== src/Ledger/Effect.antt =====
-- What a posted entry does to the balances and to the journal, where the arithmetic is exact.
use flow_pay.Prelude.{
  ℕ, ◌+◌, ◌<◌, ◌≡◌, true, false, ◌&&◌, none, some, List, [], ◌∷◌, All, arith, inl, inr, nat_beq,
  nat_beq_iff, nat_eq, if◌then◌else◌, refl, ap, sym, ◌∙◌, Option-cases, Bool-cases, map,
}
use mathlib.Core.Path.{subst}
use flow_pay.Prelude.Int.{ℤ, pos, ◌+ℤ◌, ◌≤ℤ◌, magnitude}
use flow_pay.Prelude.Text.{Text, text_eq}
use flow_pay.Prelude.Dict.{Dict}
use flow_pay.Prelude.Order.{contains}
use flow_pay.Numbers.{Numbers, Fits, IsExact, limit}
use flow_pay.Exec.{ok, err, insufficient_funds, internal, and_then-eq-ok}
use flow_pay.Db.{Db, Account, JournalLine}
use flow_pay.Ledger.Input.{PostEntryLineInput}
use flow_pay.Ledger.Accounts.{find_account, set_balance}
use flow_pay.Ledger.Posting.{
  delta_at, new_balance, new_balances, line_rows, update_balances, is_owned,
}
use flow_pay.Ledger.Amounts.{
  amount_units-parse, net, currency_moves, journal_net, currency_net, IsAmount,
}
use flow_pay.Ledger.Deltas.{IsSmall}

module _ (n : Numbers) (ex : IsExact n) where
  abbrev pub Sets : (ℕ → ℤ) → ℕ × n.Decimal → Type 0
  Sets target (id, b) = Fits n b × (n.units b ≡ target id)

  new_balance-eq :
      (db : Db) (rows : List Account) (m : Dict ℕ n.Decimal) (id : ℕ) (row : Account)
      (x : n.Decimal)
      → find_account id rows ≡ some row
      → n.parse (n.numeric_out (db.balances id)) ≡ some x
      → new_balance n db rows m id ≡ (
          if is_owned row && n.is_negative (n.plus x (delta_at n id m))
          then err (insufficient_funds id)
          else ok (n.plus x (delta_at n id m)))
  unfolding new_balance
  new_balance-eq db rows m id row x found parses = rw (found, parses, new_balance)

  new_balance-absent :
      (db : Db) (rows : List Account) (m : Dict ℕ n.Decimal) (id : ℕ)
      → find_account id rows ≡ none
      → new_balance n db rows m id ≡ err internal
  unfolding new_balance
  new_balance-absent db rows m id absent = rw (absent, new_balance)

  -- The new balance is the old one and the delta; a user's is not negative.
  new_balance-exact :
      (db : Db) (rows : List Account) (m : Dict ℕ n.Decimal) (k id : ℕ) (b : n.Decimal)
      → IsSmall n ex k (delta_at n id m)
      → magnitude (db.balances id) + k < limit
      → new_balance n db rows m id ≡ ok b
      → Fits n b
        × (n.units b ≡ db.balances id +ℤ n.units (delta_at n id m))
        × ((row : Account)
            → find_account id rows ≡ some row
            → is_owned row ≡ true
            → pos 0 ≤ℤ n.units b)
  new_balance-exact db rows m k id b h lt e = elim (Option-cases (find_account id rows)) [
    | inl absent ↦ cc (sym (new_balance-absent db rows m id absent) ∙ e)
    | inr (row, found) ↦
        let (x, parses, fits, value) = ex.parse_column (db.balances id) (omega arith) in
        let sum = ex.plus_exact x (delta_at n id m) fits h.0 (rw value (omega (arith, h.1))) in
        let test = sym (new_balance-eq db rows m id row x found parses) ∙ e in
        let same : b ≡ n.plus x (delta_at n id m) = ground arith in
        rw same (
          sum.0,
          rw sum.1 (ap (λ w. w +ℤ n.units (delta_at n id m)) value),
          λ row' found' owned. ex.is_negative_exact _ sum.0 (ground arith),
        )
  ]

  pub new_balances-Sets :
      (db : Db) (rows : List Account) (m : Dict ℕ n.Decimal) (k : ℕ) (ids : List ℕ)
      (news : Dict ℕ n.Decimal)
      → ((id : ℕ) → IsSmall n ex k (delta_at n id m))
      → ((id : ℕ) → magnitude (db.balances id) + k < limit)
      → new_balances n db rows m ids ≡ ok news
      → (map (λ p. p.0) news ≡ ids)
        × All (Sets (λ id. db.balances id +ℤ n.units (delta_at n id m))) news
        × ((id : ℕ) (row : Account)
            → contains id ids ≡ true
            → find_account id rows ≡ some row
            → is_owned row ≡ true
            → pos 0 ≤ℤ db.balances id +ℤ n.units (delta_at n id m))
  unfolding new_balances contains
  new_balances-Sets db rows m k [] news h lt e =
      let same : news ≡ [] = cc in rw same (refl, tt, λ id row c. cc)
  new_balances-Sets db rows m k (id ∷ ids) news h lt e =
      let (b, at, e₁) = and_then-eq-ok (new_balance n db rows m id) _ e in
      let (rest, later, e₂) = and_then-eq-ok (new_balances n db rows m ids) _ e₁ in
      let (fits, value, owned) = new_balance-exact db rows m k id b (h id) (lt id) at in
      let (keys, sets, others) = new_balances-Sets db rows m k ids rest h lt later in
      let same : news ≡ (id, b) ∷ rest = cc in
      rw same (
        ap (λ ks. id ∷ ks) keys,
        ((fits, value), sets),
        λ j row c found own. elim (Bool-cases (nat_beq id j)) [
          | inl hit ↦
              let same_id : id ≡ j = (nat_beq_iff id j).0 hit in
              let found' = subst (λ w. find_account w rows ≡ some row) (sym same_id) found in
              subst (λ w. pos 0 ≤ℤ db.balances w +ℤ n.units (delta_at n w m)) same_id
                (rw value at (owned row found' own))
          | inr miss ↦ others j row (ground arith) found own
        ],
      )

  pub line_rows-nets :
      (entry : ℕ) (ls : List (PostEntryLineInput n)) (rows : List JournalLine)
      → All (λ l. IsAmount n l.amount) ls
      → line_rows n entry ls ≡ ok rows
      → ((id : ℕ) → journal_net id rows ≡ net n id ls)
        × ((c : Text) → currency_net c rows ≡ currency_moves n c ls)
  unfolding line_rows
  line_rows-nets entry [] rows a e = let same : rows ≡ [] = cc in rw same (λ id. refl, λ c. refl)
  line_rows-nets entry (l ∷ ls) rows (a, rest) e =
      let stored = ex.parse_numeric l.amount a.value a.parses a.fits in
      let amount = amount_units-parse n l.amount a.value a.parses in
      let (later, e', same) =
        and_then-eq-ok (line_rows n entry ls) _ (rw (stored, line_rows) at e) in
      let (nets, moves) = line_rows-nets entry ls later rest e' in
      let cut : rows
          ≡ record {
            entry_id = entry;
            account_id = l.account_id;
            direction = l.direction;
            amount = n.units a.value;
            currency_code = l.currency_code;
          }
            ∷ later =
        cc in
      rw (cut, amount) (λ id. rw (nets id) refl, λ c. rw (moves c) refl)

  pub update_balances-target :
      (target : ℕ → ℤ) (news : Dict ℕ n.Decimal) (f f' : ℕ → ℤ)
      → All (Sets target) news
      → update_balances n news f ≡ ok f'
      → (id : ℕ) → (contains id (map (λ p. p.0) news) ≡ false → f id ≡ target id)
      → f' id ≡ target id
  unfolding update_balances contains
  update_balances-target target [] f f' a e id h = cc (h refl)
  update_balances-target target ((k, b) ∷ news) f f' (a, rest) e id h =
      let stored = ex.fixed_numeric b a.0 in
      let e' = rw (stored, update_balances) at e in
      update_balances-target target news (set_balance f k (n.units b)) f' rest e' id
        λ absent. ground (arith, h, a.1)
