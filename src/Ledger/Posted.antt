-- ===== src/Ledger/Posted.antt =====
-- `postEntry` as a whole: what a posted entry does, and that a refused one does nothing.
use flow_pay.Prelude.{
  nat_beq_iff, ℕ, suc, ◌≤◌, ◌≡◌, Bool, true, false, some, List, [], ◌∷◌, ◌++◌, All, arith, inl, inr,
  nat_beq, nat_eq, if◌then◌else◌, refl, ap, sym, ◌∙◌, length, map,
}
use flow_pay.Prelude.Int.{ℤ, pos, ◌+ℤ◌, ◌≤ℤ◌, int_laws}
use flow_pay.Prelude.Text.{Text, text_eq}
use flow_pay.Prelude.Dict.{Dict, lookup}
use flow_pay.Prelude.Order.{contains, contains-sorted_set}
use flow_pay.Numbers.{Numbers, IsExact}
use flow_pay.Exec.{
  ok, err, transaction, and_then-eq-ok, lift-bind-eq-ok, Result-cases, guard-eq-ok,
  invalid_ledger_entry, transaction-eq-ok, transaction-eq-err, Error,
}
use flow_pay.Db.{Db, Account, JournalLine}
use flow_pay.Ledger.Input.{PostEntryLineInput, PostEntryInput, PostEntryResult}
use flow_pay.Ledger.Accounts.{find_account}
use flow_pay.Ledger.Validator.{validate_entry_lines}
use flow_pay.Ledger.Validated.{validate_entry_lines-balanced}
use flow_pay.Ledger.Posting.{
  account_ids, delta_at, sum_deltas, new_balances, prepare_entry, line_rows, update_balances,
  write_entry, post_entry_with_manager, post_entry, is_owned, lock_rows, check_currencies,
  format_balances,
}
use flow_pay.Ledger.Amounts.{
  turnover, net, currency_moves, journal_net, journal_net-append, currency_net, currency_net-append,
  IsAmount, Within, amount_units, amount_units-parse,
}
use flow_pay.Ledger.Lookup.{lock_rows_known, find_account-lock_rows}
use flow_pay.Ledger.Deltas.{IsSmall, sum_deltas-Adds}
use flow_pay.Ledger.Effect.{new_balances-Sets, line_rows-nets, update_balances-target}

module _ (n : Numbers) where
  pub net-absent :
      (id : ℕ) (lines : List (PostEntryLineInput n))
      → contains id (map (λ l. l.account_id) lines) ≡ false
      → net n id lines ≡ pos 0
  unfolding contains
  net-absent id [] c = refl
  net-absent id (l ∷ ls) c =
      let rest : contains id (map (λ l. l.account_id) ls) ≡ false = ground arith in
      let miss : nat_beq l.account_id id ≡ false = ground arith in
      rw (miss, net-absent id ls rest) (omega int_laws)

  -- What an entry of these lines has done to the database.
  pub record Posted (lines : List (PostEntryLineInput n)) (db db' : Db) : Type 0 where
    pub balances : (id : ℕ) → db'.balances id ≡ db.balances id +ℤ net n id lines
    pub journal : (id : ℕ) → journal_net id db'.lines ≡ journal_net id db.lines +ℤ net n id lines
    pub currencies_balance : (c : Text) → currency_net c db'.lines ≡ currency_net c db.lines
    pub covered :
        (id : ℕ) (a : Account)
        → contains id (map (λ l. l.account_id) lines) ≡ true
        → find_account id db.accounts ≡ some a
        → is_owned a ≡ true
        → pos 0 ≤ℤ db'.balances id
    pub known :
        (id : ℕ)
        → contains id (map (λ l. l.account_id) lines) ≡ true
        → (a : Account) × (find_account id db.accounts ≡ some a)
    -- no other table changes
    pub frame : db' ≡ record db {
      balances = db'.balances;
      lines = db'.lines;
      entries = db'.entries;
      next_id = suc db.next_id;
    }

  -- A line of an entry as the journal has it.
  abbrev pub line_of : ℕ → PostEntryLineInput n → JournalLine
  line_of entry l = record {
    entry_id = entry;
    account_id = l.account_id;
    direction = l.direction;
    amount = amount_units n l.amount;
    currency_code = l.currency_code;
  }

  -- One entry is in the journal, under a new id, and its lines.
  pub record Recorded (input : PostEntryInput n) (r : PostEntryResult n) (db db' : Db)
      : Type 0 where
    pub new_id : r.entry_id ≡ db.next_id
    pub entries :
        db'.entries
        ≡ db.entries
          ++ (record { id = r.entry_id; entry_type = input.entry_type; metadata = input.metadata }
              ∷ [])
    pub lines : db'.lines ≡ db.lines ++ map (line_of r.entry_id) input.lines

  module _ (ex : IsExact n) where
    line_rows-eq-ok :
        (entry : ℕ) (ls : List (PostEntryLineInput n)) (rows : List JournalLine)
        → All (λ l. IsAmount n l.amount) ls
        → line_rows n entry ls ≡ ok rows
        → rows ≡ map (line_of entry) ls
    unfolding line_rows
    line_rows-eq-ok entry [] rows a e = cc
    line_rows-eq-ok entry (l ∷ ls) rows (a, rest) e =
        let stored = ex.parse_numeric l.amount a.value a.parses a.fits in
        let amount = amount_units-parse n l.amount a.value a.parses in
        let (later, e', same) =
          and_then-eq-ok (line_rows n entry ls) _ (rw (stored, line_rows) at e) in
        let row : JournalLine = record {
          entry_id = entry;
          account_id = l.account_id;
          direction = l.direction;
          amount = n.units a.value;
          currency_code = l.currency_code;
        } in
        let cut : rows ≡ row ∷ later = cc in
        rw (cut, amount) (ap (λ k. row ∷ k) (line_rows-eq-ok entry ls later rest e'))

    prepare_entry-eq-ok :
        (db : Db) (lines : List (PostEntryLineInput n)) (news : Dict ℕ n.Decimal)
        → prepare_entry n db lines ≡ ok news
        → (deltas : Dict ℕ n.Decimal) × (sum_deltas n lines [] ≡ ok deltas)
          × (new_balances n db
                (lock_rows (account_ids n lines) db.accounts)
                deltas
                (account_ids n lines)
              ≡ ok news)
          × (nat_beq
                (length (lock_rows (account_ids n lines) db.accounts))
                (length (account_ids n lines))
              ≡ true)
    unfolding prepare_entry
    prepare_entry-eq-ok db lines news e =
        let (locked, e₁) =
          guard-eq-ok
            (nat_beq (length (lock_rows (account_ids n lines) db.accounts))
              (length (account_ids n lines)))
            _ invalid_ledger_entry e in
        let (_, _, e₂) = and_then-eq-ok (check_currencies n _ lines) _ e₁ in
        let (deltas, summed, set) = and_then-eq-ok (sum_deltas n lines []) _ e₂ in
        (deltas, summed, set, locked)

    no_deltas : (id : ℕ) → IsSmall n ex 0 (delta_at n id []) × (n.units (delta_at n id []) ≡ pos 0)
    unfolding lookup
    no_deltas id = ((ex.of_int_zero.0, rw ex.of_int_zero.1 (omega arith)), ex.of_int_zero.1)

    -- The database after the writes.
    abbrev posted_db : PostEntryInput n → List JournalLine → (ℕ → ℤ) → Db → Db
    posted_db input rows f db = record db {
      entries =
          db.entries
          ++ (record { id = db.next_id; entry_type = input.entry_type; metadata = input.metadata }
              ∷ []);
      lines = db.lines ++ rows;
      balances = f;
      next_id = suc db.next_id;
    }

    write_entry-eq-ok :
        (input : PostEntryInput n) (news : Dict ℕ n.Decimal) (db db' : Db) (r : PostEntryResult n)
        → write_entry n input news db ≡ (ok r, db')
        → (rows : List JournalLine) × (f : ℕ → ℤ) × (line_rows n db.next_id input.lines ≡ ok rows)
          × (update_balances n news db.balances ≡ ok f)
          × (db' ≡ posted_db input rows f db)
          × (r ≡ record { entry_id = db.next_id; balances = format_balances n news })
    unfolding write_entry
    write_entry-eq-ok input news db db' r e =
        elim (Result-cases (line_rows n db.next_id input.lines)) [
          | inl (x, bad) ↦ ground (arith, bad, e)
          | inr (rows, stored) ↦ elim (Result-cases (update_balances n news db.balances)) [
            | inl (x, bad) ↦ ground (arith, stored, bad, e)
            | inr (f, updated) ↦ (rows, f, stored, updated, ground (arith, e), ground (arith, e))
          ]
        ]

    deltas-net :
        (db : Db) (lines : List (PostEntryLineInput n)) (deltas : Dict ℕ n.Decimal)
        → Within n db lines
        → All (λ l. IsAmount n l.amount) lines
        → sum_deltas n lines [] ≡ ok deltas
        → (id : ℕ)
        → IsSmall n ex (turnover n lines) (delta_at n id deltas)
          × (n.units (delta_at n id deltas) ≡ net n id lines)
    deltas-net db lines deltas within amounts summed id =
        let zero = λ (id : ℕ). (no_deltas id).0 in
        let adds =
          sum_deltas-Adds n ex 0 lines [] deltas zero (omega (arith, within 0)) amounts summed id in
        ((adds.0.0, omega (arith, adds.0.1)), adds.1 ∙ rw (no_deltas id).1 (omega int_laws))

    unmoved :
        (db : Db) (lines : List (PostEntryLineInput n)) (deltas : Dict ℕ n.Decimal) (id : ℕ)
        → n.units (delta_at n id deltas) ≡ net n id lines
        → contains id (map (λ l. l.account_id) lines) ≡ false
        → db.balances id ≡ db.balances id +ℤ n.units (delta_at n id deltas)
    unmoved db lines deltas id moved absent =
        rw (moved, net-absent id lines absent) (omega int_laws)

    post_entry_with_manager-Posted :
        (input : PostEntryInput n) (db db' : Db) (r : PostEntryResult n)
        → Within n db input.lines
        → All (λ l. IsAmount n l.amount) input.lines
        → ((c : Text) → currency_moves n c input.lines ≡ pos 0)
        → post_entry_with_manager n input db ≡ (ok r, db')
        → Posted input.lines db db'
    unfolding post_entry_with_manager
    post_entry_with_manager-Posted input db db' r within amounts balanced e =
        let lines = input.lines in
        let (news, prepared, e₁) =
          lift-bind-eq-ok (prepare_entry n db lines) (λ balances. write_entry n input balances)
            {s = db} e in
        let (rows, f, stored, updated, same, _) = write_entry-eq-ok input news db db' r e₁ in
        let (deltas, summed, set, all_locked) = prepare_entry-eq-ok db lines news prepared in
        let small = deltas-net db lines deltas within amounts summed in
        let (keys, sets, covered) =
          new_balances-Sets n ex db (lock_rows (account_ids n lines) db.accounts) deltas
            (turnover n lines) (account_ids n lines) news (λ id. (small id).0) within set in
        let (nets, moves) = line_rows-nets n ex db.next_id lines rows amounts stored in
        let target = λ (id : ℕ). db.balances id +ℤ n.units (delta_at n id deltas) in
        let untouched = λ (id : ℕ) (absent : contains id (map (λ p. p.0) news) ≡ false).
          unmoved db lines deltas id (small id).1 (
            sym (contains-sorted_set id (map (λ l. l.account_id) lines))
            ∙ ap (contains id) (sym keys)
            ∙ absent) in
        let reached = λ (id : ℕ).
          update_balances-target n ex target news db.balances f sets updated id (untouched id) in
        rw same (record {
          balances = λ id. reached id ∙ ap (λ w. db.balances id +ℤ w) (small id).1;
          journal = λ id. rw (journal_net-append id db.lines rows, nets id);
          currencies_balance =
              λ c. rw (currency_net-append c db.lines rows, moves c, balanced c) (omega int_laws);
          covered = λ id a member found owned. rw (reached id) (
              covered id a (contains-sorted_set id (map (λ l. l.account_id) lines) ∙ member)
                (find_account-lock_rows id (account_ids n lines) db.accounts a
                  (contains-sorted_set id (map (λ l. l.account_id) lines) ∙ member) found)
                owned);
          known = λ id member.
              lock_rows_known id (account_ids n lines) db.accounts ((nat_beq_iff _ _).0 all_locked)
                (contains-sorted_set id (map (λ l. l.account_id) lines) ∙ member);
          frame = refl;
        })

    post_entry_with_manager-Recorded :
        (input : PostEntryInput n) (db db' : Db) (r : PostEntryResult n)
        → All (λ l. IsAmount n l.amount) input.lines
        → post_entry_with_manager n input db ≡ (ok r, db')
        → Recorded input r db db'
    unfolding post_entry_with_manager
    post_entry_with_manager-Recorded input db db' r amounts e =
        let (news, prepared, e₁) =
          lift-bind-eq-ok (prepare_entry n db input.lines)
            (λ balances. write_entry n input balances) {s = db} e in
        let (rows, f, stored, updated, same, answer) = write_entry-eq-ok input news db db' r e₁ in
        let told = line_rows-eq-ok db.next_id input.lines rows amounts stored in
        let id : r.entry_id ≡ db.next_id = ap (λ k. k.entry_id) answer in
        record {
          new_id = id;
          entries =
              ap (λ (d : Db). d.entries) same
              ∙ ap
                  (λ k.
                    db.entries
                    ++ (record { id = k; entry_type = input.entry_type; metadata = input.metadata }
                        ∷ []))
                  (sym id);
          lines =
              ap (λ (d : Db). d.lines) same
              ∙ ap (λ k. db.lines ++ k) (told ∙ ap (λ k. map (line_of k) input.lines) (sym id));
        }

  post_entry-eq-ok :
      (input : PostEntryInput n) (manager : Bool) (db db' : Db) (r : PostEntryResult n)
      → (if manager
            then post_entry_with_manager n input
            else transaction (post_entry_with_manager n input))
          db
        ≡ (ok r, db')
      → post_entry_with_manager n input db ≡ (ok r, db')
  post_entry-eq-ok input true db db' r e = e
  post_entry-eq-ok input false db db' r e = transaction-eq-ok (post_entry_with_manager n input) e

  -- An entry that `postEntry` accepts is two lines or more of positive amounts; the journal gets
  -- the entry, under a new id, and its lines with their accounts, directions, amounts and
  -- currencies. It moves each account's balance by what its lines credit less what they debit,
  -- moves the journal's sum of the account by the same, keeps each currency's journal sum, leaves
  -- no user's account that it touches below zero, and touches no other table. It holds in the
  -- caller's transaction and in its own, where no balance and no sum reaches 20 significant digits.
  pub post_entry-Posted :
      (input : PostEntryInput n) (manager : Bool) (db db' : Db) (r : PostEntryResult n)
      → IsExact n
      → Within n db input.lines
      → post_entry n input manager db ≡ (ok r, db')
      → (2 ≤ length input.lines)
        × Posted input.lines db db'
        × All (λ l. IsAmount n l.amount) input.lines
        × Recorded input r db db'
  unfolding post_entry
  post_entry-Posted input manager db db' r ex within e =
      let (_, valid, e₁) =
        lift-bind-eq-ok (validate_entry_lines n input.lines)
          (λ _.
            if manager
            then post_entry_with_manager n input
            else transaction (post_entry_with_manager n input))
          {s = db} e in
      let (two, amounts, balanced) =
        validate_entry_lines-balanced n input.lines ex (omega (arith, within 0)) valid in
      let done = post_entry-eq-ok input manager db db' r e₁ in
      (
        two,
        post_entry_with_manager-Posted ex input db db' r within amounts balanced done,
        amounts,
        post_entry_with_manager-Recorded ex input db db' r amounts done,
      )

  -- In a transaction of its own, an entry that is refused for any reason leaves the database as it was.
  pub post_entry_refused :
      (input : PostEntryInput n) (db db' : Db) (x : Error)
      → post_entry n input false db ≡ (err x, db')
      → db' ≡ db
  unfolding post_entry
  post_entry_refused input db db' x e = elim (Result-cases (validate_entry_lines n input.lines)) [
    | inl (y, bad) ↦ ground (arith, bad, e)
    | inr (u, valid) ↦
        transaction-eq-err (post_entry_with_manager n input) {e = x} (ground (arith, valid, e))
  ]
