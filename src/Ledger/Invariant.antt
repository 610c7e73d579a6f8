-- ===== src/Ledger/Invariant.antt =====
-- The ledger's invariant.
use flow_pay.Prelude.{
  find, find-append, beq_refl, ℕ, ◌≤◌, ◌<◌, ◌≡◌, Bool, true, none, some, List, [], ◌∷◌, ◌==◌, arith,
  inl, inr, nat_eq, refl, ap, sym, ◌∙◌, ◌⊎◌, Option-cases, Bool-cases, map,
}
use flow_pay.Prelude.Int.{pos, ◌+ℤ◌, ◌≤ℤ◌, int_laws}
use flow_pay.Prelude.Text.{Text, text_eq}
use flow_pay.Prelude.Order.{contains}
use flow_pay.Numbers.{Numbers, IsExact}
use flow_pay.Exec.{ok}
use flow_pay.Db.{Db, Account}
use flow_pay.Ledger.Input.{PostEntryLineInput, PostEntryInput, PostEntryResult, EnsureAccountInput}
use flow_pay.Ledger.Accounts.{find_account, matches, ensure_account}
use flow_pay.Ledger.Posting.{post_entry, is_owned}
use flow_pay.Ledger.Amounts.{journal_net, currency_net, net, Within}
use flow_pay.Ledger.Posted.{Posted, post_entry-Posted, net-absent}
use flow_pay.Ledger.Opening.{ensure_account_cases, new_account, opened}

-- Each cached balance is what the journal says, the journal balances in each currency, and no
-- user's account is below zero. Keys from `next_id` on are unused.
pub record IsSound (db : Db) : Type 0 where
  pub reconciled : (id : ℕ) → db.balances id ≡ journal_net id db.lines
  pub balanced : (c : Text) → currency_net c db.lines ≡ pos 0
  pub solvent :
      (id : ℕ) (a : Account)
      → find_account id db.accounts ≡ some a
      → is_owned a ≡ true
      → pos 0 ≤ℤ db.balances id
  pub indexed :
      (p : EnsureAccountInput) (a : Account)
      → find (matches p) db.accounts ≡ some a
      → find_account a.id db.accounts ≡ some a
  pub numbered : (id : ℕ) (a : Account) → find_account id db.accounts ≡ some a → id < db.next_id
  pub unused : (id : ℕ) → db.next_id ≤ id → db.balances id ≡ pos 0

find_account-opened :
    (id : ℕ) (p : EnsureAccountInput) (db : Db) (b : Account)
    → find_account id (opened p db).accounts ≡ some b
    → (find_account id db.accounts ≡ some b) ⊎ (id ≡ db.next_id)
find_account-opened id p db b e = elim (Option-cases (find_account id db.accounts)) [
  | inl absent ↦
      ground (
        arith,
        absent,
        e,
        find-append (λ a. a.id == id) db.accounts (new_account p db.next_id ∷ []),
      )
  | inr (a, found) ↦
      ground
        (arith, found, e, find-append (λ a. a.id == id) db.accounts (new_account p db.next_id ∷ []))
]

-- An account found by its key is the one with its id.
indexed-opened :
    (p q : EnsureAccountInput) (db : Db) (a : Account)
    → IsSound db
    → find (matches p) db.accounts ≡ none
    → find (matches q) (opened p db).accounts ≡ some a
    → find_account a.id (opened p db).accounts ≡ some a
indexed-opened p q db a h absent found =
    let new = new_account p db.next_id in
    let key = find-append (matches q) db.accounts (new ∷ []) in
    elim (Option-cases (find (matches q) db.accounts)) [
      | inl missing ↦
          let it : a ≡ new = ground (arith, key, missing, found) in
          rw it (elim (Option-cases (find_account db.next_id db.accounts)) [
            | inl fresh ↦
                find-append (λ b. b.id == db.next_id) db.accounts (new ∷ [])
                ∙ rw fresh (rw (beq_refl db.next_id) refl)
            | inr (b, taken) ↦ absurd (omega (arith, h.numbered db.next_id b taken))
          ])
      | inr (b, old) ↦
          let it : a ≡ b = ground (arith, key, old, found) in
          rw it
            (find-append (λ c. c.id == b.id) db.accounts (new ∷ []) ∙ rw (h.indexed q b old) refl)
    ]

opened-IsSound :
    (p : EnsureAccountInput) (db : Db)
    → find (matches p) db.accounts ≡ none
    → IsSound db
    → IsSound (opened p db)
opened-IsSound p db absent h = record {
  indexed = λ q a found. indexed-opened p q db a h absent found;
  reconciled = λ id. ground (arith, h.reconciled id, h.unused id);
  balanced = h.balanced;
  solvent = λ id a found owned. elim (find_account-opened id p db a found) [
    | inl old ↦ ground (arith, h.solvent id a old owned, h.numbered id a old)
    | inr new ↦ ground arith
  ];
  numbered = λ id a found. elim (find_account-opened id p db a found) [
    | inl old ↦ omega (arith, h.numbered id a old)
    | inr new ↦ omega arith
  ];
  unused = λ id le. ground (arith, h.unused id);
}

-- Opening an account on first use keeps the ledger sound.
pub ensure_account-IsSound :
    (p : EnsureAccountInput) (db : Db) → IsSound db → IsSound (ensure_account p db).1
ensure_account-IsSound p db h = elim (ensure_account_cases p db) [
  | inl (a, found, e) ↦ rw e h
  | inr (absent, e) ↦ rw e (opened-IsSound p db absent h)
]

module _ (n : Numbers) where
  pub Posted-IsSound :
      (lines : List (PostEntryLineInput n)) (db db' : Db)
      → IsSound db
      → Posted n lines db db'
      → IsSound db'
  Posted-IsSound lines db db' h p = record {
    reconciled =
        λ id. p.balances id ∙ ap (λ z. z +ℤ net n id lines) (h.reconciled id) ∙ sym (p.journal id);
    balanced = λ c. p.currencies_balance c ∙ h.balanced c;
    solvent = λ id a found owned.
        let found' = rw (ap (λ d. d.accounts) p.frame) at found in
        elim (Bool-cases (contains id (map (λ l. l.account_id) lines))) [
          | inl member ↦ p.covered id a member found' owned
          | inr absent ↦
              rw (p.balances id, net-absent n id lines absent)
                (omega (int_laws, h.solvent id a found' owned))
        ];
    indexed = λ q a found.
        rw (ap (λ d. d.accounts) p.frame)
          (h.indexed q a (rw (ap (λ d. d.accounts) p.frame) at found));
    numbered = λ id a found.
        let found' = rw (ap (λ d. d.accounts) p.frame) at found in
        omega (arith, h.numbered id a found', ap (λ d. d.next_id) p.frame);
    unused = λ id le. elim (Bool-cases (contains id (map (λ l. l.account_id) lines))) [
      | inl member ↦
          let (a, found) = p.known id member in
          absurd (omega (arith, h.numbered id a found, ap (λ d. d.next_id) p.frame))
      | inr absent ↦
          rw
            (
              p.balances id,
              net-absent n id lines absent,
              h.unused id (omega (arith, ap (λ d. d.next_id) p.frame)),
            )
            (omega int_laws)
    ];
  }

  -- Posting an entry keeps the ledger sound, in either kind of transaction.
  pub post_entry-IsSound :
      (input : PostEntryInput n) (manager : Bool) (db db' : Db) (r : PostEntryResult n)
      → IsExact n
      → Within n db input.lines
      → IsSound db
      → post_entry n input manager db ≡ (ok r, db')
      → IsSound db'
  post_entry-IsSound input manager db db' r ex within h e =
      Posted-IsSound input.lines db db' h (post_entry-Posted n input manager db db' r ex within e).1
