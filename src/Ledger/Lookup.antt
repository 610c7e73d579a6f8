-- ===== src/Ledger/Lookup.antt =====
-- Finding an account's row among the rows of a table or of a lock.
use flow_pay.Prelude.{
  ◌≤◌, length, ℕ, ◌≡◌, true, false, none, some, List, [], ◌∷◌, arith, inl, inr, nat_beq,
  nat_beq_iff, nat_eq, ap, sym, ◌∙◌, Option-cases, Bool-cases,
}
use mathlib.Core.Path.{subst}
use flow_pay.Prelude.Text.{text_eq}
use flow_pay.Prelude.Order.{contains}
use flow_pay.Db.{Account}
use flow_pay.Ledger.Accounts.{find_account}
use flow_pay.Ledger.Posting.{lock_rows}

pub find_account-id :
    (id : ℕ) (accounts : List Account) (a : Account) → find_account id accounts ≡ some a → a.id ≡ id
find_account-id id [] a e = cc
find_account-id id (x ∷ xs) a e = ground (arith, find_account-id id xs a)

same_row :
    (i id : ℕ) (accounts : List Account) (b a : Account)
    → nat_beq i id ≡ true
    → find_account i accounts ≡ some b
    → find_account id accounts ≡ some a
    → b ≡ a
same_row i id accounts b a hit found e =
    let same : i ≡ id = (nat_beq_iff i id).0 hit in
    let found' = subst (λ w. find_account w accounts ≡ some b) same found in cc (sym found' ∙ e)

contains-tail :
    (id i : ℕ) (ids : List ℕ) (accounts : List Account) (a : Account)
    → contains id (i ∷ ids) ≡ true
    → find_account id accounts ≡ some a
    → find_account i accounts ≡ none
    → contains id ids ≡ true
unfolding contains
contains-tail id i ids accounts a c e absent = elim (Bool-cases (nat_beq i id)) [
  | inl hit ↦
      let same : i ≡ id = (nat_beq_iff i id).0 hit in
      let absent' = subst (λ w. find_account w accounts ≡ none) same absent in cc (sym absent' ∙ e)
  | inr miss ↦ ground arith
]

-- A row that the entry locks is the account's.
pub find_account-lock_rows :
    (id : ℕ) (ids : List ℕ) (accounts : List Account) (a : Account)
    → contains id ids ≡ true
    → find_account id accounts ≡ some a
    → find_account id (lock_rows ids accounts) ≡ some a
unfolding contains
find_account-lock_rows id [] accounts a c e = cc
find_account-lock_rows id (i ∷ ids) accounts a c e = elim (Option-cases (find_account i accounts)) [
  | inl absent ↦
      rw (absent, lock_rows)
        (find_account-lock_rows id ids accounts a (contains-tail id i ids accounts a c e absent) e)
  | inr (b, found) ↦
      let b_id = find_account-id i accounts b found in
      rw (found, lock_rows)
        (elim (Bool-cases (nat_beq i id)) [
          | inl hit ↦
              let same : b ≡ a = same_row i id accounts b a hit found e in
              let hit' : nat_beq b.id id ≡ true = ground arith in rw hit' (ap some same)
          | inr miss ↦
              let miss' : nat_beq b.id id ≡ false = ground arith in
              rw miss' (find_account-lock_rows id ids accounts a (ground arith) e)
        ])
]

length-lock_rows-le :
    (ids : List ℕ) (accounts : List Account) → length (lock_rows ids accounts) ≤ length ids
length-lock_rows-le [] accounts = omega arith
length-lock_rows-le (i ∷ ids) accounts = elim (Option-cases (find_account i accounts)) [
  | inl absent ↦ rw (absent, lock_rows) (omega (arith, length-lock_rows-le ids accounts))
  | inr (a, found) ↦ rw (found, lock_rows) (omega (arith, length-lock_rows-le ids accounts))
]

-- Where as many rows are locked as there are ids, each id has a row.
pub lock_rows_known :
    (id : ℕ) (ids : List ℕ) (accounts : List Account)
    → length (lock_rows ids accounts) ≡ length ids
    → contains id ids ≡ true
    → (a : Account) × (find_account id accounts ≡ some a)
unfolding contains
lock_rows_known id [] accounts e c = cc
lock_rows_known id (i ∷ ids) accounts e c = elim (Option-cases (find_account i accounts)) [
  | inl absent ↦
      absurd (omega (arith, length-lock_rows-le ids accounts, rw (absent, lock_rows) at e))
  | inr (a, found) ↦
      let e' : length (lock_rows ids accounts) ≡ length ids =
        omega (arith, rw (found, lock_rows) at e) in
      elim (Bool-cases (nat_beq i id)) [
        | inl hit ↦
            (a, subst (λ w. find_account w accounts ≡ some a) ((nat_beq_iff i id).0 hit) found)
        | inr miss ↦ lock_rows_known id ids accounts e' (ground arith)
      ]
]
