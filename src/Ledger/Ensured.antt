-- ===== src/Ledger/Ensured.antt =====
-- `ensureAccount` as its callers see it: it gives the account of a key and moves no money.
use flow_pay.Prelude.{
  ℕ, ◌≡◌, some, [], ◌∷◌, arith, inl, inr, nat_eq, refl, ap, ◌∙◌, Option-cases, find, find-append,
}
use flow_pay.Exec.{ok}
use flow_pay.Db.{Db, Account}
use flow_pay.Ledger.Input.{EnsureAccountInput}
use flow_pay.Ledger.Accounts.{matches, ensure_account, ensure_accounts}
use flow_pay.Ledger.Opening.{new_account, opened, ensure_account_cases, matches_self}
use flow_pay.Ledger.Invariant.{IsSound, ensure_account-IsSound}
use flow_pay.Ledger.Keys.{balance_under, balance_under-found, balance_under-absent}

-- From `db` to `db'` accounts may have been opened, and nothing else has happened.
pub record Opens (db db' : Db) : Type 0 where
  pub balances : (id : ℕ) → db'.balances id ≡ db.balances id
  pub under : (q : EnsureAccountInput) → balance_under q db' ≡ balance_under q db
  pub keeps :
      (q : EnsureAccountInput) (b : Account)
      → find (matches q) db.accounts ≡ some b
      → find (matches q) db'.accounts ≡ some b
  pub sound : IsSound db'
  pub frame :
      db' ≡ record db { accounts = db'.accounts; balances = db'.balances; next_id = db'.next_id }

pub Opens-refl : (db : Db) → IsSound db → Opens db db
Opens-refl db h = record {
  balances = λ id. refl;
  under = λ q. refl;
  keeps = λ q b e. e;
  sound = h;
  frame = refl;
}

pub Opens-trans : (a b c : Db) → Opens a b → Opens b c → Opens a c
Opens-trans a b c f g = record {
  balances = λ id. g.balances id ∙ f.balances id;
  under = λ q. g.under q ∙ f.under q;
  keeps = λ q x e. g.keeps q x (f.keeps q x e);
  sound = g.sound;
  frame =
      g.frame
      ∙ ap
          (λ (d : Db). record d {
            accounts = c.accounts;
            balances = c.balances;
            next_id = c.next_id;
          })
          f.frame;
}

opened-balances :
    (p : EnsureAccountInput) (db : Db)
    → IsSound db
    → (id : ℕ) → (opened p db).balances id ≡ db.balances id
opened-balances p db h id = ground (arith, h.unused id)

opened-keeps :
    (p q : EnsureAccountInput) (db : Db) (b : Account)
    → find (matches q) db.accounts ≡ some b
    → find (matches q) (opened p db).accounts ≡ some b
opened-keeps p q db b e =
    find-append (matches q) db.accounts (new_account p db.next_id ∷ []) ∙ rw e refl

opened-under :
    (p q : EnsureAccountInput) (db : Db)
    → IsSound db
    → balance_under q (opened p db) ≡ balance_under q db
opened-under p q db h = elim (Option-cases (find (matches q) db.accounts)) [
  | inl absent ↦ elim (Option-cases (find (matches q) (opened p db).accounts)) [
    | inl still ↦
        rw (balance_under-absent q db absent, balance_under-absent q (opened p db) still) refl
    | inr (b, found) ↦
        let it : b ≡ new_account p db.next_id = ground (
          arith,
          absent,
          found,
          find-append (matches q) db.accounts (new_account p db.next_id ∷ []),
        ) in
        rw
          (
            balance_under-absent q db absent,
            balance_under-found q (opened p db) b found,
            it,
            opened-balances p db h db.next_id,
          )
          (h.unused db.next_id (omega arith))
  ]
  | inr (b, found) ↦
      rw
        (
          balance_under-found q db b found,
          balance_under-found q (opened p db) b (opened-keeps p q db b found),
        )
        (opened-balances p db h b.id)
]

-- Every call succeeds, with the account of its key.
pub ensure_account-Opens :
    (p : EnsureAccountInput) (db : Db)
    → IsSound db
    → (a : Account) × (db' : Db) × (ensure_account p db ≡ (ok a, db'))
      × (find (matches p) db'.accounts ≡ some a)
      × Opens db db'
ensure_account-Opens p db h = elim (ensure_account_cases p db) [
  | inl (a, found, e) ↦ (a, db, e, found, Opens-refl db h)
  | inr (absent, e) ↦ (
    new_account p db.next_id,
    opened p db,
    e,
    find-append (matches p) db.accounts (new_account p db.next_id ∷ [])
        ∙ rw absent (rw (matches_self p db.next_id) refl),
    record {
      balances = opened-balances p db h;
      under = λ q. opened-under p q db h;
      keeps = λ q b found. opened-keeps p q db b found;
      sound = rw (ap (λ r. r.1) e) at (ensure_account-IsSound p db h);
      frame = refl;
    },
  )
]

-- Two accounts opened in turn.
pub ensure_accounts-Opens :
    (p q : EnsureAccountInput) (db : Db)
    → IsSound db
    → (a : Account) × (b : Account) × (d : Db) × (ensure_accounts p q db ≡ (ok (a, b), d))
      × (find (matches p) d.accounts ≡ some a)
      × (find (matches q) d.accounts ≡ some b)
      × Opens db d
unfolding ensure_accounts
ensure_accounts-Opens p q db h =
    let (a, d, ea, fa, oa) = ensure_account-Opens p db h in
    let (b, d', eb, fb, ob) = ensure_account-Opens q d oa.sound in
    (a, b, d', ground (arith, ea, eb), ob.keeps p a fa, fb, Opens-trans db d d' oa ob)
