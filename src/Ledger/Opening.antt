-- ===== src/Ledger/Opening.antt =====
-- `ensureAccount`: what it returns, and what it changes.
use flow_pay.Prelude.{
  ℕ, suc, ◌≡◌, true, none, some, [], ◌∷◌, ◌++◌, arith, inl, inr, nat_eq, refl, ap, sym, ◌∙◌, ◌⊎◌,
  Option-cases, find, find-append, beq_refl, option_eq,
}
use flow_pay.Prelude.Int.{pos}
use flow_pay.Prelude.Text.{text_eq}
use flow_pay.Exec.{ok}
use flow_pay.Db.{Db, Account, kind_eq}
use flow_pay.Ledger.Input.{EnsureAccountInput}
use flow_pay.Ledger.Accounts.{set_balance, matches, ensure_account}

-- The row that a first use inserts.
abbrev pub new_account : EnsureAccountInput → ℕ → Account
new_account p id = record {
  id = id;
  owner_user_id = p.owner_user_id;
  currency_code = p.currency_code;
  kind = p.kind;
}

abbrev pub opened : EnsureAccountInput → Db → Db
opened p db = record db {
  accounts = db.accounts ++ (new_account p db.next_id ∷ []);
  balances = set_balance db.balances db.next_id (pos 0);
  next_id = suc db.next_id;
}

-- `ensureAccount` never fails: it returns the row that is there and changes nothing, or inserts
-- one, with a zero balance.
pub ensure_account_cases :
    (p : EnsureAccountInput) (db : Db)
    → ((a : Account) × (find (matches p) db.accounts ≡ some a) × (ensure_account p db ≡ (ok a, db)))
      ⊎ ((find (matches p) db.accounts ≡ none)
          × (ensure_account p db ≡ (ok (new_account p db.next_id), opened p db)))
unfolding ensure_account
ensure_account_cases p db = elim (Option-cases (find (matches p) db.accounts)) [
  | inl absent ↦ inr (absent, rw (absent, ensure_account))
  | inr (a, found) ↦ inl (a, found, rw (found, ensure_account))
]

pub matches_self : (p : EnsureAccountInput) (id : ℕ) → matches p (new_account p id) ≡ true
matches_self p id = rw (beq_refl p.owner_user_id, beq_refl p.currency_code, beq_refl p.kind) refl

-- Any later call for the same owner, currency and kind returns the same account and changes nothing.
pub ensure_account_again :
    (p : EnsureAccountInput) (db db' : Db) (a : Account)
    → ensure_account p db ≡ (ok a, db')
    → ensure_account p db' ≡ (ok a, db')
unfolding ensure_account
ensure_account_again p db db' a e = elim (ensure_account_cases p db) [
  | inl (b, found, same) ↦ ground (arith, found, same, e)
  | inr (absent, same) ↦
      let here : find (matches p) (opened p db).accounts ≡ some (new_account p db.next_id) =
        find-append (matches p) db.accounts (new_account p db.next_id ∷ [])
        ∙ rw absent (rw (matches_self p db.next_id) refl) in
      let moved = sym same ∙ e in
      let at : db' ≡ opened p db = sym (ap (λ q. q.1) moved) in
      let it : a ≡ new_account p db.next_id = ground (arith, moved) in
      rw (at, it) (rw (here, ensure_account) refl)
]
