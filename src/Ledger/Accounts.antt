-- ===== src/Ledger/Accounts.antt =====
-- backend/src/ledger/ledger.service.ts: currencies, accounts and their balances.
use flow_pay.Prelude.{
  ℕ, suc, Bool, ◌&&◌, Option, none, some, List, [], ◌∷◌, ◌++◌, ◌==◌, option_eq, nat_eq, find,
  if◌then◌else◌, ◌⊎◌, inl, inr, ◌≡◌, Option-cases, arith, ap, sym, ◌∙◌, find-holds,
}
use flow_pay.Prelude.Int.{ℤ, pos}
use flow_pay.Prelude.Text.{Text, text_eq, to_upper}
use flow_pay.Exec.{pure, ok, err, or_throw, gets, not_found, ◌>>=◌}
use flow_pay.Db.{Db, Action, Account, Currency, kind_eq}
use flow_pay.Ledger.Input.{EnsureAccountInput}

-- The next key that the database issues.
unfoldable pub fresh_id : Action ℕ
fresh_id db = (ok db.next_id, record db { next_id = suc db.next_id })

abbrev pub set_balance : (ℕ → ℤ) → ℕ → ℤ → ℕ → ℤ
set_balance f a z b = if a == b then z else f b

abbrev pub find_account : ℕ → List Account → Option Account
find_account id = find (λ a. a.id == id)

-- The `where` of `ensureAccount`.
abbrev pub matches : EnsureAccountInput → Account → Bool
matches p a =
    a.owner_user_id == p.owner_user_id && a.currency_code == p.currency_code && a.kind == p.kind

insert_account : EnsureAccountInput → Action Account
insert_account p db =
    let a : Account = record {
      id = db.next_id;
      owner_user_id = p.owner_user_id;
      currency_code = p.currency_code;
      kind = p.kind;
    } in
    (
      ok a,
      record db {
        accounts = db.accounts ++ (a ∷ []);
        balances = set_balance db.balances db.next_id (pos 0);
        next_id = suc db.next_id;
      },
    )

-- `ensureAccount`: the account of (owner, currency, kind), made at its first use. It runs in a
-- transaction of its own, so a later throw of the caller does not take the account back.
unfoldable pub ensure_account : EnsureAccountInput → Action Account
unfolding insert_account
ensure_account p db = elim (find (matches p) db.accounts) [
  | some existing ↦ (ok existing, db)
  | none ↦ insert_account p db
]

unfoldable pub get_currency : Text → Action Currency
get_currency code = do
  found ← gets (λ db. find (λ c. c.code == to_upper code) db.currencies)
  or_throw found not_found

pub get_currency_cases :
    (code : Text) (db : Db)
    → ((c : Currency) × (get_currency code db ≡ (ok c, db)))
      ⊎ (get_currency code db ≡ (err not_found, db))
unfolding get_currency
get_currency_cases code db =
    elim (Option-cases (find (λ c. c.code == to_upper code) db.currencies)) [
      | inl absent ↦ inr (rw (absent, get_currency))
      | inr (c, found) ↦ inl (c, rw (found, get_currency))
    ]

-- The currency has the code that was asked for, in upper case.
pub get_currency-eq-ok :
    (code : Text) (db d : Db) (c : Currency)
    → get_currency code db ≡ (ok c, d)
    → (find (λ x. x.code == to_upper code) db.currencies ≡ some c) × (c.code ≡ to_upper code)
unfolding get_currency
get_currency-eq-ok code db d c e =
    elim (Option-cases (find (λ x. x.code == to_upper code) db.currencies)) [
      | inl absent ↦ ground (arith, absent, e)
      | inr (x, found) ↦
          let same : x ≡ c = ground (arith, found, e) in
          let holds = find-holds (λ y. y.code == to_upper code) db.currencies x found in
          (
            found ∙ ap some same,
            ap (λ y. y.code) (sym same) ∙ (text_eq.beq_iff x.code (to_upper code)).0 holds,
          )
    ]

-- `Promise.all([ensureAccount(p), ensureAccount(q)])`
unfoldable pub ensure_accounts :
    EnsureAccountInput → EnsureAccountInput → Action (Account × Account)
ensure_accounts p q = do a ← ensure_account p; b ← ensure_account q; pure (a, b)
