-- ===== src/Accounts/Seen.antt =====
-- The balances that a user sees.
use flow_pay.Prelude.{
  ℕ, ◌≡◌, List, [], ◌∷◌, map, arith, refl, sym, ◌∙◌, true, false, Bool-cases, inl, inr,
}
use flow_pay.Prelude.Text.{Text, text_leb}
use flow_pay.Exec.{ok}
use flow_pay.Db.{Db, Currency}
use flow_pay.Ledger.{wallet_key, get_balance, list_currencies, by_code, place_currency}
use flow_pay.Ledger.Invariant.{IsSound}
use flow_pay.Ledger.Keys.{balance_under, balance_under-found}
use flow_pay.Ledger.Ensured.{Opens, Opens-refl, Opens-trans, ensure_account-Opens}
use flow_pay.Accounts.{AccountBalance, wallet_balance, wallet_balances, get_balances}

-- What is seen of a currency: the balance of its wallet, which is zero before the first use.
abbrev pub seen : ℕ → Db → Currency → AccountBalance
seen user_id db c = record {
  currency = c.code;
  balance = balance_under (wallet_key user_id c.code) db;
  decimals = c.decimals;
}

wallet_balance-seen :
    (user_id : ℕ) (c : Currency) (db : Db)
    → IsSound db
    → (d : Db) × (wallet_balance user_id c db ≡ (ok (seen user_id db c), d)) × Opens db d
unfolding wallet_balance get_balance
wallet_balance-seen user_id c db h =
    let p = wallet_key user_id c.code in
    let (a, d, e, found, o) = ensure_account-Opens p db h in
    let there = o.sound.indexed p a found in
    let value : d.balances a.id ≡ balance_under p db =
      sym (balance_under-found p d a found) ∙ o.under p in
    (d, ground (arith, e, there, value), o)

wallet_balances-seen :
    (user_id : ℕ) (cs : List Currency) (db : Db)
    → IsSound db
    → (d : Db) × (wallet_balances user_id cs db ≡ (ok (map (seen user_id db) cs), d)) × Opens db d
unfolding wallet_balances
wallet_balances-seen user_id [] db h = (db, refl, Opens-refl db h)
wallet_balances-seen user_id (c ∷ cs) db h =
    let (d, e, o) = wallet_balance-seen user_id c db h in
    let (d', e', o') = wallet_balances-seen user_id cs d o.sound in
    (d', ground (arith, e, e', seen_still user_id cs db d o), Opens-trans db d d' o o')
  where
    -- a wallet that is opened has no money yet
    seen_still :
        (user_id : ℕ) (cs : List Currency) (db d : Db)
        → Opens db d
        → map (seen user_id d) cs ≡ map (seen user_id db) cs
    seen_still user_id [] db d o = refl
    seen_still user_id (c ∷ cs) db d o =
        ground (arith, o.under (wallet_key user_id c.code), seen_still user_id cs db d o)

-- Currencies in the order of their codes, from a code on.
abbrev pub InOrder : Text → List Currency → Type 0
InOrder k [] = Unit
InOrder k (c ∷ cs) = (text_leb k c.code ≡ true) × InOrder c.code cs

text_leb-total : (s t : Text) → text_leb s t ≡ false → text_leb t s ≡ true
text_leb-total [] t e = cc e
text_leb-total (c ∷ s) [] e = refl
text_leb-total (c ∷ s) (d ∷ t) e = ground (arith, text_leb-total s t, e)

place_currency-InOrder :
    (k : Text) (c : Currency) (cs : List Currency)
    → text_leb k c.code ≡ true
    → InOrder k cs
    → InOrder k (place_currency c cs)
place_currency-InOrder k c [] e h = (e, tt)
place_currency-InOrder k c (d ∷ cs) e h = elim (Bool-cases (text_leb c.code d.code)) [
  | inl first ↦ rw first (e, (first, h.1))
  | inr later ↦
      rw later (h.0, place_currency-InOrder d.code c cs (text_leb-total c.code d.code later) h.1)
]

by_code-InOrder : (cs : List Currency) → InOrder [] (by_code cs)
by_code-InOrder [] = tt
by_code-InOrder (c ∷ cs) = place_currency-InOrder [] c (by_code cs) refl (by_code-InOrder cs)

-- A user always sees one balance for each currency, in the order of their codes: what the wallet
-- holds, and zero where there was none. Looking opens wallets, keeps the ledger sound, and changes
-- no balance and no other table.
pub get_balances-seen :
    (user_id : ℕ) (db : Db)
    → IsSound db
    → (d : Db) × (get_balances user_id db ≡ (ok (map (seen user_id db) (by_code db.currencies)), d))
      × Opens db d
      × InOrder [] (by_code db.currencies)
unfolding get_balances list_currencies
get_balances-seen user_id db h =
    let (d, e, o) = wallet_balances-seen user_id (by_code db.currencies) db h in
    (d, e, o, by_code-InOrder db.currencies)
