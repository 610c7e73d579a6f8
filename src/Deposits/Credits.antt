-- ===== src/Deposits/Credits.antt =====
-- What a deposit does, and what a refused one leaves.
use flow_pay.Prelude.{
  ℕ, ◌*◌, ◌≡◌, true, false, none, some, arith, refl, ap, sym, ◌∙◌, find, inl, inr, Option-cases,
  Bool-cases,
}
use flow_pay.Prelude.Int.{magnitude}
use flow_pay.Prelude.Text.{Text, to_upper}
use flow_pay.Numbers.{Numbers, IsExact}
use flow_pay.Config.{EnvConfig}
use flow_pay.Exec.{ok, transaction, transaction-eq-ok, Outcome-cases}
use flow_pay.Ledger.{EnsureAccountInput, matches, fresh_id}
use flow_pay.Db.{Currency, JournalEntryType, Db, Account, AccountKind, DomainEventType}
use flow_pay.Ledger.{wallet_key, system_key, get_currency_cases, get_currency-eq-ok}
use flow_pay.Ledger.Amounts.{amount_units}
use flow_pay.Ledger.Invariant.{IsSound}
use flow_pay.Ledger.Keys.{Moved}
use flow_pay.Ledger.Ensured.{Opens, ensure_accounts-Opens}
use flow_pay.Ledger.TwoLines.{Headroom, carry}
use flow_pay.Ledger.{post_entry, two_lines, PostEntryResult}
use flow_pay.Ledger.Carried.{two_lines-Carried}
use flow_pay.Outbox.{append, appended, appended-Moved, Announces}
use mathlib.Core.Path.{subst}
use flow_pay.Deposits.{DepositResponse, deposit, post_deposit, credit_wallet}

module _ (n : Numbers) where
  post_deposit-eq-ok :
      (email : Text) (treasury wallet : ℕ) (amount : n.Numeral) (c : Text) (d d' : Db)
      (r : PostEntryResult n)
      → post_deposit n email treasury wallet amount c d ≡ (ok r, d')
      → (x : Db) × (post_entry n
            (record {
              entry_type = JournalEntryType.deposit;
              metadata = none;
              lines = two_lines n treasury wallet amount c;
            })
            true
            d
          ≡ (ok r, x))
        × (d' ≡ appended DomainEventType.deposit_completed r.entry_id (some email) x)
  unfolding post_deposit append fresh_id
  post_deposit-eq-ok email treasury wallet amount c d d' r e =
      elim (Outcome-cases (
        post_entry n
          (record {
            entry_type = JournalEntryType.deposit;
            metadata = none;
            lines = two_lines n treasury wallet amount c;
          })
          true d)) [
            | inl (x, s, bad) ↦ ground (arith, bad, e)
            | inr (a, s, posted) ↦ (s, ground (arith, posted, e), ground (arith, posted, e))
          ]

  post_deposit-Moved :
      (email c : Text) (amount : n.Numeral) (a b : Account) (p q : EnsureAccountInput)
      (db d d' : Db) (r : PostEntryResult n)
      → IsExact n
      → Opens db d
      → Headroom (2 * magnitude (amount_units n amount)) db
      → find (matches p) d.accounts ≡ some a
      → find (matches q) d.accounts ≡ some b
      → post_deposit n email a.id b.id amount c d ≡ (ok r, d')
      → IsSound d'
        × Moved (carry p q (amount_units n amount)) db d'
        × Announces DomainEventType.deposit_completed (some email) db d'
        × (d'.withdrawal_requests ≡ db.withdrawal_requests)
        × (d'.orders ≡ db.orders)
  post_deposit-Moved email c amount a b p q db d d' r ex o room fa fb e =
      let (x, posted, same) = post_deposit-eq-ok email a.id b.id amount c d d' r e in
      let carried = two_lines-Carried n p q a b amount c _ db d x r refl ex o room fa fb posted in
      let (sound, moved, announced) =
        appended-Moved DomainEventType.deposit_completed r.entry_id (some email)
          (carry p q (amount_units n amount)) db x carried.sound carried.moved
          (ap (λ w. w.outbox_events) carried.frame) in
      rw same (
        sound,
        moved,
        announced,
        ap (λ w. w.withdrawal_requests) carried.frame,
        ap (λ w. w.orders) carried.frame,
      )

  -- The treasury has paid the amount into the user's wallet, and the mail about it is due.
  abbrev pub Credited : ℕ → Text → n.Numeral → Text → Db → Db → Type 0
  Credited user email amount currency db db' =
      IsSound db'
      × Moved
          (carry (system_key AccountKind.treasury currency) (wallet_key user currency)
            (amount_units n amount))
          db db'
      × Announces DomainEventType.deposit_completed (some email) db db'
      × (db'.withdrawal_requests ≡ db.withdrawal_requests)
      × (db'.orders ≡ db.orders)

  -- The one numeral is not above the other.
  abbrev pub IsWithin : n.Numeral → n.Numeral → Type 0
  IsWithin amount maximum =
      (value : n.Decimal) × (most : n.Decimal) × (n.parse amount ≡ some value)
      × (n.parse maximum ≡ some most)
      × (n.greater_than value most ≡ false)

  credit_wallet-Credited :
      (user : ℕ) (email currency : Text) (amount : n.Numeral) (db db' : Db) (r : DepositResponse n)
      → IsExact n
      → IsSound db
      → Headroom (2 * magnitude (amount_units n amount)) db
      → credit_wallet n user email currency amount db ≡ (ok r, db')
      → (currency ≡ r.currency) × Credited user email amount currency db db'
  unfolding credit_wallet
  credit_wallet-Credited user email currency amount db db' r ex h room e =
      let wallet = wallet_key user currency in
      let treasury = system_key AccountKind.treasury currency in
      let (w, t, d, ensured, fw, ft, opens) = ensure_accounts-Opens wallet treasury db h in
      elim (Outcome-cases (transaction (post_deposit n email t.id w.id amount currency) d)) [
        | inl (x, s, bad) ↦ ground (arith, ensured, bad, e)
        | inr (result, s, done) ↦
            let there : s ≡ db' = ground (arith, ensured, done, e) in
            let credited : Credited user email amount currency db s =
              post_deposit-Moved email currency amount t w treasury wallet db d s result ex opens
                room ft fw
                (transaction-eq-ok (post_deposit n email t.id w.id amount currency) done) in
            (
              ground (arith, ensured, done, e),
              subst (λ x. Credited user email amount currency db x) there credited,
            )
      ]

  deposit-eq-ok :
      (config : EnvConfig n) (user : ℕ) (email code : Text) (amount : n.Numeral) (db db' : Db)
      (r : DepositResponse n)
      → deposit n config user email code amount db ≡ (ok r, db')
      → (c : Currency) × (value : n.Decimal) × (most : n.Decimal) × (n.parse amount ≡ some value)
        × (n.parse config.deposit_max_amount ≡ some most)
        × (n.greater_than value most ≡ false)
        × (credit_wallet n user email c.code amount db ≡ (ok r, db'))
        × (c.code ≡ to_upper code)
  unfolding deposit
  deposit-eq-ok config user email code amount db db' r e = elim (get_currency_cases code db) [
    | inr absent ↦ ground (arith, absent, e)
    | inl (c, ec) ↦ elim (Option-cases (n.parse amount)) [
      | inl bad ↦ ground (arith, ec, bad, e)
      | inr (value, ev) ↦ elim (Option-cases (n.parse config.deposit_max_amount)) [
        | inl bad ↦ ground (arith, ec, ev, bad, e)
        | inr (most, em) ↦ elim (Bool-cases (n.greater_than value most)) [
          | inl over ↦ ground (arith, ec, ev, em, over, e)
          | inr within ↦ (
            c,
            value,
            most,
            ev,
            em,
            within,
            ground (arith, ec, ev, em, within, e),
            (get_currency-eq-ok code db db c ec).1,
          )
        ]
      ]
    ]
  ]

  -- A deposit that ends well is of an amount up to the configured maximum. It moves exactly the amount
  -- from the treasury of the currency asked for to the user's wallet and no other balance, keeps the
  -- ledger sound, and leaves one mail to the user in the outbox. Balances stay below 20 digits.
  pub deposit-Credited :
      (config : EnvConfig n) (user : ℕ) (email code : Text) (amount : n.Numeral) (db db' : Db)
      (r : DepositResponse n)
      → IsExact n
      → IsSound db
      → Headroom (2 * magnitude (amount_units n amount)) db
      → deposit n config user email code amount db ≡ (ok r, db')
      → IsWithin amount config.deposit_max_amount
        × Credited user email amount r.currency db db'
        × (r.currency ≡ to_upper code)
  deposit-Credited config user email code amount db db' r ex h room e =
      let (c, value, most, ev, em, within, credited, coded) =
        deposit-eq-ok config user email code amount db db' r e in
      let (currency, done) =
        credit_wallet-Credited user email c.code amount db db' r ex h room credited in
      (
        (value, most, ev, em, within),
        subst (λ w. Credited user email amount w db db') currency done,
        sym currency ∙ coded,
      )
