-- ===== src/Withdrawals/Requested.antt =====
-- `requestWithdrawal`: the amount moves to the pending account with the request that asks for it.
use flow_pay.Prelude.{
  ℕ, suc, ◌*◌, ◌≡◌, true, none, some, [], ◌∷◌, ◌++◌, arith, refl, ap, sym, ◌∙◌, find, inl, inr,
  Option-cases,
}
use mathlib.Core.Path.{subst}
use flow_pay.Prelude.Int.{ℤ, int_laws, magnitude}
use flow_pay.Prelude.Rows.{total-append}
use flow_pay.Prelude.Text.{Text, text_eq, to_upper}
use flow_pay.Numbers.{Numbers, IsExact}
use flow_pay.Exec.{ok, transaction, transaction-eq-ok, Outcome-cases}
use flow_pay.Db.{
  Db, AccountKind, Account, JournalEntryType, WithdrawalRequest, WithdrawalRequestStatus,
}
use flow_pay.Ledger.{
  PostEntryInput, PostEntryResult, wallet_key, two_lines, get_currency_cases, get_currency-eq-ok,
  post_entry, matches, fresh_id,
}
use flow_pay.Ledger.Amounts.{amount_units, amount_units-parse, Within}
use flow_pay.Ledger.Keys.{Moved}
use flow_pay.Ledger.Ensured.{Opens, ensure_accounts-Opens}
use flow_pay.Ledger.TwoLines.{Headroom, carry}
use flow_pay.Ledger.Carried.{
  Carried, SameBooks, SameBooks-IsSound, SameBooks-Moved, two_lines-Carried, post_entry-IsAmount,
}
use flow_pay.Ledger.Pools.{key_net-carry_in, wallet_pool}
use flow_pay.Withdrawals.{new_request, hold_request, request_withdrawal}
use flow_pay.Withdrawals.Held.{IsHeld, pending_key, held_by}

module _ (n : Numbers) where
  abbrev hold_entry : ℕ → ℕ → n.Numeral → Text → PostEntryInput n
  hold_entry wallet pending amount code = record {
    entry_type = JournalEntryType.withdrawal_hold;
    metadata = none;
    lines = two_lines n wallet pending amount code;
  }

  abbrev requested : WithdrawalRequest → Db → Db
  requested r x = record x {
    withdrawal_requests = x.withdrawal_requests ++ (r ∷ []);
    next_id = suc x.next_id;
  }

  hold_request-eq-ok :
      (user wallet pending : ℕ) (code destination : Text) (amount : n.Numeral) (d d' : Db)
      (r : WithdrawalRequest)
      → hold_request n user wallet pending code amount destination d ≡ (ok r, d')
      → (p : PostEntryResult n) × (x : Db) × (units : ℤ) × (post_entry n
            (hold_entry wallet pending amount code)
            true
            d
          ≡ (ok p, x))
        × (n.numeric_in amount ≡ some units)
        × (r ≡ new_request x.next_id user code units destination p.entry_id)
        × (d' ≡ requested (new_request x.next_id user code units destination p.entry_id) x)
  unfolding hold_request fresh_id
  hold_request-eq-ok user wallet pending code destination amount d d' r e =
      elim (Outcome-cases (post_entry n (hold_entry wallet pending amount code) true d)) [
        | inl (x, s, bad) ↦ ground (arith, bad, e)
        | inr (p, x, posted) ↦ elim (Option-cases (n.numeric_in amount)) [
          | inl bad ↦ ground (arith, posted, bad, e)
          | inr (units, stored) ↦ (
            p,
            x,
            units,
            posted,
            stored,
            ground (arith, posted, stored, e),
            ground (arith, posted, stored, e),
          )
        ]
      ]

  requested-SameBooks : (r : WithdrawalRequest) (x : Db) → SameBooks x (requested r x)
  requested-SameBooks r x = record {
    accounts = refl;
    balances = refl;
    lines = refl;
    later = omega arith;
  }

  -- The amount has gone from the wallet to the pending account, for one new pending request.
  abbrev pub Requested : ℕ → n.Numeral → WithdrawalRequest → Db → Db → Type 0
  Requested user amount r db db' =
      IsHeld db'
      × Moved
          (carry (wallet_key user r.currency_code) (pending_key r.currency_code)
            (amount_units n amount))
          db db'
      × (db'.withdrawal_requests ≡ db.withdrawal_requests ++ (r ∷ []))
      × (r.status ≡ WithdrawalRequestStatus.pending)
      × (r.user_id ≡ user)
      × (r.amount ≡ amount_units n amount)

  requested-IsHeld :
      (user : ℕ) (amount : n.Numeral) (r : WithdrawalRequest) (db x : Db)
      → IsHeld db
      → Carried
          (carry
            (wallet_key user r.currency_code)
            (pending_key r.currency_code)
            (amount_units n amount))
          db
          x
      → r.status ≡ WithdrawalRequestStatus.pending
      → r.amount ≡ amount_units n amount
      → IsHeld (requested r x)
        × Moved
            (carry
              (wallet_key user r.currency_code)
              (pending_key r.currency_code)
              (amount_units n amount))
            db
            (requested r x)
        × ((requested r x).withdrawal_requests ≡ db.withdrawal_requests ++ (r ∷ []))
  requested-IsHeld user amount r db x h carried status units =
      let books = requested-SameBooks r x in
      let ms =
        carry (wallet_key user r.currency_code) (pending_key r.currency_code)
          (amount_units n amount) in
      let moved = SameBooks-Moved ms db x (requested r x) carried.moved books in
      let rows : (requested r x).withdrawal_requests ≡ db.withdrawal_requests ++ (r ∷ []) =
        ap (λ (w : Db). w.withdrawal_requests ++ (r ∷ [])) carried.frame in
      (
        record {
          sound = SameBooks-IsSound x (requested r x) books carried.sound;
          backed = λ c.
              moved (pending_key c)
              ∙ rw
                  (
                    h.backed c,
                    rows,
                    total-append (held_by c) db.withdrawal_requests (r ∷ []),
                    key_net-carry_in AccountKind.withdrawal_pending c r.currency_code
                        (wallet_key user r.currency_code) (amount_units n amount)
                        (wallet_pool AccountKind.withdrawal_pending c r.currency_code user),
                    status,
                    units,
                  )
                  (omega int_laws);
        },
        moved,
        rows,
      )

  hold_request-Requested :
      (user : ℕ) (code destination : Text) (amount : n.Numeral) (w p : Account) (db d d' : Db)
      (r : WithdrawalRequest)
      → IsExact n
      → IsHeld db
      → Headroom (2 * magnitude (amount_units n amount)) db
      → Opens db d
      → find (matches (wallet_key user code)) d.accounts ≡ some w
      → find (matches (pending_key code)) d.accounts ≡ some p
      → hold_request n user w.id p.id code amount destination d ≡ (ok r, d')
      → (r.currency_code ≡ code) × Requested user amount r db d'
  hold_request-Requested user code destination amount w p db d d' r ex h room o fw fp e =
      let (res, x, units, posted, stored, row, there) =
        hold_request-eq-ok user w.id p.id code destination amount d d' r e in
      let carried =
        two_lines-Carried n (wallet_key user code) (pending_key code) w p amount code
          (hold_entry w.id p.id amount code) db d x res refl ex o room fw fp posted in
      let within : Within n d (two_lines n w.id p.id amount code) =
        λ id. rw (o.balances id) (omega (arith, room id)) in
      let (is_amount, _) =
        post_entry-IsAmount n (hold_entry w.id p.id amount code) true d x res ex within posted in
      let kept = ex.parse_numeric amount is_amount.value is_amount.parses is_amount.fits in
      let stored_units : units ≡ n.units is_amount.value = ground (arith, stored, kept) in
      let same : units ≡ amount_units n amount =
        stored_units ∙ sym (amount_units-parse n amount is_amount.value is_amount.parses) in
      let made = new_request x.next_id user code units destination res.entry_id in
      let (held', moved, rows) = requested-IsHeld user amount made db x h carried refl same in
      subst (λ z. (z.currency_code ≡ code) × Requested user amount z db d') (sym row)
        (subst (λ z. (code ≡ code) × Requested user amount made db z) (sym there)
          (refl, (held', moved, rows, refl, refl, same)))

  -- A request that is accepted moves its amount from the user's wallet to the pending account of
  -- the currency asked for and no other balance, writes one pending request of that amount, and
  -- keeps the ledger sound and every pending account equal to the sum of its pending requests.
  -- Balances stay below 20 digits.
  pub request_withdrawal-Requested :
      (user : ℕ) (code destination : Text) (amount : n.Numeral) (db db' : Db)
      (r : WithdrawalRequest)
      → IsExact n
      → IsHeld db
      → Headroom (2 * magnitude (amount_units n amount)) db
      → request_withdrawal n user code amount destination db ≡ (ok r, db')
      → Requested user amount r db db' × (r.currency_code ≡ to_upper code)
  unfolding request_withdrawal
  request_withdrawal-Requested user code destination amount db db' r ex h room e =
      elim (get_currency_cases code db) [
        | inr absent ↦ ground (arith, absent, e)
        | inl (c, ec) ↦
            let (w, p, d, ensured, fw, fp, opens) =
              ensure_accounts-Opens (wallet_key user c.code) (pending_key c.code) db h.sound in
            let done : transaction (hold_request n user w.id p.id c.code amount destination) d
                ≡ (ok r, db') =
              ground (arith, ec, ensured, e) in
            let (coded, requests) =
              hold_request-Requested user c.code destination amount w p db d db' r ex h room opens
                fw fp
                (transaction-eq-ok (hold_request n user w.id p.id c.code amount destination)
                  done) in
            (requests, coded ∙ (get_currency-eq-ok code db db c ec).1)
      ]
