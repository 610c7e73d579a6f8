-- ===== src/Fx/Converted.antt =====
-- What a conversion moves.
use flow_pay.Prelude.{ℕ, ◌≡◌, Option, List, arith, ap, sym, find, ◌==◌, nat_eq, inl, inr}
use mathlib.Core.Path.{subst}
use flow_pay.Prelude.Text.{text_eq}
use flow_pay.Numbers.{Numbers, IsExact}
use flow_pay.Config.{EnvConfig}
use flow_pay.Exec.{ok, transaction, transaction-eq-ok, Outcome-cases}
use flow_pay.Db.{Db, User, DomainEventType}
use flow_pay.Ledger.{fresh_id, wallet_key}
use flow_pay.Ledger.Invariant.{IsSound}
use flow_pay.Ledger.Keys.{Moved}
use flow_pay.Outbox.{append, appended, appended-Moved, Announces}
use flow_pay.Users.{find_by_id, email_of}
use flow_pay.Rates.{Fetched}
use flow_pay.TradeExecution.{ExecuteSwapResult, SwapAccounts, post_swap}
use flow_pay.TradeExecution.Swapped.{
  exchange_moves, swap_moves, SwapRoom, open_accounts-Opens, post_swap-Carried,
}
use flow_pay.Fx.{
  ConvertDto, ConvertResponse, ConversionComputation, World, on_db, convert_swap, convert_response,
  compute_conversion, post_conversion, book_conversion, execute_convert,
}
use flow_pay.Fx.Priced.{Exchange, compute_conversion-Exchange, compute_conversion-frame}

module _ (n : Numbers) where
  -- The money has moved both ways, and the mail to the user is due.
  abbrev pub Converted : ℕ → ConversionComputation n → Db → Db → Type 0
  Converted user_id c db db' =
      IsSound db'
      × Moved
          (exchange_moves n (wallet_key user_id c.from_currency.code) c.from_amount user_id
            c.to_currency.code c.to_amount)
          db db'
      × Announces DomainEventType.fx_converted (email_of (find (λ u. u.id == user_id) db.users)) db
          db'

  post_conversion-eq-ok :
      (user_id : ℕ) (c : ConversionComputation n) (a : SwapAccounts) (d d' : Db)
      (r : ExecuteSwapResult n)
      → post_conversion n user_id c a d ≡ (ok r, d')
      → (x : Db) × (post_swap n (convert_swap n user_id c) a d ≡ (ok r, x))
        × (d'
            ≡ appended DomainEventType.fx_converted r.entry_id
                (email_of (find (λ u. u.id == user_id) x.users))
                x)
  unfolding post_conversion append fresh_id find_by_id
  post_conversion-eq-ok user_id c a d d' r e =
      elim (Outcome-cases (post_swap n (convert_swap n user_id c) a d)) [
        | inl (x, s, bad) ↦ ground (arith, bad, e)
        | inr (p, x, swapped) ↦ (x, ground (arith, swapped, e), ground (arith, swapped, e))
      ]

  -- The users are those from before.
  mailed_from :
      (user_id id : ℕ) (x y : Db) (us vs : List User)
      → us ≡ vs
      → y ≡ appended DomainEventType.fx_converted id (email_of (find (λ u. u.id == user_id) us)) x
      → y ≡ appended DomainEventType.fx_converted id (email_of (find (λ u. u.id == user_id) vs)) x
  mailed_from user_id id x y us vs same e =
      subst
        (λ ws.
          y
          ≡ appended DomainEventType.fx_converted id (email_of (find (λ u. u.id == user_id) ws)) x)
        same e

  book_conversion-Converted :
      (user_id : ℕ) (c : ConversionComputation n) (db db' : Db) (r : ExecuteSwapResult n)
      → IsExact n
      → IsSound db
      → SwapRoom n (convert_swap n user_id c) db
      → book_conversion n user_id c db ≡ (ok r, db')
      → Converted user_id c db db'
  unfolding book_conversion
  book_conversion-Converted user_id c db db' r ex h room e =
      let i = convert_swap n user_id c in
      let (a, d, opened, f, o) = open_accounts-Opens n i db h in
      let done : transaction (post_conversion n user_id c a) d ≡ (ok r, db') =
        ground (arith, opened, e) in
      let (x, swapped, same) =
        post_conversion-eq-ok user_id c a d db' r
          (transaction-eq-ok (post_conversion n user_id c a) done) in
      let carried = post_swap-Carried n i a db d x r ex room f o swapped in
      let email = email_of (find (λ u. u.id == user_id) db.users) in
      let users : x.users ≡ db.users = ap (λ (w : Db). w.users) carried.frame in
      let there : appended DomainEventType.fx_converted r.entry_id email x ≡ db' =
        sym (mailed_from user_id r.entry_id x db' x.users db.users users same) in
      subst (λ w. Converted user_id c db w) there
        (appended-Moved DomainEventType.fx_converted r.entry_id email (swap_moves n i) db x
          carried.sound carried.moved (ap (λ (w : Db). w.outbox_events) carried.frame))

  -- The answer tells the conversion.
  pub record Answers (c : ConversionComputation n) (r : ConvertResponse n) : Type 0 where
    pub from : r.from ≡ c.from_currency.code
    pub to : r.to ≡ c.to_currency.code
    pub amount : r.amount ≡ c.from_amount
    pub to_amount : r.to_amount ≡ c.to_amount
    pub rate : r.rate ≡ c.rate
    pub net_rate : r.net_rate ≡ c.net_rate

  execute_convert-eq-ok :
      (config : EnvConfig n) (fetched : Fetched n) (user_id : ℕ) (dto : ConvertDto n)
      (w w' : World n) (r : ConvertResponse n) (id : Option ℕ)
      → execute_convert n config fetched user_id dto w ≡ (ok (r, id), w')
      → (c : ConversionComputation n) × (v : World n) × (swap : ExecuteSwapResult n)
        × (compute_conversion n config fetched dto w ≡ (ok c, v))
        × (book_conversion n user_id c v.db ≡ (ok swap, w'.db))
        × (r ≡ convert_response n c swap)
  unfolding execute_convert on_db
  execute_convert-eq-ok config fetched user_id dto w w' r id e =
      elim (Outcome-cases (compute_conversion n config fetched dto w)) [
        | inl (x, s, bad) ↦ ground (arith, bad, e)
        | inr (c, v, computed) ↦ elim (Outcome-cases (book_conversion n user_id c v.db)) [
          | inl (x, s, bad) ↦ ground (arith, computed, bad, e)
          | inr (swap, s, booked) ↦
              let there : s ≡ w'.db = ground (arith, computed, booked, e) in
              (
                c,
                v,
                swap,
                computed,
                subst (λ d. book_conversion n user_id c v.db ≡ (ok swap, d)) there booked,
                ground (arith, computed, booked, e),
              )
        ]
      ]

  -- A conversion that ends well is between the two currencies of the request, which differ, of its
  -- amount and at the rate of `getRate` less the spread. It takes the computed amount in the first
  -- from the user's wallet and gives it to the treasury, takes the amount in the second from the
  -- treasury and gives it to the user's wallet, moves no other balance, keeps the ledger sound, and
  -- leaves one mail to the user in the outbox; the answer tells the currencies, amounts and rates.
  -- Balances stay below 20 digits.
  pub execute_convert-Converted :
      (config : EnvConfig n) (fetched : Fetched n) (user_id : ℕ) (dto : ConvertDto n)
      (w w' : World n) (r : ConvertResponse n) (id : Option ℕ)
      → IsExact n
      → IsSound w.db
      → ((c : ConversionComputation n) (v : World n)
          → compute_conversion n config fetched dto w ≡ (ok c, v)
          → SwapRoom n (convert_swap n user_id c) w.db)
      → execute_convert n config fetched user_id dto w ≡ (ok (r, id), w')
      → (c : ConversionComputation n) × Exchange n config fetched dto w c
        × Converted user_id c w.db w'.db
        × Answers c r
  execute_convert-Converted config fetched user_id dto w w' r id ex h room e =
      let (c, v, swap, computed, booked, answer) =
        execute_convert-eq-ok config fetched user_id dto w w' r id e in
      let (same, differ) = compute_conversion-frame n config fetched dto w v c computed in
      let booked' : book_conversion n user_id c w.db ≡ (ok swap, w'.db) =
        subst (λ d. book_conversion n user_id c d ≡ (ok swap, w'.db)) same booked in
      (
        c,
        compute_conversion-Exchange n config fetched dto w v c computed,
        book_conversion-Converted user_id c w.db w'.db swap ex h (room c v computed) booked',
        record {
          from = ap (λ a. a.from) answer;
          to = ap (λ a. a.to) answer;
          amount = ap (λ a. a.amount) answer;
          to_amount = ap (λ a. a.to_amount) answer;
          rate = ap (λ a. a.rate) answer;
          net_rate = ap (λ a. a.net_rate) answer;
        },
      )
