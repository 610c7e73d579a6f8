-- ===== src/Backend/Requests.antt =====
-- Deposits, transfers, conversions and withdrawal requests only add to the journal and to the outbox,
-- and decide a pending request at most: backend/src/deposits, transfers, fx and withdrawals.
use flow_pay.Prelude.{
  ℕ, ◌≡◌, Bool, true, false, Option, none, some, List, [], ◌∷◌, ◌++◌, refl, sym, ap, ◌∙◌, find,
  find-holds, nat_eq, ◌==◌, nat_beq_iff, not,
}
use mathlib.Core.Path.{subst}
use flow_pay.Prelude.Text.{Text}
use flow_pay.Numbers.{Numbers}
use flow_pay.Config.{EnvConfig}
use flow_pay.Exec.{ok, internal, bad_request, not_found, conflict, unprocessable, modify}
use flow_pay.Db.{
  Db, User, WithdrawalRequest, WithdrawalRequestStatus, JournalEntryType, DomainEventType,
  is_pending,
}
use flow_pay.Deposits.{deposit, credit_wallet, post_deposit}
use flow_pay.Transfers.{
  CreateTransferDto, fees_account, post_transfer, pay_recipient, execute_transfer,
}
use flow_pay.Fx.{ConversionComputation, post_conversion, book_conversion}
use flow_pay.Withdrawals.{
  save, lock_pending_request, decided, new_request, hold_request, request_withdrawal,
  decide_request, approve, reject,
}
use flow_pay.Withdrawals.Decided.{lock_pending_request-eq-ok}
use flow_pay.Users.{email_of}
use flow_pay.Backend.Keeping.{
  Keeps, bind-Keeps, transaction-Keeps, gets-Keeps, pure-Keeps, throw_if-Keeps, or_throw-Keeps,
}
use flow_pay.Backend.Growing.{
  Extends-refl, Posts, posts, ensure_account-Keeps, ensure_accounts-Keeps, fresh_id-Keeps,
  get_currency-Keeps, find_by_id-Keeps, find_by_email-Keeps, append-Keeps, post_entry-Keeps,
  post_swap-Keeps, open_accounts-Keeps,
}
use flow_pay.Backend.Advancing.{
  RequestStep, request_stays, request_decides, OrderStep, order_stays, Advances, Advances-refl,
  Advances-append, Advances-save_row, Evolves, evolves, posts-Evolving,
}
use flow_pay.Backend.Within.{Within, bind-Within, end-Within, transaction-Within, found-Keeps}

-- A method that reads a request which waits for a decision.
abbrev Waits : WithdrawalRequest → Db → Type 0
Waits r db =
    (find (λ x. x.id == r.id) db.withdrawal_requests ≡ some r) × (is_pending r.status ≡ true)

Waits-stable : (r : WithdrawalRequest) (db db' : Db) → Posts db db' → Waits r db → Waits r db'
Waits-stable r db db' p (found, pending) =
    (ap (find (λ x. x.id == r.id)) p.requests ∙ found, pending)

lock_pending_request-Keeps : (id : ℕ) → Keeps posts (lock_pending_request id)
unfolding lock_pending_request
lock_pending_request-Keeps id =
    bind-Keeps posts _ _ (gets-Keeps posts (λ db. find (λ r. r.id == id) db.withdrawal_requests))
      (λ found. bind-Keeps posts _ _ (or_throw-Keeps posts found not_found) (λ request.
        bind-Keeps posts _ _ (throw_if-Keeps posts (not (is_pending request.status)) conflict)
          (λ z. pure-Keeps posts request)))

lock_pending_request-Waits :
    (id : ℕ) (db : Db) (r : WithdrawalRequest) (d : Db)
    → lock_pending_request id db ≡ (ok r, d)
    → Waits r d
lock_pending_request-Waits id db r d e =
    let (found, pending, same) = lock_pending_request-eq-ok id db d r e in
    let that : r.id ≡ id =
      (nat_beq_iff r.id id).0 (find-holds (λ x. x.id == id) db.withdrawal_requests r found) in
    (
      subst (λ k. find (λ x. x.id == k) d.withdrawal_requests ≡ some r) (sym that)
          (ap (λ k. find (λ x. x.id == id) k.withdrawal_requests) same ∙ found),
      pending,
    )

with_requests :
    (db : Db) (rows : List WithdrawalRequest)
    → Advances (λ r. r.id) RequestStep db.withdrawal_requests rows
    → Evolves db (record db { withdrawal_requests = rows })
with_requests db rows advances = record {
  grows = record {
    entries = Extends-refl db.entries;
    lines = Extends-refl db.lines;
    events = Extends-refl db.outbox_events;
    currencies = refl;
    users = refl;
  };
  requests = advances;
  orders = Advances-refl (λ o. o.id) OrderStep (λ o. order_stays refl) db.orders;
}

save-Within :
    (r : WithdrawalRequest) (status : WithdrawalRequestStatus) (admin now entry : ℕ)
    → is_pending status ≡ false
    → Within (Waits r) (Waits-stable r) (save (decided status admin now entry r))
unfolding save
save-Within r status admin now entry final = record {
  moves = λ db (found, pending). with_requests db _ (
      Advances-save_row (λ x. x.id) RequestStep (λ x. request_stays refl) db.withdrawal_requests r
        (decided status admin now entry r) found
        (request_decides status admin now entry pending final refl));
}

add_request-Keeps :
    (r : WithdrawalRequest)
    → Keeps evolves
        (modify (λ db. record db { withdrawal_requests = db.withdrawal_requests ++ (r ∷ []) }))
add_request-Keeps r = record {
  holds = λ db. with_requests db _ (
      Advances-append (λ x. x.id) RequestStep (λ x. request_stays refl) db.withdrawal_requests
        (r ∷ []));
}

fees_account-Keeps : (has_fee : Bool) (code : Text) → Keeps posts (fees_account has_fee code)
unfolding fees_account
fees_account-Keeps true code =
    bind-Keeps posts _ _ (ensure_account-Keeps _) (λ a. pure-Keeps posts (some a))
fees_account-Keeps false code = pure-Keeps posts none

module _ (n : Numbers) where
  pub deposit-Keeps :
      (config : EnvConfig n) (user : ℕ) (email code : Text) (amount : n.Numeral)
      → Keeps posts (deposit n config user email code amount)
  unfolding deposit credit_wallet post_deposit
  deposit-Keeps config user email code amount =
      bind-Keeps posts _ _ (get_currency-Keeps code) (λ currency.
        bind-Keeps posts _ _ (or_throw-Keeps posts (n.parse amount) internal) (λ value.
          bind-Keeps posts _ _ (or_throw-Keeps posts (n.parse config.deposit_max_amount) internal)
            (λ most.
              bind-Keeps posts _ _ (throw_if-Keeps posts (n.greater_than value most) bad_request)
                (λ z. bind-Keeps posts _ _ (ensure_accounts-Keeps _ _) (λ accounts.
                  bind-Keeps posts _ _
                    (transaction-Keeps posts _ (
                      bind-Keeps posts _ _ (post_entry-Keeps n _ true) (λ result.
                        bind-Keeps posts _ _ (append-Keeps _ _ _) (λ y. pure-Keeps posts result))))
                    (λ result. pure-Keeps posts _))))))

  pay_recipient-Keeps :
      (sender_id : ℕ) (sender : Option User) (recipient : User) (code : Text) (fee : n.Decimal)
      (dto : CreateTransferDto n)
      → Keeps posts (pay_recipient n sender_id sender recipient code fee dto)
  unfolding pay_recipient post_transfer
  pay_recipient-Keeps sender_id sender recipient code fee dto =
      bind-Keeps posts _ _ (ensure_accounts-Keeps _ _) (λ wallets.
        bind-Keeps posts _ _ (fees_account-Keeps _ code) (λ fees.
          bind-Keeps posts _ _ (or_throw-Keeps posts (n.parse dto.amount) internal) (λ value.
            bind-Keeps posts _ _
              (transaction-Keeps posts _ (
                bind-Keeps posts _ _ (post_entry-Keeps n _ true) (λ result.
                  bind-Keeps posts _ _ (append-Keeps _ _ _) (λ y. pure-Keeps posts result))))
              (λ result. pure-Keeps posts _))))

  pub execute_transfer-Keeps :
      (config : EnvConfig n) (sender_id : ℕ) (dto : CreateTransferDto n)
      → Keeps posts (execute_transfer n config sender_id dto)
  unfolding execute_transfer
  execute_transfer-Keeps config sender_id dto =
      bind-Keeps posts _ _ (get_currency-Keeps dto.currency) (λ currency.
        bind-Keeps posts _ _ (find_by_id-Keeps sender_id) (λ sender.
          bind-Keeps posts _ _ (find_by_email-Keeps dto.recipient_email) (λ found.
            bind-Keeps posts _ _ (or_throw-Keeps posts found not_found) (λ recipient.
              bind-Keeps posts _ _ (throw_if-Keeps posts _ unprocessable) (λ z.
                bind-Keeps posts _ _
                  (or_throw-Keeps posts (n.parse config.transfer_fee_flat) internal)
                  (λ fee. pay_recipient-Keeps sender_id sender recipient currency.code fee dto))))))

  pub book_conversion-Keeps :
      (user_id : ℕ) (c : ConversionComputation n) → Keeps posts (book_conversion n user_id c)
  unfolding book_conversion post_conversion
  book_conversion-Keeps user_id c = bind-Keeps posts _ _ (open_accounts-Keeps n _) (λ accounts.
      transaction-Keeps posts _ (
        bind-Keeps posts _ _ (post_swap-Keeps n _ accounts) (λ swap.
          bind-Keeps posts _ _ (find_by_id-Keeps user_id)
            (λ user. bind-Keeps posts _ _ (append-Keeps _ _ _) (λ y. pure-Keeps posts swap)))))

  pub request_withdrawal-Keeps :
      (user : ℕ) (code : Text) (amount : n.Numeral) (destination : Text)
      → Keeps evolves (request_withdrawal n user code amount destination)
  unfolding request_withdrawal hold_request
  request_withdrawal-Keeps user code amount destination =
      bind-Keeps evolves _ _ (posts-Evolving _ (get_currency-Keeps code)) (λ currency.
        bind-Keeps evolves _ _ (posts-Evolving _ (ensure_accounts-Keeps _ _)) (λ accounts.
          transaction-Keeps evolves _ (
            bind-Keeps evolves _ _ (posts-Evolving _ (post_entry-Keeps n _ true)) (λ result.
              bind-Keeps evolves _ _ (or_throw-Keeps evolves (n.numeric_in amount) internal)
                (λ units. bind-Keeps evolves _ _ (posts-Evolving _ fresh_id-Keeps) (λ id.
                  let r = new_request id user currency.code units destination result.entry_id in
                  bind-Keeps evolves _ _ (add_request-Keeps r) (λ z. pure-Keeps evolves r)))))))

  decide_request-Within :
      (t : JournalEntryType) (status : WithdrawalRequestStatus) (event : DomainEventType)
      (admin from to : ℕ) (r : WithdrawalRequest)
      → is_pending status ≡ false
      → Within (Waits r) (Waits-stable r) (decide_request n t status event admin from to r)
  unfolding decide_request
  decide_request-Within t status event admin from to r final =
      bind-Within (Waits r) (Waits-stable r) _ _ (post_entry-Keeps n _ true) (λ result.
        bind-Within (Waits r) (Waits-stable r) _ _ (gets-Keeps posts (λ db. db.now)) (λ now.
          end-Within (Waits r) (Waits-stable r) _ _
            (save-Within r status admin now result.entry_id final)
            (λ z. posts-Evolving _ (
              bind-Keeps posts _ _ (find_by_id-Keeps r.user_id) (λ requester.
                bind-Keeps posts _ _ (append-Keeps event result.entry_id (email_of requester))
                  (λ y. pure-Keeps posts (decided status admin now result.entry_id r)))))))

  pub approve-Keeps : (id admin : ℕ) → Keeps evolves (approve n id admin)
  unfolding approve
  approve-Keeps id admin =
      found-Keeps Waits Waits-stable _ _ (lock_pending_request-Keeps id)
        (lock_pending_request-Waits id)
        (λ r. bind-Within (Waits r) (Waits-stable r) _ _ (ensure_accounts-Keeps _ _) (λ accounts.
          transaction-Within (Waits r) (Waits-stable r) _
            (decide_request-Within _ _ _ admin _ _ r refl)))

  pub reject-Keeps : (id admin : ℕ) → Keeps evolves (reject n id admin)
  unfolding reject
  reject-Keeps id admin =
      found-Keeps Waits Waits-stable _ _ (lock_pending_request-Keeps id)
        (lock_pending_request-Waits id)
        (λ r. bind-Within (Waits r) (Waits-stable r) _ _ (ensure_accounts-Keeps _ _) (λ accounts.
          transaction-Within (Waits r) (Waits-stable r) _
            (decide_request-Within _ _ _ admin _ _ r refl)))
