-- ===== src/Withdrawals.antt =====
-- backend/src/withdrawals/withdrawals.service.ts: a request holds its amount on the pending
-- account of its currency until an admin approves or rejects it.
pub mod Held
pub mod Decided
pub mod Requested
use flow_pay.Prelude.{
  ℕ, Bool, true, Option, none, some, List, [], ◌∷◌, ◌++◌, ◌==◌, nat_eq, nat_beq, not, find, select,
  if◌then◌else◌,
}
use flow_pay.Prelude.Text.{Text}
use flow_pay.Prelude.Rows.{save_row}
use flow_pay.Prelude.Int.{ℤ}
use flow_pay.Numbers.{Numbers}
use flow_pay.Exec.{
  or_throw, throw_if, gets, modify, pure, transaction, not_found, conflict, internal, ◌>>=◌, ◌>>◌,
}
use flow_pay.Db.{
  Action, AccountKind, JournalEntryType, DomainEventType, User, WithdrawalRequest,
  WithdrawalRequestStatus, is_pending, status_beq,
}
use flow_pay.Ledger.{
  wallet_key, system_key, two_lines, get_currency, ensure_accounts, post_entry, fresh_id,
  Pagination, PaginatedResult, page_of,
}
use flow_pay.Outbox.{append}
use flow_pay.Users.{find_by_id, email_of}

unfoldable pub save : WithdrawalRequest → Action (Unit {0})
save request =
    modify (λ db. record db {
      withdrawal_requests = save_row (λ r. r.id) request db.withdrawal_requests;
    })

unfoldable pub lock_pending_request : ℕ → Action WithdrawalRequest
lock_pending_request id = do
  request ← or_throw (← gets (λ db. find (λ r. r.id == id) db.withdrawal_requests)) not_found
  throw_if (not (is_pending request.status)) conflict
  pure request

-- `request.status = …; request.decidedBy = …; request.decidedAt = …; request.settleEntryId = …`
abbrev pub decided : WithdrawalRequestStatus → ℕ → ℕ → ℕ → WithdrawalRequest → WithdrawalRequest
decided status admin now entry request = record request {
  status = status;
  decided_by = some admin;
  decided_at = some now;
  settle_entry_id = some entry;
}

-- `repository.create({ … })`
abbrev pub new_request : ℕ → ℕ → Text → ℤ → Text → ℕ → WithdrawalRequest
new_request id user code units destination entry = record {
  id = id;
  user_id = user;
  currency_code = code;
  amount = units;
  destination = destination;
  status = WithdrawalRequestStatus.pending;
  decided_by = none;
  decided_at = none;
  hold_entry_id = entry;
  settle_entry_id = none;
}

module _ (n : Numbers) where
  -- the body of the transaction of `requestWithdrawal`
  unfoldable pub hold_request : ℕ → ℕ → ℕ → Text → n.Numeral → Text → Action WithdrawalRequest
  hold_request user wallet pending code amount destination = do
    result ←
        post_entry n
          (record {
            entry_type = JournalEntryType.withdrawal_hold;
            metadata = none;
            lines = two_lines n wallet pending amount code;
          })
          true
    units ← or_throw (n.numeric_in amount) internal
    id ← fresh_id
    let request = new_request id user code units destination result.entry_id
    modify (λ db. record db { withdrawal_requests = db.withdrawal_requests ++ (request ∷ []) })
    pure request

  unfoldable pub request_withdrawal : ℕ → Text → n.Numeral → Text → Action WithdrawalRequest
  request_withdrawal user currency_code amount destination = do
    currency ← get_currency currency_code
    accounts ←
        ensure_accounts (wallet_key user currency.code)
          (system_key AccountKind.withdrawal_pending currency.code)
    transaction (hold_request user accounts.0.id accounts.1.id currency.code amount destination)

  -- what `approve` and `reject` do once the accounts are there
  unfoldable pub decide_request :
      JournalEntryType
      → WithdrawalRequestStatus
      → DomainEventType
      → ℕ
      → ℕ
      → ℕ
      → WithdrawalRequest
      → Action WithdrawalRequest
  decide_request entry_type status event_type admin from to request = do
    result ←
        post_entry n
          (record {
            entry_type = entry_type;
            metadata = none;
            lines = two_lines n from to (n.numeric_out request.amount) request.currency_code;
          })
          true
    now ← gets (λ db. db.now)
    let saved = decided status admin now result.entry_id request
    save saved
    requester ← find_by_id request.user_id
    append event_type result.entry_id (email_of requester)
    pure saved

  unfoldable pub approve : ℕ → ℕ → Action WithdrawalRequest
  approve id admin = do
    request ← lock_pending_request id
    accounts ←
        ensure_accounts (system_key AccountKind.withdrawal_pending request.currency_code)
          (system_key AccountKind.treasury request.currency_code)
    transaction (
        decide_request JournalEntryType.withdrawal_settle WithdrawalRequestStatus.approved
          DomainEventType.withdrawal_approved admin accounts.0.id accounts.1.id request)

  unfoldable pub reject : ℕ → ℕ → Action WithdrawalRequest
  reject id admin = do
    request ← lock_pending_request id
    accounts ←
        ensure_accounts (system_key AccountKind.withdrawal_pending request.currency_code)
          (wallet_key request.user_id request.currency_code)
    transaction (
        decide_request JournalEntryType.withdrawal_release WithdrawalRequestStatus.rejected
          DomainEventType.withdrawal_rejected admin accounts.0.id accounts.1.id request)

unfoldable pub list_for_user : ℕ → Pagination → Action (PaginatedResult WithdrawalRequest)
unfolding page_of
list_for_user user p =
    gets (λ db. page_of p (select (λ r. r.user_id == user) db.withdrawal_requests))

abbrev has_status : Option WithdrawalRequestStatus → WithdrawalRequest → Bool
has_status none r = true
has_status (some s) r = status_beq r.status s

unfoldable pub list_for_admin :
    Option WithdrawalRequestStatus → Pagination → Action (PaginatedResult WithdrawalRequest)
unfolding page_of
list_for_admin status p = gets (λ db. page_of p (select (has_status status) db.withdrawal_requests))
