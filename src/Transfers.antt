-- ===== src/Transfers.antt =====
-- backend/src/transfers/transfers.service.ts: a user pays another user, with a flat fee.
pub mod Paid
pub mod Once
use flow_pay.Prelude.{
  ℕ, true, false, not, find, map, Option, none, some, List, [], ◌∷◌, ◌++◌, ◌==◌, nat_eq, Bool,
  if◌then◌else◌,
}
use flow_pay.Prelude.Int.{ℤ, pos}
use flow_pay.Prelude.Text.{Text}
use flow_pay.Prelude.Dict.{lookup}
use flow_pay.Numbers.{Numbers}
use flow_pay.Config.{EnvConfig}
use flow_pay.Exec.{
  Exec, gets, or_throw, throw_if, pure, transaction, not_found, unprocessable, internal, ok, err,
  ◌>>=◌, ◌>>◌,
}
use flow_pay.Db.{
  Action, Account, AccountKind, JournalEntryType, DomainEventType, TransferMetadata, User, debit,
  credit, Db, JournalEntry, JournalLine, is_credit,
}
use flow_pay.Ledger.{
  wallet_key, system_key, PostEntryLineInput, PostEntryInput, PostEntryResult, get_currency,
  ensure_account, ensure_accounts, post_entry, Pagination, PaginatedResult,
  list_journal_lines_for_owner,
}
use flow_pay.Idempotency.{KeyStore, RunIdempotentParams, RunIdempotentResult, run}
use flow_pay.Idempotency.HashPayload.{
  Platform, Json, Fields, str, obj, no_fields, field, hash_payload,
}
use flow_pay.Outbox.{append}
use flow_pay.Users.{find_by_id, find_by_email, email_of}

-- `POST /api/v1/transfers`
abbrev pub endpoint : Text
endpoint =
    80 ∷ 79 ∷ 83 ∷ 84 ∷ 32 ∷ 47 ∷ 97 ∷ 112 ∷ 105 ∷ 47 ∷ 118 ∷ 49 ∷ 47 ∷ 116 ∷ 114 ∷ 97 ∷ 110 ∷ 115
    ∷ 102 ∷ 101 ∷ 114 ∷ 115 ∷ []

-- the fields' names
abbrev recipient_field : Text
recipient_field =
    114 ∷ 101 ∷ 99 ∷ 105 ∷ 112 ∷ 105 ∷ 101 ∷ 110 ∷ 116 ∷ 69 ∷ 109 ∷ 97 ∷ 105 ∷ 108 ∷ []

abbrev currency_field : Text
currency_field = 99 ∷ 117 ∷ 114 ∷ 114 ∷ 101 ∷ 110 ∷ 99 ∷ 121 ∷ []

abbrev amount_field : Text
amount_field = 97 ∷ 109 ∷ 111 ∷ 117 ∷ 110 ∷ 116 ∷ []

abbrev note_field : Text
note_field = 110 ∷ 111 ∷ 116 ∷ 101 ∷ []

pub record CreateTransferDto (n : Numbers) : Type 0 where
  pub recipient_email : Text
  pub currency : Text
  pub amount : n.Numeral
  pub note : Option Text

pub record TransferResponse (n : Numbers) : Type 0 where
  pub entry_id : ℕ
  pub currency : Text
  pub amount : n.Numeral
  -- `result.balances[senderWallet.id]`
  pub balance : Option n.Numeral

-- The fees account is opened only where there is a fee.
unfoldable pub fees_account : Bool → Text → Action (Option Account)
fees_account true code db =
    let (r, d) = ensure_account (system_key AccountKind.fees code) db in
    elim r [ ok a ↦ (ok (some a), d) | err e ↦ (err e, d) ]
fees_account false code db = (ok none, db)

module _ (n : Numbers) where
  -- The amounts of a transfer, as the lines spell them.
  pub record TransferAmounts : Type 0 where
    pub debit_amount : n.Numeral
    pub credit_amount : n.Numeral
    pub fee_amount : n.Numeral

  abbrev pub transfer_amounts : n.Numeral → n.Decimal → n.Decimal → TransferAmounts
  transfer_amounts amount value fee = record {
    debit_amount = n.to_fixed 8 (n.plus value fee);
    credit_amount = amount;
    fee_amount = n.to_fixed 8 fee;
  }

  abbrev pub fee_lines : Option Account → n.Numeral → Text → List (PostEntryLineInput n)
  fee_lines none amount code = []
  fee_lines (some fees) amount code =
      record { account_id = fees.id; direction = credit; amount = amount; currency_code = code }
      ∷ []

  abbrev pub transfer_lines :
      ℕ → ℕ → Option Account → TransferAmounts → Text → List (PostEntryLineInput n)
  transfer_lines from to fees m code =
      record { account_id = from; direction = debit; amount = m.debit_amount; currency_code = code }
      ∷ record {
        account_id = to;
        direction = credit;
        amount = m.credit_amount;
        currency_code = code;
      }
      ∷ fee_lines fees m.fee_amount code

  abbrev pub transfer_metadata : ℕ → Option User → User → Option Text → TransferMetadata
  transfer_metadata sender_id sender recipient note = record {
    sender_id = sender_id;
    sender_email = email_of sender;
    recipient_id = recipient.id;
    recipient_email = recipient.email;
    note = note;
  }

  -- the body of the transaction
  unfoldable pub post_transfer : PostEntryInput n → Text → Action (PostEntryResult n)
  post_transfer entry recipient_email = do
    result ← post_entry n entry true
    append DomainEventType.transfer_completed result.entry_id (some recipient_email)
    pure result

  -- `executeTransfer` once both users and the fee are known
  unfoldable pub pay_recipient :
      ℕ → Option User → User → Text → n.Decimal → CreateTransferDto n → Action (TransferResponse n)
  pay_recipient sender_id sender recipient code fee dto = do
    wallets ← ensure_accounts (wallet_key sender_id code) (wallet_key recipient.id code)
    fees ← fees_account (n.greater_than fee (n.of_int (pos 0))) code
    value ← or_throw (n.parse dto.amount) internal
    result ← transaction (
        post_transfer
          (record {
            entry_type = JournalEntryType.transfer;
            metadata = some (transfer_metadata sender_id sender recipient dto.note);
            lines =
                transfer_lines wallets.0.id wallets.1.id fees
                  (transfer_amounts dto.amount value fee) code;
          })
          recipient.email)
    pure (record {
      entry_id = result.entry_id;
      currency = code;
      amount = dto.amount;
      balance = lookup wallets.0.id result.balances;
    })

  unfoldable pub execute_transfer :
      EnvConfig n → ℕ → CreateTransferDto n → Action (TransferResponse n)
  execute_transfer config sender_id dto = do
    currency ← get_currency dto.currency
    sender ← find_by_id sender_id
    found ← find_by_email dto.recipient_email
    recipient ← or_throw found not_found
    throw_if (recipient.id == sender_id) unprocessable
    fee ← or_throw (n.parse config.transfer_fee_flat) internal
    pay_recipient sender_id sender recipient currency.code fee dto

  -- The request's payload; an amount's text is what the client sent, and no field stands for a note
  -- that is not there.
  abbrev pub note_fields : Option Text → Fields
  note_fields none = no_fields
  note_fields (some note) = field note_field (str note) no_fields

  abbrev pub payload_of : (n.Numeral → Text) → CreateTransferDto n → Json
  payload_of text_of dto = obj (
      field recipient_field (str dto.recipient_email) (
        field currency_field (str dto.currency)
          (field amount_field (str (text_of dto.amount)) (note_fields dto.note))))

  -- `executeTransfer` with the entry beside its body
  unfoldable pub transfer_handler :
      EnvConfig n → ℕ → CreateTransferDto n → Action (TransferResponse n × Option ℕ)
  transfer_handler config sender_id dto = do
    body ← execute_transfer config sender_id dto
    pure (body, some body.entry_id)

  abbrev pub transfer_params :
      (n.Numeral → Text)
      → EnvConfig n
      → ℕ
      → Text
      → CreateTransferDto n
      → RunIdempotentParams Db (TransferResponse n)
  transfer_params text_of config sender_id idempotency_key dto = record {
    user_id = sender_id;
    key = idempotency_key;
    endpoint = endpoint;
    request_payload = payload_of text_of dto;
    success_status = 201;
    handler = transfer_handler config sender_id dto;
  }

  abbrev pub clock : Db → ℕ
  clock db = db.now

  unfoldable pub create :
      Platform
      → (n.Numeral → Text)
      → EnvConfig n
      → ℕ
      → Text
      → CreateTransferDto n
      → Exec (KeyStore Db (TransferResponse n)) (RunIdempotentResult (TransferResponse n))
  create platform text_of config sender_id idempotency_key dto =
      run (hash_payload platform) config.idempotency_stale_ms clock
        (transfer_params text_of config sender_id idempotency_key dto)

-- An item of the history, seen by one of its two sides.
pub data Direction : Type 0 where
  sent received : Direction

pub record TransferHistoryItem : Type 0 where
  pub entry_id : ℕ
  pub direction : Direction
  pub currency : Text
  pub amount : ℤ
  pub counterparty_email : Option Text
  pub note : Option Text

-- `line.entry.metadata`
abbrev pub metadata_of : List JournalEntry → ℕ → Option TransferMetadata
metadata_of entries id = elim (find (λ (e : JournalEntry). e.id == id) entries) [
  | none ↦ none
  | some entry ↦ entry.metadata
]

abbrev pub counterparty : Bool → Option TransferMetadata → Option Text
counterparty is_sender none = none
counterparty is_sender (some m) = if is_sender then some m.recipient_email else m.sender_email

abbrev pub note_of : Option TransferMetadata → Option Text
note_of none = none
note_of (some m) = m.note

abbrev pub history_item : List JournalEntry → JournalLine → TransferHistoryItem
history_item entries line =
    let is_sender = not (is_credit line.direction) in
    let metadata = metadata_of entries line.entry_id in
    record {
      entry_id = line.entry_id;
      direction = if is_sender then sent else received;
      currency = line.currency_code;
      amount = line.amount;
      counterparty_email = counterparty is_sender metadata;
      note = note_of metadata;
    }

unfoldable pub list_history : ℕ → Pagination → Action (PaginatedResult TransferHistoryItem)
list_history user_id pagination = do
  lines ← list_journal_lines_for_owner user_id (some JournalEntryType.transfer) pagination
  entries ← gets (λ db. db.entries)
  pure (record { items = map (history_item entries) lines.items; total = lines.total })
