-- ===== src/Db/Entities.antt =====
-- The tables' rows: */entities/*.ts. Ids are database keys, numbered as the database issues them;
-- an amount in a `numeric(30,8)` column is its number of 10⁻⁸ units; a row's place in its table
-- stands for `created_at`; times are milliseconds.
use flow_pay.Prelude.{ℕ, Option, Bool, true, false, ◌≡◌, ◌↔◌, Eq, nat_beq, arith}
use flow_pay.Prelude.Int.{ℤ}
use flow_pay.Prelude.Text.{Text}

pub data CurrencyType : Type 0 where
  fiat crypto : CurrencyType

pub record Currency : Type 0 where
  pub code : Text
  pub name : Text
  pub currency_type : CurrencyType
  pub decimals : ℕ

pub data AccountKind : Type 0 where
  user_wallet treasury fees withdrawal_pending trade_hold : AccountKind

pub record Account : Type 0 where
  pub id : ℕ
  pub owner_user_id : Option ℕ
  pub currency_code : Text
  pub kind : AccountKind

pub data JournalEntryType : Type 0 where
  deposit withdrawal_hold withdrawal_settle withdrawal_release : JournalEntryType
  transfer fx_convert trade trade_hold trade_release : JournalEntryType

-- The metadata of a transfer, which the history reads back.
pub record TransferMetadata : Type 0 where
  pub sender_id : ℕ
  pub sender_email : Option Text
  pub recipient_id : ℕ
  pub recipient_email : Text
  pub note : Option Text

pub record JournalEntry : Type 0 where
  pub id : ℕ
  pub entry_type : JournalEntryType
  pub metadata : Option TransferMetadata

pub data JournalLineDirection : Type 0 where
  debit credit : JournalLineDirection

pub record JournalLine : Type 0 where
  pub entry_id : ℕ
  pub account_id : ℕ
  pub direction : JournalLineDirection
  pub amount : ℤ
  pub currency_code : Text

pub data WithdrawalRequestStatus : Type 0 where
  pending approved rejected : WithdrawalRequestStatus

pub record WithdrawalRequest : Type 0 where
  pub id : ℕ
  pub user_id : ℕ
  pub currency_code : Text
  pub amount : ℤ
  pub destination : Text
  pub status : WithdrawalRequestStatus
  pub decided_by : Option ℕ
  pub decided_at : Option ℕ
  pub hold_entry_id : ℕ
  pub settle_entry_id : Option ℕ

pub data OrderSide : Type 0 where
  buy sell : OrderSide

pub data OrderType : Type 0 where
  market limit : OrderType

pub data OrderStatus : Type 0 where
  open_ filled cancelled : OrderStatus

pub record Order : Type 0 where
  pub id : ℕ
  pub user_id : ℕ
  pub pair : Text
  pub side : OrderSide
  pub order_type : OrderType
  pub quantity : ℤ
  pub limit_price : Option ℤ
  pub status : OrderStatus
  pub hold_entry_id : Option ℕ
  pub fill_entry_id : Option ℕ
  pub filled_price : Option ℤ
  pub filled_at : Option ℕ

pub data DomainEventType : Type 0 where
  transfer_completed deposit_completed withdrawal_approved withdrawal_rejected : DomainEventType
  fx_converted order_filled : DomainEventType

-- Of the payload, what the consumer acts on: to whom the mail goes, if to anybody.
pub record OutboxEvent : Type 0 where
  pub id : ℕ
  pub event_type : DomainEventType
  pub aggregate_id : ℕ
  pub recipient_email : Option Text
  pub published_at : Option ℕ

pub data UserRole : Type 0 where
  user admin : UserRole

pub record User : Type 0 where
  pub id : ℕ
  pub email : Text
  pub password_hash : Text
  pub role : UserRole

-- Enumerations compare by `===`, as their tags do.
abbrev pub kind_tag : AccountKind → ℕ
kind_tag user_wallet = 0
kind_tag treasury = 1
kind_tag fees = 2
kind_tag withdrawal_pending = 3
kind_tag AccountKind.trade_hold = 4

abbrev pub kind_beq : AccountKind → AccountKind → Bool
kind_beq a b = nat_beq (kind_tag a) (kind_tag b)

pub kind_beq_iff : (a b : AccountKind) → (kind_beq a b ≡ true) ↔ (a ≡ b)
kind_beq_iff a b = ground arith

instance abbrev pub kind_eq : Eq AccountKind
kind_eq = record { beq = kind_beq; beq_iff = kind_beq_iff }

abbrev pub is_credit : JournalLineDirection → Bool
is_credit credit = true
is_credit debit = false

abbrev pub is_pending : WithdrawalRequestStatus → Bool
is_pending pending = true
is_pending _ = false

abbrev pub is_open : OrderStatus → Bool
is_open open_ = true
is_open _ = false

abbrev pub is_buy : OrderSide → Bool
is_buy buy = true
is_buy sell = false

abbrev pub is_limit : OrderType → Bool
is_limit limit = true
is_limit market = false

abbrev pub entry_type_tag : JournalEntryType → ℕ
entry_type_tag deposit = 0
entry_type_tag withdrawal_hold = 1
entry_type_tag withdrawal_settle = 2
entry_type_tag withdrawal_release = 3
entry_type_tag transfer = 4
entry_type_tag fx_convert = 5
entry_type_tag trade = 6
entry_type_tag JournalEntryType.trade_hold = 7
entry_type_tag trade_release = 8

abbrev pub entry_type_beq : JournalEntryType → JournalEntryType → Bool
entry_type_beq a b = nat_beq (entry_type_tag a) (entry_type_tag b)

abbrev pub status_tag : WithdrawalRequestStatus → ℕ
status_tag pending = 0
status_tag approved = 1
status_tag rejected = 2

abbrev pub status_beq : WithdrawalRequestStatus → WithdrawalRequestStatus → Bool
status_beq a b = nat_beq (status_tag a) (status_tag b)

abbrev pub is_market : OrderType → Bool
is_market market = true
is_market limit = false

abbrev pub order_status_tag : OrderStatus → ℕ
order_status_tag open_ = 0
order_status_tag filled = 1
order_status_tag cancelled = 2

abbrev pub order_status_beq : OrderStatus → OrderStatus → Bool
order_status_beq a b = nat_beq (order_status_tag a) (order_status_tag b)
