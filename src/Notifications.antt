-- ===== src/Notifications.antt =====
-- backend/src/notifications/notifications-consumer.service.ts: a message becomes a mail, at most once. The
-- texts of the mails are left out; how the mailer's send ends is an argument.
pub mod Mailed
use flow_pay.Prelude.{
  ℕ, ◌*◌, ltb, Bool, true, false, Option, none, some, List, [], ◌∷◌, if◌then◌else◌,
}
use flow_pay.Prelude.Order.{contains}
use flow_pay.Prelude.Text.{Text}
use flow_pay.Exec.{Exec, Result, ok, err, internal}
use flow_pay.Db.{DomainEventType}

-- A message as it comes from Kafka: the event type is any text there, `none` stands for one that no
-- template is for.
pub record OutboxEventMessage : Type 0 where
  pub id : ℕ
  pub event_type : Option DomainEventType
  pub recipient_email : Option Text

pub record Mail : Type 0 where
  pub event_id : ℕ
  pub to : Text
  pub template : DomainEventType

-- The table `processed_events`, and the mails that went out.
pub record Mailbox : Type 0 where
  pub processed_events : List ℕ
  pub mails : List Mail

-- `INSERT ... ON CONFLICT DO NOTHING`: whether the event was new
unfoldable pub claim : ℕ → Exec Mailbox Bool
unfolding contains
claim event_id box =
    if contains event_id box.processed_events
    then (ok false, box)
    else (ok true, record box { processed_events = event_id ∷ box.processed_events })

-- `mailerService.send`
abbrev pub send : Bool → Mail → Exec Mailbox (Unit {0})
send works mail box =
    if works then (ok tt, record box { mails = mail ∷ box.mails }) else (err internal, box)

-- `!recipientEmail`: an empty text is no address either
abbrev pub address_of : Option Text → Option Text
address_of (some (c ∷ t)) = some (c ∷ t)
address_of _ = none

-- the part of `handleMessage` for a claimed event
unfoldable pub notify : Bool → OutboxEventMessage → Exec Mailbox (Unit {0})
notify works event box = elim event.event_type [
  | none ↦ (ok tt, box)
  | some template ↦ elim (address_of event.recipient_email) [
    | none ↦ (ok tt, box)
    | some to ↦ send works (record { event_id = event.id; to = to; template = template }) box
  ]
]

-- `handleMessage`; `none` is a message that does not parse
unfoldable pub handle_message : Bool → Option OutboxEventMessage → Exec Mailbox (Unit {0})
unfolding claim notify
handle_message works none box = (ok tt, box)
handle_message works (some event) box =
    let (r, box') = claim event.id box in
    elim r [
      | err e ↦ (err e, box')
      | ok claimed ↦ if claimed then notify works event box' else (ok tt, box')
    ]

-- Messages as they arrive, each with how the mailer would do.
unfoldable pub handle_all : List (Bool × Option OutboxEventMessage) → Mailbox → Mailbox
unfolding handle_message
handle_all [] box = box
handle_all (m ∷ rest) box = handle_all rest (handle_message m.0 m.1 box).1

-- `subscribeWithRetry`: the wait before the next attempt
abbrev pub retry_in_ms : ℕ → ℕ
retry_in_ms attempt = if ltb (1000 * attempt) 30000 then 1000 * attempt else 30000
