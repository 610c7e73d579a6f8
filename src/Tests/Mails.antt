-- ===== src/Tests/Mails.antt =====
-- Runs of the outbox's publisher and of the consumer of its messages.
use flow_pay.Prelude.{
  ℕ, ◌≡◌, ◌≤◌, Bool, true, none, some, List, [], ◌∷◌, refl, arith, find, map, nat_beq,
  if◌then◌else◌,
}
use flow_pay.Prelude.Order.{contains}
use flow_pay.Db.{DomainEventType, OutboxEvent}
use flow_pay.Publisher.{Bus, Delivery, uncommitted, delivered, publish_batch, waits}
use flow_pay.Publisher.Faithful.{IsFaithful, publish_batch-IsFaithful}
use flow_pay.Publisher.Delivered.{KeepsRows, publish_batch-settled}
use flow_pay.Notifications.{OutboxEventMessage, handle_all}
use flow_pay.Notifications.Mailed.{mails_for, GoesOut, mailed_once, mailed_exactly, arrive}
use flow_pay.Tests.{empty_db, ada_mail}

abbrev event : ℕ → OutboxEvent
event id = record {
  id = id;
  event_type = DomainEventType.deposit_completed;
  aggregate_id = 9;
  recipient_email = some ada_mail;
  published_at = none;
}

-- Two events wait: the first cannot be sent, the second can.
abbrev bus : Bus
bus = record { db = record empty_db { outbox_events = event 3 ∷ event 4 ∷ [] }; sent = [] }

abbrev deliveries : ℕ → Delivery
deliveries id = if nat_beq id 3 then uncommitted else delivered

bus-IsFaithful : IsFaithful bus
bus-IsFaithful = record { no_loss = (λ p. cc, (λ p. cc, tt)); no_phantom = tt }

publish_batch-IsFaithful_example : IsFaithful (publish_batch deliveries bus).1
publish_batch-IsFaithful_example = publish_batch-IsFaithful deliveries bus bus-IsFaithful

publish_batch-settled_example :
    (find (waits 4) (publish_batch deliveries bus).1.db.outbox_events ≡ none)
    × KeepsRows bus (publish_batch deliveries bus).1
unfolding contains
publish_batch-settled_example = publish_batch-settled deliveries 4 bus refl refl

abbrev message : ℕ → OutboxEventMessage
message id = record {
  id = id;
  event_type = some DomainEventType.deposit_completed;
  recipient_email = some ada_mail;
}

-- Each of two events arrives, and the first one again.
abbrev arrivals : List (Bool × OutboxEventMessage)
arrivals = (true, message 3) ∷ (true, message 4) ∷ (true, message 3) ∷ []

mailed_once_example :
    mails_for 3
      (handle_all (map arrive arrivals) (record { processed_events = []; mails = [] })).mails
    ≤ 1
mailed_once_example = mailed_once (map arrive arrivals) 3

goes_out : GoesOut true (message 3)
goes_out = (
  refl,
  record { event_id = 3; to = ada_mail; template = DomainEventType.deposit_completed },
  refl,
)

mailed_exactly_example :
    mails_for 3
      (handle_all (map arrive arrivals) (record { processed_events = []; mails = [] })).mails
    ≡ 1
unfolding contains
mailed_exactly_example =
    mailed_exactly arrivals 3 (λ n. goes_out, (λ n. absurd (omega (arith, n)), (λ n. goes_out, tt)))
      refl
