-- ===== src/Publisher.antt =====
-- backend/src/common/outbox/outbox-publisher.service.ts: rows of the outbox become messages of Kafka. A
-- send and the commit after it are two things, so a message may be out while its row stays unpublished.
pub mod Faithful
pub mod Delivered
use flow_pay.Prelude.{
  ℕ, suc, Bool, true, false, ◌&&◌, Option, none, some, List, [], ◌∷◌, ◌++◌, map, ◌==◌, nat_eq, find,
  select, take, if◌then◌else◌, arith, ◌≡◌, ◌⊎◌, inl, inr, Option-cases,
}
use flow_pay.Prelude.Text.{Text}
use flow_pay.Exec.{Exec, Result, ok, err, internal}
use flow_pay.Db.{Db, DomainEventType, OutboxEvent}

-- The value that is sent, of which the consumer reads these fields.
pub record Message : Type 0 where
  pub id : ℕ
  pub event_type : DomainEventType
  pub aggregate_id : ℕ
  pub recipient_email : Option Text

-- The database, and what the topic holds.
pub record Bus : Type 0 where
  pub db : Db
  pub sent : List Message

-- How the send of a row ends: it fails, or it succeeds and the commit fails, or both succeed.
pub data Delivery : Type 0 where
  refused uncommitted delivered : Delivery

abbrev pub batch_size : ℕ
batch_size = 100

abbrev pub is_unpublished : OutboxEvent → Bool
is_unpublished row = elim row.published_at [ none ↦ true | some t ↦ false ]

-- `where: { id, publishedAt: IsNull() }`
abbrev pub waits : ℕ → OutboxEvent → Bool
waits id row = (row.id == id) && is_unpublished row

abbrev pub message_of : OutboxEvent → Message
message_of row = record {
  id = row.id;
  event_type = row.event_type;
  aggregate_id = row.aggregate_id;
  recipient_email = row.recipient_email;
}

-- `manager.save(row)`: the update of the column that changed, by the row's id
abbrev pub mark_published : ℕ → ℕ → OutboxEvent → OutboxEvent
mark_published id now row = if row.id == id then record row { published_at = some now } else row

abbrev pub commit_published : ℕ → Db → Db
commit_published id db = record db {
  outbox_events = map (mark_published id db.now) db.outbox_events;
}

unfoldable pub send_row : Delivery → OutboxEvent → Exec Bus Bool
send_row refused row bus = (err internal, bus)
send_row uncommitted row bus =
    (err internal, record bus { sent = bus.sent ++ (message_of row ∷ []) })
send_row delivered row bus = (
  ok true,
  record bus { db = commit_published row.id bus.db; sent = bus.sent ++ (message_of row ∷ []) },
)

unfoldable pub publish_one : (ℕ → Delivery) → ℕ → Exec Bus Bool
unfolding send_row
publish_one deliveries id bus = elim (find (waits id) bus.db.outbox_events) [
  | none ↦ (ok false, bus)
  | some row ↦ send_row (deliveries id) row bus
]

-- the loop over the candidates: a failure of one is logged, and the next one follows
unfoldable pub publish_each : (ℕ → Delivery) → List OutboxEvent → Bus → ℕ × Bus
unfolding publish_one
publish_each deliveries [] bus = (0, bus)
publish_each deliveries (candidate ∷ rest) bus =
    let (r, bus') = publish_one deliveries candidate.id bus in
    let (count, bus'') = publish_each deliveries rest bus' in
    (elim r [ ok published ↦ if published then suc count else count | err e ↦ count ], bus'')

unfoldable pub publish_batch : (ℕ → Delivery) → Bus → ℕ × Bus
unfolding publish_each
publish_batch deliveries bus =
    publish_each deliveries (take batch_size (select is_unpublished bus.db.outbox_events)) bus

-- What becomes of one candidate.
pub publish_one_cases :
    (deliveries : ℕ → Delivery) (id : ℕ) (bus : Bus)
    → ((find (waits id) bus.db.outbox_events ≡ none)
        × (publish_one deliveries id bus ≡ (ok false, bus)))
      ⊎ ((row : OutboxEvent) × (find (waits id) bus.db.outbox_events ≡ some row)
          × (publish_one deliveries id bus ≡ send_row (deliveries id) row bus))
unfolding publish_one
publish_one_cases deliveries id bus = elim (Option-cases (find (waits id) bus.db.outbox_events)) [
  | inl absent ↦ inl (absent, ground (arith, absent))
  | inr (row, found) ↦ inr (row, found, ground (arith, found))
]
