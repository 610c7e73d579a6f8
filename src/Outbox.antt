-- ===== src/Outbox.antt =====
-- backend/src/common/outbox/outbox.service.ts: an event is a row, written in the transaction of
-- the change that it tells of.
use flow_pay.Prelude.{ℕ, suc, Option, none, List, [], ◌∷◌, ◌++◌, arith, refl, ap, ◌≡◌}
use flow_pay.Prelude.Text.{Text}
use flow_pay.Exec.{modify, ◌>>=◌}
use flow_pay.Db.{Db, Action, DomainEventType, OutboxEvent}
use flow_pay.Ledger.{fresh_id}
use flow_pay.Ledger.Carried.{SameBooks, SameBooks-IsSound, SameBooks-Moved}
use flow_pay.Ledger.Invariant.{IsSound}
use flow_pay.Ledger.Keys.{Move, Moved}

-- the row that is written
abbrev pub new_event : DomainEventType → ℕ → Option Text → Db → OutboxEvent
new_event event_type aggregate_id recipient_email db = record {
  id = db.next_id;
  event_type = event_type;
  aggregate_id = aggregate_id;
  recipient_email = recipient_email;
  published_at = none;
}

unfoldable pub append : DomainEventType → ℕ → Option Text → Action (Unit {0})
unfolding fresh_id
append event_type aggregate_id recipient_email = do
  id ← fresh_id
  modify (λ db. record db {
    outbox_events =
        db.outbox_events
        ++ (record {
          id = id;
          event_type = event_type;
          aggregate_id = aggregate_id;
          recipient_email = recipient_email;
          published_at = none;
        }
            ∷ []);
  })

-- The database after `append`.
abbrev pub appended : DomainEventType → ℕ → Option Text → Db → Db
appended t id email db = record db {
  outbox_events = db.outbox_events ++ (new_event t id email db ∷ []);
  next_id = suc db.next_id;
}

pub appended-SameBooks :
    (t : DomainEventType) (id : ℕ) (email : Option Text) (db : Db)
    → SameBooks db (appended t id email db)
appended-SameBooks t id email db = record {
  accounts = refl;
  balances = refl;
  lines = refl;
  later = omega arith;
}

-- One event is written, for the address given, and is not published yet.
abbrev pub Announces : DomainEventType → Option Text → Db → Db → Type 0
Announces t email db db' =
    (e : OutboxEvent) × (db'.outbox_events ≡ db.outbox_events ++ (e ∷ []))
    × (e.event_type ≡ t)
    × (e.recipient_email ≡ email)
    × (e.published_at ≡ none)

-- The ledger's moves outlast the event.
pub appended-Moved :
    (t : DomainEventType) (id : ℕ) (email : Option Text) (ms : List Move) (db x : Db)
    → IsSound x
    → Moved ms db x
    → x.outbox_events ≡ db.outbox_events
    → IsSound (appended t id email x)
      × Moved ms db (appended t id email x)
      × Announces t email db (appended t id email x)
appended-Moved t id email ms db x sound moved same =
    let books = appended-SameBooks t id email x in
    (
      SameBooks-IsSound x _ books sound,
      SameBooks-Moved ms db x _ moved books,
      (
        new_event t id email x,
        ap (λ es. es ++ (new_event t id email x ∷ [])) same,
        refl,
        refl,
        refl,
      ),
    )
