-- ===== src/Publisher/Faithful.antt =====
-- The topic and the outbox tell of the same events.
use flow_pay.Prelude.{
  ℕ, ◌≡◌, false, List, [], ◌∷◌, ◌++◌, map, arith, refl, sym, ◌∙◌, take, select, nat_eq, nat_beq,
  inl, inr, Bool-cases, All,
}
use mathlib.Core.Path.{subst}
use flow_pay.Prelude.Among.{Among, All-append, All-map_each, Among-map, find-Among}
use flow_pay.Db.{OutboxEvent}
use flow_pay.Publisher.{
  Message, Bus, Delivery, refused, uncommitted, delivered, is_unpublished, waits, message_of,
  mark_published, send_row, publish_one, publish_one_cases, publish_each, publish_batch, batch_size,
}

-- A message is in the topic for each published row, and a row in the outbox for each message.
pub record IsFaithful (bus : Bus) : Type 0 where
  pub no_loss :
      All
        (λ row. is_unpublished row ≡ false → Among row.id (map (λ (m : Message). m.id) bus.sent))
        bus.db.outbox_events
  pub no_phantom :
      All
        (λ m. (row : OutboxEvent) × Among row bus.db.outbox_events × (message_of row ≡ m))
        bus.sent

abbrev message_id : Message → ℕ
message_id m = m.id

Among-map_append :
    (id : ℕ) (xs ys : List Message)
    → Among id (map message_id xs)
    → Among id (map message_id (xs ++ ys))
Among-map_append id [] ys h = absurd h
Among-map_append id (x ∷ xs) ys (inl here) = inl here
Among-map_append id (x ∷ xs) ys (inr there) = inr (Among-map_append id xs ys there)

Among-sent : (m : Message) (xs : List Message) → Among m.id (map message_id (xs ++ (m ∷ [])))
Among-sent m [] = inl refl
Among-sent m (x ∷ xs) = inr (Among-sent m xs)

-- Publication is told of a row, and nothing else.
message_of-mark_published :
    (id now : ℕ) (row : OutboxEvent) → message_of (mark_published id now row) ≡ message_of row
message_of-mark_published id now row = elim (Bool-cases (nat_beq row.id id)) [
  | inl hit ↦ rw hit refl
  | inr miss ↦ rw miss refl
]

abbrev Told : List Message → OutboxEvent → Type 0
Told sent row = is_unpublished row ≡ false → Among row.id (map message_id sent)

marked-Told :
    (sent : List Message) (m : Message) (now : ℕ) (rows : List OutboxEvent)
    → All (Told sent) rows
    → All (Told (sent ++ (m ∷ []))) (map (mark_published m.id now) rows)
marked-Told sent m now [] h = tt
marked-Told sent m now (row ∷ rows) (h, hs) = (told, marked-Told sent m now rows hs)
  where
    told : Told (sent ++ (m ∷ [])) (mark_published m.id now row)
    told = elim (Bool-cases (nat_beq row.id m.id)) [
      | inl hit ↦
          let same : row.id ≡ m.id = ground (arith, hit) in
          rw hit (λ p.
            subst (λ w. Among w (map message_id (sent ++ (m ∷ [])))) (sym same) (Among-sent m sent))
      | inr miss ↦ rw miss (λ p. Among-map_append row.id sent (m ∷ []) (h p))
    ]

abbrev Real : List OutboxEvent → Message → Type 0
Real rows m = (row : OutboxEvent) × Among row rows × (message_of row ≡ m)

marked-Real :
    (id now : ℕ) (rows : List OutboxEvent) (m : Message)
    → Real rows m
    → Real (map (mark_published id now) rows) m
marked-Real id now rows m (row, among, same) = (
  mark_published id now row,
  Among-map (mark_published id now) row rows among,
  message_of-mark_published id now row ∙ same,
)

send_row-IsFaithful :
    (delivery : Delivery) (row : OutboxEvent) (bus : Bus)
    → Among row bus.db.outbox_events
    → IsFaithful bus
    → IsFaithful (send_row delivery row bus).1
unfolding send_row
send_row-IsFaithful refused row bus among f = f
send_row-IsFaithful uncommitted row bus among f = record {
  no_loss =
      All-map_each (Told bus.sent) (Told (bus.sent ++ (message_of row ∷ []))) bus.db.outbox_events
        (λ r told p. Among-map_append r.id bus.sent (message_of row ∷ []) (told p)) f.no_loss;
  no_phantom =
      All-append (Real bus.db.outbox_events) bus.sent (message_of row ∷ []) f.no_phantom
        ((row, among, refl), tt);
}
send_row-IsFaithful delivered row bus among f =
    let marked = map (mark_published row.id bus.db.now) bus.db.outbox_events in
    let real : Real bus.db.outbox_events (message_of row) = (row, among, refl) in
    record {
      no_loss = marked-Told bus.sent (message_of row) bus.db.now bus.db.outbox_events f.no_loss;
      no_phantom =
          All-append (Real marked) bus.sent (message_of row ∷ [])
            (All-map_each (Real bus.db.outbox_events) (Real marked) bus.sent
              (marked-Real row.id bus.db.now bus.db.outbox_events) f.no_phantom)
            (marked-Real row.id bus.db.now bus.db.outbox_events (message_of row) real, tt);
    }

publish_one-IsFaithful :
    (deliveries : ℕ → Delivery) (id : ℕ) (bus : Bus)
    → IsFaithful bus
    → IsFaithful (publish_one deliveries id bus).1
publish_one-IsFaithful deliveries id bus f = elim (publish_one_cases deliveries id bus) [
  | inl (absent, e) ↦ subst (λ p. IsFaithful p.1) (sym e) f
  | inr (row, found, e) ↦
      subst (λ p. IsFaithful p.1) (sym e)
        (send_row-IsFaithful (deliveries id) row bus
          (find-Among (waits id) bus.db.outbox_events row found) f)
]

publish_each-IsFaithful :
    (deliveries : ℕ → Delivery) (rows : List OutboxEvent) (bus : Bus)
    → IsFaithful bus
    → IsFaithful (publish_each deliveries rows bus).1
unfolding publish_each
publish_each-IsFaithful deliveries [] bus f = f
publish_each-IsFaithful deliveries (row ∷ rows) bus f =
    publish_each-IsFaithful deliveries rows (publish_one deliveries row.id bus).1
      (publish_one-IsFaithful deliveries row.id bus f)

-- However the sends and the commits of a batch end: afterwards there is still a message in the
-- topic for each published row of the outbox, so none is lost, and a row with the same content for
-- each message in the topic, so none is made up.
pub publish_batch-IsFaithful :
    (deliveries : ℕ → Delivery) (bus : Bus)
    → IsFaithful bus
    → IsFaithful (publish_batch deliveries bus).1
unfolding publish_batch
publish_batch-IsFaithful deliveries bus f =
    publish_each-IsFaithful deliveries
      (take batch_size (select is_unpublished bus.db.outbox_events)) bus f
