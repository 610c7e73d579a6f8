-- ===== src/Publisher/Delivered.antt =====
-- A batch gets through to every row that can be sent.
use flow_pay.Prelude.{
  ℕ, ◌≡◌, true, none, List, [], ◌∷◌, map, arith, refl, sym, find, take, select, nat_eq, nat_beq,
  inl, inr, Bool-cases, find-holds, ap, ◌∙◌,
}
use mathlib.Core.Path.{subst}
use flow_pay.Prelude.Order.{contains}
use flow_pay.Db.{OutboxEvent}
use flow_pay.Publisher.{
  Bus, Delivery, refused, uncommitted, delivered, is_unpublished, waits, mark_published, send_row,
  publish_one, publish_one_cases, publish_each, publish_batch, batch_size,
}

abbrev row_id : OutboxEvent → ℕ
row_id row = row.id

-- No row with the id waits any more.
abbrev pub Settled : ℕ → Bus → Type 0
Settled id bus = find (waits id) bus.db.outbox_events ≡ none

-- A publication leaves no row of its id waiting.
marked-settled :
    (id now : ℕ) (rows : List OutboxEvent)
    → find (waits id) (map (mark_published id now) rows) ≡ none
marked-settled id now [] = refl
marked-settled id now (row ∷ rows) = elim (Bool-cases (nat_beq row.id id)) [
  | inl hit ↦ rw (hit, hit) (marked-settled id now rows)
  | inr miss ↦ rw (miss, miss) (marked-settled id now rows)
]

-- A publication makes no row wait.
marked-still :
    (id other now : ℕ) (rows : List OutboxEvent)
    → find (waits id) rows ≡ none
    → find (waits id) (map (mark_published other now) rows) ≡ none
marked-still id other now [] e = refl
marked-still id other now (row ∷ rows) e =
    ground (arith, e, marked-still id other now rows, Bool-cases (nat_beq row.id other))

publish_one-still :
    (deliveries : ℕ → Delivery) (id other : ℕ) (bus : Bus)
    → Settled id bus
    → Settled id (publish_one deliveries other bus).1
unfolding send_row
publish_one-still deliveries id other bus e = elim (publish_one_cases deliveries other bus) [
  | inl (absent, same) ↦ subst (λ p. Settled id p.1) (sym same) e
  | inr (row, found, same) ↦
      subst (λ p. Settled id p.1) (sym same) (sent_still (deliveries other) row)
]
  where
    sent_still : (d : Delivery) (row : OutboxEvent) → Settled id (send_row d row bus).1
    sent_still refused row = e
    sent_still uncommitted row = e
    sent_still delivered row = marked-still id row.id bus.db.now bus.db.outbox_events e

publish_one-Settled :
    (deliveries : ℕ → Delivery) (id : ℕ) (bus : Bus)
    → deliveries id ≡ delivered
    → Settled id (publish_one deliveries id bus).1
unfolding send_row
publish_one-Settled deliveries id bus sends = elim (publish_one_cases deliveries id bus) [
  | inl (absent, same) ↦ subst (λ p. Settled id p.1) (sym same) absent
  | inr (row, found, same) ↦
      let named : row.id ≡ id =
        ground (arith, find-holds (waits id) bus.db.outbox_events row found) in
      subst (λ p. Settled id p.1) (sym same)
        (rw (sends, named) (marked-settled id bus.db.now bus.db.outbox_events))
]

publish_each-still :
    (deliveries : ℕ → Delivery) (id : ℕ) (rows : List OutboxEvent) (bus : Bus)
    → Settled id bus
    → Settled id (publish_each deliveries rows bus).1
unfolding publish_each
publish_each-still deliveries id [] bus e = e
publish_each-still deliveries id (row ∷ rows) bus e =
    publish_each-still deliveries id rows (publish_one deliveries row.id bus).1
      (publish_one-still deliveries id row.id bus e)

publish_each-Settled :
    (deliveries : ℕ → Delivery) (id : ℕ) (rows : List OutboxEvent) (bus : Bus)
    → deliveries id ≡ delivered
    → contains id (map row_id rows) ≡ true
    → Settled id (publish_each deliveries rows bus).1
unfolding publish_each contains
publish_each-Settled deliveries id [] bus sends c = cc
publish_each-Settled deliveries id (row ∷ rows) bus sends c =
    elim (Bool-cases (nat_beq id row.id)) [
      | inl hit ↦
          let same : row.id ≡ id = ground (arith, hit) in
          publish_each-still deliveries id rows (publish_one deliveries row.id bus).1
            (rw same (publish_one-Settled deliveries id bus sends))
      | inr miss ↦
          publish_each-Settled deliveries id rows (publish_one deliveries row.id bus).1 sends
            (ground (arith, miss, c))
    ]

-- A publication keeps the rows.
marked-ids :
    (id now : ℕ) (rows : List OutboxEvent)
    → map row_id (map (mark_published id now) rows) ≡ map row_id rows
marked-ids id now [] = refl
marked-ids id now (row ∷ rows) = elim (Bool-cases (nat_beq row.id id)) [
  | inl hit ↦ rw hit (ap (λ xs. row.id ∷ xs) (marked-ids id now rows))
  | inr miss ↦ rw miss (ap (λ xs. row.id ∷ xs) (marked-ids id now rows))
]

-- The outbox has the same rows, by their ids.
abbrev pub KeepsRows : Bus → Bus → Type 0
KeepsRows bus bus' =
    map (λ (row : OutboxEvent). row.id) bus'.db.outbox_events
    ≡ map (λ (row : OutboxEvent). row.id) bus.db.outbox_events

publish_one-KeepsRows :
    (deliveries : ℕ → Delivery) (id : ℕ) (bus : Bus)
    → KeepsRows bus (publish_one deliveries id bus).1
unfolding send_row
publish_one-KeepsRows deliveries id bus = elim (publish_one_cases deliveries id bus) [
  | inl (absent, same) ↦ subst (λ p. KeepsRows bus p.1) (sym same) refl
  | inr (row, found, same) ↦
      subst (λ p. KeepsRows bus p.1) (sym same) (sent_keeps (deliveries id) row)
]
  where
    sent_keeps : (d : Delivery) (row : OutboxEvent) → KeepsRows bus (send_row d row bus).1
    sent_keeps refused row = refl
    sent_keeps uncommitted row = refl
    sent_keeps delivered row = marked-ids row.id bus.db.now bus.db.outbox_events

publish_each-KeepsRows :
    (deliveries : ℕ → Delivery) (rows : List OutboxEvent) (bus : Bus)
    → KeepsRows bus (publish_each deliveries rows bus).1
unfolding publish_each
publish_each-KeepsRows deliveries [] bus = refl
publish_each-KeepsRows deliveries (row ∷ rows) bus =
    publish_each-KeepsRows deliveries rows (publish_one deliveries row.id bus).1
    ∙ publish_one-KeepsRows deliveries row.id bus

-- A row of the batch whose send and commit succeed is published, whatever becomes of the other rows: none
-- of its id waits any more, and the outbox keeps all its rows.
pub publish_batch-settled :
    (deliveries : ℕ → Delivery) (id : ℕ) (bus : Bus)
    → deliveries id ≡ delivered
    → contains id (
        map
          (λ (row : OutboxEvent). row.id)
          (take batch_size (select is_unpublished bus.db.outbox_events)))
      ≡ true
    → (find (waits id) (publish_batch deliveries bus).1.db.outbox_events ≡ none)
      × KeepsRows bus (publish_batch deliveries bus).1
unfolding publish_batch
publish_batch-settled deliveries id bus sends c =
    let rows = take batch_size (select is_unpublished bus.db.outbox_events) in
    (
      publish_each-Settled deliveries id rows bus sends c,
      publish_each-KeepsRows deliveries rows bus,
    )
