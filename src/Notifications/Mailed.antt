-- ===== src/Notifications/Mailed.antt =====
-- How many mails an event brings.
use flow_pay.Prelude.{
  ℕ, suc, ◌≤◌, ◌≡◌, ◌⊎◌, sym, ap, ◌∙◌, Bool, true, false, Option, none, some, List, [], ◌∷◌, map,
  ◌||◌, arith, refl, inl, inr, Bool-cases, Option-cases, nat_beq, if◌then◌else◌,
}
use mathlib.Core.Path.{subst}
use flow_pay.Prelude.Order.{contains}
use flow_pay.Notifications.{
  OutboxEventMessage, Mail, Mailbox, claim, address_of, notify, handle_message, handle_all,
}

-- the number of an event's mails
abbrev pub mails_for : ℕ → List Mail → ℕ
mails_for id [] = 0
mails_for id (mail ∷ rest) =
    let others = mails_for id rest in if nat_beq mail.event_id id then suc others else others

-- An event has one mail at most, and none before it is claimed.
abbrev pub IsOnce : Mailbox → Type 0
IsOnce box =
    (id : ℕ)
    → (mails_for id box.mails ≤ 1)
      × (contains id box.processed_events ≡ false → mails_for id box.mails ≡ 0)

-- Whom an event's mail goes to, if anybody.
abbrev pub mail_of : OutboxEventMessage → Option Mail
mail_of event = elim event.event_type [
  | none ↦ none
  | some template ↦ elim (address_of event.recipient_email) [
    | none ↦ none
    | some to ↦ some (record { event_id = event.id; to = to; template = template })
  ]
]

abbrev claimed_box : ℕ → Mailbox → Mailbox
claimed_box id box = record box { processed_events = id ∷ box.processed_events }

abbrev posted_box : Mail → Mailbox → Mailbox
posted_box mail box = record box { mails = mail ∷ box.mails }

-- What a message does: nothing, a claim, or a claim and a mail.
handle_message_cases :
    (works : Bool) (event : OutboxEventMessage) (box : Mailbox)
    → ((contains event.id box.processed_events ≡ true)
        × ((handle_message works (some event) box).1 ≡ box))
      ⊎ ((contains event.id box.processed_events ≡ false)
          × (((mail_of event ≡ none)
                × ((handle_message works (some event) box).1 ≡ claimed_box event.id box))
              ⊎ ((mail : Mail) × (mail_of event ≡ some mail)
                  × (mail.event_id ≡ event.id)
                  × ((handle_message works (some event) box).1 ≡ (
                      if works
                      then posted_box mail (claimed_box event.id box)
                      else claimed_box event.id box)))))
unfolding handle_message claim notify
handle_message_cases works event box = elim (Bool-cases (contains event.id box.processed_events)) [
  | inl old ↦ inl (old, ground (arith, old))
  | inr new ↦ inr (
    new,
    elim (Option-cases event.event_type) [
      | inl unknown ↦ inl (ground (arith, unknown), ground (arith, new, unknown))
      | inr (t, known) ↦ elim (Option-cases (address_of event.recipient_email)) [
        | inl nobody ↦ inl (ground (arith, known, nobody), ground (arith, new, known, nobody))
        | inr (to, somebody) ↦ inr (
          record { event_id = event.id; to = to; template = t },
          ground (arith, known, somebody),
          refl,
          ground (arith, new, known, somebody, Bool-cases works),
        )
      ]
    ],
  )
]

claimed-IsOnce : (id : ℕ) (box : Mailbox) → IsOnce box → IsOnce (claimed_box id box)
unfolding contains
claimed-IsOnce id box h other = ((h other).0, λ free. (h other).1 (ground (arith, free)))

posted-IsOnce :
    (id : ℕ) (mail : Mail) (box : Mailbox)
    → mail.event_id ≡ id
    → contains id box.processed_events ≡ false
    → IsOnce box
    → IsOnce (posted_box mail (claimed_box id box))
unfolding contains
posted-IsOnce id mail box named new h other = elim (Bool-cases (nat_beq mail.event_id other)) [
  | inl hit ↦
      let same : id ≡ other = ground (arith, named, hit) in
      let none_yet = (h other).1 (subst (λ w. contains w box.processed_events ≡ false) same new) in
      (rw hit (omega (arith, none_yet)), λ free. absurd (ground (arith, free, same)))
  | inr miss ↦ (rw miss (h other).0, λ free. rw miss ((h other).1 (ground (arith, free))))
]

handle_message-IsOnce :
    (works : Bool) (m : Option OutboxEventMessage) (box : Mailbox)
    → IsOnce box
    → IsOnce (handle_message works m box).1
unfolding handle_message
handle_message-IsOnce works none box = λ h. h
handle_message-IsOnce works (some event) box = λ h. elim (handle_message_cases works event box) [
  | inl (old, same) ↦ subst IsOnce (sym same) h
  | inr (new, inl (nobody, same)) ↦ subst IsOnce (sym same) (claimed-IsOnce event.id box h)
  | inr (new, inr (mail, addressed, named, same)) ↦
      subst IsOnce (sym same) (elim (Bool-cases works) [
        | inl up ↦ rw up (posted-IsOnce event.id mail box named new h)
        | inr down ↦ rw down (claimed-IsOnce event.id box h)
      ])
]

handle_all-IsOnce :
    (ms : List (Bool × Option OutboxEventMessage)) (box : Mailbox)
    → IsOnce box
    → IsOnce (handle_all ms box)
unfolding handle_all
handle_all-IsOnce [] box h = h
handle_all-IsOnce (m ∷ ms) box h =
    handle_all-IsOnce ms (handle_message m.0 m.1 box).1 (handle_message-IsOnce m.0 m.1 box h)

-- Whatever messages arrive, in whatever order and however often, and however the mailer does: an
-- event has one mail at most.
pub mailed_once :
    (ms : List (Bool × Option OutboxEventMessage)) (id : ℕ)
    → mails_for id (handle_all ms (record { processed_events = []; mails = [] })).mails ≤ 1
mailed_once ms id =
    (handle_all-IsOnce ms (record { processed_events = []; mails = [] })
      (λ other. (omega arith, λ free. refl)) id).0

-- A message whose mail goes out.
abbrev pub GoesOut : Bool → OutboxEventMessage → Type 0
GoesOut works event = (works ≡ true) × (mail : Mail) × (mail_of event ≡ some mail)

-- A claimed event has its mail.
abbrev IsSure : ℕ → Mailbox → Type 0
IsSure id box = contains id box.processed_events ≡ true → mails_for id box.mails ≡ 1

-- What a message leaves to be sure of.
abbrev Handled : ℕ → OutboxEventMessage → Mailbox → Mailbox → Type 0
Handled id event box box' =
    IsSure id box'
    × (contains id box.processed_events ≡ true → contains id box'.processed_events ≡ true)
    × (event.id ≡ id → contains id box'.processed_events ≡ true)

claimed-Handled :
    (id : ℕ) (event : OutboxEventMessage) (box : Mailbox)
    → nat_beq event.id id ≡ false
    → IsSure id box
    → Handled id event box (claimed_box event.id box)
unfolding contains
claimed-Handled id event box other sure = (
  λ c. sure (ground (arith, c, other)),
  λ c. ground (arith, c),
  λ named. ground (arith, named, other),
)

posted-Handled :
    (id : ℕ) (event : OutboxEventMessage) (mail : Mail) (box : Mailbox)
    → mail.event_id ≡ event.id
    → contains event.id box.processed_events ≡ false
    → IsOnce box
    → IsSure id box
    → Handled id event box (posted_box mail (claimed_box event.id box))
unfolding contains
posted-Handled id event mail box named new once sure = elim (Bool-cases (nat_beq event.id id)) [
  | inl hit ↦
      let same : event.id ≡ id = ground (arith, hit) in
      let unposted : mails_for id box.mails ≡ 0 =
        (once id).1 (subst (λ w. contains w box.processed_events ≡ false) same new) in
      (λ c. ground (arith, named, same, unposted), λ c. ground (arith, c), λ n. ground (arith, n))
  | inr other ↦ (
    λ c. ground (arith, named, other, c, sure),
    λ c. ground (arith, c),
    λ n. ground (arith, n, other),
  )
]

handle_message-Handled :
    (works : Bool) (event : OutboxEventMessage) (box : Mailbox) (id : ℕ)
    → (event.id ≡ id → GoesOut works event)
    → IsOnce box
    → IsSure id box
    → Handled id event box (handle_message works (some event) box).1
handle_message-Handled works event box id out once sure =
    elim (handle_message_cases works event box) [
      | inl (old, same) ↦
          subst (Handled id event box) (sym same)
            (sure, λ c. c, λ named. subst (λ w. contains w box.processed_events ≡ true) named old)
      | inr (new, inl (nobody, same)) ↦ elim (Bool-cases (nat_beq event.id id)) [
        | inl hit ↦ cc (nobody, (out (ground (arith, hit))).2)
        | inr other ↦
            subst (Handled id event box) (sym same) (claimed-Handled id event box other sure)
      ]
      | inr (new, inr (mail, addressed, named, same)) ↦
          let pick : Bool → Mailbox = λ b.
            if b then posted_box mail (claimed_box event.id box) else claimed_box event.id box in
          elim (Bool-cases works) [
            | inl up ↦
                subst (Handled id event box) (sym (same ∙ ap pick up))
                  (posted-Handled id event mail box named new once sure)
            | inr down ↦ elim (Bool-cases (nat_beq event.id id)) [
              | inl hit ↦ cc (down, (out (ground (arith, hit))).0)
              | inr other ↦
                  subst (Handled id event box) (sym (same ∙ ap pick down))
                    (claimed-Handled id event box other sure)
            ]
          ]
    ]

-- Each message of the event goes out.
abbrev pub AllGoOut : ℕ → List (Bool × OutboxEventMessage) → Type 0
AllGoOut id [] = Unit
AllGoOut id (m ∷ ms) = (m.1.id ≡ id → GoesOut m.0 m.1) × AllGoOut id ms

abbrev pub arrive : Bool × OutboxEventMessage → Bool × Option OutboxEventMessage
arrive (works, event) = (works, some event)

abbrev pub event_id : Bool × OutboxEventMessage → ℕ
event_id (works, event) = event.id

handle_all-IsSure :
    (ms : List (Bool × OutboxEventMessage)) (box : Mailbox) (id : ℕ)
    → AllGoOut id ms
    → IsOnce box
    → IsSure id box
    → IsSure id (handle_all (map arrive ms) box)
      × ((contains id box.processed_events || contains id (map event_id ms)) ≡ true
          → contains id (handle_all (map arrive ms) box).processed_events ≡ true)
unfolding handle_all contains
handle_all-IsSure [] box id out once sure = (sure, λ c. ground (arith, c))
handle_all-IsSure ((works, event) ∷ ms) box id (first, rest) once sure =
    let (sure', kept, there) = handle_message-Handled works event box id first once sure in
    let next = (handle_message works (some event) box).1 in
    let (sure'', reached) =
      handle_all-IsSure ms next id rest (handle_message-IsOnce works (some event) box once) sure' in
    (sure'', λ c. reached (ground (arith, c, kept, there)))

-- An event whose messages all have a template and an address, while the mailer works, has exactly
-- one mail once a message of it has arrived, however often it is delivered and whatever else arrives.
pub mailed_exactly :
    (ms : List (Bool × OutboxEventMessage)) (id : ℕ)
    → AllGoOut id ms
    → contains id (map event_id ms) ≡ true
    → mails_for id (handle_all (map arrive ms) (record { processed_events = []; mails = [] })).mails
      ≡ 1
unfolding contains
mailed_exactly ms id out c =
    let start : Mailbox = record { processed_events = []; mails = [] } in
    let (sure, reached) =
      handle_all-IsSure ms start id out (λ other. (omega arith, λ free. refl))
        (λ none_yet. cc none_yet) in
    sure (reached (ground (arith, c)))
