-- ===== src/Withdrawals/Decided.antt =====
-- `approve` and `reject`: a pending request is decided once, and its amount leaves the pending account.
use flow_pay.Prelude.{
  ℕ, ◌*◌, ◌≡◌, true, false, Option, none, some, List, ◌==◌, nat_eq, nat_beq_iff, arith, refl, ap,
  sym, ◌∙◌, find, find-holds, inl, inr, Option-cases, Bool-cases,
}
use mathlib.Core.Path.{subst}
use flow_pay.Prelude.Int.{int_laws, magnitude, +ℤ-solve}
use flow_pay.Prelude.Rows.{save_row, find-save_row, total-save_row}
use flow_pay.Prelude.Text.{Text, text_eq}
use flow_pay.Numbers.{Numbers, IsExact}
use flow_pay.Exec.{ok, err, transaction, transaction-eq-ok, Outcome-cases, conflict}
use flow_pay.Db.{
  Db, Account, AccountKind, JournalEntryType, DomainEventType, User, WithdrawalRequest,
  WithdrawalRequestStatus, is_pending,
}
use flow_pay.Ledger.{
  EnsureAccountInput, PostEntryInput, PostEntryResult, wallet_key, system_key, two_lines,
  post_entry, matches, fresh_id,
}
use flow_pay.Ledger.Keys.{Moved, balance_under, key_eq}
use flow_pay.Ledger.Ensured.{Opens, ensure_accounts-Opens}
use flow_pay.Ledger.TwoLines.{Headroom, carry}
use flow_pay.Ledger.Carried.{
  Carried, SameBooks, SameBooks-IsSound, SameBooks-Moved, two_lines-Carried, amount_units-column,
}
use flow_pay.Outbox.{append, appended, appended-Moved, Announces}
use flow_pay.Users.{find_by_id, email_of}
use flow_pay.Ledger.Pools.{key_net-carry_out, wallet_pool, treasury_pool}
use flow_pay.Withdrawals.{save, decided, decide_request, lock_pending_request, approve, reject}
use flow_pay.Withdrawals.Held.{IsHeld, held, held_by, pending_key}

abbrev requester : WithdrawalRequest → Db → Option User
requester q db = find (λ u. u.id == q.user_id) db.users

-- The request of an id is there and pending, or locking it throws and changes nothing.
pub lock_pending_request-eq-ok :
    (id : ℕ) (db db' : Db) (q : WithdrawalRequest)
    → lock_pending_request id db ≡ (ok q, db')
    → (find (λ r. r.id == id) db.withdrawal_requests ≡ some q)
      × (is_pending q.status ≡ true)
      × (db' ≡ db)
unfolding lock_pending_request
lock_pending_request-eq-ok id db db' q e =
    elim (Option-cases (find (λ r. r.id == id) db.withdrawal_requests)) [
      | inl absent ↦ ground (arith, absent, e)
      | inr (r, found) ↦ elim (Bool-cases (is_pending r.status)) [
        | inl waits ↦
            let same : r ≡ q = ground (arith, found, waits, e) in
            (
              found ∙ ap some same,
              ap (λ x. is_pending x.status) (sym same) ∙ waits,
              ground (arith, found, waits, e),
            )
        | inr over ↦ ground (arith, found, over, e)
      ]
    ]

module _ (n : Numbers) where
  abbrev decision_entry : JournalEntryType → ℕ → ℕ → WithdrawalRequest → PostEntryInput n
  decision_entry t from to q = record {
    entry_type = t;
    metadata = none;
    lines = two_lines n from to (n.numeric_out q.amount) q.currency_code;
  }

  abbrev saved_db : WithdrawalRequest → Db → Db
  saved_db r x = record x { withdrawal_requests = save_row (λ w. w.id) r x.withdrawal_requests }

  decide_request-eq-ok :
      (t : JournalEntryType) (s : WithdrawalRequestStatus) (ev : DomainEventType)
      (admin from to : ℕ) (q r : WithdrawalRequest) (d d' : Db)
      → decide_request n t s ev admin from to q d ≡ (ok r, d')
      → (p : PostEntryResult n) × (x : Db) × (post_entry n (decision_entry t from to q) true d
          ≡ (ok p, x))
        × (r ≡ decided s admin x.now p.entry_id q)
        × (d'
            ≡ appended ev p.entry_id
                (email_of (requester q x))
                (saved_db (decided s admin x.now p.entry_id q) x))
  unfolding decide_request save append find_by_id fresh_id
  decide_request-eq-ok t s ev admin from to q r d d' e =
      elim (Outcome-cases (post_entry n (decision_entry t from to q) true d)) [
        | inl (x, s', bad) ↦ ground (arith, bad, e)
        | inr (p, x, posted) ↦ (p, x, posted, ground (arith, posted, e), ground (arith, posted, e))
      ]

  -- The amount of the request `q` has gone from the pending account to `to`, the row has become
  -- `r`, and the mail about it is due.
  abbrev pub Settled :
      WithdrawalRequestStatus
      → DomainEventType
      → ℕ
      → EnsureAccountInput
      → WithdrawalRequest
      → WithdrawalRequest
      → Db
      → Db
      → Type 0
  Settled s ev admin to q r db db' =
      IsHeld db'
      × Moved (carry (pending_key q.currency_code) to q.amount) db db'
      × (db'.withdrawal_requests ≡ save_row (λ w. w.id) r db.withdrawal_requests)
      × (r.status ≡ s)
      × (r.id ≡ q.id)
      × (r.decided_by ≡ some admin)
      × Announces ev (email_of (requester q db)) db db'

  backed_decided :
      (c : Text) (to : EnsureAccountInput) (q r : WithdrawalRequest) (db db' : Db)
      → IsHeld db
      → find (λ x. x.id == r.id) db.withdrawal_requests ≡ some q
      → is_pending q.status ≡ true
      → is_pending r.status ≡ false
      → (to == pending_key c) ≡ false
      → Moved (carry (pending_key q.currency_code) to q.amount) db db'
      → balance_under (pending_key c) db' ≡ held c (save_row (λ w. w.id) r db.withdrawal_requests)
  backed_decided c to q r db db' h found waits over other moved =
      let after =
        +ℤ-solve (held c (save_row (λ w. w.id) r db.withdrawal_requests)) (held_by c q)
          (held c db.withdrawal_requests) (held_by c r)
          (total-save_row (λ w. w.id) (held_by c) db.withdrawal_requests q r found) in
      moved (pending_key c) ∙ elim (Bool-cases (q.currency_code == c)) [
        | inl same ↦
            rw
              (
                key_net-carry_out AccountKind.withdrawal_pending c q.currency_code to q.amount
                    other,
                h.backed c,
                after,
                same,
                waits,
                over,
              )
              (omega int_laws)
        | inr diff ↦
            rw
              (
                key_net-carry_out AccountKind.withdrawal_pending c q.currency_code to q.amount
                    other,
                h.backed c,
                after,
                diff,
                waits,
                over,
              )
              (omega int_laws)
      ]

  saved-SameBooks : (r : WithdrawalRequest) (x : Db) → SameBooks x (saved_db r x)
  saved-SameBooks r x = record {
    accounts = refl;
    balances = refl;
    lines = refl;
    later = omega arith;
  }

  decide_request-Settled :
      (t : JournalEntryType) (s : WithdrawalRequestStatus) (ev : DomainEventType) (admin : ℕ)
      (to : EnsureAccountInput) (a b : Account) (q r : WithdrawalRequest) (db d d' : Db)
      → IsExact n
      → IsHeld db
      → Headroom (2 * magnitude q.amount) db
      → find (λ x. x.id == q.id) db.withdrawal_requests ≡ some q
      → is_pending q.status ≡ true
      → is_pending s ≡ false
      → ((c : Text) → (to == pending_key c) ≡ false)
      → Opens db d
      → find (matches (pending_key q.currency_code)) d.accounts ≡ some a
      → find (matches to) d.accounts ≡ some b
      → decide_request n t s ev admin a.id b.id q d ≡ (ok r, d')
      → Settled s ev admin to q r db d'
  decide_request-Settled t s ev admin to a b q r db d d' ex h room found waits over other o fa fb
        e =
      let (p, x, posted, row, there) = decide_request-eq-ok t s ev admin a.id b.id q r d d' e in
      let units = amount_units-column n q.amount ex (omega (arith, room 0)) in
      let from = pending_key q.currency_code in
      let carried : Carried (carry from to q.amount) db x =
        subst (λ z. Carried (carry from to z) db x) units
          (two_lines-Carried n from to a b (n.numeric_out q.amount) q.currency_code
            (decision_entry t a.id b.id q) db d x p refl ex o (rw units room) fa fb posted) in
      let made = decided s admin x.now p.entry_id q in
      let mail = email_of (requester q x) in
      let books = saved-SameBooks made x in
      let ms = carry from to q.amount in
      let frame = carried.frame in
      let (sound, moved, announced) =
        appended-Moved ev p.entry_id mail ms db (saved_db made x)
          (SameBooks-IsSound x (saved_db made x) books carried.sound)
          (SameBooks-Moved ms db x (saved_db made x) carried.moved books)
          (ap (λ (w : Db). w.outbox_events) frame) in
      let rows : save_row (λ w. w.id) made x.withdrawal_requests
          ≡ save_row (λ w. w.id) made db.withdrawal_requests =
        ap (λ (d : Db). save_row (λ w. w.id) made d.withdrawal_requests) frame in
      let done = appended ev p.entry_id mail (saved_db made x) in
      let same_mail : mail ≡ email_of (requester q db) =
        ap (λ (w : Db). email_of (requester q w)) frame in
      let settled : Settled s ev admin to q made db done = (
        record {
          sound = sound;
          backed = λ c.
              backed_decided c to q made db done h found waits over (other c) moved
              ∙ ap (held c) (sym rows);
        },
        moved,
        rows,
        refl,
        refl,
        refl,
        subst (λ w. Announces ev w db done) same_mail announced,
      ) in
      subst (λ z. Settled s ev admin to q z db d') (sym row)
        (subst (λ z. Settled s ev admin to q made db z) (sym there) settled)

  -- What `approve` and `reject` share: the request of the id was pending, and it is settled.
  abbrev pub Decides :
      ℕ
      → WithdrawalRequestStatus
      → DomainEventType
      → ℕ
      → (WithdrawalRequest → EnsureAccountInput)
      → WithdrawalRequest
      → Db
      → Db
      → Type 0
  Decides id s ev admin to r db db' =
      (q : WithdrawalRequest) × (find (λ x. x.id == id) db.withdrawal_requests ≡ some q)
      × (is_pending q.status ≡ true)
      × Settled s ev admin (to q) q r db db'

  found_by_own_id :
      (id : ℕ) (rows : List WithdrawalRequest) (q : WithdrawalRequest)
      → find (λ x. x.id == id) rows ≡ some q
      → find (λ x. x.id == q.id) rows ≡ some q
  found_by_own_id id rows q found =
      let same : q.id ≡ id = (nat_beq_iff q.id id).0 (find-holds (λ x. x.id == id) rows q found) in
      subst (λ w. find (λ x. x.id == w) rows ≡ some q) (sym same) found

  -- Approving a pending request moves its amount from the pending account of its currency to the
  -- treasury and no other balance, marks the row approved by the admin, and leaves one mail to the
  -- requester in the outbox; the pending accounts still hold what the pending requests ask for.
  -- Balances stay below 20 digits.
  pub approve-Decides :
      (id admin : ℕ) (db db' : Db) (r : WithdrawalRequest)
      → IsExact n
      → IsHeld db
      → ((q : WithdrawalRequest)
          → find (λ x. x.id == id) db.withdrawal_requests ≡ some q
          → Headroom (2 * magnitude q.amount) db)
      → approve n id admin db ≡ (ok r, db')
      → Decides id WithdrawalRequestStatus.approved DomainEventType.withdrawal_approved admin
          (λ q. system_key AccountKind.treasury q.currency_code)
          r
          db
          db'
  unfolding approve
  approve-Decides id admin db db' r ex h room e =
      elim (Outcome-cases (lock_pending_request id db)) [
        | inl (x, s, bad) ↦ ground (arith, bad, e)
        | inr (q, d₀, locked) ↦
            let (found, waits, same) = lock_pending_request-eq-ok id db d₀ q locked in
            let treasury = system_key AccountKind.treasury q.currency_code in
            let (a, b, d, ensured, fa, fb, opens) =
              ensure_accounts-Opens (pending_key q.currency_code) treasury db h.sound in
            let body =
              decide_request n JournalEntryType.withdrawal_settle WithdrawalRequestStatus.approved
                DomainEventType.withdrawal_approved admin a.id b.id q in
            let done : transaction body d ≡ (ok r, db') =
              ground (arith, locked, same, ensured, e) in
            (
              q,
              found,
              waits,
              decide_request-Settled JournalEntryType.withdrawal_settle
                  WithdrawalRequestStatus.approved DomainEventType.withdrawal_approved admin
                  treasury a b q r db d db' ex h (room q found)
                  (found_by_own_id id db.withdrawal_requests q found) waits refl
                  (λ c. treasury_pool AccountKind.withdrawal_pending c q.currency_code refl) opens
                  fa fb (transaction-eq-ok body done),
            )
      ]

  -- Rejecting a pending request gives its amount back from the pending account to the wallet of the
  -- user who asked for it, marks the row rejected by the admin, and leaves one mail to the
  -- requester in the outbox; the pending accounts still hold what the pending requests ask for.
  -- Balances stay below 20 digits.
  pub reject-Decides :
      (id admin : ℕ) (db db' : Db) (r : WithdrawalRequest)
      → IsExact n
      → IsHeld db
      → ((q : WithdrawalRequest)
          → find (λ x. x.id == id) db.withdrawal_requests ≡ some q
          → Headroom (2 * magnitude q.amount) db)
      → reject n id admin db ≡ (ok r, db')
      → Decides id WithdrawalRequestStatus.rejected DomainEventType.withdrawal_rejected admin
          (λ q. wallet_key q.user_id q.currency_code)
          r
          db
          db'
  unfolding reject
  reject-Decides id admin db db' r ex h room e = elim (Outcome-cases (lock_pending_request id db)) [
    | inl (x, s, bad) ↦ ground (arith, bad, e)
    | inr (q, d₀, locked) ↦
        let (found, waits, same) = lock_pending_request-eq-ok id db d₀ q locked in
        let wallet = wallet_key q.user_id q.currency_code in
        let (a, b, d, ensured, fa, fb, opens) =
          ensure_accounts-Opens (pending_key q.currency_code) wallet db h.sound in
        let body =
          decide_request n JournalEntryType.withdrawal_release WithdrawalRequestStatus.rejected
            DomainEventType.withdrawal_rejected admin a.id b.id q in
        let done : transaction body d ≡ (ok r, db') = ground (arith, locked, same, ensured, e) in
        (
          q,
          found,
          waits,
          decide_request-Settled JournalEntryType.withdrawal_release
              WithdrawalRequestStatus.rejected DomainEventType.withdrawal_rejected admin wallet a b
              q r db d db' ex h (room q found) (found_by_own_id id db.withdrawal_requests q found)
              waits refl
              (λ c. wallet_pool AccountKind.withdrawal_pending c q.currency_code q.user_id) opens fa
              fb (transaction-eq-ok body done),
        )
  ]

  -- The row of a request that is not pending any more.
  locked_out :
      (id : ℕ) (db : Db) (r : WithdrawalRequest)
      → find (λ x. x.id == id) db.withdrawal_requests ≡ some r
      → is_pending r.status ≡ false
      → lock_pending_request id db ≡ (err conflict, db)
  unfolding lock_pending_request
  locked_out id db r found over = ground (arith, found, over)

  conflict_once_decided :
      (id admin : ℕ) (db : Db) (r : WithdrawalRequest)
      → find (λ x. x.id == id) db.withdrawal_requests ≡ some r
      → is_pending r.status ≡ false
      → (approve n id admin db ≡ (err conflict, db)) × (reject n id admin db ≡ (err conflict, db))
  unfolding approve reject
  conflict_once_decided id admin db r found over =
      let out = locked_out id db r found over in (ground (arith, out), ground (arith, out))

  -- After a decision, with either outcome, the request can be decided no more: a later call of
  -- `approve` or `reject` by any admin answers with a conflict and leaves the database as it is.
  pub decided_once :
      (id admin admin' : ℕ) (s : WithdrawalRequestStatus) (ev : DomainEventType)
      (to : WithdrawalRequest → EnsureAccountInput) (r : WithdrawalRequest) (db db' : Db)
      → is_pending s ≡ false
      → Decides id s ev admin to r db db'
      → (approve n id admin' db' ≡ (err conflict, db'))
        × (reject n id admin' db' ≡ (err conflict, db'))
  decided_once id admin admin' s ev to r db db' over
        (q, found, _, (_, _, rows, status, ids, _, _)) =
      let mine : q.id ≡ id =
        (nat_beq_iff q.id id).0 (find-holds (λ x. x.id == id) db.withdrawal_requests q found) in
      let key : r.id ≡ id = ids ∙ mine in
      let old =
        subst (λ w. find (λ x. x.id == w) db.withdrawal_requests ≡ some q) (sym key) found in
      let now_r =
        ap (find (λ x. x.id == r.id)) rows
        ∙ find-save_row (λ w. w.id) db.withdrawal_requests q r old in
      conflict_once_decided id admin' db' r
        (subst (λ w. find (λ x. x.id == w) db'.withdrawal_requests ≡ some r) key now_r)
        (ap is_pending status ∙ over)
