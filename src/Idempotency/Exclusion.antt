-- ===== src/Idempotency/Exclusion.antt =====
-- Of the requests with one key at most one takes effect.
use flow_pay.Prelude.{
  ℕ, ◌+◌, ◌<◌, ◌≡◌, true, false, Option, none, arith, refl, ap, nat_beq_iff, nat_eq, beq_refl,
  Bool-cases, Option-cases, inl, inr,
}
use flow_pay.Prelude.Text.{Text, text_eq, text_beq, text_beq_iff}
use flow_pay.Exec.{Result, ok, err, internal, get_status}
use flow_pay.Idempotency.{
  IdempotencyKey, IdempotencyKeyStatus, KeyStore, RunIdempotentParams, Phase, inserting, selecting,
  reclaiming, handling, finalizing, done, find_key, is_processing, update_key, delete_key,
  completed_row, rejected_row, insert_key, select_key, answer_existing, call_handler, finalize,
  finalize_failed, step,
}
use flow_pay.Idempotency.HashPayload.{Json}
use flow_pay.Idempotency.Keys.{has_key-append, has_key-update, find_key-delete_other, KeepsKey}
use flow_pay.Idempotency.Interleaved.{
  System, Timely, Step, Reach, start, later, advance, breaks, stops, outside, holds, is_reclaiming,
  present, same_key, Exclusive, Fair, Fair-Exclusive,
}

module _ {S B : Type 0} (hash : Json → Text) (stale_ms : ℕ) (clock : S → ℕ)
    (requests : ℕ → RunIdempotentParams S B) where
  answer_calm :
      (params : RunIdempotentParams S B) (row : IdempotencyKey B) (now : ℕ)
      → (is_processing row.status ≡ true → now < row.created_at + stale_ms)
      → (holds (answer_existing hash stale_ms now params row) ≡ false)
        × (is_reclaiming (answer_existing hash stale_ms now params row) ≡ false)
  unfolding answer_existing
  answer_calm params row now timely =
      elim (Bool-cases (text_beq row.request_hash (hash params.request_payload))) [
        | inr differs ↦ rw differs (refl, refl)
        | inl same ↦ elim (Bool-cases (is_processing row.status)) [
          | inl p ↦ ground (arith, same, p, timely p)
          | inr c ↦ elim (Option-cases row.response_body) [
            | inl no_body ↦ ground (arith, same, c, no_body)
            | inr (cached, body) ↦ ground (arith, same, c, body)
          ]
        ]
      ]

  -- A step that takes no key and deletes no row.
  idle-Fair :
      (i : ℕ) (sys : System S B) (phase : Phase B) (s : KeyStore S B)
      → is_reclaiming phase ≡ false
      → (holds phase ≡ true → holds (sys.phases i) ≡ true)
      → ((j : ℕ) → present requests j sys.shared ≡ true → present requests j s ≡ true)
      → Exclusive requests sys
      → Fair requests i sys phase s
  idle-Fair i sys phase s calm had kept x = record {
    calm = calm;
    mine = λ h. kept i (x.held i (had h));
    fresh = λ h not_yet. cc (had h, not_yet);
    others = λ j e h there. kept j there;
  }

  insert-Fair :
      (i : ℕ) (sys : System S B)
      → Exclusive requests sys
      → let (phase, s) = insert_key hash clock (requests i) sys.shared in
        Fair requests i sys phase s
  unfolding insert_key
  insert-Fair i sys x =
      elim (Option-cases (find_key (requests i).user_id (requests i).key sys.shared.keys)) [
        | inr (row, there) ↦
            rw (there, insert_key)
              (idle-Fair i sys selecting sys.shared refl (λ h. cc) (λ j p. p) x)
        | inl absent ↦
            let u = (requests i).user_id in
            let k = (requests i).key in
            let ks = sys.shared.keys in
            let row : IdempotencyKey B = record {
              key = k;
              user_id = u;
              endpoint = (requests i).endpoint;
              request_hash = hash (requests i).request_payload;
              status = IdempotencyKeyStatus.processing;
              response_body = none;
              entry_id = none;
              created_at = clock sys.shared.store;
            } in
            rw (absent, insert_key)
              (record {
                calm = refl;
                mine = λ h. rw (has_key-append u k ks row, beq_refl u, beq_refl k) (ground arith);
                fresh = λ h n. ground (arith, absent);
                others = λ j e h there.
                    rw (has_key-append (requests j).user_id (requests j).key ks row)
                      (ground (arith, there));
              })
      ]

  select-Fair :
      (i : ℕ) (sys : System S B)
      → Timely hash stale_ms clock requests sys.shared
      → Exclusive requests sys
      → let (phase, s) = select_key hash stale_ms clock (requests i) sys.shared in
        Fair requests i sys phase s
  unfolding select_key
  select-Fair i sys timely x =
      elim (Option-cases (find_key (requests i).user_id (requests i).key sys.shared.keys)) [
        | inl absent ↦
            rw (absent, select_key)
              (idle-Fair i sys inserting sys.shared refl (λ h. cc) (λ j p. p) x)
        | inr (row, there) ↦
            let now = clock sys.shared.store in
            let (free, calm) =
              answer_calm (requests i) row now
                (timely (requests i).user_id (requests i).key row there) in
            rw (there, select_key)
              (idle-Fair i sys (answer_existing hash stale_ms now (requests i) row) sys.shared calm
                (λ h. cc (h, free)) (λ j p. p) x)
      ]

  handler-Fair :
      (i : ℕ) (sys : System S B)
      → sys.phases i ≡ handling
      → Exclusive requests sys
      → let (phase, s) = call_handler (requests i) sys.shared in Fair requests i sys phase s
  unfolding call_handler
  handler-Fair i sys e x =
      let (r, store) = (requests i).handler sys.shared.store in
      idle-Fair i sys (finalizing r) (record { keys = sys.shared.keys; store = store }) refl
        (λ h. rw e refl) (λ j p. p) x

  -- The row stays where the handler ended well or was refused.
  update-Fair :
      (i : ℕ) (sys : System S B) (phase : Phase B) (f : IdempotencyKey B → IdempotencyKey B)
      → KeepsKey f
      → is_reclaiming phase ≡ false
      → holds (sys.phases i) ≡ true
      → Exclusive requests sys
      → Fair requests i sys phase (record {
        keys = update_key (requests i).user_id (requests i).key f sys.shared.keys;
        store = sys.shared.store;
      })
  update-Fair i sys phase f keeps calm had x =
      idle-Fair i sys phase _ calm (λ h. had)
        (λ j there.
          rw
            (has_key-update (requests j).user_id (requests i).user_id (requests j).key
              (requests i).key f keeps sys.shared.keys)
            there)
        x

  -- The row goes where the handler failed.
  delete-Fair :
      (i : ℕ) (sys : System S B) (phase : Phase B)
      → is_reclaiming phase ≡ false
      → holds phase ≡ false
      → holds (sys.phases i) ≡ true
      → Exclusive requests sys
      → Fair requests i sys phase (record {
        keys = delete_key (requests i).user_id (requests i).key sys.shared.keys;
        store = sys.shared.store;
      })
  delete-Fair i sys phase calm released had x = record {
    calm = calm;
    mine = λ h. cc (h, released);
    fresh = λ h n. cc (h, released);
    others = λ j e h there. elim (Bool-cases (same_key requests j i)) [
      | inl same ↦ ground (arith, e, x.unique j i same h had)
      | inr other ↦ ground (
        arith,
        find_key-delete_other (requests j).user_id (requests i).user_id (requests j).key
            (requests i).key other sys.shared.keys,
        there,
      )
    ];
  }

  finalize-Fair :
      (i : ℕ) (sys : System S B) (r : Result (B × Option ℕ))
      → sys.phases i ≡ finalizing r
      → Exclusive requests sys
      → let (phase, s) = finalize (requests i) r sys.shared in Fair requests i sys phase s
  unfolding finalize
  finalize-Fair i sys (ok (body, entry_id)) e x =
      update-Fair i sys _ (completed_row _ entry_id) (λ row. (refl, refl)) refl (rw e refl) x
  finalize-Fair i sys (err er) e x = elim (Option-cases (get_status er)) [
    | inl no_http ↦
        rw (no_http, finalize) (delete-Fair i sys (done (err er)) refl refl (rw e refl) x)
    | inr (code, http) ↦
        rw (http, finalize)
          (update-Fair i sys (done (err er)) (rejected_row _) (λ row. (refl, refl)) refl (rw e refl)
            x)
  ]

  failed-Fair :
      (i : ℕ) (sys : System S B) (out : B × Option ℕ)
      → sys.phases i ≡ finalizing (ok out)
      → Exclusive requests sys
      → let (phase, s) = finalize_failed (requests i) sys.shared in Fair requests i sys phase s
  unfolding finalize_failed
  failed-Fair i sys out e x = delete-Fair i sys (done (err internal)) refl refl (rw e refl) x

  step-Fair :
      (i : ℕ) (sys : System S B) (phase : Phase B)
      → sys.phases i ≡ phase
      → Timely hash stale_ms clock requests sys.shared
      → Exclusive requests sys
      → let (p, s) = step hash stale_ms clock (requests i) phase sys.shared in
        Fair requests i sys p s
  unfolding step
  step-Fair i sys inserting e timely x = insert-Fair i sys x
  step-Fair i sys selecting e timely x = select-Fair i sys timely x
  step-Fair i sys reclaiming e timely x = cc (ap is_reclaiming e, x.quiet i)
  step-Fair i sys handling e timely x = handler-Fair i sys e x
  step-Fair i sys (finalizing r) e timely x = finalize-Fair i sys r e x
  step-Fair i sys (done r) e timely x =
      idle-Fair i sys (done r) sys.shared refl (λ h. rw e h) (λ j p. p) x

  Step-Exclusive :
      {sys next : System S B}
      → Exclusive requests sys
      → Step hash stale_ms clock requests sys next
      → Exclusive requests next
  Step-Exclusive {sys} x (advance i timely) =
      Fair-Exclusive requests i sys _ _ x (step-Fair i sys (sys.phases i) refl timely x)
  Step-Exclusive {sys} x (breaks i out e) =
      Fair-Exclusive requests i sys _ _ x (failed-Fair i sys out e x)
  Step-Exclusive {sys} x (stops i) =
      Fair-Exclusive requests i sys _ _ x
        (idle-Fair i sys (done (err internal)) sys.shared refl (λ h. cc h) (λ j p. p) x)
  Step-Exclusive {sys} x (outside store) = record {
    unique = x.unique;
    held = x.held;
    quiet = x.quiet;
  }

  pub Reach-Exclusive :
      {store : S} {sys : System S B}
      → Reach hash stale_ms clock requests store sys
      → Exclusive requests sys
  Reach-Exclusive start = record {
    unique = λ i j same hi hj. cc hi;
    held = λ i h. cc h;
    quiet = λ i. refl;
  }
  Reach-Exclusive (later r s) = Step-Exclusive (Reach-Exclusive r) s

  -- However the queries of any number of requests interleave, with each other and with the work of
  -- other services, and whichever of them fail or stop: of two requests of one user with one key,
  -- at most one runs its handler or has ended with its handler's success. No key may be in
  -- processing for longer than the stale time.
  pub one_execution :
      {store : S} {sys : System S B}
      → Reach hash stale_ms clock requests store sys
      → (i j : ℕ) → (requests i).user_id ≡ (requests j).user_id
      → (requests i).key ≡ (requests j).key
      → holds (sys.phases i) ≡ true
      → holds (sys.phases j) ≡ true
      → i ≡ j
  one_execution {sys = sys} r i j users keys hi hj = (nat_beq_iff i j).0 (
      (Reach-Exclusive r).unique i j
        (ground (
          arith,
          (nat_beq_iff (requests i).user_id (requests j).user_id).1 users,
          (text_beq_iff (requests i).key (requests j).key).1 keys,
        ))
        hi hj)
