-- ===== src/Idempotency/Alone.antt =====
-- A request that no other interrupts: its run as a whole.
use flow_pay.Prelude.{
  ℕ, zero, suc, ◌+◌, ◌≡◌, true, false, Option, none, some, List, [], ◌∷◌, ◌++◌, arith, refl, sym,
  ap, ◌∙◌, nat_eq, not, ltb, if◌then◌else◌, Bool-cases, Option-cases, inl, inr,
}
use mathlib.Core.Path.{subst}
use flow_pay.Prelude.Text.{Text, text_eq, text_beq}
use flow_pay.Exec.{Result, ok, err, Error, get_status, payload_mismatch, in_progress, internal}
use flow_pay.Idempotency.{
  IdempotencyKey, IdempotencyKeyStatus, KeyStore, RunIdempotentParams, RunIdempotentResult,
  StoredResponse, body_of, error_response, Phase, inserting, selecting, reclaiming, handling,
  finalizing, done, find_key, is_processing, update_key, delete_key, completed_row, rejected_row,
  insert_key, select_key, reclaim_key, answer_existing, call_handler, finalize, step, steps, run,
  run_result,
}
use flow_pay.Idempotency.HashPayload.{Json}
use flow_pay.Idempotency.Keys.{find_key-delete}

module _ {S B : Type 0} (hash : Json → Text) (stale_ms : ℕ) (clock : S → ℕ)
    (params : RunIdempotentParams S B) where
  abbrev pub new_row : S → IdempotencyKey B
  new_row store = record {
    key = params.key;
    user_id = params.user_id;
    endpoint = params.endpoint;
    request_hash = hash params.request_payload;
    status = IdempotencyKeyStatus.processing;
    response_body = none;
    entry_id = none;
    created_at = clock store;
  }

  -- The keys after an exception, by its status.
  abbrev pub rejected_keys : Option ℕ → Error → List (IdempotencyKey B) → List (IdempotencyKey B)
  rejected_keys (some status_code) e keys =
      update_key params.user_id params.key
        (rejected_row (record { status_code = status_code; body = error_response e })) keys
  rejected_keys none e keys = delete_key params.user_id params.key keys

  -- What an execution leaves: the answer, the keys, and the database.
  abbrev pub concluded :
      List (IdempotencyKey B)
      → Result (B × Option ℕ) × S
      → Result (RunIdempotentResult B) × KeyStore S B
  concluded keys (ok (body, entry_id), store) = (
    ok (record { body = body_of body; status_code = params.success_status; replayed = false }),
    record {
      keys =
          update_key params.user_id params.key
            (completed_row (record { status_code = params.success_status; body = body_of body })
              entry_id)
            keys;
      store = store;
    },
  )
  concluded keys (err e, store) =
      (err e, record { keys = rejected_keys (get_status e) e keys; store = store })

  abbrev pub executed : KeyStore S B → Result (RunIdempotentResult B) × KeyStore S B
  executed s = concluded (s.keys ++ (new_row s.store ∷ [])) (params.handler s.store)

  abbrev pub replayed_answer : Option (StoredResponse B) → Result (RunIdempotentResult B)
  replayed_answer none = err internal
  replayed_answer (some cached) =
      ok (record { body = cached.body; status_code = cached.status_code; replayed = true })

  -- What `run` promises, in one piece.
  abbrev pub answered : KeyStore S B → Result (RunIdempotentResult B) × KeyStore S B
  answered s = elim (find_key params.user_id params.key s.keys) [
    | none ↦ executed s
    | some row ↦
        if not (text_beq row.request_hash (hash params.request_payload))
        then (err payload_mismatch, s)
        else if not (is_processing row.status)
        then (replayed_answer row.response_body, s)
        else if ltb (clock s.store) (row.created_at + stale_ms)
        then (err in_progress, s)
        else executed (record s { keys = delete_key params.user_id params.key s.keys })
  ]

  finalize-concluded :
      (keys : List (IdempotencyKey B)) (r : Result (B × Option ℕ)) (store : S)
      → finalize params r (record { keys = keys; store = store })
        ≡ (done (concluded keys (r, store)).0, (concluded keys (r, store)).1)
  unfolding finalize
  finalize-concluded keys (ok (body, entry_id)) store = refl
  finalize-concluded keys (err e) store = elim (Option-cases (get_status e)) [
    | inl no_http ↦ ground (arith, no_http)
    | inr (code, http) ↦ ground (arith, http)
  ]

  abbrev pub finished : Result (RunIdempotentResult B) × KeyStore S B → Phase B × KeyStore S B
  finished (r, s) = (done r, s)

  steps_next :
      (n : ℕ) (phase : Phase B) (s : KeyStore S B) {phase' : Phase B} {s' : KeyStore S B}
      → step hash stale_ms clock params phase s ≡ (phase', s')
      → steps hash stale_ms clock (suc n) params phase s
        ≡ steps hash stale_ms clock n params phase' s'
  unfolding steps
  steps_next n phase s e = ap (λ p. steps hash stale_ms clock n params p.0 p.1) e

  steps_done :
      (n : ℕ) (r : Result (RunIdempotentResult B)) (s : KeyStore S B)
      → steps hash stale_ms clock n params (done r) s ≡ (done r, s)
  unfolding steps step
  steps_done zero r s = refl
  steps_done (suc n) r s = steps_done n r s

  -- From a free key on.
  steps_free :
      (n : ℕ) (s : KeyStore S B)
      → find_key params.user_id params.key s.keys ≡ none
      → steps hash stale_ms clock (suc (suc (suc n))) params inserting s ≡ finished (executed s)
  unfolding step insert_key call_handler
  steps_free n s absent =
      let keys = s.keys ++ (new_row s.store ∷ []) in
      let (r, store) = params.handler s.store in
      steps_next (suc (suc n)) inserting s (ground (arith, absent))
      ∙ (steps_next (suc n) handling (record { keys = keys; store = s.store }) refl
          ∙ (steps_next n (finalizing r) (record { keys = keys; store = store })
                (finalize-concluded keys r store)
              ∙ steps_done n _ _))

  -- From a key that is there on.
  steps_taken :
      (s : KeyStore S B) (row : IdempotencyKey B)
      → find_key params.user_id params.key s.keys ≡ some row
      → steps hash stale_ms clock 6 params inserting s ≡ finished (answered s)
  unfolding step insert_key select_key answer_existing reclaim_key
  steps_taken s row there =
      let found : step hash stale_ms clock params inserting s ≡ (selecting, s) =
        ground (arith, there) in
      let ends : (r : Result (RunIdempotentResult B))
          → step hash stale_ms clock params selecting s ≡ (done r, s)
          → answered s ≡ (r, s)
          → steps hash stale_ms clock 6 params inserting s ≡ finished (answered s) =
        λ r e same.
          steps_next 5 inserting s found
          ∙ (steps_next 4 selecting s e ∙ (steps_done 4 r s ∙ sym (ap finished same))) in
      elim (Bool-cases (text_beq row.request_hash (hash params.request_payload))) [
        | inr differs ↦
            ends (err payload_mismatch) (ground (arith, there, differs))
              (ground (arith, there, differs))
        | inl same ↦ elim (Bool-cases (is_processing row.status)) [
          | inr over ↦ elim (Option-cases row.response_body) [
            | inl no_body ↦
                ends (err internal) (ground (arith, there, same, over, no_body))
                  (ground (arith, there, same, over, no_body))
            | inr (cached, body) ↦
                ends (replayed_answer (some cached)) (ground (arith, there, same, over, body))
                  (ground (arith, there, same, over, body))
          ]
          | inl p ↦ elim (Bool-cases (ltb (clock s.store) (row.created_at + stale_ms))) [
            | inl young ↦
                ends (err in_progress) (ground (arith, there, same, p, young))
                  (ground (arith, there, same, p, young))
            | inr stale ↦
                let freed : KeyStore S B = record {
                  keys = delete_key params.user_id params.key s.keys;
                  store = s.store;
                } in
                let expected : answered s ≡ executed freed =
                  ground (arith, there, same, p, stale) in
                steps_next 5 inserting s found
                ∙ (steps_next 4 selecting s {phase' = reclaiming} {s' = s}
                      (ground (arith, there, same, p, stale))
                    ∙ (steps_next 3 reclaiming s {phase' = inserting} {s' = freed}
                          (ground (arith, there, p))
                        ∙ (steps_free 0 freed (find_key-delete params.user_id params.key s.keys)
                            ∙ sym (ap finished expected))))
          ]
        ]
      ]

  -- A request that nobody interrupts ends, after six queries at most, as it is promised.
  pub run-ends :
      (s : KeyStore S B) → steps hash stale_ms clock 6 params inserting s ≡ finished (answered s)
  run-ends s = elim (Option-cases (find_key params.user_id params.key s.keys)) [
    | inl absent ↦
        let expected : answered s ≡ executed s = ground (arith, absent) in
        steps_free 3 s absent ∙ sym (ap finished expected)
    | inr (row, there) ↦ steps_taken s row there
  ]

  -- `run` answers so.
  pub run-answered : (s : KeyStore S B) → run hash stale_ms clock params s ≡ answered s
  unfolding run
  run-answered s = ap (λ p. (run_result hash stale_ms clock p.0, p.1)) (run-ends s)

  -- An answer to a new key is its handler's.
  pub run-handled :
      (s s' : KeyStore S B) (r : RunIdempotentResult B)
      → find_key params.user_id params.key s.keys ≡ none
      → run hash stale_ms clock params s ≡ (ok r, s')
      → (body : B) × (entry_id : Option ℕ) × (params.handler s.store
          ≡ (ok (body, entry_id), s'.store))
        × (r
            ≡ record { body = body_of body; status_code = params.success_status; replayed = false })
  run-handled s s' r absent ran = handled (params.handler s.store) refl
    where
      keys : List (IdempotencyKey B)
      keys = s.keys ++ (new_row s.store ∷ [])

      executes : answered s ≡ executed s
      executes = ground (arith, absent)

      ended : concluded keys (params.handler s.store) ≡ (ok r, s')
      ended = sym executes ∙ (sym (run-answered s) ∙ ran)

      handled :
          (p : Result (B × Option ℕ) × S)
          → params.handler s.store ≡ p
          → (body : B) × (entry_id : Option ℕ) × (params.handler s.store
              ≡ (ok (body, entry_id), s'.store))
            × (r ≡ record {
              body = body_of body;
              status_code = params.success_status;
              replayed = false;
            })
      handled (err e, store) called = cc (ap (λ q. q.0) (ap (concluded keys) (sym called) ∙ ended))
      handled (ok (body, entry_id), store) called =
          let same = ap (concluded keys) (sym called) ∙ ended in
          let there : store ≡ s'.store = ap (λ q. q.1.store) same in
          (
            body,
            entry_id,
            subst (λ w. params.handler s.store ≡ (ok (body, entry_id), w)) there called,
            ap (λ q. elim q.0 [ ok a ↦ a | err e ↦ r ]) (sym same),
          )
