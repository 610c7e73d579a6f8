-- ===== src/Idempotency/Repeated.antt =====
-- A request that is sent again after its answer.
use flow_pay.Prelude.{
  ℕ, ◌+◌, ◌≡◌, true, false, Option, none, some, List, [], ◌∷◌, ◌++◌, arith, refl, sym, ◌∙◌,
  beq_refl, nat_eq, ltb, find-append, Bool-cases, Option-cases, inl, inr,
}
use mathlib.Core.Path.{subst}
use flow_pay.Prelude.Text.{Text, text_eq, text_beq}
use flow_pay.Exec.{
  Exec, Result, ok, err, Error, get_status, internal, payload_mismatch, in_progress,
}
use flow_pay.Idempotency.{
  IdempotencyKey, KeyStore, RunIdempotentParams, RunIdempotentResult, StoredResponse,
  error_response, find_key, is_key, is_processing, update_key, delete_key, completed_row,
  rejected_row, run,
}
use flow_pay.Idempotency.HashPayload.{Json}
use flow_pay.Idempotency.Keys.{find_key-delete, find_key-update, KeepsKey}
use flow_pay.Idempotency.Alone.{
  new_row, executed, concluded, rejected_keys, answered, replayed_answer, run-answered,
}

module _ {S B : Type 0} (hash : Json → Text) (stale_ms : ℕ) (clock : S → ℕ)
    (params : RunIdempotentParams S B) where
  -- The key's row is this request's, and keeps the response.
  pub record Settled (keys : List (IdempotencyKey B)) (response : StoredResponse B) : Type 0 where
    pub row : IdempotencyKey B
    pub found : find_key params.user_id params.key keys ≡ some row
    pub same_payload : text_beq row.request_hash (hash params.request_payload) ≡ true
    pub over : is_processing row.status ≡ false
    pub stored : row.response_body ≡ some response

  Settled-answered :
      (keys : List (IdempotencyKey B)) (store : S) (response : StoredResponse B)
      (handler : Exec S (B × Option ℕ))
      → Settled keys response
      → answered hash stale_ms clock
          (record params { handler = handler })
          (record { keys = keys; store = store })
        ≡ (
          ok (record { body = response.body; status_code = response.status_code; replayed = true }),
          record { keys = keys; store = store },
        )
  Settled-answered keys store response handler s =
      ground (arith, s.found, s.same_payload, s.over, s.stored)

  -- The row that the insertion leaves is found again.
  found_new :
      (keys : List (IdempotencyKey B)) (store : S)
      → find_key params.user_id params.key keys ≡ none
      → find_key params.user_id params.key (keys ++ (new_row hash stale_ms clock params store ∷ []))
        ≡ some (new_row hash stale_ms clock params store)
  found_new keys store absent = ground (
    arith,
    absent,
    find-append (is_key params.user_id params.key) keys
        (new_row hash stale_ms clock params store ∷ []),
    beq_refl params.user_id,
    beq_refl params.key,
  )

  -- An update of the new row settles the key.
  updated-Settled :
      (keys : List (IdempotencyKey B)) (store : S) (response : StoredResponse B)
      (f : IdempotencyKey B → IdempotencyKey B)
      → KeepsKey f
      → find_key params.user_id params.key keys ≡ none
      → let row = f (new_row hash stale_ms clock params store) in
        row.request_hash ≡ hash params.request_payload
        → is_processing row.status ≡ false
        → row.response_body ≡ some response
        → Settled
            (update_key params.user_id params.key f
              (keys ++ (new_row hash stale_ms clock params store ∷ [])))
            response
  updated-Settled keys store response f keeps absent hashed over stored = record {
    row = f new;
    found = ground (
      arith,
      find_key-update params.user_id params.user_id params.key params.key f keeps
          (keys ++ (new ∷ [])),
      found_new keys store absent,
      beq_refl params.user_id,
      beq_refl params.key,
    );
    same_payload = rw hashed (beq_refl (hash params.request_payload));
    over = over;
    stored = stored;
  }
    where
      new : IdempotencyKey B
      new = new_row hash stale_ms clock params store

  -- What a thrown exception leaves: its response, or no row where it is none of HTTP.
  abbrev pub Rejected : Option ℕ → Error → List (IdempotencyKey B) → Type 0
  Rejected (some code) e keys =
      Settled keys (record { status_code = code; body = error_response e })
  Rejected none e keys = find_key params.user_id params.key keys ≡ none

  -- What an execution leaves for the next request with the key.
  abbrev pub Leaves : Result (RunIdempotentResult B) × KeyStore S B → Type 0
  Leaves (ok r, s) = Settled s.keys (record { status_code = r.status_code; body = r.body })
  Leaves (err e, s) = Rejected (get_status e) e s.keys

  rejected_keys-Rejected :
      (o : Option ℕ) (e : Error) (keys : List (IdempotencyKey B)) (store : S)
      → find_key params.user_id params.key keys ≡ none
      → Rejected o e (
          rejected_keys hash stale_ms clock params o e
            (keys ++ (new_row hash stale_ms clock params store ∷ [])))
  rejected_keys-Rejected (some code) e keys store absent =
      updated-Settled keys store _ (rejected_row _) (λ row. (refl, refl)) absent refl refl refl
  rejected_keys-Rejected none e keys store absent = find_key-delete params.user_id params.key _

  concluded-Leaves :
      (keys : List (IdempotencyKey B)) (store : S) (p : Result (B × Option ℕ) × S)
      → find_key params.user_id params.key keys ≡ none
      → Leaves (
          concluded hash stale_ms clock params
            (keys ++ (new_row hash stale_ms clock params store ∷ []))
            p)
  concluded-Leaves keys store (ok (body, entry_id), store') absent =
      updated-Settled keys store _ (completed_row _ entry_id) (λ row. (refl, refl)) absent refl refl
        refl
  concluded-Leaves keys store (err e, store') absent =
      rejected_keys-Rejected (get_status e) e keys store absent

  executed-Leaves :
      (s : KeyStore S B)
      → find_key params.user_id params.key s.keys ≡ none
      → Leaves (executed hash stale_ms clock params s)
  executed-Leaves s absent = concluded-Leaves s.keys s.store (params.handler s.store) absent

  -- An answer stays in the table.
  abbrev Kept : Result (RunIdempotentResult B) × KeyStore S B → Type 0
  Kept (ok r, s) = Settled s.keys (record { status_code = r.status_code; body = r.body })
  Kept (err e, s) = Unit

  Leaves-Kept : (p : Result (RunIdempotentResult B) × KeyStore S B) → Leaves p → Kept p
  Leaves-Kept (ok r, s) h = h
  Leaves-Kept (err e, s) h = tt

  answered-Kept : (s : KeyStore S B) → Kept (answered hash stale_ms clock params s)
  answered-Kept s = elim (Option-cases (find_key params.user_id params.key s.keys)) [
    | inl absent ↦
        kept_as (executed hash stale_ms clock params s) (ground (arith, absent))
          (Leaves-Kept _ (executed-Leaves s absent))
    | inr (row, there) ↦
        elim (Bool-cases (text_beq row.request_hash (hash params.request_payload))) [
          | inr differs ↦ kept_as (err payload_mismatch, s) (ground (arith, there, differs)) tt
          | inl same ↦ elim (Bool-cases (is_processing row.status)) [
            | inr over ↦ elim (Option-cases row.response_body) [
              | inl no_body ↦
                  kept_as (err internal, s) (ground (arith, there, same, over, no_body)) tt
              | inr (cached, body) ↦
                  kept_as (replayed_answer hash stale_ms clock params (some cached), s)
                    (ground (arith, there, same, over, body))
                    (record {
                      row = row;
                      found = there;
                      same_payload = same;
                      over = over;
                      stored = body;
                    })
            ]
            | inl p ↦ elim (Bool-cases (ltb (clock s.store) (row.created_at + stale_ms))) [
              | inl young ↦ kept_as (err in_progress, s) (ground (arith, there, same, p, young)) tt
              | inr stale ↦
                  let freed : KeyStore S B = record {
                    keys = delete_key params.user_id params.key s.keys;
                    store = s.store;
                  } in
                  kept_as (executed hash stale_ms clock params freed)
                    (ground (arith, there, same, p, stale))
                    (Leaves-Kept _
                      (executed-Leaves freed (find_key-delete params.user_id params.key s.keys)))
            ]
          ]
        ]
  ]
    where
      kept_as :
          (p : Result (RunIdempotentResult B) × KeyStore S B)
          → answered hash stale_ms clock params s ≡ p
          → Kept p
          → Kept (answered hash stale_ms clock params s)
      kept_as p e k = subst Kept (sym e) k

  -- A request that was answered is answered the same when it is sent again, whatever happened to the
  -- rest of the database since and whatever its handler would do by then; the handler does not run, and
  -- nothing changes.
  pub run_again :
      (s s' : KeyStore S B) (r : RunIdempotentResult B) (store : S)
      (handler : Exec S (B × Option ℕ))
      → run hash stale_ms clock params s ≡ (ok r, s')
      → let now : KeyStore S B = record { keys = s'.keys; store = store } in
        run hash stale_ms clock (record params { handler = handler }) now
        ≡ (ok (record { body = r.body; status_code = r.status_code; replayed = true }), now)
  run_again s s' r store handler e =
      run-answered hash stale_ms clock (record params { handler = handler }) _
      ∙ Settled-answered s'.keys store _ handler
          (subst Kept (sym (run-answered hash stale_ms clock params s) ∙ e) (answered-Kept s))

  -- Where the handler of a new key throws an exception of HTTP, sending the request again is
  -- answered with the exception's status and response, without running the handler; where it fails
  -- unexpectedly, the key is free again, and sending the request again runs the handler again.
  pub run_thrown :
      (s s' : KeyStore S B) (e : Error) (store : S)
      → find_key params.user_id params.key s.keys ≡ none
      → run hash stale_ms clock params s ≡ (err e, s')
      → let now : KeyStore S B = record { keys = s'.keys; store = store } in
        run hash stale_ms clock params now ≡ elim (get_status e) [
          | some code ↦
              (ok (record { body = error_response e; status_code = code; replayed = true }), now)
          | none ↦ executed hash stale_ms clock params now
        ]
  run_thrown s s' e store absent ran = elim (Option-cases (get_status e)) [
    | inl no_http ↦
        let gone : find_key params.user_id params.key s'.keys ≡ none =
          subst (λ w. Rejected w e s'.keys) no_http left in
        rw no_http (run-answered hash stale_ms clock params now ∙ ground (arith, gone))
    | inr (code, http) ↦
        let stored : Settled s'.keys (record { status_code = code; body = error_response e }) =
          subst (λ w. Rejected w e s'.keys) http left in
        rw http (
          run-answered hash stale_ms clock params now
          ∙ Settled-answered s'.keys store _ params.handler stored)
  ]
    where
      now : KeyStore S B
      now = record { keys = s'.keys; store = store }

      executes : answered hash stale_ms clock params s ≡ executed hash stale_ms clock params s
      executes = ground (arith, absent)

      left : Leaves (err e, s')
      left =
          subst Leaves (sym executes ∙ (sym (run-answered hash stale_ms clock params s) ∙ ran))
            (executed-Leaves s absent)
