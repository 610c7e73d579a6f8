-- ===== src/Idempotency.antt =====
-- backend/src/common/idempotency/idempotency.service.ts: a request with a key takes effect once. Each
-- query is one step, since other requests run between the queries of one.
pub mod HashPayload
pub mod Keys
pub mod Interleaved
pub mod Exclusion
pub mod Alone
pub mod Repeated
use flow_pay.Prelude.{
  ℕ, zero, suc, ◌+◌, Bool, true, false, ◌&&◌, not, Option, none, some, List, [], ◌∷◌, ◌++◌, map,
  ◌==◌, nat_eq, find, select, ltb, if◌then◌else◌,
}
use flow_pay.Prelude.Text.{Text, text_eq}
use flow_pay.Exec.{
  Exec, Error, Result, ok, err, get_status, payload_mismatch, in_progress, internal,
}
use flow_pay.Idempotency.HashPayload.{Platform, Json, hash_payload}

pub data IdempotencyKeyStatus : Type 0 where
  processing completed : IdempotencyKeyStatus

abbrev pub is_processing : IdempotencyKeyStatus → Bool
is_processing processing = true
is_processing completed = false

-- A stored body is the handler's, or the response of the exception that it threw.
pub data ResponseBody (B : Type 0) : Type 0 where
  body_of : B → ResponseBody B
  error_response : Error → ResponseBody B

pub record StoredResponse (B : Type 0) : Type 0 where
  pub status_code : ℕ
  pub body : ResponseBody B

pub record IdempotencyKey (B : Type 0) : Type 0 where
  pub key : Text
  pub user_id : ℕ
  pub endpoint : Text
  pub request_hash : Text
  pub status : IdempotencyKeyStatus
  pub response_body : Option (StoredResponse B)
  pub entry_id : Option ℕ
  pub created_at : ℕ

pub record RunIdempotentParams (S B : Type 0) : Type 0 where
  pub user_id : ℕ
  pub key : Text
  pub endpoint : Text
  pub request_payload : Json
  pub success_status : ℕ
  pub handler : Exec S (B × Option ℕ)

pub record RunIdempotentResult (B : Type 0) : Type 0 where
  pub body : ResponseBody B
  pub status_code : ℕ
  pub replayed : Bool

-- The keys' table, and the database that the handlers work on.
pub record KeyStore (S B : Type 0) : Type 0 where
  pub keys : List (IdempotencyKey B)
  pub store : S

-- What a request does next.
pub data Phase (B : Type 0) : Type 0 where
  inserting selecting reclaiming handling : Phase B
  finalizing : Result (B × Option ℕ) → Phase B
  done : Result (RunIdempotentResult B) → Phase B

abbrev pub is_key : {B : Type 0} → ℕ → Text → IdempotencyKey B → Bool
is_key user_id key row = (row.user_id == user_id) && (row.key == key)

abbrev pub find_key : {B : Type 0} → ℕ → Text → List (IdempotencyKey B) → Option (IdempotencyKey B)
find_key user_id key rows = find (is_key user_id key) rows

-- what an `UPDATE idempotency_keys ... WHERE user_id AND key` makes of a table
abbrev pub update_key :
    {B : Type 0}
    → ℕ
    → Text
    → (IdempotencyKey B → IdempotencyKey B)
    → List (IdempotencyKey B)
    → List (IdempotencyKey B)
update_key user_id key f rows = map (λ row. if is_key user_id key row then f row else row) rows

-- `SET status = 'completed', response_body, entry_id`
abbrev pub completed_row :
    {B : Type 0} → StoredResponse B → Option ℕ → IdempotencyKey B → IdempotencyKey B
completed_row response entry_id row = record row {
  status = completed;
  response_body = some response;
  entry_id = entry_id;
}

-- `SET status = 'completed', response_body`
abbrev pub rejected_row : {B : Type 0} → StoredResponse B → IdempotencyKey B → IdempotencyKey B
rejected_row response row = record row { status = completed; response_body = some response }

-- `DELETE FROM idempotency_keys`
abbrev pub delete_key : {B : Type 0} → ℕ → Text → List (IdempotencyKey B) → List (IdempotencyKey B)
delete_key user_id key rows = select (λ row. not (is_key user_id key row)) rows

module _ {S B : Type 0} where
  -- the query that inserts the key, unless the user has it already
  unfoldable pub insert_key :
      (Json → Text) → (S → ℕ) → RunIdempotentParams S B → KeyStore S B → Phase B × KeyStore S B
  insert_key hash clock params s = elim (find_key params.user_id params.key s.keys) [
    | some row ↦ (selecting, s)
    | none ↦ (
      handling,
      record s {
        keys =
            s.keys
            ++ (record {
              key = params.key;
              user_id = params.user_id;
              endpoint = params.endpoint;
              request_hash = hash params.request_payload;
              status = processing;
              response_body = none;
              entry_id = none;
              created_at = clock s.store;
            }
                ∷ []);
      },
    )
  ]

  -- what `handleExistingKey` makes of the row
  unfoldable pub answer_existing :
      (Json → Text) → ℕ → ℕ → RunIdempotentParams S B → IdempotencyKey B → Phase B
  answer_existing hash stale_ms now params row =
      if not (row.request_hash == hash params.request_payload)
      then done (err payload_mismatch)
      else if is_processing row.status
      then if ltb now (row.created_at + stale_ms) then done (err in_progress) else reclaiming
      else elim row.response_body [
        | none ↦ done (err internal)
        | some cached ↦
            done (
              ok (record { body = cached.body; status_code = cached.status_code; replayed = true }))
      ]

  unfoldable pub select_key :
      (Json → Text) → ℕ → (S → ℕ) → RunIdempotentParams S B → KeyStore S B → Phase B × KeyStore S B
  unfolding answer_existing
  select_key hash stale_ms clock params s = elim (find_key params.user_id params.key s.keys) [
    | none ↦ (inserting, s)
    | some row ↦ (answer_existing hash stale_ms (clock s.store) params row, s)
  ]

  -- the query that deletes the stale row, if it is still being processed
  unfoldable pub reclaim_key : RunIdempotentParams S B → KeyStore S B → Phase B × KeyStore S B
  reclaim_key params s = elim (find_key params.user_id params.key s.keys) [
    | none ↦ (selecting, s)
    | some row ↦
        if is_processing row.status
        then (inserting, record s { keys = delete_key params.user_id params.key s.keys })
        else (selecting, s)
  ]

  unfoldable pub call_handler : RunIdempotentParams S B → KeyStore S B → Phase B × KeyStore S B
  call_handler params s =
      let (r, store) = params.handler s.store in (finalizing r, record s { store = store })

  -- the query after the handler, in `runHandlerAndFinalize`
  unfoldable pub finalize :
      RunIdempotentParams S B → Result (B × Option ℕ) → KeyStore S B → Phase B × KeyStore S B
  finalize params (ok (body, entry_id)) s = (
    done (
        ok (record { body = body_of body; status_code = params.success_status; replayed = false })),
    record s {
      keys =
          update_key params.user_id params.key
            (completed_row (record { status_code = params.success_status; body = body_of body })
              entry_id)
            s.keys;
    },
  )
  finalize params (err e) s = elim (get_status e) [
    | some status_code ↦ (
      done (err e),
      record s {
        keys =
            update_key params.user_id params.key
              (rejected_row (record { status_code = status_code; body = error_response e })) s.keys;
      },
    )
    | none ↦ (done (err e), record s { keys = delete_key params.user_id params.key s.keys })
  ]

  -- The same where the update that completes the key fails: the failure is no `HttpException`, so the
  -- key is deleted, although the handler has ended well.
  unfoldable pub finalize_failed : RunIdempotentParams S B → KeyStore S B → Phase B × KeyStore S B
  finalize_failed params s =
      (done (err internal), record s { keys = delete_key params.user_id params.key s.keys })

  module _ (hash : Json → Text) (stale_ms : ℕ) (clock : S → ℕ) where
    unfoldable pub step : RunIdempotentParams S B → Phase B → KeyStore S B → Phase B × KeyStore S B
    unfolding insert_key select_key reclaim_key call_handler finalize
    step params inserting s = insert_key hash clock params s
    step params selecting s = select_key hash stale_ms clock params s
    step params reclaiming s = reclaim_key params s
    step params handling s = call_handler params s
    step params (finalizing r) s = finalize params r s
    step params (done r) s = (done r, s)

    -- A request that nobody interrupts takes so many steps.
    unfoldable pub steps :
        ℕ → RunIdempotentParams S B → Phase B → KeyStore S B → Phase B × KeyStore S B
    unfolding step
    steps zero params phase s = (phase, s)
    steps (suc n) params phase s =
        let (phase', s') = step params phase s in steps n params phase' s'

    abbrev pub run_result : Phase B → Result (RunIdempotentResult B)
    run_result (done r) = r
    run_result _ = err internal

    -- `run` from its start to its end: six queries are enough.
    unfoldable pub run : RunIdempotentParams S B → Exec (KeyStore S B) (RunIdempotentResult B)
    unfolding steps
    run params s = let (phase, s') = steps 6 params inserting s in (run_result phase, s')
