-- ===== src/Idempotency/Interleaved.antt =====
-- Requests that run at once: their queries interleave in any order, while other services work on the
-- database and time passes.
use flow_pay.Prelude.{
  ℕ, ◌+◌, ◌<◌, ◌≡◌, Bool, true, false, ◌&&◌, Option, some, [], arith, refl, sym, nat_beq,
  nat_beq_iff, nat_eq, if◌then◌else◌, Bool-cases, inl, inr,
}
use mathlib.Core.Path.{subst}
use flow_pay.Prelude.Text.{Text, text_eq, text_beq, text_beq_iff}
use flow_pay.Exec.{ok, err, internal}
use flow_pay.Idempotency.{
  IdempotencyKey, KeyStore, RunIdempotentParams, Phase, inserting, reclaiming, handling, finalizing,
  done, find_key, is_processing, step, finalize_failed,
}
use flow_pay.Idempotency.HashPayload.{Json}
use flow_pay.Idempotency.Keys.{has_key}

abbrev pub update : {A : Type 0} → (ℕ → A) → ℕ → A → ℕ → A
update f i a j = if nat_beq i j then a else f j

module _ {B : Type 0} where
  -- A request whose handler runs, or has run to a success.
  abbrev pub holds : Phase B → Bool
  holds handling = true
  holds (finalizing r) = true
  holds (done (ok r)) = if r.replayed then false else true
  holds _ = false

  abbrev pub is_reclaiming : Phase B → Bool
  is_reclaiming reclaiming = true
  is_reclaiming _ = false

module _ (S B : Type 0) where
  pub record System : Type 0 where
    pub shared : KeyStore S B
    pub phases : ℕ → Phase B

module _ {S B : Type 0} (hash : Json → Text) (stale_ms : ℕ) (clock : S → ℕ)
    (requests : ℕ → RunIdempotentParams S B) where
  -- No key has been in processing for the time after which it is reclaimed.
  abbrev pub Timely : KeyStore S B → Type 0
  Timely s =
      (u : ℕ) (k : Text) (row : IdempotencyKey B)
      → find_key u k s.keys ≡ some row
      → is_processing row.status ≡ true
      → clock s.store < row.created_at + stale_ms

  abbrev pub advanced : ℕ → System S B → System S B
  advanced i sys =
      let (phase, s) = step hash stale_ms clock (requests i) (sys.phases i) sys.shared in
      record { shared = s; phases = update sys.phases i phase }

  -- The update that completes the key has failed.
  abbrev pub broken : ℕ → System S B → System S B
  broken i sys =
      let (phase, s) = finalize_failed (requests i) sys.shared in
      record { shared = s; phases = update sys.phases i phase }

  -- A query has failed where nothing catches that, or the process has stopped.
  abbrev pub stopped : ℕ → System S B → System S B
  stopped i sys = record { shared = sys.shared; phases = update sys.phases i (done (err internal)) }

  pub data Step (sys : System S B) : System S B → Type 0 where
    advance : (i : ℕ) → Timely sys.shared → Step sys (advanced i sys)
    breaks :
        (i : ℕ) (out : B × Option ℕ) → sys.phases i ≡ finalizing (ok out) → Step sys (broken i sys)
    stops : (i : ℕ) → Step sys (stopped i sys)
    outside :
        (store : S)
        → Step sys (record {
          shared = record { keys = sys.shared.keys; store = store };
          phases = sys.phases;
        })

  -- The start: no keys yet.
  abbrev pub init : S → System S B
  init store = record { shared = record { keys = []; store = store }; phases = λ i. inserting }

  pub data Reach (store : S) : System S B → Type 0 where
    start : Reach store (init store)
    later : {s t : System S B} → Reach store s → Step s t → Reach store t

module _ {S B : Type 0} (requests : ℕ → RunIdempotentParams S B) where
  abbrev pub present : ℕ → KeyStore S B → Bool
  present i s = has_key (requests i).user_id (requests i).key s.keys

  abbrev pub same_key : ℕ → ℕ → Bool
  same_key i j =
      nat_beq (requests i).user_id (requests j).user_id
      && text_beq (requests i).key (requests j).key

  pub record Exclusive (sys : System S B) : Type 0 where
    pub unique :
        (i j : ℕ)
        → same_key i j ≡ true
        → holds (sys.phases i) ≡ true
        → holds (sys.phases j) ≡ true
        → nat_beq i j ≡ true
    pub held : (i : ℕ) → holds (sys.phases i) ≡ true → present i sys.shared ≡ true
    pub quiet : (i : ℕ) → is_reclaiming (sys.phases i) ≡ false

  -- What a step of one request must keep.
  pub record Fair (i : ℕ) (sys : System S B) (phase : Phase B) (s : KeyStore S B) : Type 0 where
    pub calm : is_reclaiming phase ≡ false
    pub mine : holds phase ≡ true → present i s ≡ true
    pub fresh : holds phase ≡ true → holds (sys.phases i) ≡ false → present i sys.shared ≡ false
    pub others :
        (j : ℕ)
        → nat_beq i j ≡ false
        → holds (sys.phases j) ≡ true
        → present j sys.shared ≡ true
        → present j s ≡ true

  present-same : (i j : ℕ) (s : KeyStore S B) → same_key i j ≡ true → present i s ≡ present j s
  present-same i j s e =
      let a : (requests i).user_id ≡ (requests j).user_id =
        ground (arith, e, nat_beq_iff (requests i).user_id (requests j).user_id) in
      let b : (requests i).key ≡ (requests j).key =
        ground (arith, e, text_beq_iff (requests i).key (requests j).key) in
      rw (a, b) refl

  same_key_swap : (i j : ℕ) → same_key i j ≡ true → same_key j i ≡ true
  same_key_swap i j e = ground (
    arith,
    e,
    nat_beq_iff (requests i).user_id (requests j).user_id,
    nat_beq_iff (requests j).user_id (requests i).user_id,
    text_beq_iff (requests i).key (requests j).key,
    text_beq_iff (requests j).key (requests i).key,
  )

  pub Fair-Exclusive :
      (i : ℕ) (sys : System S B) (phase : Phase B) (s : KeyStore S B)
      → Exclusive sys
      → Fair i sys phase s
      → Exclusive (record { shared = s; phases = update sys.phases i phase })
  Fair-Exclusive i sys phase s x f = record { unique = unique'; held = held'; quiet = quiet' }
    where
      -- nobody else holds the key that the request takes or keeps
      alone :
          (j : ℕ)
          → nat_beq i j ≡ false
          → same_key i j ≡ true
          → holds phase ≡ true
          → holds (sys.phases j) ≡ true
          → true ≡ false
      alone j e same h hj = elim (Bool-cases (holds (sys.phases i))) [
        | inl had ↦ cc (sym e, x.unique i j same had hj)
        | inr not_yet ↦ cc (x.held j hj, f.fresh h not_yet, present-same i j sys.shared same)
      ]

      unique' :
          (j k : ℕ)
          → same_key j k ≡ true
          → holds (update sys.phases i phase j) ≡ true
          → holds (update sys.phases i phase k) ≡ true
          → nat_beq j k ≡ true
      unique' j k same hj hk = elim (Bool-cases (nat_beq i j)) [
        | inl ij ↦ elim (Bool-cases (nat_beq i k)) [
          | inl ik ↦ ground (arith, ij, ik)
          | inr ik ↦
              let there : i ≡ j = (nat_beq_iff i j).0 ij in
              let same' = subst (λ w. same_key w k ≡ true) (sym there) same in
              cc (alone k ik same' (rw ij at hj) (rw ik at hk))
        ]
        | inr ij ↦ elim (Bool-cases (nat_beq i k)) [
          | inl ik ↦
              let there : i ≡ k = (nat_beq_iff i k).0 ik in
              let same' = subst (λ w. same_key w j ≡ true) (sym there) (same_key_swap j k same) in
              cc (alone j ij same' (rw ik at hk) (rw ij at hj))
          | inr ik ↦ x.unique j k same (rw ij at hj) (rw ik at hk)
        ]
      ]

      held' : (j : ℕ) → holds (update sys.phases i phase j) ≡ true → present j s ≡ true
      held' j h = elim (Bool-cases (nat_beq i j)) [
        | inl ij ↦
            let there : i ≡ j = (nat_beq_iff i j).0 ij in
            subst (λ w. present w s ≡ true) there (f.mine (rw ij at h))
        | inr ij ↦
            let h' : holds (sys.phases j) ≡ true = rw ij at h in f.others j ij h' (x.held j h')
      ]

      quiet' : (j : ℕ) → is_reclaiming (update sys.phases i phase j) ≡ false
      quiet' j = elim (Bool-cases (nat_beq i j)) [
        | inl ij ↦ rw ij f.calm
        | inr ij ↦ rw ij (x.quiet j)
      ]
