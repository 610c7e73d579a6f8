-- ===== src/Transfers/Once.antt =====
-- A transfer with an idempotency key.
use flow_pay.Prelude.{ℕ, ◌≡◌, Option, none, some, true, arith, inl, inr}
use flow_pay.Prelude.Int.{pos}
use flow_pay.Prelude.Text.{Text, text_eq}
use flow_pay.Numbers.{Numbers, IsExact}
use flow_pay.Config.{EnvConfig}
use flow_pay.Exec.{ok, Outcome-cases}
use flow_pay.Db.{Db}
use flow_pay.Ledger.Invariant.{IsSound}
use flow_pay.Idempotency.{KeyStore, RunIdempotentResult, find_key}
use flow_pay.Idempotency.HashPayload.{Platform, hash_payload}
use flow_pay.Idempotency.Alone.{run-handled}
use flow_pay.Idempotency.Repeated.{run_again}
use flow_pay.Transfers.{
  CreateTransferDto, TransferResponse, transfer_handler, transfer_params, clock, execute_transfer,
  create,
}
use flow_pay.Transfers.Paid.{asked, Found, TransferRoom, Paid, execute_transfer-Paid}

module _ (n : Numbers) where
  transfer_handler-eq-ok :
      (config : EnvConfig n) (sender_id : ℕ) (dto : CreateTransferDto n) (db db' : Db)
      (body : TransferResponse n) (id : Option ℕ)
      → transfer_handler n config sender_id dto db ≡ (ok (body, id), db')
      → execute_transfer n config sender_id dto db ≡ (ok body, db')
  unfolding transfer_handler
  transfer_handler-eq-ok config sender_id dto db db' body id e =
      elim (Outcome-cases (execute_transfer n config sender_id dto db)) [
        | inl (x, s, bad) ↦ ground (arith, bad, e)
        | inr (b, s, done) ↦ ground (arith, done, e)
      ]

  -- A transfer with a new key that ends well moves the money of the request, in its currency, from
  -- the sender to the user with the address, with the fee, and once: sent again with the same key
  -- and payload, it is answered the same, and leaves the keys and the database as they are.
  -- Balances stay below 20 digits.
  pub create-Paid :
      (platform : Platform) (text_of : n.Numeral → Text) (config : EnvConfig n) (sender_id : ℕ)
      (key : Text) (dto : CreateTransferDto n) (s s' : KeyStore Db (TransferResponse n))
      (r : RunIdempotentResult (TransferResponse n))
      → IsExact n
      → IsSound s.store
      → find_key sender_id key s.keys ≡ none
      → ((fee value : n.Decimal)
          → n.parse config.transfer_fee_flat ≡ some fee
          → n.parse dto.amount ≡ some value
          → TransferRoom n (asked n dto.amount value fee) s.store)
      → create n platform text_of config sender_id key dto s ≡ (ok r, s')
      → ((f : Found n config sender_id dto s.store) × (value : n.Decimal) × (n.parse dto.amount
            ≡ some value)
          × Paid n sender_id f.recipient.id
              (n.greater_than f.fee (n.of_int (pos 0)))
              (asked n dto.amount value f.fee)
              f.currency.code
              f.recipient.email
              s.store
              s'.store)
        × (create n platform text_of config sender_id key dto s'
            ≡ (ok (record { body = r.body; status_code = r.status_code; replayed = true }), s'))
  unfolding create
  create-Paid platform text_of config sender_id key dto s s' r ex sound new room ran =
      let params = transfer_params n text_of config sender_id key dto in
      let hash = hash_payload platform in
      let stale_ms = config.idempotency_stale_ms in
      let (body, id, handled, same) = run-handled hash stale_ms (clock n) params s s' r new ran in
      let (f, value, parses, paid, told, amount) =
        execute_transfer-Paid n config sender_id dto s.store s'.store body ex sound room
          (transfer_handler-eq-ok config sender_id dto s.store s'.store body id handled) in
      (
        (f, value, parses, paid),
        run_again hash stale_ms (clock n) params s s' r s'.store
            (transfer_handler n config sender_id dto) ran,
      )
