-- ===== src/Fx/Once.antt =====
-- A conversion with an idempotency key.
use flow_pay.Prelude.{ℕ, ◌≡◌, none, true, nat_eq, ap}
use flow_pay.Prelude.Text.{Text, text_eq}
use flow_pay.Numbers.{Numbers, IsExact}
use flow_pay.Config.{EnvConfig}
use flow_pay.Exec.{ok}
use flow_pay.Ledger.Invariant.{IsSound}
use flow_pay.Idempotency.{KeyStore, RunIdempotentResult, find_key, body_of}
use flow_pay.Idempotency.HashPayload.{Platform, hash_payload}
use flow_pay.Idempotency.Alone.{run-handled}
use flow_pay.Idempotency.Repeated.{run_again}
use flow_pay.Rates.{Fetched}
use flow_pay.TradeExecution.Swapped.{SwapRoom}
use flow_pay.Fx.{
  ConvertDto, ConvertResponse, ConversionComputation, World, convert_swap, compute_conversion,
  clock, convert_params, execute_convert, convert,
}
use flow_pay.Fx.Priced.{Exchange}
use flow_pay.Fx.Converted.{Converted, Answers, execute_convert-Converted}

module _ (n : Numbers) where
  -- A conversion with a new key that ends well is between the two currencies of the request, which
  -- differ: its amount, rounded at the first currency's decimals, is taken from the user, and given
  -- in the second at the rate of `getRate` less the spread, rounded at the second's decimals; the
  -- answer tells the currencies, amounts and rates. It moves the money once: sent again with the
  -- same key, at whatever rates, it is answered the same and leaves the keys, the rates' cache and
  -- the database as they are. Balances stay below 20 digits.
  pub convert-Converted :
      (platform : Platform) (text_of : n.Numeral → Text) (config : EnvConfig n)
      (fetched refetched : Fetched n) (user_id : ℕ) (key : Text) (dto : ConvertDto n)
      (s s' : KeyStore (World n) (ConvertResponse n)) (r : RunIdempotentResult (ConvertResponse n))
      → IsExact n
      → IsSound s.store.db
      → find_key user_id key s.keys ≡ none
      → ((c : ConversionComputation n) (v : World n)
          → compute_conversion n config fetched dto s.store ≡ (ok c, v)
          → SwapRoom n (convert_swap n user_id c) s.store.db)
      → convert n platform text_of config fetched user_id key dto s ≡ (ok r, s')
      → ((c : ConversionComputation n) × (body : ConvertResponse n) × Exchange n config fetched dto
            s.store c
          × Converted n user_id c s.store.db s'.store.db
          × Answers n c body
          × (r.body ≡ body_of body))
        × (convert n platform text_of config refetched user_id key dto s'
            ≡ (ok (record { body = r.body; status_code = r.status_code; replayed = true }), s'))
  unfolding convert
  convert-Converted platform text_of config fetched refetched user_id key dto s s' r ex sound new
        room ran =
      let params = convert_params n text_of config fetched user_id key dto in
      let hash = hash_payload platform in
      let stale_ms = config.idempotency_stale_ms in
      let (body, id, handled, same) = run-handled hash stale_ms (clock n) params s s' r new ran in
      let (c, exchange, converted, answers) =
        execute_convert-Converted n config fetched user_id dto s.store s'.store body id ex sound
          room handled in
      (
        (c, body, exchange, converted, answers, ap (λ a. a.body) same),
        run_again hash stale_ms (clock n) params s s' r s'.store
            (execute_convert n config refetched user_id dto) ran,
      )
