-- ===== src/Fx.antt =====
-- backend/src/fx/fx.service.ts: conversion of a user's money at the current rate less a spread. The
-- service reads the rates' cache and works on the database.
pub mod Priced
pub mod Converted
pub mod Once
pub mod Matrix
use flow_pay.Prelude.{
  ℕ, ◌+◌, Bool, true, false, Option, none, some, List, [], ◌∷◌, map, ◌==◌, select, if◌then◌else◌,
}
use flow_pay.Prelude.Int.{pos}
use flow_pay.Prelude.Text.{Text, text_eq, text_leb}
use flow_pay.Prelude.Dict.{Dict, lookup, insert}
use flow_pay.Numbers.{Numbers}
use flow_pay.Config.{EnvConfig}
use flow_pay.Exec.{
  Exec, or_throw, throw_if, lift, pure, gets, transaction, unprocessable, internal, ok, err, ◌>>=◌,
  ◌>>◌,
}
use flow_pay.Db.{Db, Action, AccountKind, Currency, JournalEntryType, DomainEventType}
use flow_pay.Ledger.{wallet_key, get_currency, list_currencies}
use flow_pay.Outbox.{append}
use flow_pay.Users.{find_by_id, email_of}
use flow_pay.Idempotency.{KeyStore, RunIdempotentParams, RunIdempotentResult, run}
use flow_pay.Idempotency.HashPayload.{Platform, Json, str, obj, no_fields, field, hash_payload}
use flow_pay.Rates.{Cache, Fetched, Rate, RateSource, RateSnapshot, get_rate, get_snapshot}
use flow_pay.TradeExecution.{
  ExecuteSwapInput, ExecuteSwapResult, SwapAccounts, open_accounts, post_swap,
}

pub record ConvertDto (n : Numbers) : Type 0 where
  pub from : Text
  pub to : Text
  pub amount : n.Numeral

pub record ConvertResponse (n : Numbers) : Type 0 where
  pub entry_id : ℕ
  pub from : Text
  pub to : Text
  pub amount : n.Numeral
  pub to_amount : n.Numeral
  pub rate : n.Decimal
  pub net_rate : n.Decimal
  pub spread_bps : ℕ
  pub from_balance : Option n.Numeral
  pub to_balance : Option n.Numeral

pub record QuoteResponse (n : Numbers) : Type 0 where
  pub from : Text
  pub to : Text
  pub amount : n.Numeral
  pub rate : n.Decimal
  pub spread_bps : ℕ
  pub net_rate : n.Decimal
  pub to_amount : n.Numeral
  pub quote_expires_at : ℕ
  pub source : RateSource

pub record RatesResponse (n : Numbers) : Type 0 where
  pub as_of : ℕ
  pub source : RateSource
  pub prices : Dict Text n.Decimal
  pub matrix : Dict Text (Dict Text n.Decimal)

pub record ConversionComputation (n : Numbers) : Type 0 where
  pub from_currency : Currency
  pub to_currency : Currency
  pub from_amount : n.Numeral
  pub to_amount : n.Numeral
  pub rate : n.Decimal
  pub net_rate : n.Decimal
  pub spread_bps : ℕ
  pub source : RateSource
  pub as_of : ℕ

-- `POST /api/v1/fx/convert`
abbrev pub endpoint : Text
endpoint =
    80 ∷ 79 ∷ 83 ∷ 84 ∷ 32 ∷ 47 ∷ 97 ∷ 112 ∷ 105 ∷ 47 ∷ 118 ∷ 49 ∷ 47 ∷ 102 ∷ 120 ∷ 47 ∷ 99 ∷ 111
    ∷ 110 ∷ 118 ∷ 101 ∷ 114 ∷ 116 ∷ []

-- the fields' names
abbrev from_field : Text
from_field = 102 ∷ 114 ∷ 111 ∷ 109 ∷ []

abbrev to_field : Text
to_field = 116 ∷ 111 ∷ []

abbrev amount_field : Text
amount_field = 97 ∷ 109 ∷ 111 ∷ 117 ∷ 110 ∷ 116 ∷ []

-- The rates' cache beside the database.
pub record World (n : Numbers) : Type 0 where
  pub cache : Cache n
  pub db : Db

module _ (n : Numbers) where
  unfoldable pub on_db : {A : Type 0} → Action A → Exec (World n) A
  on_db m w = let (r, db) = m w.db in (r, record w { db = db })

  unfoldable pub on_cache : {A : Type 0} → (ℕ → Exec (Cache n) A) → Exec (World n) A
  on_cache m w = let (r, cache) = m w.db.now w.cache in (r, record w { cache = cache })

  -- the rate less the spread
  abbrev pub net_rate_of : ℕ → n.Decimal → n.Decimal
  net_rate_of spread_bps rate =
      n.times rate (
        n.minus (n.of_int (pos 1))
          (n.divided_by (n.of_int (pos spread_bps)) (n.of_int (pos 10000))))

  -- the amounts, rounded half to even at the decimals of their currencies
  abbrev pub computation_of : ℕ → Currency → Currency → Rate n → n.Decimal → ConversionComputation n
  computation_of spread_bps from to r amount =
      let net_rate = net_rate_of spread_bps r.rate in
      let from_amount = n.to_decimal_places from.decimals amount in
      let to_amount = n.to_decimal_places to.decimals (n.times from_amount net_rate) in
      record {
        from_currency = from;
        to_currency = to;
        from_amount = n.to_fixed from.decimals from_amount;
        to_amount = n.to_fixed to.decimals to_amount;
        rate = r.rate;
        net_rate = net_rate;
        spread_bps = spread_bps;
        source = r.source;
        as_of = r.as_of;
      }

  -- `computeConversion` once the currencies are known
  unfoldable pub price_conversion :
      EnvConfig n
      → Fetched n
      → Currency
      → Currency
      → n.Numeral
      → Exec (World n) (ConversionComputation n)
  price_conversion config fetched from to amount = do
    r ← on_cache (λ now. get_rate n config.rate_cache_ttl_ms now fetched from.code to.code)
    value ← or_throw (n.parse amount) internal
    pure (computation_of config.fx_spread_bps from to r value)

  unfoldable pub compute_conversion :
      EnvConfig n → Fetched n → ConvertDto n → Exec (World n) (ConversionComputation n)
  compute_conversion config fetched dto = do
    from ← on_db (get_currency dto.from)
    to ← on_db (get_currency dto.to)
    throw_if (from.code == to.code) unprocessable
    price_conversion config fetched from to dto.amount

  abbrev pub quote_of : EnvConfig n → ConversionComputation n → QuoteResponse n
  quote_of config c = record {
    from = c.from_currency.code;
    to = c.to_currency.code;
    amount = c.from_amount;
    rate = c.rate;
    spread_bps = c.spread_bps;
    net_rate = c.net_rate;
    to_amount = c.to_amount;
    quote_expires_at = c.as_of + config.rate_cache_ttl_ms;
    source = c.source;
  }

  unfoldable pub get_quote :
      EnvConfig n → Fetched n → ConvertDto n → Exec (World n) (QuoteResponse n)
  get_quote config fetched dto = do
    c ← compute_conversion config fetched dto
    pure (quote_of config c)

  abbrev pub convert_swap : ℕ → ConversionComputation n → ExecuteSwapInput n
  convert_swap user_id c = record {
    source = wallet_key user_id c.from_currency.code;
    from_amount = c.from_amount;
    to_user_id = user_id;
    to_currency_code = c.to_currency.code;
    to_amount = c.to_amount;
    entry_type = JournalEntryType.fx_convert;
  }

  -- the body of the transaction of `executeConvert`
  unfoldable pub post_conversion :
      ℕ → ConversionComputation n → SwapAccounts → Action (ExecuteSwapResult n)
  post_conversion user_id c accounts = do
    swap ← post_swap n (convert_swap user_id c) accounts
    user ← find_by_id user_id
    append DomainEventType.fx_converted swap.entry_id (email_of user)
    pure swap

  -- the writes of `executeConvert`
  unfoldable pub book_conversion : ℕ → ConversionComputation n → Action (ExecuteSwapResult n)
  book_conversion user_id c = do
    accounts ← open_accounts n (convert_swap user_id c)
    transaction (post_conversion user_id c accounts)

  abbrev pub convert_response : ConversionComputation n → ExecuteSwapResult n → ConvertResponse n
  convert_response c swap = record {
    entry_id = swap.entry_id;
    from = c.from_currency.code;
    to = c.to_currency.code;
    amount = c.from_amount;
    to_amount = c.to_amount;
    rate = c.rate;
    net_rate = c.net_rate;
    spread_bps = c.spread_bps;
    from_balance = swap.source_balance;
    to_balance = swap.to_balance;
  }

  unfoldable pub execute_convert :
      EnvConfig n → Fetched n → ℕ → ConvertDto n → Exec (World n) (ConvertResponse n × Option ℕ)
  execute_convert config fetched user_id dto = do
    c ← compute_conversion config fetched dto
    swap ← on_db (book_conversion user_id c)
    pure (convert_response c swap, some swap.entry_id)

  -- The request's payload; an amount's text is what the client sent.
  abbrev pub payload_of : (n.Numeral → Text) → ConvertDto n → Json
  payload_of text_of dto = obj (
      field from_field (str dto.from)
        (field to_field (str dto.to) (field amount_field (str (text_of dto.amount)) no_fields)))

  abbrev pub convert_params :
      (n.Numeral → Text)
      → EnvConfig n
      → Fetched n
      → ℕ
      → Text
      → ConvertDto n
      → RunIdempotentParams (World n) (ConvertResponse n)
  convert_params text_of config fetched user_id idempotency_key dto = record {
    user_id = user_id;
    key = idempotency_key;
    endpoint = endpoint;
    request_payload = payload_of text_of dto;
    success_status = 201;
    handler = execute_convert config fetched user_id dto;
  }

  abbrev pub clock : World n → ℕ
  clock w = w.db.now

  unfoldable pub convert :
      Platform
      → (n.Numeral → Text)
      → EnvConfig n
      → Fetched n
      → ℕ
      → Text
      → ConvertDto n
      → Exec (KeyStore (World n) (ConvertResponse n)) (RunIdempotentResult (ConvertResponse n))
  convert platform text_of config fetched user_id idempotency_key dto =
      run (hash_payload platform) config.idempotency_stale_ms clock
        (convert_params text_of config fetched user_id idempotency_key dto)

  -- The loop over the currencies that have a price: under each code, what is made of its price.
  abbrev pub fill :
      {V : Type 0} → RateSnapshot n → (n.Decimal → V) → Dict Text V → List Currency → Dict Text V
  fill snapshot make table [] = table
  fill snapshot make table (c ∷ rest) = elim (lookup c.code snapshot.prices) [
    | none ↦ fill snapshot make table rest
    | some price ↦ fill snapshot make (insert c.code (make price) table) rest
  ]

  abbrev pub prices_of : RateSnapshot n → List Currency → Dict Text n.Decimal
  prices_of snapshot currencies = fill snapshot (λ price. price) [] currencies

  -- one row of rates for each currency
  abbrev pub matrix_of : RateSnapshot n → List Currency → Dict Text (Dict Text n.Decimal)
  matrix_of snapshot currencies =
      fill snapshot
        (λ from_price. fill snapshot (λ to_price. n.divided_by from_price to_price) [] currencies)
        [] currencies

  unfoldable pub get_rates_matrix : EnvConfig n → Fetched n → Exec (World n) (RatesResponse n)
  get_rates_matrix config fetched = do
    currencies ← on_db list_currencies
    snapshot ← on_cache (λ now. get_snapshot n config.rate_cache_ttl_ms now fetched)
    pure (record {
      as_of = snapshot.as_of;
      source = snapshot.source;
      prices = prices_of snapshot currencies;
      matrix = matrix_of snapshot currencies;
    })
