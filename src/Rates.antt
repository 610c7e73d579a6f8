-- ===== src/Rates.antt =====
-- backend/src/rates: prices in dollars from the live provider, kept for a while, with fixed prices where
-- it fails. What `fetch` brings is an argument.
pub mod Codes
pub mod Served
use flow_pay.Prelude.{ℕ, ◌+◌, ◌*◌, ◌^◌, Option, none, some, List, [], ◌∷◌, ltb, if◌then◌else◌}
use flow_pay.Prelude.Int.{pos}
use flow_pay.Prelude.Text.{Text, text_eq}
use flow_pay.Prelude.Dict.{Dict, lookup}
use flow_pay.Numbers.{Numbers}
use flow_pay.Rates.Codes
use flow_pay.Exec.{Exec, Result, ok, err, internal, not_found, pure, or_throw, ◌>>=◌}

pub data RateSource : Type 0 where
  coingecko static_fallback : RateSource

module _ (n : Numbers) where
  abbrev pub Prices : Type 0
  Prices = Dict Text n.Decimal

  pub record RateSnapshot : Type 0 where
    pub prices : Prices
    pub source : RateSource
    pub as_of : ℕ

  -- the prices in the response, each of which may be missing
  pub record CoinGeckoSimplePriceResponse : Type 0 where
    pub btc_usd : Option n.Numeral
    pub btc_eur : Option n.Numeral
    pub btc_idr : Option n.Numeral
    pub eth_usd : Option n.Numeral

  -- how `fetch` ends
  pub data FetchResult : Type 0 where
    failed : FetchResult
    bad_status : ℕ → FetchResult
    body : CoinGeckoSimplePriceResponse → FetchResult

  -- what `fetch` brings, and the milliseconds that pass until then
  pub record Fetched : Type 0 where
    pub result : FetchResult
    pub took : ℕ

  abbrev pub parsed : Option n.Numeral → Option n.Decimal
  parsed none = none
  parsed (some s) = n.parse s

  abbrev pub triangulated : n.Decimal → n.Decimal → n.Decimal → n.Decimal → Prices
  triangulated btc_usd btc_eur btc_idr eth_usd =
      (Codes.usd, n.of_int (pos 1))
      ∷ (Codes.eur, n.divided_by btc_usd btc_eur)
      ∷ (Codes.idr, n.divided_by btc_usd btc_idr)
      ∷ (Codes.btc, btc_usd)
      ∷ (Codes.eth, eth_usd)
      ∷ []

  -- `CoinGeckoRateProvider.getUsdPrices`; `none` where it throws
  unfoldable pub live_prices : FetchResult → Option Prices
  live_prices failed = none
  live_prices (bad_status code) = none
  live_prices (body response) = elim (parsed response.btc_usd) [
    | none ↦ none
    | some btc_usd ↦ elim (parsed response.btc_eur) [
      | none ↦ none
      | some btc_eur ↦ elim (parsed response.btc_idr) [
        | none ↦ none
        | some btc_idr ↦ elim (parsed response.eth_usd) [
          | none ↦ none
          | some eth_usd ↦ some (triangulated btc_usd btc_eur btc_idr eth_usd)
        ]
      ]
    ]
  ]

  -- `StaticRateProvider.USD_PRICES`, whose texts are counts of 10⁻⁸ here
  abbrev pub usd_prices : Dict Text n.Numeral
  usd_prices =
      (Codes.usd, n.numeric_out (pos (10 ^ 8)))
      ∷ (Codes.eur, n.numeric_out (pos 108000000))
      ∷ (Codes.idr, n.numeric_out (pos 6500))
      ∷ (Codes.btc, n.numeric_out (pos (65000 * 10 ^ 8)))
      ∷ (Codes.eth, n.numeric_out (pos (3500 * 10 ^ 8)))
      ∷ []

  -- the loop over the entries, from the last one on
  unfoldable pub parse_prices : Dict Text n.Numeral → Option Prices
  parse_prices [] = some []
  parse_prices (entry ∷ rest) = elim (n.parse entry.1) [
    | none ↦ none
    | some price ↦ elim (parse_prices rest) [
      | none ↦ none
      | some prices ↦ some ((entry.0, price) ∷ prices)
    ]
  ]

  -- `StaticRateProvider.getUsdPrices`
  unfoldable pub static_prices : Option Prices
  unfolding parse_prices
  static_prices = parse_prices usd_prices

  -- The service's one field, `cache`.
  abbrev pub Cache : Type 0
  Cache = Option RateSnapshot

  -- a snapshot that becomes the cache
  abbrev pub remember : RateSnapshot → Exec Cache RateSnapshot
  remember snapshot cache = (ok snapshot, some snapshot)

  -- `asOf` is the time after the fetch.
  unfoldable pub refresh : ℕ → Fetched → Exec Cache RateSnapshot
  refresh now fetched cache = elim (live_prices fetched.result) [
    | some prices ↦
        remember (record { prices = prices; source = coingecko; as_of = now + fetched.took }) cache
    | none ↦ elim static_prices [
      | some prices ↦
          remember
            (record { prices = prices; source = static_fallback; as_of = now + fetched.took }) cache
      | none ↦ (err internal, cache)
    ]
  ]

  unfoldable pub get_snapshot : ℕ → ℕ → Fetched → Exec Cache RateSnapshot
  unfolding refresh
  get_snapshot ttl_ms now fetched (some cached) =
      if ltb now (cached.as_of + ttl_ms)
      then (ok cached, some cached)
      else refresh now fetched (some cached)
  get_snapshot ttl_ms now fetched none = refresh now fetched none

  pub record Rate : Type 0 where
    pub rate : n.Decimal
    pub source : RateSource
    pub as_of : ℕ

  abbrev pub rate_of : RateSnapshot → Text → Text → Option Rate
  rate_of snapshot from to = elim (lookup from snapshot.prices) [
    | none ↦ none
    | some from_price ↦ elim (lookup to snapshot.prices) [
      | none ↦ none
      | some to_price ↦ some (record {
        rate = n.divided_by from_price to_price;
        source = snapshot.source;
        as_of = snapshot.as_of;
      })
    ]
  ]

  unfoldable pub get_rate : ℕ → ℕ → Fetched → Text → Text → Exec Cache Rate
  get_rate ttl_ms now fetched from to = do
    snapshot ← get_snapshot ttl_ms now fetched
    or_throw (rate_of snapshot from to) not_found
