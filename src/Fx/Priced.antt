-- ===== src/Fx/Priced.antt =====
-- The price of a conversion.
use flow_pay.Prelude.{
  ◌+◌, ◌<◌, find, ◌≡◌, false, some, arith, ap, sym, ◌==◌, nat_eq, inl, inr, Bool-cases, refl,
  Option-cases,
}
use mathlib.Core.Path.{subst}
use flow_pay.Prelude.Text.{Text, text_eq, to_upper}
use flow_pay.Numbers.{Numbers, IsExact}
use flow_pay.Config.{EnvConfig}
use flow_pay.Exec.{ok, Outcome-cases}
use flow_pay.Db.{Db, Currency}
use flow_pay.Ledger.{get_currency, get_currency_cases, get_currency-eq-ok}
use flow_pay.Prelude.Int.{pos}
use flow_pay.Rates.{Cache, Fetched, Rate, get_rate}
use flow_pay.Rates.Served.{get_rate_again}
use flow_pay.Fx.{
  ConvertDto, ConversionComputation, QuoteResponse, World, on_db, on_cache, computation_of,
  price_conversion, compute_conversion, quote_of, get_quote,
}

module _ (n : Numbers) where
  -- What a computed conversion was computed from.
  pub record Computed (config : EnvConfig n) (fetched : Fetched n) (dto : ConvertDto n)
      (w w' : World n) (c : ConversionComputation n) : Type 0 where
    pub from : Currency
    pub to : Currency
    pub from_found : get_currency dto.from w.db ≡ (ok from, w.db)
    pub to_found : get_currency dto.to w.db ≡ (ok to, w.db)
    pub differ : (from.code == to.code) ≡ false
    pub r : Rate n
    pub rated :
        get_rate n config.rate_cache_ttl_ms w.db.now fetched from.code to.code w.cache
        ≡ (ok r, w'.cache)
    pub value : n.Decimal
    pub parses : n.parse dto.amount ≡ some value
    pub result : c ≡ computation_of n config.fx_spread_bps from to r value
    pub same_db : w'.db ≡ w.db

  price_conversion-eq-ok :
      (config : EnvConfig n) (fetched : Fetched n) (from to : Currency) (amount : n.Numeral)
      (w w' : World n) (c : ConversionComputation n)
      → price_conversion n config fetched from to amount w ≡ (ok c, w')
      → (r : Rate n) × (value : n.Decimal) × (get_rate n config.rate_cache_ttl_ms w.db.now fetched
            from.code to.code w.cache
          ≡ (ok r, w'.cache))
        × (n.parse amount ≡ some value)
        × (c ≡ computation_of n config.fx_spread_bps from to r value)
        × (w'.db ≡ w.db)
  unfolding price_conversion on_cache
  price_conversion-eq-ok config fetched from to amount w w' c e =
      elim (Outcome-cases
        (get_rate n config.rate_cache_ttl_ms w.db.now fetched from.code to.code w.cache)) [
          | inl (x, s, bad) ↦ ground (arith, bad, e)
          | inr (r, cache, rated) ↦ elim (Option-cases (n.parse amount)) [
            | inl bad ↦ ground (arith, rated, bad, e)
            | inr (value, parses) ↦
                let there : cache ≡ w'.cache = ground (arith, rated, parses, e) in
                (
                  r,
                  value,
                  subst
                      (λ k.
                        get_rate n config.rate_cache_ttl_ms w.db.now fetched from.code to.code
                          w.cache
                        ≡ (ok r, k))
                      there rated,
                  parses,
                  ground (arith, rated, parses, e),
                  ground (arith, rated, parses, e),
                )
          ]
        ]

  compute_conversion-Computed :
      (config : EnvConfig n) (fetched : Fetched n) (dto : ConvertDto n) (w w' : World n)
      (c : ConversionComputation n)
      → compute_conversion n config fetched dto w ≡ (ok c, w')
      → Computed config fetched dto w w' c
  unfolding compute_conversion on_db
  compute_conversion-Computed config fetched dto w w' c e =
      elim (get_currency_cases dto.from w.db) [
        | inr absent ↦ ground (arith, absent, e)
        | inl (from, ef) ↦ elim (get_currency_cases dto.to w.db) [
          | inr absent ↦ ground (arith, ef, absent, e)
          | inl (to, et) ↦ elim (Bool-cases (from.code == to.code)) [
            | inl same ↦ ground (arith, ef, et, same, e)
            | inr differ ↦
                let priced : price_conversion n config fetched from to dto.amount w ≡ (ok c, w') =
                  ground (arith, ef, et, differ, e) in
                let (r, value, rated, parses, result, same_db) =
                  price_conversion-eq-ok config fetched from to dto.amount w w' c priced in
                record {
                  from = from;
                  to = to;
                  from_found = ef;
                  to_found = et;
                  differ = differ;
                  r = r;
                  rated = rated;
                  value = value;
                  parses = parses;
                  result = result;
                  same_db = same_db;
                }
          ]
        ]
      ]

  -- What a request is converted to: the two currencies are those of the request, and differ; the
  -- first amount is the request's, rounded at the first currency's decimals, and the second is that
  -- at the rate less the spread, rounded at the second's.
  pub record Exchange (config : EnvConfig n) (fetched : Fetched n) (dto : ConvertDto n)
      (w : World n) (c : ConversionComputation n) : Type 0 where
    pub from_found : find (λ x. x.code == to_upper dto.from) w.db.currencies ≡ some c.from_currency
    pub to_found : find (λ x. x.code == to_upper dto.to) w.db.currencies ≡ some c.to_currency
    pub differ : (c.from_currency.code == c.to_currency.code) ≡ false
    pub r : Rate n
    pub cache : Cache n
    pub rated :
        get_rate n config.rate_cache_ttl_ms w.db.now fetched c.from_currency.code c.to_currency.code
          w.cache
        ≡ (ok r, cache)
    pub value : n.Decimal
    pub parses : n.parse dto.amount ≡ some value
    pub from_amount :
        c.from_amount
        ≡ n.to_fixed c.from_currency.decimals (n.to_decimal_places c.from_currency.decimals value)
    pub rate : c.rate ≡ r.rate
    pub net_rate :
        c.net_rate
        ≡ n.times r.rate (
            n.minus
              (n.of_int (pos 1))
              (n.divided_by (n.of_int (pos config.fx_spread_bps)) (n.of_int (pos 10000))))
    pub to_amount :
        c.to_amount
        ≡ n.to_fixed c.to_currency.decimals (
            n.to_decimal_places c.to_currency.decimals
              (n.times (n.to_decimal_places c.from_currency.decimals value) c.net_rate))

  pub compute_conversion-Exchange :
      (config : EnvConfig n) (fetched : Fetched n) (dto : ConvertDto n) (w w' : World n)
      (c : ConversionComputation n)
      → compute_conversion n config fetched dto w ≡ (ok c, w')
      → Exchange config fetched dto w c
  compute_conversion-Exchange config fetched dto w w' c e =
      let m = compute_conversion-Computed config fetched dto w w' c e in
      subst (λ k. Exchange config fetched dto w k) (sym m.result)
        (record {
          from_found = (get_currency-eq-ok dto.from w.db w.db m.from m.from_found).0;
          to_found = (get_currency-eq-ok dto.to w.db w.db m.to m.to_found).0;
          differ = m.differ;
          r = m.r;
          cache = w'.cache;
          rated = m.rated;
          value = m.value;
          parses = m.parses;
          from_amount = refl;
          rate = refl;
          net_rate = refl;
          to_amount = refl;
        })

  pub compute_conversion-frame :
      (config : EnvConfig n) (fetched : Fetched n) (dto : ConvertDto n) (w w' : World n)
      (c : ConversionComputation n)
      → compute_conversion n config fetched dto w ≡ (ok c, w')
      → (w'.db ≡ w.db) × ((c.from_currency.code == c.to_currency.code) ≡ false)
  compute_conversion-frame config fetched dto w w' c e =
      let m = compute_conversion-Computed config fetched dto w w' c e in
      (m.same_db, rw m.result m.differ)

  get_currency_frame :
      (code : Text) (db d : Db) (c : Currency)
      → d.currencies ≡ db.currencies
      → get_currency code db ≡ (ok c, db)
      → get_currency code d ≡ (ok c, d)
  unfolding get_currency
  get_currency_frame code db d c same e =
      elim (Option-cases (find (λ x. x.code == to_upper code) db.currencies)) [
        | inl absent ↦ ground (arith, absent, e)
        | inr (x, found) ↦
            let there : find (λ x. x.code == to_upper code) d.currencies ≡ some x = rw same found in
            ground (arith, found, there, e)
      ]

  -- Until the snapshot's time is over the same request is priced the same, whatever happened to the
  -- rest of the database and whatever the provider would say.
  compute_conversion_again :
      (config : EnvConfig n) (fetched refetched : Fetched n) (dto : ConvertDto n) (w w' : World n)
      (c : ConversionComputation n) (db : Db)
      → IsExact n
      → compute_conversion n config fetched dto w ≡ (ok c, w')
      → db.currencies ≡ w.db.currencies
      → db.now < c.as_of + config.rate_cache_ttl_ms
      → compute_conversion n config refetched dto (record { cache = w'.cache; db = db })
        ≡ (ok c, record { cache = w'.cache; db = db })
  unfolding compute_conversion price_conversion on_db on_cache
  compute_conversion_again config fetched refetched dto w w' c db ex e same young =
      let m = compute_conversion-Computed config fetched dto w w' c e in
      let ef = get_currency_frame dto.from w.db db m.from same m.from_found in
      let et = get_currency_frame dto.to w.db db m.to same m.to_found in
      let rated =
        get_rate_again n config.rate_cache_ttl_ms w.db.now db.now fetched refetched m.from.code
          m.to.code w.cache w'.cache m.r ex m.rated (rw m.result at young) in
      ground (arith, ef, et, m.differ, rated, m.parses, m.result)

  get_quote-eq-ok :
      (config : EnvConfig n) (fetched : Fetched n) (dto : ConvertDto n) (w w' : World n)
      (q : QuoteResponse n)
      → get_quote n config fetched dto w ≡ (ok q, w')
      → (c : ConversionComputation n) × (compute_conversion n config fetched dto w ≡ (ok c, w'))
        × (q ≡ quote_of n config c)
  unfolding get_quote
  get_quote-eq-ok config fetched dto w w' q e =
      elim (Outcome-cases (compute_conversion n config fetched dto w)) [
        | inl (x, s, bad) ↦ ground (arith, bad, e)
        | inr (c, v, computed) ↦
            let there : v ≡ w' = ground (arith, computed, e) in
            (
              c,
              subst (λ u. compute_conversion n config fetched dto w ≡ (ok c, u)) there computed,
              ground (arith, computed, e),
            )
      ]

  -- A quote is honoured: a conversion of the same request, before the quote expires, is computed
  -- with the currencies, amounts, rates, spread and source of the quote, whatever the provider
  -- would say by then and whatever happened to the rest of the database.
  pub quote_honoured :
      (config : EnvConfig n) (fetched refetched : Fetched n) (dto : ConvertDto n) (w w' : World n)
      (q : QuoteResponse n) (db : Db)
      → IsExact n
      → get_quote n config fetched dto w ≡ (ok q, w')
      → db.currencies ≡ w.db.currencies
      → db.now < q.quote_expires_at
      → (c : ConversionComputation n) × (compute_conversion n config refetched dto
            (record { cache = w'.cache; db = db })
          ≡ (ok c, record { cache = w'.cache; db = db }))
        × (c.from_amount ≡ q.amount)
        × (c.to_amount ≡ q.to_amount)
        × (c.net_rate ≡ q.net_rate)
        × (c.rate ≡ q.rate)
        × (c.spread_bps ≡ q.spread_bps)
        × (c.from_currency.code ≡ q.from)
        × (c.to_currency.code ≡ q.to)
        × (c.source ≡ q.source)
  quote_honoured config fetched refetched dto w w' q db ex e same young =
      let (c, computed, quoted) = get_quote-eq-ok config fetched dto w w' q e in
      (
        c,
        compute_conversion_again config fetched refetched dto w w' c db ex computed same
            (rw quoted at young),
        sym (ap (λ p. p.amount) quoted),
        sym (ap (λ p. p.to_amount) quoted),
        sym (ap (λ p. p.net_rate) quoted),
        sym (ap (λ p. p.rate) quoted),
        sym (ap (λ p. p.spread_bps) quoted),
        sym (ap (λ p. p.from) quoted),
        sym (ap (λ p. p.to) quoted),
        sym (ap (λ p. p.source) quoted),
      )
