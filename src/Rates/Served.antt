-- ===== src/Rates/Served.antt =====
-- The rates that are served.
use flow_pay.Prelude.{
  ℕ, ◌+◌, ◌*◌, ◌^◌, ◌<◌, ◌≤◌, ◌≡◌, false, ◌⊎◌, none, some, [], ◌∷◌, ltb, arith, refl, ap, ◌∙◌, inl,
  inr, Option-cases, Bool-cases, ◌==◌, nat_eq,
}
use flow_pay.Prelude.Int.{ℤ, pos, magnitude}
use flow_pay.Prelude.Text.{Text, text_eq}
use flow_pay.Prelude.Dict.{Dict, lookup}
use mathlib.Core.Path.{subst}
use flow_pay.Numbers.{Numbers, IsExact, limit}
use flow_pay.Rates.Codes
use flow_pay.Exec.{ok}
use flow_pay.Rates.{
  RateSnapshot, coingecko, static_fallback, Fetched, Cache, Prices, live_prices, usd_prices,
  parse_prices, static_prices, refresh, get_snapshot, Rate, rate_of, get_rate,
}

-- The five currencies with their fixed prices in dollars, in units of 10⁻⁸.
pub data FixedPrice : Text → ℤ → Type 0 where
  dollar : FixedPrice Codes.usd (pos 100000000)
  euro : FixedPrice Codes.eur (pos 108000000)
  rupiah : FixedPrice Codes.idr (pos 6500)
  bitcoin : FixedPrice Codes.btc (pos 6500000000000)
  ether : FixedPrice Codes.eth (pos 350000000000)

module _ (n : Numbers) where
  -- Within its time the snapshot is served as it is, whatever the provider would say.
  cached_snapshot :
      (ttl_ms now : ℕ) (fetched : Fetched n) (snapshot : RateSnapshot n)
      → now < snapshot.as_of + ttl_ms
      → get_snapshot n ttl_ms now fetched (some snapshot) ≡ (ok snapshot, some snapshot)
  unfolding get_snapshot
  cached_snapshot ttl_ms now fetched snapshot young = ground (arith, young)

  -- A price that was parsed is found under its code.
  parse_prices-lookup :
      (entries : Dict Text n.Numeral) (prices : Prices n) (code : Text) (text : n.Numeral)
      → parse_prices n entries ≡ some prices
      → lookup code entries ≡ some text
      → (price : n.Decimal) × (lookup code prices ≡ some price) × (n.parse text ≡ some price)
  unfolding parse_prices lookup
  parse_prices-lookup [] prices code text e l = cc
  parse_prices-lookup (entry ∷ rest) prices code text e l = elim (Option-cases (n.parse entry.1)) [
    | inl bad ↦ ground (arith, bad, e)
    | inr (price, parses) ↦ elim (Option-cases (parse_prices n rest)) [
      | inl bad ↦ ground (arith, parses, bad, e)
      | inr (others, rests) ↦
          let same : some ((entry.0, price) ∷ others) ≡ some prices =
            ground (arith, parses, rests, e) in
          let found : (p : n.Decimal) × (lookup code ((entry.0, price) ∷ others) ≡ some p)
              × (n.parse text ≡ some p) =
            elim (Bool-cases (entry.0 == code)) [
              | inl hit ↦ (price, ground (arith, hit), ground (arith, hit, l, parses))
              | inr miss ↦
                  let (p, there, read) =
                    parse_prices-lookup rest others code text rests (ground (arith, miss, l)) in
                  (p, ground (arith, miss, there), read)
            ] in
          subst
            (λ w. elim w [
              | none ↦ Unit
              | some ps ↦ (p : n.Decimal) × (lookup code ps ≡ some p) × (n.parse text ≡ some p)
            ])
            same found
    ]
  ]

  parse_prices_next :
      (code : Text) (z : ℤ) (rest : Dict Text n.Numeral)
      → IsExact n
      → magnitude z < limit
      → ((prices : Prices n) × (parse_prices n rest ≡ some prices))
      → (prices : Prices n) × (parse_prices n ((code, n.numeric_out z) ∷ rest) ≡ some prices)
  unfolding parse_prices
  parse_prices_next code z rest ex small (others, rests) =
      let (price, parses, fits, same) = ex.parse_column z small in
      ((code, price) ∷ others, ground (arith, parses, rests))

  -- The fixed prices are there.
  static_prices-some : IsExact n → (prices : Prices n) × (static_prices n ≡ some prices)
  unfolding static_prices parse_prices
  static_prices-some ex =
      let eth : Dict Text n.Numeral = (Codes.eth, n.numeric_out (pos (3500 * 10 ^ 8))) ∷ [] in
      let btc : Dict Text n.Numeral = (Codes.btc, n.numeric_out (pos (65000 * 10 ^ 8))) ∷ eth in
      let idr : Dict Text n.Numeral = (Codes.idr, n.numeric_out (pos 6500)) ∷ btc in
      let eur : Dict Text n.Numeral = (Codes.eur, n.numeric_out (pos 108000000)) ∷ idr in
      parse_prices_next Codes.usd (pos (10 ^ 8)) eur ex (omega arith) (
        parse_prices_next Codes.eur (pos 108000000) idr ex (omega arith) (
          parse_prices_next Codes.idr (pos 6500) btc ex (omega arith) (
            parse_prices_next Codes.btc (pos (65000 * 10 ^ 8)) eth ex (omega arith)
              (parse_prices_next Codes.eth (pos (3500 * 10 ^ 8)) [] ex (omega arith) ([], refl)))))

  -- Where a snapshot comes from: the live provider, or the fixed prices where that fails.
  abbrev pub Fresh : ℕ → Fetched n → RateSnapshot n → Type 0
  Fresh now fetched s =
      (s.as_of ≡ now + fetched.took)
      × (((live_prices n fetched.result ≡ some s.prices) × (s.source ≡ coingecko))
          ⊎ ((live_prices n fetched.result ≡ none)
              × (static_prices n ≡ some s.prices)
              × (s.source ≡ static_fallback)))

  refresh-Fresh :
      (now : ℕ) (fetched : Fetched n) (cache : Cache n)
      → IsExact n
      → (s : RateSnapshot n) × (refresh n now fetched cache ≡ (ok s, some s)) × Fresh now fetched s
  unfolding refresh
  refresh-Fresh now fetched cache ex = elim (Option-cases (live_prices n fetched.result)) [
    | inr (prices, live) ↦ (
      record { prices = prices; source = coingecko; as_of = now + fetched.took },
      ground (arith, live),
      (refl, inl (live, refl)),
    )
    | inl down ↦
        let (prices, fixed) = static_prices-some ex in
        (
          record { prices = prices; source = static_fallback; as_of = now + fetched.took },
          ground (arith, down, fixed),
          (refl, inr (down, fixed, refl)),
        )
  ]

  -- A snapshot is always served: the cached one until its time is over, and a new one then, which is
  -- the live provider's, or has the fixed prices where that fails. It is what the cache holds afterwards.
  pub get_snapshot-served :
      (ttl_ms now : ℕ) (fetched : Fetched n) (cache : Cache n)
      → IsExact n
      → (s : RateSnapshot n) × (get_snapshot n ttl_ms now fetched cache ≡ (ok s, some s))
        × (((cache ≡ some s) × (now < s.as_of + ttl_ms)) ⊎ Fresh now fetched s)
  unfolding get_snapshot
  get_snapshot-served ttl_ms now fetched none ex =
      let (s, e, fresh) = refresh-Fresh now fetched none ex in (s, e, inr fresh)
  get_snapshot-served ttl_ms now fetched (some cached) ex =
      elim (Bool-cases (ltb now (cached.as_of + ttl_ms))) [
        | inl young ↦ (cached, ground (arith, young), inl (refl, ground (arith, young)))
        | inr old ↦
            let (s, e, fresh) = refresh-Fresh now fetched (some cached) ex in
            (s, ground (arith, old, e), inr fresh)
      ]

  rate_of-as_of :
      (s : RateSnapshot n) (from to : Text) (q : Rate n)
      → rate_of n s from to ≡ some q
      → s.as_of ≡ q.as_of
  rate_of-as_of s from to q e = elim (Option-cases (lookup from s.prices)) [
    | inl no_from ↦ ground (arith, no_from, e)
    | inr (a, priced_from) ↦ elim (Option-cases (lookup to s.prices)) [
      | inl no_to ↦ ground (arith, priced_from, no_to, e)
      | inr (b, priced_to) ↦ ground (arith, priced_from, priced_to, e)
    ]
  ]

  -- A rate that was given is given again, with its source and its time, until the time of its
  -- snapshot is over, whatever the provider would say by then.
  pub get_rate_again :
      (ttl_ms now later : ℕ) (fetched refetched : Fetched n) (from to : Text)
      (cache cache' : Cache n) (r : Rate n)
      → IsExact n
      → get_rate n ttl_ms now fetched from to cache ≡ (ok r, cache')
      → later < r.as_of + ttl_ms
      → get_rate n ttl_ms later refetched from to cache' ≡ (ok r, cache')
  unfolding get_rate
  get_rate_again ttl_ms now later fetched refetched from to cache cache' r ex e young =
      let (s, served, origin) = get_snapshot-served ttl_ms now fetched cache ex in
      elim (Option-cases (rate_of n s from to)) [
        | inl missing ↦ ground (arith, served, missing, e)
        | inr (q, priced) ↦
            let same : q ≡ r = ground (arith, served, priced, e) in
            let there : some s ≡ cache' = ground (arith, served, priced, e) in
            let dated : s.as_of ≡ r.as_of =
              rate_of-as_of s from to q priced ∙ ap (λ w. w.as_of) same in
            let served_again = cached_snapshot ttl_ms later refetched s (rw dated young) in
            subst (λ c. get_rate n ttl_ms later refetched from to c ≡ (ok r, c)) there
              (ground (arith, served_again, priced, same))
      ]

  fixed_price-lookup :
      (code : Text) (z : ℤ)
      → FixedPrice code z
      → (lookup code (usd_prices n) ≡ some (n.numeric_out z)) × (magnitude z < limit)
  unfolding lookup
  fixed_price-lookup _ _ dollar = (refl, omega arith)
  fixed_price-lookup _ _ euro = (refl, omega arith)
  fixed_price-lookup _ _ rupiah = (refl, omega arith)
  fixed_price-lookup _ _ bitcoin = (refl, omega arith)
  fixed_price-lookup _ _ ether = (refl, omega arith)

  -- the fixed price of one of the five currencies is in the snapshot
  fixed_price-priced :
      (code : Text) (z : ℤ) (prices : Prices n)
      → IsExact n
      → FixedPrice code z
      → static_prices n ≡ some prices
      → (a : n.Decimal) × (lookup code prices ≡ some a) × (n.units a ≡ z)
  unfolding static_prices
  fixed_price-priced code z prices ex fixed e =
      let (listed, small) = fixed_price-lookup code z fixed in
      let (a, priced, read) =
        parse_prices-lookup (usd_prices n) prices code (n.numeric_out z) e listed in
      let (x, parses, fits, same) = ex.parse_column z small in
      let that : x ≡ a = ground (arith, parses, read) in
      (a, priced, subst (λ w. n.units w ≡ z) that same)

  -- Nothing is cached, or its time is over.
  abbrev pub Due : ℕ → ℕ → Cache n → Type 0
  Due ttl_ms now none = Unit
  Due ttl_ms now (some s) = s.as_of + ttl_ms ≤ now

  fallback_snapshot :
      (ttl_ms now : ℕ) (fetched : Fetched n) (cache : Cache n) (prices : Prices n)
      → live_prices n fetched.result ≡ none
      → static_prices n ≡ some prices
      → Due ttl_ms now cache
      → get_snapshot n ttl_ms now fetched cache ≡ (
        ok (record { prices = prices; source = static_fallback; as_of = now + fetched.took }),
        some (record { prices = prices; source = static_fallback; as_of = now + fetched.took }),
      )
  unfolding get_snapshot refresh
  fallback_snapshot ttl_ms now fetched none prices down fixed due = ground (arith, down, fixed)
  fallback_snapshot ttl_ms now fetched (some s) prices down fixed due =
      let old : ltb now (s.as_of + ttl_ms) ≡ false = ground (arith, due) in
      ground (arith, down, fixed, old)

  -- Where the live provider fails and no snapshot is valid, there is a rate for every two of the
  -- five currencies, dollar, euro, rupiah, bitcoin and ether: it is the quotient of their fixed
  -- prices, it says that it is not live, and it is dated after the attempt.
  pub get_rate_offline :
      (ttl_ms now : ℕ) (fetched : Fetched n) (from to : Text) (p q : ℤ) (cache : Cache n)
      → IsExact n
      → live_prices n fetched.result ≡ none
      → Due ttl_ms now cache
      → FixedPrice from p
      → FixedPrice to q
      → (r : Rate n) × (cache' : Cache n) × (get_rate n ttl_ms now fetched from to cache
          ≡ (ok r, cache'))
        × (a : n.Decimal) × (b : n.Decimal) × (n.units a ≡ p)
        × (n.units b ≡ q)
        × (r.rate ≡ n.divided_by a b)
        × (r.source ≡ static_fallback)
        × (r.as_of ≡ now + fetched.took)
  unfolding get_rate
  get_rate_offline ttl_ms now fetched from to p q cache ex down due ep eq =
      let (prices, fixed) = static_prices-some ex in
      let (a, priced_from, ua) = fixed_price-priced from p prices ex ep fixed in
      let (b, priced_to, ub) = fixed_price-priced to q prices ex eq fixed in
      let s : RateSnapshot n = record {
        prices = prices;
        source = static_fallback;
        as_of = now + fetched.took;
      } in
      let served = fallback_snapshot ttl_ms now fetched cache prices down fixed due in
      (
        record { rate = n.divided_by a b; source = static_fallback; as_of = now + fetched.took },
        some s,
        ground (arith, served, priced_from, priced_to),
        a,
        b,
        ua,
        ub,
        refl,
        refl,
        refl,
      )
