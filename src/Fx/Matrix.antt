-- ===== src/Fx/Matrix.antt =====
-- The matrix of rates.
use flow_pay.Prelude.{
  ◌≡◌, Bool, true, false, some, List, [], ◌∷◌, arith, refl, ap, sym, ◌∙◌, inl, inr, ◌⊎◌, ◌||◌,
  Bool-cases, Option-cases,
}
use mathlib.Core.Path.{subst}
use flow_pay.Prelude.Text.{Text, text_eq, text_beq, text_beq_iff}
use flow_pay.Prelude.Dict.{Dict, lookup, insert, lookup-insert}
use flow_pay.Numbers.{Numbers}
use flow_pay.Config.{EnvConfig}
use flow_pay.Exec.{ok, Outcome-cases}
use flow_pay.Db.{Currency}
use flow_pay.Ledger.{list_currencies, by_code, place_currency}
use flow_pay.Rates.{Fetched, Cache, RateSnapshot, Rate, rate_of, get_rate, get_snapshot}
use flow_pay.Fx.{
  RatesResponse, World, on_db, on_cache, fill, prices_of, matrix_of, get_rates_matrix,
}

-- whether a currency is listed
abbrev pub lists : Text → List Currency → Bool
lists code [] = false
lists code (c ∷ cs) = text_beq c.code code || lists code cs

module _ (n : Numbers) where
  fill-lookup :
      {V : Type 0} (s : RateSnapshot n) (make : n.Decimal → V) (code : Text) (price : n.Decimal)
      (table : Dict Text V) (cs : List Currency)
      → lookup code s.prices ≡ some price
      → (lookup code table ≡ some (make price)) ⊎ (lists code cs ≡ true)
      → lookup code (fill n s make table cs) ≡ some (make price)
  fill-lookup s make code price table [] priced (inl there) = there
  fill-lookup s make code price table [] priced (inr listed) = cc
  fill-lookup s make code price table (c ∷ cs) priced known =
      elim (Option-cases (lookup c.code s.prices)) [
        | inl unpriced ↦ elim (Bool-cases (text_beq c.code code)) [
          | inl hit ↦
              let same : c.code ≡ code = (text_beq_iff c.code code).0 hit in
              cc (unpriced, subst (λ w. lookup w s.prices ≡ some price) (sym same) priced)
          | inr miss ↦
              let rest =
                fill-lookup s make code price table cs priced (ground (arith, known, miss)) in
              rw (unpriced, fill) rest
        ]
        | inr (p, found) ↦ elim (Bool-cases (text_beq c.code code)) [
          | inl hit ↦
              let same : c.code ≡ code = (text_beq_iff c.code code).0 hit in
              let equal : some p ≡ some price =
                sym found ∙ (ap (λ w. lookup w s.prices) same ∙ priced) in
              let there : lookup code (insert c.code (make p) table) ≡ some (make price) =
                ground (arith, lookup-insert c.code code (make p) table, hit, equal) in
              let rest =
                fill-lookup s make code price (insert c.code (make p) table) cs priced
                  (inl there) in
              rw (found, fill) rest
          | inr miss ↦
              let kept : lookup code (insert c.code (make p) table) ≡ lookup code table =
                ground (arith, lookup-insert c.code code (make p) table, miss) in
              let rest =
                fill-lookup s make code price (insert c.code (make p) table) cs priced
                  (ground (arith, known, kept, miss)) in
              rw (found, fill) rest
        ]
      ]

  lists-place :
      (code : Text) (c : Currency) (cs : List Currency)
      → lists code (place_currency c cs) ≡ lists code (c ∷ cs)
  lists-place code c [] = refl
  lists-place code c (d ∷ cs) = ground (arith, lists-place code c cs)

  lists-by_code : (code : Text) (cs : List Currency) → lists code (by_code cs) ≡ lists code cs
  lists-by_code code [] = refl
  lists-by_code code (c ∷ cs) =
      ground (arith, lists-place code c (by_code cs), lists-by_code code cs)

  -- a rate has the source and the time of its snapshot
  rate_of-fields :
      (s : RateSnapshot n) (from to : Text) (q : Rate n)
      → rate_of n s from to ≡ some q
      → (s.source ≡ q.source) × (s.as_of ≡ q.as_of)
  rate_of-fields s from to q e = elim (Option-cases (lookup from s.prices)) [
    | inl no_from ↦ ground (arith, no_from, e)
    | inr (a, priced_from) ↦ elim (Option-cases (lookup to s.prices)) [
      | inl no_to ↦ ground (arith, priced_from, no_to, e)
      | inr (b, priced_to) ↦
          (ground (arith, priced_from, priced_to, e), ground (arith, priced_from, priced_to, e))
    ]
  ]

  -- the matrix of a snapshot holds the snapshot's rate
  matrix_of-rate_of :
      (s : RateSnapshot n) (from to : Text) (r : Rate n) (cs : List Currency)
      → lists from cs ≡ true
      → lists to cs ≡ true
      → rate_of n s from to ≡ some r
      → (row : Dict Text n.Decimal) × (lookup from (matrix_of n s cs) ≡ some row)
        × (lookup to row ≡ some r.rate)
  matrix_of-rate_of s from to r cs from_listed to_listed e =
      elim (Option-cases (lookup from s.prices)) [
        | inl no_from ↦ ground (arith, no_from, e)
        | inr (p, priced_from) ↦ elim (Option-cases (lookup to s.prices)) [
          | inl no_to ↦ ground (arith, priced_from, no_to, e)
          | inr (q, priced_to) ↦
              let row = fill n s (λ z. n.divided_by p z) [] cs in
              let same : n.divided_by p q ≡ r.rate = ground (arith, priced_from, priced_to, e) in
              (
                row,
                fill-lookup s (λ y. fill n s (λ z. n.divided_by y z) [] cs) from p [] cs priced_from
                    (inr from_listed),
                fill-lookup s (λ z. n.divided_by p z) to q [] cs priced_to (inr to_listed)
                    ∙ ap some same,
              )
        ]
      ]

  get_rates_matrix-eq :
      (config : EnvConfig n) (fetched : Fetched n) (w : World n) (s : RateSnapshot n) (c : Cache n)
      → get_snapshot n config.rate_cache_ttl_ms w.db.now fetched w.cache ≡ (ok s, c)
      → get_rates_matrix n config fetched w ≡ (
        ok (record {
          as_of = s.as_of;
          source = s.source;
          prices = prices_of n s (by_code w.db.currencies);
          matrix = matrix_of n s (by_code w.db.currencies);
        }),
        record w { cache = c },
      )
  unfolding get_rates_matrix on_db on_cache list_currencies
  get_rates_matrix-eq config fetched w s c got = ground (arith, got)

  -- Whenever a rate between two listed currencies would be given, the matrix of rates that is given
  -- at that moment holds the same rate, from the same source and of the same time, under the two codes.
  pub get_rates_matrix-get_rate :
      (config : EnvConfig n) (fetched : Fetched n) (from to : Text) (w : World n) (r : Rate n)
      (cache' : Cache n)
      → get_rate n config.rate_cache_ttl_ms w.db.now fetched from to w.cache ≡ (ok r, cache')
      → lists from w.db.currencies ≡ true
      → lists to w.db.currencies ≡ true
      → (m : RatesResponse n) × (get_rates_matrix n config fetched w
          ≡ (ok m, record w { cache = cache' }))
        × (row : Dict Text n.Decimal) × (lookup from m.matrix ≡ some row)
        × (lookup to row ≡ some r.rate)
        × (m.source ≡ r.source)
        × (m.as_of ≡ r.as_of)
  unfolding get_rate
  get_rates_matrix-get_rate config fetched from to w r cache' e from_listed to_listed =
      elim (Outcome-cases (get_snapshot n config.rate_cache_ttl_ms w.db.now fetched w.cache)) [
        | inl (x, c, bad) ↦ ground (arith, bad, e)
        | inr (s, c, got) ↦ elim (Option-cases (rate_of n s from to)) [
          | inl missing ↦ ground (arith, got, missing, e)
          | inr (q, priced) ↦
              let same : q ≡ r = ground (arith, got, priced, e) in
              let there : c ≡ cache' = ground (arith, got, priced, e) in
              let cs = by_code w.db.currencies in
              let given = rate_of-fields s from to q priced in
              let (row, in_matrix, in_row) =
                matrix_of-rate_of s from to r cs (lists-by_code from w.db.currencies ∙ from_listed)
                  (lists-by_code to w.db.currencies ∙ to_listed) (priced ∙ ap some same) in
              (
                record {
                  as_of = s.as_of;
                  source = s.source;
                  prices = prices_of n s cs;
                  matrix = matrix_of n s cs;
                },
                get_rates_matrix-eq config fetched w s cache' (
                    subst
                      (λ k.
                        get_snapshot n config.rate_cache_ttl_ms w.db.now fetched w.cache
                        ≡ (ok s, k))
                      there got),
                row,
                in_matrix,
                in_row,
                given.0 ∙ ap (λ k. k.source) same,
                given.1 ∙ ap (λ k. k.as_of) same,
              )
        ]
      ]
