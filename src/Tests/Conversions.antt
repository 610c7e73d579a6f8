-- ===== src/Tests/Conversions.antt =====
-- Runs of the rates and of a conversion, with a coin at two dollars.
use flow_pay.Prelude.{
  ◌+◌, ◌*◌, ◌^◌, ◌<◌, ◌≡◌, ◌⊎◌, true, false, none, some, [], ◌∷◌, refl, arith, ap, sym, ◌∙◌,
}
use mathlib.Core.Path.{subst}
use flow_pay.Prelude.Int.{ℤ, pos, ◌+ℤ◌, ◌-ℤ◌}
use flow_pay.Prelude.Text.{Text, text_eq, to_upper}
use flow_pay.Prelude.Dict.{Dict, lookup, insert}
use flow_pay.Prelude.Order.{contains, sort, place, unique_from, sorted_set}
use flow_pay.Numbers.Scaled.{scaled, scaled-IsExact}
use flow_pay.Exec.{transaction, ok, err}
use flow_pay.Db.{Currency, CurrencyType}
use flow_pay.Ledger.{
  ensure_account, ensure_accounts, get_currency, post_entry, validate_entry_lines,
  post_entry_with_manager, prepare_entry, write_entry, check_currencies, sum_deltas, new_balances,
  new_balance, line_rows, update_balances, insert_entry, fresh_id, tally_lines, check_amount,
  check_totals,
}
use flow_pay.Outbox.{append}
use flow_pay.Users.{find_by_id}
use flow_pay.Deposits.{deposit, credit_wallet, post_deposit}
use flow_pay.Idempotency.{
  KeyStore, RunIdempotentResult, body_of, run, steps, step, insert_key, call_handler, finalize,
}
use flow_pay.Idempotency.HashPayload.{Platform}
use flow_pay.Rates.{
  Cache, Fetched, failed, body, RateSnapshot, Rate, coingecko, static_fallback, live_prices,
  refresh, get_snapshot, get_rate,
}
use flow_pay.Rates.Served.{FixedPrice, Fresh, get_snapshot-served, get_rate_again, get_rate_offline}
use flow_pay.TradeExecution.{open_accounts, post_swap}
use flow_pay.TradeExecution.Swapped.{SwapRoom}
use flow_pay.Fx.{
  ConvertDto, ConvertResponse, ConversionComputation, World, computation_of, compute_conversion,
  quote_of, convert_swap, price_conversion, get_quote, on_db, on_cache, post_conversion,
  book_conversion, execute_convert, convert, RatesResponse, get_rates_matrix,
}
use flow_pay.Fx.Matrix.{get_rates_matrix-get_rate}
use flow_pay.Fx.Priced.{Exchange, quote_honoured}
use flow_pay.Fx.Converted.{Converted, Answers}
use flow_pay.Fx.Once.{convert-Converted}
use flow_pay.Tests.{usd, btc, config, empty_db}
use flow_pay.Tests.Services.{deposited, deposited-Credited, deposited-Headroom_at}

abbrev fetched : Fetched scaled
fetched = record {
  result = body (record {
    btc_usd = some (some (pos (2 * 10 ^ 8)));
    btc_eur = some (some (pos (2 * 10 ^ 8)));
    btc_idr = some (some (pos (10 ^ 8)));
    eth_usd = some (some (pos (10 ^ 8)));
  });
  took = 0;
}

-- The provider times out after five seconds.
abbrev down : Fetched scaled
down = record { result = failed; took = 5000 }

get_snapshot-served_example :
    (s : RateSnapshot scaled) × (get_snapshot scaled 60000 1000 down none ≡ (ok s, some s))
    × (((none ≡ some s) × (1000 < s.as_of + 60000)) ⊎ Fresh scaled 1000 down s)
get_snapshot-served_example = get_snapshot-served scaled 60000 1000 down none scaled-IsExact

-- A cached snapshot whose time is over.
abbrev stale : Cache scaled
stale = some (record { prices = []; source = coingecko; as_of = 0 })

get_rate_offline_example :
    (r : Rate scaled) × (cache : Cache scaled) × (get_rate scaled 60000 60000 down usd btc stale
      ≡ (ok r, cache))
    × (a : ℤ) × (b : ℤ) × (a ≡ pos 100000000)
    × (b ≡ pos 6500000000000)
    × (r.rate ≡ scaled.divided_by a b)
    × (r.source ≡ static_fallback)
    × (r.as_of ≡ 65000)
unfolding live_prices
get_rate_offline_example =
    get_rate_offline scaled 60000 60000 down usd btc (pos 100000000) (pos 6500000000000) stale
      scaled-IsExact refl (omega arith) FixedPrice.dollar FixedPrice.bitcoin

abbrev half : Rate scaled
half = record { rate = pos 50000000; source = coingecko; as_of = 1000 }

abbrev cached : Cache scaled
cached = (get_rate scaled 60000 1000 fetched usd btc none).1

rate_runs : get_rate scaled 60000 1000 fetched usd btc none ≡ (ok half, cached)
unfolding get_rate get_snapshot refresh live_prices lookup
rate_runs = refl

get_rate_again_example : get_rate scaled 60000 2000 down usd btc cached ≡ (ok half, cached)
get_rate_again_example =
    get_rate_again scaled 60000 1000 2000 fetched down usd btc none cached half scaled-IsExact
      rate_runs (omega arith)

abbrev dto : ConvertDto scaled
dto = record { from = usd; to = btc; amount = some (pos 100) }

abbrev dollar : Currency
dollar = record { code = usd; name = usd; currency_type = CurrencyType.fiat; decimals = 8 }

abbrev bitcoin : Currency
bitcoin = record { code = btc; name = btc; currency_type = CurrencyType.crypto; decimals = 8 }

abbrev computed : ConversionComputation scaled
computed = computation_of scaled 50 dollar bitcoin half (pos 100)

abbrev world : World scaled
world = record { cache = none; db = deposited }

abbrev priced_world : World scaled
priced_world = (compute_conversion scaled config fetched dto world).1

compute_runs : compute_conversion scaled config fetched dto world ≡ (ok computed, priced_world)
unfolding compute_conversion price_conversion on_db on_cache get_rate get_snapshot refresh
    live_prices lookup deposit credit_wallet post_deposit append get_currency ensure_accounts
    to_upper post_entry transaction post_entry_with_manager prepare_entry write_entry
    check_currencies sum_deltas new_balances new_balance line_rows update_balances insert_entry
    fresh_id validate_entry_lines tally_lines check_amount check_totals insert ensure_account
    contains sort place unique_from sorted_set ◌+ℤ◌
compute_runs = refl

quote_runs :
    get_quote scaled config fetched dto (record { cache = none; db = empty_db })
    ≡ (ok (quote_of scaled config computed), record { cache = cached; db = empty_db })
unfolding get_quote compute_conversion price_conversion on_db on_cache get_rate get_snapshot refresh
    live_prices lookup get_currency to_upper
quote_runs = refl

quote_honoured_example :
    (c : ConversionComputation scaled) × (compute_conversion scaled config down dto
        (record { cache = cached; db = empty_db })
      ≡ (ok c, record { cache = cached; db = empty_db }))
    × (c.from_amount ≡ some (pos 100))
    × (c.to_amount ≡ computed.to_amount)
    × (c.net_rate ≡ computed.net_rate)
    × (c.rate ≡ pos 50000000)
    × (c.spread_bps ≡ 50)
    × (c.from_currency.code ≡ usd)
    × (c.to_currency.code ≡ btc)
    × (c.source ≡ coingecko)
quote_honoured_example =
    quote_honoured scaled config fetched down dto (record { cache = none; db = empty_db })
      (record { cache = cached; db = empty_db }) (quote_of scaled config computed) empty_db
      scaled-IsExact quote_runs refl (omega arith)

abbrev quoting : World scaled
quoting = record { cache = none; db = empty_db }

get_rates_matrix-get_rate_example :
    (m : RatesResponse scaled) × (get_rates_matrix scaled config fetched quoting
      ≡ (ok m, record quoting { cache = cached }))
    × (row : Dict Text scaled.Decimal) × (lookup usd m.matrix ≡ some row)
    × (lookup btc row ≡ some (pos 50000000))
    × (m.source ≡ coingecko)
    × (m.as_of ≡ 1000)
get_rates_matrix-get_rate_example =
    get_rates_matrix-get_rate scaled config fetched usd btc quoting half cached rate_runs refl refl

abbrev platform : Platform
platform = record { sha256 = λ t. t; locale_le = λ a b. true }

abbrev text_of : scaled.Numeral → Text
text_of z = []

abbrev store : KeyStore (World scaled) (ConvertResponse scaled)
store = record { keys = []; store = world }

abbrev converted : KeyStore (World scaled) (ConvertResponse scaled)
converted = (convert scaled platform text_of config fetched 1 (75 ∷ []) dto store).1

abbrev answer : RunIdempotentResult (ConvertResponse scaled)
answer = record {
  body = body_of (record {
    entry_id = 8;
    from = usd;
    to = btc;
    amount = some (pos 100);
    to_amount = some (pos 49);
    rate = pos 50000000;
    net_rate = pos 49750000;
    spread_bps = 50;
    from_balance = some (some (pos 400));
    to_balance = some (some (pos 49));
  });
  status_code = 201;
  replayed = false;
}

convert_runs :
    convert scaled platform text_of config fetched 1 (75 ∷ []) dto store ≡ (ok answer, converted)
unfolding convert run steps step insert_key call_handler finalize execute_convert book_conversion
    post_conversion open_accounts post_swap find_by_id compute_conversion price_conversion on_db
    on_cache get_rate get_snapshot refresh live_prices lookup deposit credit_wallet post_deposit
    append get_currency ensure_accounts to_upper post_entry transaction post_entry_with_manager
    prepare_entry write_entry check_currencies sum_deltas new_balances new_balance line_rows
    update_balances insert_entry fresh_id validate_entry_lines tally_lines check_amount check_totals
    insert ensure_account contains sort place unique_from sorted_set ◌+ℤ◌ ◌-ℤ◌
convert_runs = refl

dto-SwapRoom :
    (c : ConversionComputation scaled) (v : World scaled)
    → compute_conversion scaled config fetched dto world ≡ (ok c, v)
    → SwapRoom scaled (convert_swap scaled 1 c) deposited
unfolding ◌-ℤ◌
dto-SwapRoom c v e =
    let same : computed ≡ c =
      ap (λ p. elim p.0 [ ok a ↦ a | err x ↦ computed ]) (sym compute_runs ∙ e) in
    subst (λ k. SwapRoom scaled (convert_swap scaled 1 k) deposited) same
      (deposited-Headroom_at 298 (omega arith))

convert-Converted_example :
    ((c : ConversionComputation scaled) × (response : ConvertResponse scaled) × Exchange scaled
        config fetched dto world c
      × Converted scaled 1 c deposited converted.store.db
      × Answers scaled c response
      × (answer.body ≡ body_of response))
    × (convert scaled platform text_of config down 1 (75 ∷ []) dto converted
        ≡ (ok (record { body = answer.body; status_code = 201; replayed = true }), converted))
convert-Converted_example =
    convert-Converted scaled platform text_of config fetched down 1 (75 ∷ []) dto store converted
      answer scaled-IsExact deposited-Credited.0 refl dto-SwapRoom convert_runs
