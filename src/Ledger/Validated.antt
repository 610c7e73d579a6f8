-- ===== src/Ledger/Validated.antt =====
-- What `validateEntryLines` establishes.
use flow_pay.Prelude.{
  ℕ, ◌+◌, ◌≤◌, ◌<◌, ◌≡◌, true, false, some, List, [], ◌∷◌, ◌==◌, All, arith, inl, inr,
  if◌then◌else◌, ap, sym, ◌∙◌, ltb, length, Option-cases, Bool-cases,
}
use flow_pay.Prelude.Int.{
  ℤ, pos, ◌+ℤ◌, ◌-ℤ◌, ◌≤ℤ◌, leb_ℤ, beq_ℤ, magnitude, magnitude-+ℤ, eq_of_sum_zero, int_laws,
}
use flow_pay.Prelude.Text.{Text, text_eq}
use flow_pay.Prelude.Dict.{Dict, lookup, insert, lookup-insert}
use flow_pay.Numbers.{Numbers, Fits, IsExact, limit}
use flow_pay.Exec.{ok, and_then-eq-ok}
use flow_pay.Db.{JournalLineDirection, debit, credit}
use flow_pay.Ledger.Input.{PostEntryLineInput}
use flow_pay.Ledger.Validator.{
  Bucket, check_amount, zero_bucket, bucket_at, add_to_bucket, tally_lines, check_totals,
  validate_entry_lines,
}
use flow_pay.Ledger.Amounts.{
  signed, amount_units, amount_units-parse, turnover, currency_moves, IsAmount,
}

module _ (n : Numbers) where
  -- A checked amount is a finite decimal of at most 8 places, and exact if it is small.
  check_amount-IsAmount :
      (s : n.Numeral) (x : n.Decimal)
      → check_amount n s ≡ ok x
      → magnitude (amount_units n s) < limit
      → (n.parse s ≡ some x) × Fits n x
  unfolding check_amount
  check_amount-IsAmount s x e h = ground arith

  -- It is positive.
  check_amount-positive :
      (s : n.Numeral) (x : n.Decimal)
      → IsExact n
      → check_amount n s ≡ ok x
      → magnitude (amount_units n s) < limit
      → pos 1 ≤ℤ n.units x
  unfolding check_amount
  check_amount-positive s x ex e h =
      let (parses, fits) = check_amount-IsAmount s x e h in
      let above : n.less_than_or_equal_to x (n.of_int (pos 0)) ≡ false = ground (arith, e) in
      let compared = ex.lte_exact x (n.of_int (pos 0)) fits ex.of_int_zero.0 in
      let exact : leb_ℤ (n.units x) (n.units (n.of_int (pos 0))) ≡ false = sym compared ∙ above in
      let exact' : leb_ℤ (n.units x) (pos 0) ≡ false = rw ex.of_int_zero.1 at exact in
      ground (arith, exact')

  tally_lines-IsAmount :
      (ls : List (PostEntryLineInput n)) (m m' : Dict Text (Bucket n))
      → IsExact n
      → tally_lines n ls m ≡ ok m'
      → turnover n ls < limit
      → All (λ l. IsAmount n l.amount) ls
  unfolding tally_lines
  tally_lines-IsAmount [] m m' ex e h = tt
  tally_lines-IsAmount (l ∷ ls) m m' ex e h =
      let (x, checked, rest) = and_then-eq-ok (check_amount n l.amount) _ e in
      let (parses, fits) = check_amount-IsAmount l.amount x checked (omega arith) in
      (
        record {
          value = x;
          parses = parses;
          fits = fits;
          positive = check_amount-positive l.amount x ex checked (omega arith);
        },
        tally_lines-IsAmount ls _ m' ex rest (omega arith),
      )

  -- A bucket whose sums are exact and at most `k`.
  record IsExactBucket (k : ℕ) (b : Bucket n) : Type 0 where
    fits_debit : Fits n b.debit
    fits_credit : Fits n b.credit
    debit_le : magnitude (n.units b.debit) ≤ k
    credit_le : magnitude (n.units b.credit) ≤ k

  abbrev bucket_net : Bucket n → ℤ
  bucket_net b = n.units b.credit -ℤ n.units b.debit

  zero_bucket-IsExactBucket : IsExact n → IsExactBucket 0 (zero_bucket n)
  zero_bucket-IsExactBucket ex = record {
    fits_debit = ex.of_int_zero.0;
    fits_credit = ex.of_int_zero.0;
    debit_le = rw ex.of_int_zero.1 (omega arith);
    credit_le = rw ex.of_int_zero.1 (omega arith);
  }

  module _ (ex : IsExact n) where
    add_to_bucket-IsExactBucket :
        (k : ℕ) (d : JournalLineDirection) (x : n.Decimal) (b : Bucket n)
        → IsExactBucket k b
        → Fits n x
        → k + magnitude (n.units x) < limit
        → IsExactBucket (k + magnitude (n.units x)) (add_to_bucket n d x b)
          × (bucket_net (add_to_bucket n d x b) ≡ bucket_net b +ℤ signed d (n.units x))
    add_to_bucket-IsExactBucket k debit x b h f lt =
        let sum = ex.plus_exact b.debit x h.fits_debit f (omega (arith, h.debit_le)) in
        (
          record {
            fits_debit = sum.0;
            fits_credit = h.fits_credit;
            debit_le =
                rw sum.1 (omega (arith, h.debit_le, magnitude-+ℤ (n.units b.debit) (n.units x)));
            credit_le = omega (arith, h.credit_le);
          },
          rw sum.1 (omega int_laws),
        )
    add_to_bucket-IsExactBucket k credit x b h f lt =
        let sum = ex.plus_exact b.credit x h.fits_credit f (omega (arith, h.credit_le)) in
        (
          record {
            fits_debit = h.fits_debit;
            fits_credit = sum.0;
            debit_le = omega (arith, h.debit_le);
            credit_le =
                rw sum.1 (omega (arith, h.credit_le, magnitude-+ℤ (n.units b.credit) (n.units x)));
          },
          rw sum.1 (omega int_laws),
        )

    IsExactBucket-mono : (j k : ℕ) (b : Bucket n) → j ≤ k → IsExactBucket j b → IsExactBucket k b
    IsExactBucket-mono j k b le h = record {
      fits_debit = h.fits_debit;
      fits_credit = h.fits_credit;
      debit_le = omega (arith, h.debit_le);
      credit_le = omega (arith, h.credit_le);
    }

    bucket_at-insert :
        (c code : Text) (b : Bucket n) (m : Dict Text (Bucket n))
        → bucket_at n c (insert code b m) ≡ (if code == c then b else bucket_at n c m)
    bucket_at-insert c code b m = ground (arith, lookup-insert code c b m)

    abbrev Tallied : Text → ℕ → ℤ → Dict Text (Bucket n) → Dict Text (Bucket n) → Type 0
    Tallied c k z m m' =
        IsExactBucket k (bucket_at n c m')
        × (bucket_net (bucket_at n c m') ≡ bucket_net (bucket_at n c m) +ℤ z)

    insert-Tallied :
        (k : ℕ) (d : JournalLineDirection) (x : n.Decimal) (code c : Text)
        (m : Dict Text (Bucket n))
        → ((c : Text) → IsExactBucket k (bucket_at n c m))
        → Fits n x
        → k + magnitude (n.units x) < limit
        → Tallied c
            (k + magnitude (n.units x))
            (if code == c then signed d (n.units x) else pos 0)
            m
            (insert code (add_to_bucket n d x (bucket_at n code m)) m)
    insert-Tallied k d x code c m h f lt = elim (Bool-cases (code == c)) [
      | inl same ↦
          let old : bucket_at n code m ≡ bucket_at n c m =
            ap (λ w. bucket_at n w m) ((text_eq.beq_iff code c).0 same) in
          rw (bucket_at-insert c code (add_to_bucket n d x (bucket_at n code m)) m, same, old)
            (add_to_bucket-IsExactBucket k d x (bucket_at n c m) (h c) f lt)
      | inr other ↦
          rw (bucket_at-insert c code (add_to_bucket n d x (bucket_at n code m)) m, other)
            (IsExactBucket-mono k (k + magnitude (n.units x)) _ (omega arith) (h c), omega int_laws)
    ]

    tally_lines-Tallied :
        (k : ℕ) (ls : List (PostEntryLineInput n)) (m m' : Dict Text (Bucket n))
        → ((c : Text) → IsExactBucket k (bucket_at n c m))
        → k + turnover n ls < limit
        → tally_lines n ls m ≡ ok m'
        → (c : Text) → Tallied c (k + turnover n ls) (currency_moves n c ls) m m'
    unfolding tally_lines
    tally_lines-Tallied k [] m m' h lt e c =
        let same : m' ≡ m = cc in
        rw same (IsExactBucket-mono k (k + 0) _ (omega arith) (h c), omega int_laws)
    tally_lines-Tallied k (l ∷ ls) m m' h lt e c =
        let (x, checked, rest) = and_then-eq-ok (check_amount n l.amount) _ e in
        let (parses, fits) = check_amount-IsAmount l.amount x checked (omega arith) in
        let amount : amount_units n l.amount ≡ n.units x = amount_units-parse n l.amount x parses in
        let size = ap magnitude amount in
        let step = λ (c : Text).
          insert-Tallied k l.direction x l.currency_code c m h fits (omega (arith, size)) in
        let done =
          tally_lines-Tallied (k + magnitude (n.units x)) ls _ m' (λ c. (step c).0)
            (omega (arith, size)) rest c in
        rw amount
          (IsExactBucket-mono _ _ _ (omega arith) done.0, rw (done.1, (step c).1) (omega int_laws))

    check_totals-at :
        (c : Text) (m : Dict Text (Bucket n)) (b : Bucket n)
        → check_totals n m ≡ ok tt
        → lookup c m ≡ some b
        → n.equals b.debit b.credit ≡ true
    unfolding check_totals lookup
    check_totals-at c [] b e f = cc
    check_totals-at c ((code, d) ∷ m) b e f = ground (arith, check_totals-at c m b)

    bucket_net-zero :
        (k : ℕ) (c : Text) (m : Dict Text (Bucket n))
        → check_totals n m ≡ ok tt
        → IsExactBucket k (bucket_at n c m)
        → bucket_net (bucket_at n c m) ≡ pos 0
    bucket_net-zero k c m e h = elim (Option-cases (lookup c m)) [
      | inl absent ↦
          let z : bucket_at n c m ≡ zero_bucket n = rw (absent, bucket_at) in
          rw (z, ex.of_int_zero.1) (omega int_laws)
      | inr (b, found) ↦
          let z : bucket_at n c m ≡ b = rw (found, bucket_at) in
          let h' = rw z at h in
          let same : beq_ℤ (n.units b.debit) (n.units b.credit) ≡ true =
            rw (← ex.equals_exact b.debit b.credit h'.fits_debit h'.fits_credit)
              (check_totals-at c m b e found) in
          rw z (grind (int_laws, same))
    ]

    tally_lines-moves :
        (lines : List (PostEntryLineInput n)) (m : Dict Text (Bucket n))
        → turnover n lines < limit
        → tally_lines n lines [] ≡ ok m
        → check_totals n m ≡ ok tt
        → (c : Text) → currency_moves n c lines ≡ pos 0
    unfolding lookup
    tally_lines-moves lines m lt tallied checked c =
        let start = zero_bucket-IsExactBucket ex in
        let done = tally_lines-Tallied 0 lines [] m (λ c. start) (omega arith) tallied c in
        let zero = bucket_net-zero (0 + turnover n lines) c m checked done.0 in
        let start_zero : bucket_net (bucket_at n c []) ≡ pos 0 =
          rw ex.of_int_zero.1 (omega int_laws) in
        eq_of_sum_zero _ _ (sym start_zero) (sym zero ∙ done.1)

  -- The lines of an accepted entry are two at least and positive amounts of at most 8 places, and
  -- in each currency the debits equal the credits.
  pub validate_entry_lines-balanced :
      (lines : List (PostEntryLineInput n))
      → IsExact n
      → turnover n lines < limit
      → validate_entry_lines n lines ≡ ok tt
      → (2 ≤ length lines)
        × All (λ l. IsAmount n l.amount) lines
        × ((c : Text) → currency_moves n c lines ≡ pos 0)
  unfolding validate_entry_lines
  validate_entry_lines-balanced lines ex lt e = elim (Bool-cases (ltb (length lines) 2)) [
    | inl short ↦ cc (rw short at e)
    | inr long ↦
        let (m, tallied, checked) = and_then-eq-ok (tally_lines n lines []) _ (rw long at e) in
        (
          ground arith,
          tally_lines-IsAmount lines [] m ex tallied lt,
          tally_lines-moves ex lines m lt tallied checked,
        )
  ]
