-- ===== src/Ledger/Deltas.antt =====
-- The deltas that `postEntry` sums per account, where the arithmetic is exact.
use flow_pay.Prelude.{
  ℕ, ◌+◌, ◌≤◌, ◌<◌, ◌≡◌, some, List, [], ◌∷◌, ◌==◌, All, arith, inl, inr, nat_eq, if◌then◌else◌, ap,
  sym, ◌∙◌, Bool-cases,
}
use flow_pay.Prelude.Int.{ℤ, pos, ◌+ℤ◌, magnitude, magnitude-+ℤ, int_laws}
use flow_pay.Prelude.Text.{text_eq}
use flow_pay.Prelude.Dict.{Dict, insert, lookup-insert}
use flow_pay.Numbers.{Numbers, Fits, IsExact, limit}
use flow_pay.Exec.{ok}
use flow_pay.Db.{JournalLineDirection, debit, credit}
use flow_pay.Ledger.Input.{PostEntryLineInput}
use flow_pay.Ledger.Posting.{sign_of, delta_at, sum_deltas}
use flow_pay.Ledger.Amounts.{
  signed, magnitude-signed, amount_units, amount_units-parse, turnover, net, IsAmount,
}

module _ (n : Numbers) (ex : IsExact n) where
  times_sign :
      (d : JournalLineDirection) (x : n.Decimal)
      → Fits n x
      → Fits n (n.times x (sign_of n d))
        × (n.units (n.times x (sign_of n d)) ≡ signed d (n.units x))
  times_sign debit x f = ex.times_minus_one x f
  times_sign credit x f = ex.times_one x f

  -- An account's delta is exact and at most `k`.
  abbrev pub IsSmall : ℕ → n.Decimal → Type 0
  IsSmall k x = Fits n x × (magnitude (n.units x) ≤ k)

  sum_deltas-cons :
      (l : PostEntryLineInput n) (ls : List (PostEntryLineInput n)) (x : n.Decimal)
      (m : Dict ℕ n.Decimal)
      → n.parse l.amount ≡ some x
      → sum_deltas n (l ∷ ls) m
        ≡ sum_deltas n ls (
            insert l.account_id
              (n.plus (delta_at n l.account_id m) (n.times x (sign_of n l.direction)))
              m)
  unfolding sum_deltas
  sum_deltas-cons l ls x m e = rw (e, sum_deltas)

  delta_at-insert :
      (id a : ℕ) (x : n.Decimal) (m : Dict ℕ n.Decimal)
      → delta_at n id (insert a x m) ≡ (if a == id then x else delta_at n id m)
  delta_at-insert id a x m = ground (arith, lookup-insert a id x m)

  abbrev pub Adds : ℕ → ℕ → ℤ → Dict ℕ n.Decimal → Dict ℕ n.Decimal → Type 0
  Adds id k z m m' =
      IsSmall k (delta_at n id m') × (n.units (delta_at n id m') ≡ n.units (delta_at n id m) +ℤ z)

  insert-Adds :
      (k : ℕ) (l : PostEntryLineInput n) (x : n.Decimal) (id : ℕ) (m : Dict ℕ n.Decimal)
      → ((id : ℕ) → IsSmall k (delta_at n id m))
      → Fits n x
      → k + magnitude (n.units x) < limit
      → Adds id
          (k + magnitude (n.units x))
          (if l.account_id == id then signed l.direction (n.units x) else pos 0)
          m
          (insert l.account_id
            (n.plus (delta_at n l.account_id m) (n.times x (sign_of n l.direction)))
            m)
  insert-Adds k l x id m h f lt =
      let (fit, value) = times_sign l.direction x f in
      let size = magnitude-signed l.direction (n.units x) in
      let moved = n.times x (sign_of n l.direction) in
      elim (Bool-cases (l.account_id == id)) [
        | inl same ↦
            let old : l.account_id ≡ id = ground arith in
            let old_delta : delta_at n l.account_id m ≡ delta_at n id m =
              ap (λ w. delta_at n w m) old in
            let sum =
              ex.plus_exact (delta_at n id m) moved (h id).0 fit
                (rw value (omega (arith, (h id).1, size))) in
            rw
              (
                delta_at-insert id l.account_id (n.plus (delta_at n l.account_id m) moved) m,
                same,
                old_delta,
              )
              (
                (
                  sum.0,
                  rw (sum.1, value)
                      (omega (
                        arith,
                        (h id).1,
                        size,
                        magnitude-+ℤ (n.units (delta_at n id m)) (signed l.direction (n.units x)),
                      )),
                ),
                sum.1 ∙ ap (λ w. n.units (delta_at n id m) +ℤ w) value,
              )
        | inr other ↦
            rw (delta_at-insert id l.account_id (n.plus (delta_at n l.account_id m) moved) m, other)
              (((h id).0, omega (arith, (h id).1)), omega int_laws)
      ]

  pub sum_deltas-Adds :
      (k : ℕ) (ls : List (PostEntryLineInput n)) (m m' : Dict ℕ n.Decimal)
      → ((id : ℕ) → IsSmall k (delta_at n id m))
      → k + turnover n ls < limit
      → All (λ l. IsAmount n l.amount) ls
      → sum_deltas n ls m ≡ ok m'
      → (id : ℕ) → Adds id (k + turnover n ls) (net n id ls) m m'
  unfolding sum_deltas
  sum_deltas-Adds k [] m m' h lt a e id =
      let same : m' ≡ m = cc in rw same (((h id).0, omega (arith, (h id).1)), omega int_laws)
  sum_deltas-Adds k (l ∷ ls) m m' h lt (a, rest) e id =
      let x = a.value in
      let amount : amount_units n l.amount ≡ n.units x = amount_units-parse n l.amount x a.parses in
      let size = ap magnitude amount in
      let step = λ (id : ℕ). insert-Adds k l x id m h a.fits (omega (arith, size)) in
      let done =
        sum_deltas-Adds (k + magnitude (n.units x)) ls _ m' (λ id. (step id).0)
          (omega (arith, size)) rest (sym (sum_deltas-cons l ls x m a.parses) ∙ e) id in
      rw amount ((done.0.0, omega (arith, done.0.1)), rw (done.1, (step id).1) (omega int_laws))
