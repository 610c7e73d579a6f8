-- ===== src/Prelude/Rows.antt =====
-- The rows of a table by their primary key: an update of one row, and a sum over all rows.
use Prim.Native.Nat.{ℕ}
use mathlib.Core.Path.{◌≡◌, refl}
use mathlib.Core.Logic.{inl, inr}
use mathlib.Core.Option.{some}
use mathlib.Core.List.{List, [], ◌∷◌, ◌++◌}
use native.Mathlib.Omega.{arith}
use flow_pay.Prelude.Tests.{nat_beq, if◌then◌else◌, Bool-cases, beq_refl, nat_eq, ◌==◌}
use flow_pay.Prelude.Lists.{find}
use flow_pay.Prelude.Int.{ℤ, pos, ◌+ℤ◌, +ℤ-shift, int_laws}

module _ {A : Type 0} (value : A → ℤ) where
  abbrev pub total : List A → ℤ
  total [] = pos 0
  total (r ∷ rows) = value r +ℤ total rows

  pub total-append : (xs ys : List A) → total (xs ++ ys) ≡ total xs +ℤ total ys
  total-append [] ys = omega int_laws
  total-append (x ∷ xs) ys = rw (total-append xs ys) (omega int_laws)

module _ {A : Type 0} (key : A → ℕ) where
  -- `manager.save(entity)` of an entity that is in the table: the row with its primary key
  abbrev pub save_row : A → List A → List A
  save_row a [] = []
  save_row a (x ∷ rows) = if nat_beq (key x) (key a) then a ∷ rows else (x ∷ save_row a rows)

  -- A saved row is the one found by its key afterwards.
  pub find-save_row :
      (rows : List A) (q r : A)
      → find (λ x. key x == key r) rows ≡ some q
      → find (λ x. key x == key r) (save_row r rows) ≡ some r
  find-save_row [] q r e = cc
  find-save_row (x ∷ rows) q r e = elim (Bool-cases (nat_beq (key x) (key r))) [
    | inl hit ↦ rw (hit, beq_refl (key r)) refl
    | inr miss ↦
        let later : find (λ x. key x == key r) rows ≡ some q = ground (arith, miss, e) in
        rw (miss, miss) (find-save_row rows q r later)
  ]

  -- One row's share of the sum is replaced.
  pub total-save_row :
      (value : A → ℤ) (rows : List A) (q r : A)
      → find (λ x. key x == key r) rows ≡ some q
      → total value (save_row r rows) +ℤ value q ≡ total value rows +ℤ value r
  total-save_row value [] q r e = cc
  total-save_row value (x ∷ rows) q r e = elim (Bool-cases (nat_beq (key x) (key r))) [
    | inl hit ↦ let same : x ≡ q = ground (arith, hit, e) in rw (hit, same) (omega int_laws)
    | inr miss ↦
        let later : find (λ x. key x == key r) rows ≡ some q = ground (arith, miss, e) in
        rw miss (
          +ℤ-shift (value x) (total value (save_row r rows)) (value q) (total value rows) (value r)
            (total-save_row value rows q r later))
  ]
