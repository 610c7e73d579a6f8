-- ===== src/Prelude/Dict.antt =====
-- A JavaScript `Map` as an association list: `set` keeps the position of a key that is there.
use mathlib.Core.Path.{◌≡◌, refl}
use mathlib.Core.Option.{Option, none, some}
use mathlib.Core.List.{List, [], ◌∷◌}
use native.Mathlib.Omega.{arith}
use flow_pay.Prelude.Tests.{Eq, ◌==◌, if◌then◌else◌}

abbrev pub Dict {ℓ κ} : Type ℓ → Type κ → Type (ℓ ⊔ κ)
Dict K V = List (K × V)

-- `map.get(key)` and `map.set(key, value)`
module _ {ℓ κ} {K : Type ℓ} {V : Type κ} ⦃e : Eq K⦄ where
  unfoldable pub lookup : K → Dict K V → Option V
  lookup key (entry ∷ rest) = if entry.0 == key then some entry.1 else lookup key rest
  lookup key [] = none

  unfoldable pub insert : K → V → Dict K V → Dict K V
  insert key value (entry ∷ rest) =
      if entry.0 == key then (entry.0, value) ∷ rest else entry ∷ insert key value rest
  insert key value [] = (key, value) ∷ []

  pub lookup-insert :
      (key other : K) (value : V) (entries : Dict K V)
      → lookup other (insert key value entries)
        ≡ (if key == other then some value else lookup other entries)
  unfolding lookup insert
  lookup-insert key other value [] = refl
  lookup-insert key other value (entry ∷ rest) =
      let later = lookup-insert key other value rest in
      ground (arith, later, e.beq_iff entry.0 key, e.beq_iff entry.0 other, e.beq_iff key other)

pub ruleset dict_laws = (lookup-insert)
