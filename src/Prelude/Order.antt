-- ===== src/Prelude/Order.antt =====
-- `[...new Set(keys)].sort()` on numbers: each key once, in rising order.
use Prim.Native.Nat.{ℕ, suc, ◌≤◌}
use mathlib.Core.Path.{◌≡◌, refl, ◌∙◌}
use mathlib.Core.Bool.{Bool, true, false, ◌||◌}
use mathlib.Core.List.{List, [], ◌∷◌}
use native.Mathlib.Omega.{arith}
use flow_pay.Prelude.Tests.{ltb, nat_beq, if◌then◌else◌}

unfoldable pub contains : ℕ → List ℕ → Bool
contains a [] = false
contains a (x ∷ xs) = nat_beq x a || contains a xs

-- The keys of a `Set`, each at its first insertion.
unfoldable pub unique_from : List ℕ → List ℕ → List ℕ
unfolding contains
unique_from seen [] = []
unique_from seen (x ∷ xs) =
    let rest = unique_from (x ∷ seen) xs in
    let skipped = unique_from seen xs in if contains x seen then skipped else x ∷ rest

unfoldable pub place : ℕ → List ℕ → List ℕ
place a [] = a ∷ []
place a (x ∷ xs) = if ltb x a then x ∷ place a xs else a ∷ x ∷ xs

unfoldable pub sort : List ℕ → List ℕ
unfolding place
sort [] = []
sort (x ∷ xs) = place x (sort xs)

unfoldable pub sorted_set : List ℕ → List ℕ
unfolding unique_from sort
sorted_set xs = sort (unique_from [] xs)

-- Strictly rising, from above a lower bound.
abbrev pub Above : ℕ → List ℕ → Type 0
Above b [] = Unit
Above b (x ∷ xs) = (b ≤ x) × Above (suc x) xs

abbrev pub Rises : List ℕ → Type 0
Rises = Above 0

contains-place : (a b : ℕ) (xs : List ℕ) → contains b (place a xs) ≡ (nat_beq a b || contains b xs)
unfolding contains place
contains-place a b [] = refl
contains-place a b (x ∷ xs) = ground (arith, contains-place a b xs)

contains-sort : (b : ℕ) (xs : List ℕ) → contains b (sort xs) ≡ contains b xs
unfolding sort contains
contains-sort b [] = refl
contains-sort b (x ∷ xs) = ground (arith, contains-place x b (sort xs), contains-sort b xs)

contains-unique_from :
    (b : ℕ) (seen xs : List ℕ)
    → (contains b seen || contains b (unique_from seen xs)) ≡ (contains b seen || contains b xs)
unfolding unique_from
contains-unique_from b seen [] = refl
contains-unique_from b seen (x ∷ xs) =
    ground (arith, contains-unique_from b seen xs, contains-unique_from b (x ∷ seen) xs)

-- The sorted set holds exactly the keys that were given.
pub contains-sorted_set : (b : ℕ) (xs : List ℕ) → contains b (sorted_set xs) ≡ contains b xs
unfolding sorted_set
contains-sorted_set b xs =
    ground (arith, contains-sort b (unique_from [] xs), contains-unique_from b [] xs)

abbrev IsDistinct : List ℕ → Type 0
IsDistinct [] = Unit
IsDistinct (x ∷ xs) = (contains x xs ≡ false) × IsDistinct xs

unique_from-seen :
    (b : ℕ) (seen xs : List ℕ) → contains b seen ≡ true → contains b (unique_from seen xs) ≡ false
unfolding unique_from
unique_from-seen b seen [] h = refl
unique_from-seen b seen (x ∷ xs) h =
    ground (arith, unique_from-seen b seen xs, unique_from-seen b (x ∷ seen) xs)

unique_from-IsDistinct : (seen xs : List ℕ) → IsDistinct (unique_from seen xs)
unfolding unique_from
unique_from-IsDistinct seen [] = tt
unique_from-IsDistinct seen (x ∷ xs) = ground (
  arith,
  unique_from-IsDistinct seen xs,
  unique_from-IsDistinct (x ∷ seen) xs,
  unique_from-seen x (x ∷ seen) xs,
)

place-Above :
    (a b : ℕ) (xs : List ℕ) → contains a xs ≡ false → b ≤ a → Above b xs → Above b (place a xs)
unfolding place contains
place-Above a b [] n l h = (l, tt)
place-Above a b (x ∷ xs) n l h = ground (arith, place-Above a (suc x) xs)

sort-Above : (xs : List ℕ) → IsDistinct xs → Above 0 (sort xs)
unfolding sort
sort-Above [] d = tt
sort-Above (x ∷ xs) d =
    place-Above x 0 (sort xs) (contains-sort x xs ∙ d.0) (omega arith) (sort-Above xs d.1)

pub sorted_set-Rises : (xs : List ℕ) → Rises (sorted_set xs)
unfolding sorted_set
sorted_set-Rises xs = sort-Above (unique_from [] xs) (unique_from-IsDistinct [] xs)
