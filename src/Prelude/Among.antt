-- ===== src/Prelude/Among.antt =====
-- Membership in a list, and what holds of each of its items.
use mathlib.Core.Path.{◌≡◌, ap}
use mathlib.Core.Logic.{◌⊎◌, inl, inr}
use mathlib.Core.List.{List, [], ◌∷◌, ◌++◌, map}
use mathlib.Core.Option.{some}
use mathlib.Core.Bool.{Bool}
use native.Mathlib.Omega.{arith}
use flow_pay.Prelude.Tests.{Bool-cases}
use flow_pay.Prelude.Lists.{All, find}

-- A value is one of the items.
abbrev pub Among : {A : Type 0} → A → List A → Type 0
Among a [] = ⊥
Among a (x ∷ xs) = (x ≡ a) ⊎ Among a xs

module _ {A : Type 0} where
  pub Among-append_left : (a : A) (xs ys : List A) → Among a xs → Among a (xs ++ ys)
  Among-append_left a [] ys h = absurd h
  Among-append_left a (x ∷ xs) ys (inl here) = inl here
  Among-append_left a (x ∷ xs) ys (inr there) = inr (Among-append_left a xs ys there)

  pub Among-append_right : (a : A) (xs ys : List A) → Among a ys → Among a (xs ++ ys)
  Among-append_right a [] ys h = h
  Among-append_right a (x ∷ xs) ys h = inr (Among-append_right a xs ys h)

  pub Among-map :
      {B : Type 0} (f : A → B) (a : A) (xs : List A) → Among a xs → Among (f a) (map f xs)
  Among-map f a [] h = absurd h
  Among-map f a (x ∷ xs) (inl here) = inl (ap f here)
  Among-map f a (x ∷ xs) (inr there) = inr (Among-map f a xs there)

  pub find-Among : (p : A → Bool) (xs : List A) (a : A) → find p xs ≡ some a → Among a xs
  find-Among p [] a e = cc
  find-Among p (x ∷ xs) a e = elim (Bool-cases (p x)) [
    | inl hit ↦ inl (ground (arith, hit, e))
    | inr miss ↦ inr (find-Among p xs a (ground (arith, miss, e)))
  ]

  pub All-append {κ} : (P : A → Type κ) (xs ys : List A) → All P xs → All P ys → All P (xs ++ ys)
  All-append P [] ys hx hy = hy
  All-append P (x ∷ xs) ys (h, hx) hy = (h, All-append P xs ys hx hy)

  pub All-map_each {κ μ} :
      (P : A → Type κ) (Q : A → Type μ) (xs : List A) → ((x : A) → P x → Q x) → All P xs → All Q xs
  All-map_each P Q [] f h = tt
  All-map_each P Q (x ∷ xs) f (h, hs) = (f x h, All-map_each P Q xs f hs)
