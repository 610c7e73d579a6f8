-- ===== src/Prelude/Text.antt =====
-- Texts as lists of code points, with the string methods that the program calls.
use Prim.Native.Nat.{ℕ, ◌+◌, ◌-◌}
use mathlib.Core.Path.{◌≡◌, refl}
use mathlib.Core.Logic.{◌↔◌}
use mathlib.Core.Bool.{Bool, true, false, ◌&&◌}
use mathlib.Core.List.{List, [], ◌∷◌, map}
use native.Mathlib.Omega.{arith}
use flow_pay.Prelude.Tests.{leb, nat_beq, Eq, if◌then◌else◌}

abbrev pub Text : Type 0
Text = List ℕ

abbrev pub text_beq : Text → Text → Bool
text_beq [] [] = true
text_beq [] (d ∷ t) = false
text_beq (c ∷ s) [] = false
text_beq (c ∷ s) (d ∷ t) = nat_beq c d && text_beq s t

pub text_beq_iff : (u v : Text) → (text_beq u v ≡ true) ↔ (u ≡ v)
text_beq_iff [] [] = (λ same. refl, λ same. refl)
text_beq_iff (c ∷ s) (d ∷ t) =
    let rest = text_beq_iff s t in (λ same. ground (arith, rest), λ same. ground (arith, rest))
text_beq_iff [] (d ∷ t) = (λ same. cc, λ same. cc)
text_beq_iff (c ∷ s) [] = (λ same. cc, λ same. cc)

instance abbrev pub text_eq : Eq Text
text_eq = record { beq = text_beq; beq_iff = text_beq_iff }

abbrev upper_char : ℕ → ℕ
upper_char c = if leb b'a' c && leb c b'z' then c - 32 else c

abbrev lower_char : ℕ → ℕ
lower_char c = if leb b'A' c && leb c b'Z' then c + 32 else c

-- `toUpperCase` and `toLowerCase` on ASCII letters; other characters stay.
unfoldable pub to_upper : Text → Text
to_upper = map upper_char

unfoldable pub to_lower : Text → Text
to_lower = map lower_char

-- `text.split(separator)` for a separator of one character: never the empty list.
unfoldable pub split : ℕ → Text → List Text
split sep [] = [] ∷ []
split sep (c ∷ s) = elim (split sep s) [
  | [] ↦ []
  | w ∷ ws ↦ if nat_beq c sep then [] ∷ w ∷ ws else (c ∷ w) ∷ ws
]

-- The order of the database's `ORDER BY` on codes: by code points.
abbrev pub text_leb : Text → Text → Bool
text_leb [] t = true
text_leb (c ∷ s) [] = false
text_leb (c ∷ s) (d ∷ t) = if nat_beq c d then text_leb s t else leb c d
