-- ===== src/Rates/Codes.antt =====
-- The currencies that backend/src/rates knows.
use flow_pay.Prelude.{[], ◌∷◌}
use flow_pay.Prelude.Text.{Text}

abbrev pub usd : Text
usd = b'U' ∷ b'S' ∷ b'D' ∷ []

abbrev pub eur : Text
eur = b'E' ∷ b'U' ∷ b'R' ∷ []

abbrev pub idr : Text
idr = b'I' ∷ b'D' ∷ b'R' ∷ []

abbrev pub btc : Text
btc = b'B' ∷ b'T' ∷ b'C' ∷ []

abbrev pub eth : Text
eth = b'E' ∷ b'T' ∷ b'H' ∷ []
