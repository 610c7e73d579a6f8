-- ===== src/Trading/Pair.antt =====
-- backend/src/trading/pair.util.ts
use flow_pay.Prelude.{List, [], ◌∷◌}
use flow_pay.Prelude.Text.{Text, split, to_upper}
use flow_pay.Exec.{Result, ok, err, bad_request}

pub record ParsedPair : Type 0 where
  pub base_code : Text
  pub quote_code : Text

abbrev pub pair_of_parts : List Text → Result ParsedPair
pair_of_parts (base ∷ quote ∷ []) =
    ok (record { base_code = to_upper base; quote_code = to_upper quote })
pair_of_parts _ = err bad_request

-- `pair.split('/')`: exactly two parts, in upper case
unfoldable pub split_pair : Text → Result ParsedPair
split_pair pair = pair_of_parts (split b'/' pair)
