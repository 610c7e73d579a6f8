-- ===== src/Tests/Titles.antt =====
-- The slug of a title.
use flow_pay.Prelude.{◌≡◌, [], ◌∷◌}
use flow_pay.Prelude.Text.{Text, to_lower}
use flow_pay.Problems.{slugify}
use flow_pay.Problems.Slugs.{slugify-pieces}

-- `I'm a Teapot`
abbrev teapot : Text
teapot = 73 ∷ 39 ∷ 109 ∷ 32 ∷ 97 ∷ 32 ∷ 84 ∷ 101 ∷ 97 ∷ 112 ∷ 111 ∷ 116 ∷ []

-- `i-m-a-teapot`
slugify-pieces_example :
    slugify teapot ≡ 105 ∷ 45 ∷ 109 ∷ 45 ∷ 97 ∷ 45 ∷ 116 ∷ 101 ∷ 97 ∷ 112 ∷ 111 ∷ 116 ∷ []
unfolding to_lower
slugify-pieces_example = slugify-pieces teapot
