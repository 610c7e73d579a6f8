-- ===== src/Problems/Slugs.antt =====
-- The last segment of a problem's type.
use flow_pay.Prelude.{
  ℕ, ◌≡◌, true, false, List, [], ◌∷◌, ◌++◌, arith, refl, sym, ap, ◌∙◌, inl, inr, ◌⊎◌, Bool-cases,
  nat_beq, if◌then◌else◌,
}
use flow_pay.Prelude.Text.{Text, to_lower}
use flow_pay.Problems.{is_word_char, collapse, drop_first, drop_last, slugify}

-- The text cut at every character that is no letter and no digit.
abbrev pub pieces : Text → List Text
pieces [] = [] ∷ []
pieces (c ∷ s) = elim (pieces s) [
  | [] ↦ []
  | w ∷ ws ↦ if is_word_char c then (c ∷ w) ∷ ws else [] ∷ w ∷ ws
]

abbrev pub non_empty : List Text → List Text
non_empty [] = []
non_empty ([] ∷ ws) = non_empty ws
non_empty ((c ∷ w) ∷ ws) = (c ∷ w) ∷ non_empty ws

-- each with a dash before it
abbrev pub dashed : List Text → Text
dashed [] = []
dashed (w ∷ ws) = b'-' ∷ (w ++ dashed ws)

-- with dashes between them
abbrev pub hyphenated : List Text → Text
hyphenated [] = []
hyphenated (w ∷ ws) = w ++ dashed ws

pieces-cases : (s : Text) → (w : Text) × (ws : List Text) × (pieces s ≡ w ∷ ws)
pieces-cases [] = ([], [], refl)
pieces-cases (c ∷ s) =
    let (w, ws, e) = pieces-cases s in
    elim (Bool-cases (is_word_char c)) [
      | inl word ↦ (c ∷ w, ws, rw (e, word) refl)
      | inr other ↦ ([], w ∷ ws, rw (e, other) refl)
    ]

word_char_lem : (c : ℕ) → is_word_char c ≡ true → nat_beq c b'-' ≡ false
word_char_lem c word = ground (arith, word)

drop_last-keeps : (c : ℕ) (s : Text) → nat_beq c b'-' ≡ false → drop_last (c ∷ s) ≡ c ∷ drop_last s
drop_last-keeps c [] other = rw other refl
drop_last-keeps c (d ∷ s) other = refl

drop_first-collapse : (s : Text) → drop_first (collapse false s) ≡ collapse true s
drop_first-collapse [] = refl
drop_first-collapse (c ∷ s) = elim (Bool-cases (is_word_char c)) [
  | inl word ↦ ground (arith, word, word_char_lem c word)
  | inr other ↦ ground (arith, other)
]

-- nothing is left exactly where there is no word
collapse-cases :
    (s : Text)
    → ((collapse true s ≡ []) × (non_empty (pieces s) ≡ []))
      ⊎ ((c : ℕ) × (r : Text) × (w : Text) × (ws : List Text) × (collapse true s ≡ c ∷ r)
          × (non_empty (pieces s) ≡ w ∷ ws))
collapse-cases [] = inl (refl, refl)
collapse-cases (c ∷ s) =
    let (w, ws, e) = pieces-cases s in
    elim (Bool-cases (is_word_char c)) [
      | inl word ↦ inr (c, collapse false s, c ∷ w, non_empty ws, rw word refl, rw (e, word) refl)
      | inr other ↦ elim (collapse-cases s) [
        | inl (gone, no_word) ↦ inl (rw other gone, rw (e, other) (ap non_empty (sym e) ∙ no_word))
        | inr (d, r, v, vs, left, words) ↦
            inr (d, r, v, vs, rw other left, rw (e, other) (ap non_empty (sym e) ∙ words))
      ]
    ]

-- a dash is left exactly where a word follows
dash_lem :
    (s : Text)
    → drop_last (collapse true s) ≡ hyphenated (non_empty (pieces s))
    → drop_last (b'-' ∷ collapse true s) ≡ dashed (non_empty (pieces s))
dash_lem s at_start = elim (collapse-cases s) [
  | inl (gone, no_word) ↦ rw (gone, no_word) refl
  | inr (d, r, w, ws, left, words) ↦
      let rest : drop_last (d ∷ r) ≡ hyphenated (w ∷ ws) =
        ap drop_last (sym left) ∙ (at_start ∙ ap hyphenated words) in
      rw (left, words) (ap (λ k. b'-' ∷ k) rest)
]

-- the first piece goes on with a word's character, the others follow dashes
abbrev continued : List Text → Text
continued [] = []
continued (w ∷ ws) = w ++ dashed (non_empty ws)

collapse-pieces :
    (s : Text)
    → (drop_last (collapse true s) ≡ hyphenated (non_empty (pieces s)))
      × (drop_last (collapse false s) ≡ continued (pieces s))
collapse-pieces [] = (refl, refl)
collapse-pieces (c ∷ s) =
    let (v, vs, e) = pieces-cases s in
    let (at_start, inside) = collapse-pieces s in
    elim (Bool-cases (is_word_char c)) [
      | inl word ↦
          let p : pieces (c ∷ s) ≡ (c ∷ v) ∷ vs = rw (e, word) refl in
          let here : drop_last (c ∷ collapse false s) ≡ c ∷ (v ++ dashed (non_empty vs)) =
            drop_last-keeps c (collapse false s) (word_char_lem c word)
            ∙ ap (λ k. c ∷ k) (inside ∙ ap continued e) in
          (
            rw word (here ∙ ap (λ k. hyphenated (non_empty k)) (sym p)),
            rw word (here ∙ ap continued (sym p)),
          )
      | inr other ↦
          let p : pieces (c ∷ s) ≡ [] ∷ pieces s = rw (e, other) refl in
          (
            rw other (at_start ∙ ap (λ k. hyphenated (non_empty k)) (sym p)),
            rw other (dash_lem s at_start ∙ ap continued (sym p)),
          )
    ]

-- The slug of a title is its words, in lower case, with single dashes between them: the runs of letters
-- and digits, however many other characters are before, between and after them.
pub slugify-pieces :
    (title : Text) → slugify title ≡ hyphenated (non_empty (pieces (to_lower title)))
unfolding slugify
slugify-pieces title =
    ap drop_last (drop_first-collapse (to_lower title)) ∙ (collapse-pieces (to_lower title)).0
