-- ===== src/Idempotency/Keys.antt =====
-- The table of the keys: what a query leaves of the rows of a key.
use flow_pay.Prelude.{
  ℕ, ◌≡◌, Bool, true, false, ◌&&◌, ◌||◌, not, none, some, List, [], ◌∷◌, ◌++◌, arith, refl,
  find-append, find-select, find-select_dropped, find-map, nat_eq, nat_beq, nat_beq_iff,
  if◌then◌else◌, Bool-cases, inl, inr,
}
use flow_pay.Prelude.Text.{Text, text_eq, text_beq, text_beq_iff}
use flow_pay.Idempotency.{IdempotencyKey, is_key, find_key, update_key, delete_key}

module _ {B : Type 0} where
  abbrev pub has_key : ℕ → Text → List (IdempotencyKey B) → Bool
  has_key user_id key rows = elim (find_key user_id key rows) [ none ↦ false | some row ↦ true ]

  pub has_key-append :
      (v : ℕ) (l : Text) (rows : List (IdempotencyKey B)) (row : IdempotencyKey B)
      → has_key v l (rows ++ (row ∷ [])) ≡ (has_key v l rows || is_key v l row)
  has_key-append v l rows row = ground (arith, find-append (is_key v l) rows (row ∷ []))

  -- An update that keeps the row's key.
  abbrev pub KeepsKey : (IdempotencyKey B → IdempotencyKey B) → Type 0
  KeepsKey f = (row : IdempotencyKey B) → ((f row).user_id ≡ row.user_id) × ((f row).key ≡ row.key)

  is_key-kept :
      (v u : ℕ) (l k : Text) (f : IdempotencyKey B → IdempotencyKey B)
      → KeepsKey f
      → (row : IdempotencyKey B)
      → is_key v l (if is_key u k row then f row else row) ≡ is_key v l row
  is_key-kept v u l k f keeps row = elim (Bool-cases (is_key u k row)) [
    | inl hit ↦ rw (hit, (keeps row).0, (keeps row).1) refl
    | inr miss ↦ rw miss refl
  ]

  pub find_key-update :
      (v u : ℕ) (l k : Text) (f : IdempotencyKey B → IdempotencyKey B)
      → KeepsKey f
      → (rows : List (IdempotencyKey B))
      → find_key v l (update_key u k f rows) ≡ elim (find_key v l rows) [
        | none ↦ none
        | some row ↦ some (if is_key u k row then f row else row)
      ]
  find_key-update v u l k f keeps rows =
      find-map (is_key v l) (λ row. if is_key u k row then f row else row)
        (is_key-kept v u l k f keeps) rows

  pub has_key-update :
      (v u : ℕ) (l k : Text) (f : IdempotencyKey B → IdempotencyKey B)
      → KeepsKey f
      → (rows : List (IdempotencyKey B)) → has_key v l (update_key u k f rows) ≡ has_key v l rows
  has_key-update v u l k f keeps rows = ground (arith, find_key-update v u l k f keeps rows)

  pub find_key-delete :
      (u : ℕ) (k : Text) (rows : List (IdempotencyKey B))
      → find_key u k (delete_key u k rows) ≡ none
  find_key-delete u k rows =
      find-select_dropped (is_key u k) (λ row. not (is_key u k row)) (λ row hit. rw hit refl) rows

  -- A deletion keeps the rows of every other key.
  pub find_key-delete_other :
      (v u : ℕ) (l k : Text)
      → (nat_beq v u && text_beq l k) ≡ false
      → (rows : List (IdempotencyKey B)) → find_key v l (delete_key u k rows) ≡ find_key v l rows
  find_key-delete_other v u l k other rows =
      find-select (is_key v l) (λ row. not (is_key u k row))
        (λ row hit. ground (
          arith,
          hit,
          other,
          text_beq_iff row.key l,
          text_beq_iff row.key k,
          text_beq_iff l k,
          nat_beq_iff row.user_id v,
          nat_beq_iff row.user_id u,
          nat_beq_iff v u,
        ))
        rows
