-- ===== src/Auth/Directory.antt =====
-- The table of the users: an e-mail address belongs to one user, and an id too.
use flow_pay.Prelude.{
  ℕ, suc, ◌+◌, ◌<◌, ◌≤◌, ◌≡◌, ◌⊎◌, Bool, true, Option, none, some, List, [], ◌∷◌, ◌++◌, arith, refl,
  sym, find, find-append, ◌==◌, nat_eq, beq_refl, inl, inr, Bool-cases, Option-cases, if◌then◌else◌,
}
use mathlib.Core.Path.{subst}
use flow_pay.Prelude.Text.{Text, text_eq, text_beq, text_beq_iff, to_lower}
use flow_pay.Exec.{ok, err, conflict}
use flow_pay.Db.{Db, User, UserRole}
use flow_pay.Ledger.{fresh_id}
use flow_pay.Users.{find_by_email, create}
use flow_pay.Auth.{Crypto, RegisterDto, build_auth_response, register}

abbrev pub with_email : Text → List User → Option User
with_email email users = find (λ u. u.email == email) users

abbrev pub with_id : ℕ → List User → Option User
with_id id users = find (λ u. u.id == id) users

-- the number of users with an address
abbrev pub users_at : Text → List User → ℕ
users_at email [] = 0
users_at email (u ∷ rest) =
    let others = users_at email rest in if text_beq u.email email then suc others else others

pub record IsDirectory (db : Db) : Type 0 where
  pub unique : (email : Text) → users_at email db.users ≤ 1
  pub by_id :
      (email : Text) (u : User)
      → with_email email db.users ≡ some u
      → with_id u.id db.users ≡ some u
  pub numbered : (id : ℕ) (u : User) → with_id id db.users ≡ some u → id < db.next_id

-- the user that a registration writes
abbrev pub registered : Crypto → Text → RegisterDto → Db → User
registered c salt dto db = record {
  id = db.next_id;
  email = to_lower dto.email;
  password_hash = c.hash salt dto.password;
  role = UserRole.user;
}

abbrev pub with_user : User → Db → Db
with_user u db = record db { users = db.users ++ (u ∷ []); next_id = suc db.next_id }

pub register_cases :
    (c : Crypto) (salt : Text) (dto : RegisterDto) (db : Db)
    → ((with_email (to_lower dto.email) db.users ≡ none)
        × (register c salt dto db ≡ (
          ok (build_auth_response c db.now (registered c salt dto db)),
          with_user (registered c salt dto db) db,
        )))
      ⊎ ((u : User) × (with_email (to_lower dto.email) db.users ≡ some u)
          × (register c salt dto db ≡ (err conflict, db)))
unfolding register find_by_email create fresh_id
register_cases c salt dto db = elim (Option-cases (with_email (to_lower dto.email) db.users)) [
  | inl free ↦ inl (free, ground (arith, free))
  | inr (u, taken) ↦ inr (u, taken, ground (arith, taken))
]

users_at-append :
    (email : Text) (xs ys : List User)
    → users_at email (xs ++ ys) ≡ users_at email xs + users_at email ys
users_at-append email [] ys = omega arith
users_at-append email (x ∷ xs) ys = ground (arith, users_at-append email xs ys)

users_at-absent :
    (email : Text) (users : List User) → with_email email users ≡ none → users_at email users ≡ 0
users_at-absent email [] e = refl
users_at-absent email (u ∷ users) e = ground (arith, e, users_at-absent email users)

-- What is found after a row was added.
found_appended :
    (p : User → Bool) (users : List User) (u v : User)
    → find p (users ++ (u ∷ [])) ≡ some v
    → (find p users ≡ some v) ⊎ ((find p users ≡ none) × (u ≡ v) × (p u ≡ true))
found_appended p users u v e = elim (Option-cases (find p users)) [
  | inr (x, found) ↦ inl (ground (arith, found, e, find-append p users (u ∷ [])))
  | inl absent ↦ elim (Bool-cases (p u)) [
    | inl hit ↦ inr (absent, ground (arith, absent, hit, e, find-append p users (u ∷ [])), hit)
    | inr miss ↦ ground (arith, absent, miss, e, find-append p users (u ∷ []))
  ]
]

-- A registered user keeps the directory.
with_user-IsDirectory :
    (u : User) (db : Db)
    → with_email u.email db.users ≡ none
    → u.id ≡ db.next_id
    → IsDirectory db
    → IsDirectory (with_user u db)
with_user-IsDirectory u db free fresh d = record {
  unique = unique';
  by_id = by_id';
  numbered = numbered';
}
  where
    unique' : (email : Text) → users_at email (db.users ++ (u ∷ [])) ≤ 1
    unique' email = elim (Bool-cases (text_beq u.email email)) [
      | inl hit ↦
          let same : u.email ≡ email = (text_beq_iff u.email email).0 hit in
          let nobody : users_at email db.users ≡ 0 =
            users_at-absent email db.users (subst (λ w. with_email w db.users ≡ none) same free) in
          ground (arith, users_at-append email db.users (u ∷ []), hit, nobody)
      | inr miss ↦ ground (arith, users_at-append email db.users (u ∷ []), miss, d.unique email)
    ]

    new_id : with_id u.id db.users ≡ none
    new_id = elim (Option-cases (with_id u.id db.users)) [
      | inl absent ↦ absent
      | inr (x, found) ↦ absurd (omega (arith, d.numbered u.id x found, fresh))
    ]

    by_id' :
        (email : Text) (v : User)
        → with_email email (db.users ++ (u ∷ [])) ≡ some v
        → with_id v.id (db.users ++ (u ∷ [])) ≡ some v
    by_id' email v found = elim (found_appended (λ x. x.email == email) db.users u v found) [
      | inl old ↦
          ground (arith, d.by_id email v old, find-append (λ x. x.id == v.id) db.users (u ∷ []))
      | inr (absent, same, hit) ↦
          subst (λ w. with_id w.id (db.users ++ (u ∷ [])) ≡ some w) same
            (ground
              (arith, new_id, beq_refl u.id, find-append (λ x. x.id == u.id) db.users (u ∷ [])))
    ]

    numbered' :
        (id : ℕ) (v : User) → with_id id (db.users ++ (u ∷ [])) ≡ some v → id < suc db.next_id
    numbered' id v found = elim (found_appended (λ x. x.id == id) db.users u v found) [
      | inl old ↦ omega (arith, d.numbered id v old)
      | inr (absent, same, hit) ↦ ground (arith, hit, fresh)
    ]

-- A registration keeps the directory, however it ends: no two users have one address, a user is found by the
-- own id, and the ids are those that were issued.
pub register-IsDirectory :
    (c : Crypto) (salt : Text) (dto : RegisterDto) (db : Db)
    → IsDirectory db
    → IsDirectory (register c salt dto db).1
register-IsDirectory c salt dto db d = elim (register_cases c salt dto db) [
  | inl (free, e) ↦
      subst (λ p. IsDirectory p.1) (sym e)
        (with_user-IsDirectory (registered c salt dto db) db free refl d)
  | inr (u, taken, e) ↦ subst (λ p. IsDirectory p.1) (sym e) d
]
