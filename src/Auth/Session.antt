-- ===== src/Auth/Session.antt =====
-- From a registration to a request that is let in.
use flow_pay.Prelude.{
  ℕ, ◌≡◌, ◌+◌, ltb, leb, if◌then◌else◌, true, false, some, [], ◌∷◌, arith, ap, sym, ◌∙◌,
  find-append, ◌==◌, nat_eq, beq_refl, inl, inr, Bool-cases, Option-cases,
}
use mathlib.Core.Path.{subst}
use flow_pay.Prelude.Text.{Text, text_eq, text_beq, to_lower}
use flow_pay.Exec.{ok, err, unauthorized, conflict}
use flow_pay.Db.{Db, User}
use flow_pay.Users.{find_by_email, find_by_id}
use flow_pay.Auth.{
  Crypto, RegisterDto, LoginDto, JwtPayload, Claims, claims_at, seconds, AuthResponse,
  build_auth_response, register, login, validate, authenticate,
}
use flow_pay.Auth.Directory.{
  with_email, with_id, IsDirectory, registered, with_user, register_cases,
}

-- What is relied on: a hash verifies the password that it was made of and no other, and a token that
-- was signed decodes to its claims.
pub record IsCrypto (c : Crypto) : Type 0 where
  pub verify_hash : (salt password : Text) → c.verify (c.hash salt password) password ≡ true
  pub verify_other :
      (salt password other : Text)
      → c.verify (c.hash salt password) other ≡ true
      → text_beq password other ≡ true
  pub decode_sign : (claims : Claims) → c.decode (c.sign claims) ≡ some claims

login-eq-ok :
    (c : Crypto) (dto : LoginDto) (db db' : Db) (r : AuthResponse)
    → login c dto db ≡ (ok r, db')
    → (u : User) × (with_email (to_lower dto.email) db.users ≡ some u)
      × (c.verify u.password_hash dto.password ≡ true)
      × (r ≡ build_auth_response c db.now u)
      × (db' ≡ db)
unfolding login find_by_email
login-eq-ok c dto db db' r e = elim (Option-cases (with_email (to_lower dto.email) db.users)) [
  | inl absent ↦ ground (arith, absent, e)
  | inr (u, found) ↦ elim (Bool-cases (c.verify u.password_hash dto.password)) [
    | inr wrong ↦ ground (arith, found, wrong, e)
    | inl right ↦
        (u, found, right, ground (arith, found, right, e), ground (arith, found, right, e))
  ]
]

-- The token lets its user in until it expires, counted from the login, and nobody from then on.
abbrev pub LetsIn : Crypto → ℕ → AuthResponse → Db → Type 0
LetsIn c login_time r d = authenticate c r.access_token d ≡ (
  if ltb (seconds d.now) (seconds login_time + c.expires_in)
      then ok (record { id = r.user.id; email = r.user.email; role = r.user.role })
      else err unauthorized,
  d,
)

-- Until its expiry, `JWT_EXPIRES_IN` after the login, the token of a login lets its user in, under
-- the user's own id, address and role, as long as the users are the same, and from then on it is
-- refused; neither a login nor the check of a token changes anything.
pub login-authenticate :
    (c : Crypto) (dto : LoginDto) (db db' d : Db) (r : AuthResponse)
    → IsCrypto c
    → IsDirectory db
    → login c dto db ≡ (ok r, db')
    → d.users ≡ db.users
    → (db' ≡ db) × LetsIn c db.now r d
unfolding authenticate validate find_by_id
login-authenticate c dto db db' d r crypto dir e same =
    let (u, found, right, answer, still) = login-eq-ok c dto db db' r e in
    let payload : JwtPayload = record { sub = u.id; email = u.email; role = u.role } in
    let there : with_id u.id d.users ≡ some u =
      subst (λ us. with_id u.id us ≡ some u) (sym same) (dir.by_id (to_lower dto.email) u found) in
    let signed = crypto.decode_sign (claims_at c db.now payload) in
    let exp = seconds db.now + c.expires_in in
    let lets_in : LetsIn c db.now (build_auth_response c db.now u) d =
      elim (Bool-cases (ltb (seconds d.now) exp)) [
        | inl valid ↦
            let due : leb exp (seconds d.now) ≡ false = ground (arith, valid) in
            (ground (arith, signed, due, there, valid))
        | inr expired ↦
            let due : leb exp (seconds d.now) ≡ true = ground (arith, expired) in
            (ground (arith, signed, due, expired))
      ] in
    (still, subst (λ k. LetsIn c db.now k d) (sym answer) lets_in)

-- After a registration a login with the same address, in any case, and the same password gives the
-- registered user, with another password it is refused, and another registration of the address is
-- a conflict; none of the three changes anything.
pub register-login :
    (c : Crypto) (salt again : Text) (dto : RegisterDto) (email other : Text) (db db' : Db)
    (r : AuthResponse)
    → IsCrypto c
    → register c salt dto db ≡ (ok r, db')
    → to_lower email ≡ to_lower dto.email
    → text_beq dto.password other ≡ false
    → (login c (record { email = email; password = dto.password }) db' ≡ (ok r, db'))
      × (login c (record { email = email; password = other }) db' ≡ (err unauthorized, db'))
      × (register c again (record { email = email; password = other }) db' ≡ (err conflict, db'))
unfolding login find_by_email register
register-login c salt again dto email other db db' r crypto e address wrong =
    elim (register_cases c salt dto db) [
      | inr (u, taken, refused) ↦ cc (sym refused ∙ e)
      | inl (free, done) ↦
          let u = registered c salt dto db in
          let there : with_user u db ≡ db' = ap (λ p. p.1) (sym done ∙ e) in
          let answer : build_auth_response c db.now u ≡ r = ground (arith, done, e) in
          let found : with_email (to_lower email) (with_user u db).users ≡ some u = ground (
            arith,
            address,
            free,
            beq_refl (to_lower dto.email),
            find-append (λ (x : User). x.email == to_lower dto.email) db.users (u ∷ []),
          ) in
          let right = crypto.verify_hash salt dto.password in
          let refused : c.verify u.password_hash other ≡ false =
            elim (Bool-cases (c.verify u.password_hash other)) [
              | inl passes ↦ cc (sym (crypto.verify_other salt dto.password other passes), wrong)
              | inr fails ↦ fails
            ] in
          subst
            (λ d.
              (login c (record { email = email; password = dto.password }) d ≡ (ok r, d))
              × (login c (record { email = email; password = other }) d ≡ (err unauthorized, d))
              × (register c again (record { email = email; password = other }) d
                  ≡ (err conflict, d)))
            there
            (
              ground (arith, found, right, answer),
              ground (arith, found, refused),
              ground (arith, found),
            )
    ]
