-- ===== src/Tests/People.antt =====
-- Runs of registration, login, and a user's view of the wallets.
use flow_pay.Prelude.{
  ℕ, zero, suc, ◌+◌, ◌≡◌, true, Option, none, some, [], ◌∷◌, refl, arith, map, ap,
}
use mathlib.Core.Path.{subst}
use flow_pay.Prelude.Text.{Text, text_beq, to_lower}
use flow_pay.Exec.{ok, err, unauthorized, conflict}
use flow_pay.Db.{Db, User, UserRole}
use flow_pay.Ledger.{by_code, fresh_id}
use flow_pay.Ledger.Ensured.{Opens}
use flow_pay.Users.{find_by_email, create}
use flow_pay.Accounts.{get_balances}
use flow_pay.Accounts.Seen.{InOrder, seen, get_balances-seen}
use flow_pay.Auth.{
  Crypto, RegisterDto, Claims, AuthResponse, register, login, authenticate, build_auth_response,
}
use flow_pay.Auth.Directory.{IsDirectory, register-IsDirectory}
use flow_pay.Auth.Session.{IsCrypto, login-authenticate, register-login}
use flow_pay.Tests.{empty_db, empty_db-IsHeld, ada_mail}

get_balances-seen_example :
    (d : Db) × (get_balances 1 empty_db
      ≡ (ok (map (seen 1 empty_db) (by_code empty_db.currencies)), d))
    × Opens empty_db d
    × InOrder [] (by_code empty_db.currencies)
get_balances-seen_example = get_balances-seen 1 empty_db empty_db-IsHeld.sound

-- Hashes and tokens as plain texts: the password itself, and the fields of the payload.
abbrev role_code : UserRole → ℕ
role_code UserRole.user = 0
role_code UserRole.admin = 1

abbrev role_at : ℕ → UserRole
role_at zero = UserRole.user
role_at (suc c) = UserRole.admin

abbrev decode_plain : Text → Option Claims
decode_plain (sub ∷ role ∷ iat ∷ exp ∷ email) = some (record {
  payload = record { sub = sub; email = email; role = role_at role };
  iat = iat;
  exp = exp;
})
decode_plain _ = none

abbrev plain : Crypto
plain = record {
  hash = λ salt password. password;
  verify = text_beq;
  sign = λ p. p.payload.sub ∷ role_code p.payload.role ∷ p.iat ∷ p.exp ∷ p.payload.email;
  decode = decode_plain;
  expires_in = 900;
}

text_beq_self : (t : Text) → text_beq t t ≡ true
text_beq_self [] = refl
text_beq_self (c ∷ t) = ground (arith, text_beq_self t)

role_at_code : (r : UserRole) → role_at (role_code r) ≡ r
role_at_code UserRole.user = refl
role_at_code UserRole.admin = refl

plain_decodes : (p : Claims) → decode_plain (plain.sign p) ≡ some p
plain_decodes p =
    ap
      (λ r. some (record {
        payload = record { sub = p.payload.sub; email = p.payload.email; role = r };
        iat = p.iat;
        exp = p.exp;
      }))
      (role_at_code p.payload.role)

plain-IsCrypto : IsCrypto plain
plain-IsCrypto = record {
  verify_hash = λ salt password. text_beq_self password;
  verify_other = λ salt password other passes. passes;
  decode_sign = plain_decodes;
}

abbrev nobody : Db
nobody = record empty_db { users = [] }

nobody-IsDirectory : IsDirectory nobody
nobody-IsDirectory = record {
  unique = λ email. omega arith;
  by_id = λ email u found. cc;
  numbered = λ id u found. cc;
}

abbrev ada_dto : RegisterDto
ada_dto = record { email = ada_mail; password = 120 ∷ [] }

register-IsDirectory_example : IsDirectory (register plain [] ada_dto nobody).1
register-IsDirectory_example = register-IsDirectory plain [] ada_dto nobody nobody-IsDirectory

-- Ada, registered.
abbrev new_ada : User
new_ada = record { id = 2; email = ada_mail; password_hash = 120 ∷ []; role = UserRole.user }

abbrev somebody : Db
somebody = record nobody { users = new_ada ∷ []; next_id = 3 }

abbrev ada_response : AuthResponse
ada_response = build_auth_response plain somebody.now new_ada

register_runs : register plain [] ada_dto nobody ≡ (ok ada_response, somebody)
unfolding register find_by_email create fresh_id to_lower
register_runs = refl

register-login_example :
    (login plain (record { email = 65 ∷ 64 ∷ 66 ∷ []; password = 120 ∷ [] }) somebody
      ≡ (ok ada_response, somebody))
    × (login plain (record { email = 65 ∷ 64 ∷ 66 ∷ []; password = 121 ∷ [] }) somebody
        ≡ (err unauthorized, somebody))
    × (register plain [] (record { email = 65 ∷ 64 ∷ 66 ∷ []; password = 121 ∷ [] }) somebody
        ≡ (err conflict, somebody))
unfolding to_lower
register-login_example =
    register-login plain [] [] ada_dto (65 ∷ 64 ∷ 66 ∷ []) (121 ∷ []) nobody somebody ada_response
      plain-IsCrypto register_runs refl refl

login_runs :
    login plain (record { email = ada_mail; password = 120 ∷ [] }) somebody
    ≡ (ok ada_response, somebody)
unfolding login find_by_email to_lower
login_runs = refl

somebody-IsDirectory : IsDirectory somebody
somebody-IsDirectory =
    subst (λ p. IsDirectory p.1) register_runs
      (register-IsDirectory plain [] ada_dto nobody nobody-IsDirectory)

-- A quarter of an hour after the login.
abbrev quarter_later : Db
quarter_later = record somebody { now = somebody.now + 900000 }

login-authenticate_example :
    (somebody ≡ somebody)
    × (authenticate plain ada_response.access_token quarter_later
        ≡ (err unauthorized, quarter_later))
login-authenticate_example =
    login-authenticate plain (record { email = ada_mail; password = 120 ∷ [] }) somebody somebody
      quarter_later ada_response plain-IsCrypto somebody-IsDirectory login_runs refl
