-- ===== src/Auth.antt =====
-- backend/src/auth: registration, login, and what a request's token stands for. argon2 and the signing of
-- tokens are parameters.
pub mod Directory
pub mod Session
use flow_pay.Prelude.{
  ℕ, Bool, true, false, not, leb, ◌+◌, ◌/◌, Option, none, some, List, [], ◌∷◌, ◌||◌, nat_beq,
  if◌then◌else◌,
}
use flow_pay.Prelude.Text.{Text}
use flow_pay.Exec.{gets, pure, throw, or_throw, throw_if, conflict, unauthorized, ◌>>=◌, ◌>>◌}
use flow_pay.Db.{Action, User, UserRole}
use flow_pay.Users.{find_by_email, find_by_id, create}

pub record RegisterDto : Type 0 where
  pub email : Text
  pub password : Text

pub record LoginDto : Type 0 where
  pub email : Text
  pub password : Text

pub record JwtPayload : Type 0 where
  pub sub : ℕ
  pub email : Text
  pub role : UserRole

-- What a token says: its payload, and when it was issued and expires, in seconds.
pub record Claims : Type 0 where
  pub payload : JwtPayload
  pub iat : ℕ
  pub exp : ℕ

-- argon2 and the service of JSON web tokens
pub record Crypto : Type 0 where
  -- `argon2.hash(password)` at some salt
  pub hash : Text → Text → Text
  pub verify : Text → Text → Bool
  pub sign : Claims → Text
  -- the claims of a token whose signature is right
  pub decode : Text → Option Claims
  -- `signOptions.expiresIn`, the setting `JWT_EXPIRES_IN`, in seconds
  pub expires_in : ℕ

pub record UserProfile : Type 0 where
  pub id : ℕ
  pub email : Text
  pub role : UserRole

pub record AuthResponse : Type 0 where
  pub access_token : Text
  pub user : UserProfile

pub record AuthenticatedUser : Type 0 where
  pub id : ℕ
  pub email : Text
  pub role : UserRole

abbrev pub to_profile : User → UserProfile
to_profile u = record { id = u.id; email = u.email; role = u.role }

-- a time of the wall clock in whole seconds
abbrev pub seconds : ℕ → ℕ
seconds ms = ms / 1000

-- `jwtService.sign(payload)` at a time
abbrev pub claims_at : Crypto → ℕ → JwtPayload → Claims
claims_at c now payload = record {
  payload = payload;
  iat = seconds now;
  exp = seconds now + c.expires_in;
}

abbrev pub build_auth_response : Crypto → ℕ → User → AuthResponse
build_auth_response c now u = record {
  access_token = c.sign (claims_at c now (record { sub = u.id; email = u.email; role = u.role }));
  user = to_profile u;
}

abbrev pub is_some : Option User → Bool
is_some none = false
is_some (some u) = true

unfoldable pub register : Crypto → Text → RegisterDto → Action AuthResponse
register c salt dto = do
  existing ← find_by_email dto.email
  throw_if (is_some existing) conflict
  user ← create dto.email (c.hash salt dto.password) UserRole.user
  now ← gets (λ db. db.now)
  pure (build_auth_response c now user)

unfoldable pub login : Crypto → LoginDto → Action AuthResponse
login c dto = do
  found ← find_by_email dto.email
  user ← or_throw found unauthorized
  throw_if (not (c.verify user.password_hash dto.password)) unauthorized
  now ← gets (λ db. db.now)
  pure (build_auth_response c now user)

-- `JwtStrategy.validate`
unfoldable pub validate : JwtPayload → Action AuthenticatedUser
validate payload = do
  found ← find_by_id payload.sub
  user ← or_throw found unauthorized
  pure (record { id = user.id; email = user.email; role = user.role })

-- A request with a bearer token: `ignoreExpiration` is false, so a token is refused from its expiry on.
unfoldable pub authenticate : Crypto → Text → Action AuthenticatedUser
authenticate c token = do
  claims ← or_throw (c.decode token) unauthorized
  now ← gets (λ db. db.now)
  throw_if (leb claims.exp (seconds now)) unauthorized
  validate claims.payload

abbrev pub role_beq : UserRole → UserRole → Bool
role_beq UserRole.user UserRole.user = true
role_beq UserRole.admin UserRole.admin = true
role_beq _ _ = false

abbrev pub includes : UserRole → List UserRole → Bool
includes role [] = false
includes role (r ∷ rs) = role_beq r role || includes role rs

-- `RolesGuard.canActivate`: a handler without required roles is open to every user.
abbrev pub can_activate : List UserRole → AuthenticatedUser → Bool
can_activate [] user = true
can_activate (r ∷ rs) user = includes user.role (r ∷ rs)
