-- ===== src/Users.antt =====
-- backend/src/users/users.service.ts. E-mail addresses are kept in lower case.
use flow_pay.Prelude.{ℕ, Option, none, some, [], ◌∷◌, ◌++◌, ◌==◌, nat_eq, find}
use flow_pay.Prelude.Text.{Text, text_eq, to_lower}
use flow_pay.Exec.{gets, pure, modify, ◌>>=◌, ◌>>◌}
use flow_pay.Db.{Action, User, UserRole}
use flow_pay.Ledger.{fresh_id}

unfoldable pub find_by_email : Text → Action (Option User)
find_by_email email = gets (λ db. find (λ u. u.email == to_lower email) db.users)

unfoldable pub find_by_id : ℕ → Action (Option User)
find_by_id id = gets (λ db. find (λ u. u.id == id) db.users)

unfoldable pub create : Text → Text → UserRole → Action User
unfolding fresh_id
create email password_hash role = do
  id ← fresh_id
  let user : User = record {
    id = id;
    email = to_lower email;
    password_hash = password_hash;
    role = role;
  }
  modify (λ db. record db { users = db.users ++ (user ∷ []) })
  pure user

-- `user?.email ?? null`
abbrev pub email_of : Option User → Option Text
email_of none = none
email_of (some u) = some u.email
