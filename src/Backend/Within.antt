-- ===== src/Backend/Within.antt =====
-- Methods that change a row which an earlier read has found.
use flow_pay.Prelude.{◌≡◌, refl, Bool, true, false, if◌then◌else◌}
use flow_pay.Exec.{Result, ok, err, transaction, settle, ◌>>=◌}
use flow_pay.Db.{Db, Action}
use flow_pay.Backend.Keeping.{Keeps}
use flow_pay.Backend.Growing.{Posts, posts}
use flow_pay.Backend.Advancing.{Evolves, Evolves-refl, Evolves-trans, Posts-Evolves, evolves}

-- What was read holds until a request or an order is written.
module _ (Holds : Db → Type 0) (stable : (db db' : Db) → Posts db db' → Holds db → Holds db') where
  -- What the method does where that holds.
  pub record Within {A : Type 0} (m : Action A) : Type 0 where
    pub moves : (db : Db) → Holds db → Evolves db (m db).1

  posted :
      {A B : Type 0} (db : Db) (p : Result A × Db) (f : A → Action B)
      → Holds db
      → Posts db p.1
      → ((a : A) → Within (f a))
      → Evolves db (((λ s. p) >>= f) db).1
  posted db (ok a, d) f h first rest =
      Evolves-trans db d (f a d).1 (Posts-Evolves db d first)
        ((rest a).moves d (stable db d first h))
  posted db (err e, d) f h first rest = Posts-Evolves db d first

  pub bind-Within :
      {A B : Type 0} (m : Action A) (f : A → Action B)
      → Keeps posts m
      → ((a : A) → Within (f a))
      → Within (m >>= f)
  bind-Within m f first rest = record { moves = λ db h. posted db (m db) f h (first.holds db) rest }

  moved :
      {A B : Type 0} (db : Db) (p : Result A × Db) (f : A → Action B)
      → Evolves db p.1
      → ((a : A) → Keeps evolves (f a))
      → Evolves db (((λ s. p) >>= f) db).1
  moved db (ok a, d) f first rest = Evolves-trans db d (f a d).1 first ((rest a).holds d)
  moved db (err e, d) f first rest = first

  -- the rest may do without it
  pub end-Within :
      {A B : Type 0} (m : Action A) (f : A → Action B)
      → Within m
      → ((a : A) → Keeps evolves (f a))
      → Within (m >>= f)
  end-Within m f first rest = record { moves = λ db h. moved db (m db) f (first.moves db h) rest }

  taken_back :
      {A : Type 0} (db : Db) (p : Result A × Db) → Evolves db p.1 → Evolves db (settle db p).1
  taken_back db (ok a, d) first = first
  taken_back db (err e, d) first = Evolves-refl db

  pub transaction-Within : {A : Type 0} (m : Action A) → Within m → Within (transaction m)
  unfolding transaction
  transaction-Within m first = record { moves = λ db h. taken_back db (m db) (first.moves db h) }

  pub anyway-Within : {A : Type 0} (m : Action A) → Keeps evolves m → Within m
  anyway-Within m k = record { moves = λ db h. k.holds db }

  pub if-Within :
      {A : Type 0} (c : Bool) (m k : Action A) → Within m → Within k → Within (if c then m else k)
  if-Within true m k wm wk = wm
  if-Within false m k wm wk = wk

-- A read that finds what the rest relies on.
module _ {A B : Type 0} (Holds : A → Db → Type 0)
    (stable : (a : A) (db db' : Db) → Posts db db' → Holds a db → Holds a db') where
  looked :
      (m : Action A) (f : A → Action B) (db : Db) (p : Result A × Db)
      → m db ≡ p
      → Posts db p.1
      → ((a : A) (d : Db) → m db ≡ (ok a, d) → Holds a d)
      → ((a : A) → Within (Holds a) (stable a) (f a))
      → Evolves db (((λ s. p) >>= f) db).1
  looked m f db (ok a, d) e first found rest =
      Evolves-trans db d (f a d).1 (Posts-Evolves db d first) ((rest a).moves d (found a d e))
  looked m f db (err x, d) e first found rest = Posts-Evolves db d first

  pub found-Keeps :
      (m : Action A) (f : A → Action B)
      → Keeps posts m
      → ((db : Db) (a : A) (d : Db) → m db ≡ (ok a, d) → Holds a d)
      → ((a : A) → Within (Holds a) (stable a) (f a))
      → Keeps evolves (m >>= f)
  found-Keeps m f first found rest = record {
    holds = λ db. looked m f db (m db) refl (first.holds db) (found db) rest;
  }
