-- ===== src/Backend/Keeping.antt =====
-- A relation between the database before a method and after it, however the method ends.
use flow_pay.Prelude.{Bool, true, false, Option, none, some, if◌then◌else◌}
use flow_pay.Exec.{
  Error, Result, ok, err, pure, lift, gets, or_throw, throw_if, transaction, settle, ◌>>=◌,
}
use flow_pay.Db.{Db, Action}

-- A relation between databases that calls can be chained along.
pub record Relation : Type 1 where
  pub Holds : Db → Db → Type 0
  pub stays : (db : Db) → Holds db db
  pub joins : (a b c : Db) → Holds a b → Holds b c → Holds a c

module _ (r : Relation) where
  -- Between the database before the method and after it, however it ends.
  pub record Keeps {A : Type 0} (m : Action A) : Type 0 where
    pub holds : (db : Db) → r.Holds db (m db).1

  after :
      {A B : Type 0} (db : Db) (p : Result A × Db) (f : A → Action B)
      → r.Holds db p.1
      → ((a : A) → Keeps (f a))
      → r.Holds db (((λ s. p) >>= f) db).1
  after db (ok a, d) f first rest = r.joins db d (f a d).1 first ((rest a).holds d)
  after db (err e, d) f first rest = first

  pub bind-Keeps :
      {A B : Type 0} (m : Action A) (f : A → Action B)
      → Keeps m
      → ((a : A) → Keeps (f a))
      → Keeps (m >>= f)
  bind-Keeps m f first rest = record { holds = λ db. after db (m db) f (first.holds db) rest }

  settled : {A : Type 0} (db : Db) (p : Result A × Db) → r.Holds db p.1 → r.Holds db (settle db p).1
  settled db (ok a, d) first = first
  settled db (err e, d) first = r.stays db

  pub transaction-Keeps : {A : Type 0} (m : Action A) → Keeps m → Keeps (transaction m)
  unfolding transaction
  transaction-Keeps m first = record { holds = λ db. settled db (m db) (first.holds db) }

  pub lift-Keeps : {A : Type 0} (x : Result A) → Keeps (lift x)
  lift-Keeps x = record { holds = λ db. r.stays db }

  pub gets-Keeps : {A : Type 0} (f : Db → A) → Keeps (gets f)
  gets-Keeps f = record { holds = λ db. r.stays db }

  pub pure-Keeps : {A : Type 0} (a : A) → Keeps (pure a)
  pure-Keeps a = record { holds = λ db. r.stays db }

  pub throw_if-Keeps : (c : Bool) (e : Error) → Keeps (throw_if c e)
  throw_if-Keeps c e = record { holds = λ db. r.stays db }

  pub or_throw-Keeps : {A : Type 0} (o : Option A) (e : Error) → Keeps (or_throw o e)
  or_throw-Keeps none e = record { holds = λ db. r.stays db }
  or_throw-Keeps (some a) e = record { holds = λ db. r.stays db }

  pub if-Keeps :
      {A : Type 0} (c : Bool) (m k : Action A) → Keeps m → Keeps k → Keeps (if c then m else k)
  if-Keeps true m k km kk = km
  if-Keeps false m k km kk = kk
