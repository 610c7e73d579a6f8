-- ===== src/Exec.antt =====
-- The exceptions of the services, and the monad of a method that reads and writes the database:
-- what was written before a throw stays written, so the state comes back beside the error too.
use flow_pay.Prelude.{
  ℕ, Bool, true, false, Option, none, some, ◌≡◌, refl, ap, sym, ◌⊎◌, inl, inr, if◌then◌else◌,
}

-- The exceptions that the services throw. All but `internal` are Nest `HttpException`s.
pub data Error : Type 0 where
  invalid_ledger_entry bad_request not_found conflict unprocessable unauthorized : Error
  insufficient_funds : ℕ → Error
  payload_mismatch in_progress : Error
  internal : Error

pub data Result {ℓ} (A : Type ℓ) : Type ℓ where
  ok : A → Result A
  err : Error → Result A

-- `exception.getStatus()`; `none` for what is no `HttpException`
unfoldable pub get_status : Error → Option ℕ
get_status invalid_ledger_entry = some 400
get_status bad_request = some 400
get_status not_found = some 404
get_status conflict = some 409
get_status unprocessable = some 422
get_status unauthorized = some 401
get_status (insufficient_funds a) = some 422
get_status payload_mismatch = some 422
get_status in_progress = some 409
get_status internal = none

abbrev pub Exec {ℓ} : Type 0 → Type ℓ → Type ℓ
Exec S A = S → Result A × S

module _ {S : Type 0} {A : Type 0} where
  abbrev pub pure : A → Exec S A
  pure a s = (ok a, s)

  abbrev pub throw : Error → Exec S A
  throw e s = (err e, s)

  abbrev pub lift : Result A → Exec S A
  lift r s = (r, s)

  abbrev pub gets : (S → A) → Exec S A
  gets f s = (ok (f s), s)

  abbrev pub or_throw : Option A → Error → Exec S A
  or_throw none e = throw e
  or_throw (some a) e = pure a

  -- `dataSource.transaction(body)`: a throw takes back all that the body wrote.
  abbrev pub settle : S → Result A × S → Result A × S
  settle s (ok a, s') = (ok a, s')
  settle s (err e, s') = (err e, s)

  unfoldable pub transaction : Exec S A → Exec S A
  transaction m s = settle s (m s)

abbrev pub throw_if : {S : Type 0} → Bool → Error → Exec S (Unit {0})
throw_if c e s = (if c then err e else ok tt, s)

abbrev pub modify : {S : Type 0} → (S → S) → Exec S (Unit {0})
modify f s = (ok tt, f s)

infixl 5 ◌>>=◌ ◌>>◌
abbrev pub ◌>>=◌ : {S A B : Type 0} → Exec S A → (A → Exec S B) → Exec S B
◌>>=◌ m f s = let (r, s') = m s in elim r [ ok a ↦ f a s' | err e ↦ (err e, s') ]

abbrev pub ◌>>◌ : {S A B : Type 0} → Exec S A → Exec S B → Exec S B
m >> k = m >>= λ _. k

-- A chain of pure steps that may throw.
abbrev pub and_then : {A B : Type 0} → Result A → (A → Result B) → Result B
and_then (ok a) f = f a
and_then (err e) f = err e

-- Inversion of a chain that ends well.
pub and_then-eq-ok :
    {A B : Type 0} (r : Result A) (f : A → Result B) {b : B}
    → and_then r f ≡ ok b
    → (a : A) × (r ≡ ok a) × (f a ≡ ok b)
and_then-eq-ok (ok a) f h = (a, refl, h)
and_then-eq-ok (err e) f h = cc

pub Result-cases :
    {A : Type 0} (r : Result A) → ((e : Error) × (r ≡ err e)) ⊎ ((a : A) × (r ≡ ok a))
Result-cases (ok a) = inr (a, refl)
Result-cases (err e) = inl (e, refl)

pub lift-bind-eq-ok :
    {S A B : Type 0} (r : Result A) (f : A → Exec S B) {s s' : S} {b : B}
    → (lift r >>= f) s ≡ (ok b, s')
    → (a : A) × (r ≡ ok a) × (f a s ≡ (ok b, s'))
lift-bind-eq-ok (ok a) f h = (a, refl, h)
lift-bind-eq-ok (err e) f h = cc (ap (λ p. p.0) h)

pub guard-eq-ok :
    {A : Type 0} (c : Bool) (m : Result A) (e : Error) {a : A}
    → (if c then m else err e) ≡ ok a
    → (c ≡ true) × (m ≡ ok a)
guard-eq-ok true m e h = (refl, h)
guard-eq-ok false m e h = cc

-- A transaction that commits has run its body to the end.
pub transaction-eq-ok :
    {S A : Type 0} (m : Exec S A) {s s' : S} {a : A}
    → transaction m s ≡ (ok a, s')
    → m s ≡ (ok a, s')
unfolding transaction
transaction-eq-ok m {s} {s'} {a} h = settle-eq-ok s (m s) h
  where
    settle-eq-ok :
        {S A : Type 0} (s : S) (p : Result A × S) {s' : S} {a : A}
        → settle s p ≡ (ok a, s')
        → p ≡ (ok a, s')
    settle-eq-ok s (ok a, t) h = h
    settle-eq-ok s (err e, t) h = cc (ap (λ p. p.0) h)

-- A transaction that throws leaves no trace.
pub transaction-eq-err :
    {S A : Type 0} (m : Exec S A) {s s' : S} {e : Error} → transaction m s ≡ (err e, s') → s' ≡ s
unfolding transaction
transaction-eq-err m {s} {s'} {e} h = settle-eq-err s (m s) h
  where
    settle-eq-err :
        {S A : Type 0} (s : S) (p : Result A × S) {s' : S} {e : Error}
        → settle s p ≡ (err e, s')
        → s' ≡ s
    settle-eq-err s (ok a, t) h = cc (ap (λ p. p.0) h)
    settle-eq-err s (err e, t) h = sym (ap (λ p. p.1) h)

-- How a call ended.
pub Outcome-cases :
    {S A : Type 0} (p : Result A × S)
    → ((e : Error) × (s : S) × (p ≡ (err e, s))) ⊎ ((a : A) × (s : S) × (p ≡ (ok a, s)))
Outcome-cases (ok a, s) = inr (a, s, refl)
Outcome-cases (err e, s) = inl (e, s, refl)
