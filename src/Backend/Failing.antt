-- ===== src/Backend/Failing.antt =====
-- What a method leaves when it throws: the accounts that it opened, and nothing else.
use flow_pay.Prelude.{
  ◌≡◌, Bool, true, false, Option, none, some, arith, refl, ap, sym, ◌∙◌, inl, inr, if◌then◌else◌,
}
use mathlib.Core.Path.{subst}
use flow_pay.Prelude.Text.{Text}
use flow_pay.Exec.{
  Error, Result, ok, err, pure, lift, gets, or_throw, throw_if, transaction, transaction-eq-err,
  Outcome-cases, ◌>>=◌,
}
use flow_pay.Db.{Db, Action}
use flow_pay.Ledger.{
  EnsureAccountInput, get_currency, get_currency_cases, ensure_account, ensure_accounts,
}
use flow_pay.Ledger.Invariant.{IsSound}
use flow_pay.Ledger.Ensured.{
  Opens, Opens-refl, Opens-trans, ensure_account-Opens, ensure_accounts-Opens,
}

module _ {A : Type 0} where
  abbrev pub Fails : Action A → Type 0
  Fails m = (db : Db) (e : Error) (db' : Db) → IsSound db → m db ≡ (err e, db') → Opens db db'

  -- A method that only reads and opens accounts, whether it throws or not.
  pub record IsOpening (m : Action A) : Type 0 where
    pub fails : Fails m
    pub ends : (db : Db) (a : A) (db' : Db) → IsSound db → m db ≡ (ok a, db') → Opens db db'

  -- A method that only reads.
  pub still-IsOpening : (m : Action A) → ((db : Db) → (m db).1 ≡ db) → IsOpening m
  still-IsOpening m still = record {
    fails =
        λ db e db' h ran. subst (Opens db) (sym (still db) ∙ ap (λ p. p.1) ran) (Opens-refl db h);
    ends =
        λ db a db' h ran. subst (Opens db) (sym (still db) ∙ ap (λ p. p.1) ran) (Opens-refl db h);
  }

  pub transaction-Fails : (m : Action A) → Fails (transaction m)
  transaction-Fails m db e db' h ran =
      subst (Opens db) (sym (transaction-eq-err m ran)) (Opens-refl db h)

module _ {A B : Type 0} where
  pub bind-Fails :
      (m : Action A) (f : A → Action B) → IsOpening m → ((a : A) → Fails (f a)) → Fails (m >>= f)
  bind-Fails m f o fs db e db' h ran = elim (Outcome-cases (m db)) [
    | inl (x, d, threw) ↦
        let there : d ≡ db' = ground (arith, threw, ran) in
        subst (Opens db) there (o.fails db x d h threw)
    | inr (a, d, ended) ↦
        let opens = o.ends db a d h ended in
        let rest : f a d ≡ (err e, db') = ground (arith, ended, ran) in
        Opens-trans db d db' opens (fs a d e db' opens.sound rest)
  ]

  pub bind-IsOpening :
      (m : Action A) (f : A → Action B)
      → IsOpening m
      → ((a : A) → IsOpening (f a))
      → IsOpening (m >>= f)
  bind-IsOpening m f o fs = record {
    fails = bind-Fails m f o (λ a. (fs a).fails);
    ends = λ db b db' h ran. elim (Outcome-cases (m db)) [
      | inl (x, d, threw) ↦ ground (arith, threw, ran)
      | inr (a, d, ended) ↦
          let opens = o.ends db a d h ended in
          let rest : f a d ≡ (ok b, db') = ground (arith, ended, ran) in
          Opens-trans db d db' opens ((fs a).ends d b db' opens.sound rest)
    ];
  }

  -- The answer is made of what the method gives.
  pub answer-Fails : (m : Action A) (g : A → B) → Fails m → Fails (m >>= λ a. pure (g a))
  answer-Fails m g fm db e db' h ran = elim (Outcome-cases (m db)) [
    | inl (x, d, threw) ↦
        let there : d ≡ db' = ground (arith, threw, ran) in
        subst (Opens db) there (fm db x d h threw)
    | inr (a, d, ended) ↦ ground (arith, ended, ran)
  ]

pub or_throw-IsOpening : {A : Type 0} (o : Option A) (e : Error) → IsOpening (or_throw {S = Db} o e)
or_throw-IsOpening none e = still-IsOpening _ (λ db. refl)
or_throw-IsOpening (some a) e = still-IsOpening _ (λ db. refl)

pub get_currency-IsOpening : (code : Text) → IsOpening (get_currency code)
get_currency-IsOpening code = still-IsOpening (get_currency code) (λ db.
    elim (get_currency_cases code db) [ inl (c, e) ↦ ap (λ p. p.1) e | inr e ↦ ap (λ p. p.1) e ])

pub ensure_account-IsOpening : (p : EnsureAccountInput) → IsOpening (ensure_account p)
ensure_account-IsOpening p = record {
  fails = λ db e db' h ran.
      let (a, d, done, found, opens) = ensure_account-Opens p db h in ground (arith, done, ran);
  ends = λ db a db' h ran.
      let (b, d, done, found, opens) = ensure_account-Opens p db h in
      let there : d ≡ db' = ap (λ q. q.1) (sym done ∙ ran) in subst (Opens db) there opens;
}

pub ensure_accounts-IsOpening : (p q : EnsureAccountInput) → IsOpening (ensure_accounts p q)
ensure_accounts-IsOpening p q = record {
  fails = λ db e db' h ran.
      let (a, b, d, done, fa, fb, opens) = ensure_accounts-Opens p q db h in
      ground (arith, done, ran);
  ends = λ db a db' h ran.
      let (x, y, d, done, fx, fy, opens) = ensure_accounts-Opens p q db h in
      let there : d ≡ db' = ap (λ r. r.1) (sym done ∙ ran) in subst (Opens db) there opens;
}

pub lift-IsOpening : {A : Type 0} (r : Result A) → IsOpening (lift {S = Db} r)
lift-IsOpening r = still-IsOpening _ (λ db. refl)

pub gets-IsOpening : {A : Type 0} (f : Db → A) → IsOpening (gets f)
gets-IsOpening f = still-IsOpening _ (λ db. refl)

pub throw_if-IsOpening : (c : Bool) (e : Error) → IsOpening (throw_if {S = Db} c e)
throw_if-IsOpening c e = still-IsOpening _ (λ db. refl)

pub pure-IsOpening : {A : Type 0} (a : A) → IsOpening (pure {S = Db} a)
pure-IsOpening a = still-IsOpening _ (λ db. refl)

pub if-Fails :
    {A : Type 0} (c : Bool) (m k : Action A) → Fails m → Fails k → Fails (if c then m else k)
if-Fails true m k fm fk = fm
if-Fails false m k fm fk = fk
