-- ===== src/Ledger/Keys.antt =====
-- Accounts by their key (owner, currency, kind), by which the services speak of them: the balance
-- under a key, and what a posted entry moves between keys.
use flow_pay.Prelude.{
  ◌≡◌, Bool, true, ◌&&◌, none, some, List, [], ◌∷◌, ◌==◌, ◌↔◌, Eq, arith, inl, inr, nat_beq,
  nat_beq_iff, nat_eq, if◌then◌else◌, refl, ap, sym, ◌∙◌, Option-cases, Bool-cases, find,
  find-holds, option_eq, beq_refl,
}
use mathlib.Core.Path.{subst}
use flow_pay.Prelude.Int.{ℤ, pos, ◌+ℤ◌, int_laws}
use flow_pay.Prelude.Text.{text_eq}
use flow_pay.Numbers.{Numbers}
use flow_pay.Db.{Db, Account, kind_eq, JournalLineDirection}
use flow_pay.Ledger.Input.{EnsureAccountInput, PostEntryLineInput}
use flow_pay.Ledger.Accounts.{find_account, matches}
use flow_pay.Ledger.Amounts.{signed, amount_units, net}
use flow_pay.Ledger.Invariant.{IsSound}
use flow_pay.Ledger.Posted.{Posted}

abbrev pub key_beq : EnsureAccountInput → EnsureAccountInput → Bool
key_beq p q =
    p.owner_user_id == q.owner_user_id && p.currency_code == q.currency_code && p.kind == q.kind

pub key_beq_iff : (p q : EnsureAccountInput) → (key_beq p q ≡ true) ↔ (p ≡ q)
key_beq_iff p q = (
  λ e. ground (
    arith,
    option_eq.beq_iff p.owner_user_id q.owner_user_id,
    text_eq.beq_iff p.currency_code q.currency_code,
    kind_eq.beq_iff p.kind q.kind,
  ),
  λ e. rw e (rw (beq_refl q.owner_user_id, beq_refl q.currency_code, beq_refl q.kind) refl),
)

instance abbrev pub key_eq : Eq EnsureAccountInput
key_eq = record { beq = key_beq; beq_iff = key_beq_iff }

-- The balance of the account under a key; zero where there is none yet.
abbrev pub balance_under : EnsureAccountInput → Db → ℤ
balance_under q db = elim (find (matches q) db.accounts) [
  | none ↦ pos 0
  | some a ↦ db.balances a.id
]

abbrev key_of : Account → EnsureAccountInput
key_of a = record {
  owner_user_id = a.owner_user_id;
  currency_code = a.currency_code;
  kind = a.kind;
}

key_of-found :
    (p : EnsureAccountInput) (xs : List Account) (a : Account)
    → find (matches p) xs ≡ some a
    → key_of a ≡ p
key_of-found p xs a e = (key_beq_iff (key_of a) p).0 (find-holds (matches p) xs a e)

pub balance_under-found :
    (q : EnsureAccountInput) (db : Db) (a : Account)
    → find (matches q) db.accounts ≡ some a
    → balance_under q db ≡ db.balances a.id
balance_under-found q db a e = rw (e, balance_under)

pub balance_under-absent :
    (q : EnsureAccountInput) (db : Db)
    → find (matches q) db.accounts ≡ none
    → balance_under q db ≡ pos 0
balance_under-absent q db e = rw (e, balance_under)

-- In a sound ledger two accounts have one id exactly if they have one key.
id-eq-key :
    (p q : EnsureAccountInput) (db : Db) (a b : Account)
    → IsSound db
    → find (matches p) db.accounts ≡ some a
    → find (matches q) db.accounts ≡ some b
    → nat_beq a.id b.id ≡ key_beq p q
id-eq-key p q db a b h ea eb = elim (Bool-cases (key_beq p q)) [
  | inl same ↦
      let keys : p ≡ q = (key_beq_iff p q).0 same in
      let ea' = subst (λ w. find (matches w) db.accounts ≡ some a) keys ea in
      let it : a ≡ b = cc (sym ea' ∙ eb) in rw (same, it) ((nat_beq_iff b.id b.id).1 refl)
  | inr other ↦ elim (Bool-cases (nat_beq a.id b.id)) [
    | inl hit ↦
        let ids : a.id ≡ b.id = (nat_beq_iff a.id b.id).0 hit in
        let fa = subst (λ w. find_account w db.accounts ≡ some a) ids (h.indexed p a ea) in
        let it : a ≡ b = cc (sym fa ∙ h.indexed q b eb) in
        let keys : p ≡ q =
          sym (key_of-found p db.accounts a ea) ∙ ap key_of it ∙ key_of-found q db.accounts b eb in
        cc (sym ((key_beq_iff p q).1 keys) ∙ other)
    | inr miss ↦ rw (miss, other) refl
  ]
]

-- A change of the amount under one key.
pub record Move : Type 0 where
  pub key : EnsureAccountInput
  pub direction : JournalLineDirection
  pub units : ℤ

-- What the moves add to the balance under a key.
abbrev pub key_net : EnsureAccountInput → List Move → ℤ
key_net q [] = pos 0
key_net q (m ∷ ms) = (if m.key == q then signed m.direction m.units else pos 0) +ℤ key_net q ms

-- The balance under every key changes by what is moved to and from it, and no other.
abbrev pub Moved : List Move → Db → Db → Type 0
Moved ms db db' =
    (q : EnsureAccountInput) → balance_under q db' ≡ balance_under q db +ℤ key_net q ms

module _ (n : Numbers) where
  -- The lines are the moves, on accounts that are there.
  abbrev pub Keyed : Db → List (PostEntryLineInput n) → List Move → Type 0
  Keyed db [] [] = Unit
  Keyed db (l ∷ ls) (m ∷ ms) =
      ((a : Account) × (find (matches m.key) db.accounts ≡ some a) × (l.account_id ≡ a.id))
      × (l.direction ≡ m.direction)
      × (amount_units n l.amount ≡ m.units)
      × Keyed db ls ms
  Keyed db [] (m ∷ ms) = ⊥
  Keyed db (l ∷ ls) [] = ⊥

  net-Keyed :
      (q : EnsureAccountInput) (db : Db) (b : Account) (ls : List (PostEntryLineInput n))
      (ms : List Move)
      → IsSound db
      → Keyed db ls ms
      → find (matches q) db.accounts ≡ some b
      → net n b.id ls ≡ key_net q ms
  net-Keyed q db b [] [] h k e = refl
  net-Keyed q db b [] (m ∷ ms) h k e = absurd k
  net-Keyed q db b (l ∷ ls) [] h k e = absurd k
  net-Keyed q db b (l ∷ ls) (m ∷ ms) h ((a, found, id), direction, amount, rest) e =
      rw
        (id, direction, amount, id-eq-key m.key q db a b h found e, net-Keyed q db b ls ms h rest e)

  key_net-absent :
      (q : EnsureAccountInput) (db : Db) (ls : List (PostEntryLineInput n)) (ms : List Move)
      → Keyed db ls ms
      → find (matches q) db.accounts ≡ none
      → key_net q ms ≡ pos 0
  key_net-absent q db [] [] k e = refl
  key_net-absent q db [] (m ∷ ms) k e = absurd k
  key_net-absent q db (l ∷ ls) [] k e = absurd k
  key_net-absent q db (l ∷ ls) (m ∷ ms) ((a, found, id), direction, amount, rest) e =
      elim (Bool-cases (key_beq m.key q)) [
        | inl same ↦
            let keys : m.key ≡ q = (key_beq_iff m.key q).0 same in
            cc (sym (subst (λ w. find (matches w) db.accounts ≡ some a) keys found) ∙ e)
        | inr other ↦ rw (other, key_net-absent q db ls ms rest e) (omega int_laws)
      ]

  -- A posted entry moves what its lines say between the keys of its accounts.
  pub Posted-Moved :
      (ls : List (PostEntryLineInput n)) (ms : List Move) (db db' : Db)
      → IsSound db
      → Keyed db ls ms
      → Posted n ls db db'
      → Moved ms db db'
  Posted-Moved ls ms db db' h k p q =
      let same : db'.accounts ≡ db.accounts = ap (λ d. d.accounts) p.frame in
      elim (Option-cases (find (matches q) db.accounts)) [
        | inl absent ↦
            rw
              (
                balance_under-absent q db absent,
                balance_under-absent q db' (rw same absent),
                key_net-absent q db ls ms k absent,
              )
              (omega int_laws)
        | inr (b, found) ↦ rw (
          balance_under-found q db b found,
          balance_under-found q db' b (rw same found),
          p.balances b.id,
          net-Keyed q db b ls ms h k found,
        )
      ]
