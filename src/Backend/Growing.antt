-- ===== src/Backend/Growing.antt =====
-- The ledger's work and the outbox: rows are added, and none is changed.
use flow_pay.Prelude.{ℕ, ◌≡◌, Bool, true, Option, List, [], ◌∷◌, ◌++◌, refl, sym, ap, ◌∙◌, inl, inr}
use mathlib.Core.List.{append-nil, append_assoc}
use mathlib.Core.Path.{subst}
use flow_pay.Prelude.Text.{Text}
use flow_pay.Prelude.Dict.{Dict}
use flow_pay.Numbers.{Numbers}
use flow_pay.Exec.{not_found, modify}
use flow_pay.Prelude.Int.{ℤ}
use flow_pay.Db.{JournalLine, Db, DomainEventType, JournalEntryType, TransferMetadata}
use flow_pay.Ledger.{
  EnsureAccountInput, PostEntryInput, ensure_account, ensure_accounts, get_currency, fresh_id,
  insert_entry, line_rows, update_balances, write_entry, format_balances, prepare_entry,
  post_entry_with_manager, post_entry, validate_entry_lines,
}
use flow_pay.Ledger.Opening.{opened, ensure_account_cases}
use flow_pay.Outbox.{append}
use flow_pay.TradeExecution.{ExecuteSwapInput, SwapAccounts, open_accounts, post_swap}
use flow_pay.Users.{find_by_id, find_by_email}
use flow_pay.Backend.Keeping.{
  Relation, Keeps, bind-Keeps, transaction-Keeps, lift-Keeps, gets-Keeps, pure-Keeps,
  or_throw-Keeps, if-Keeps,
}

-- Rows have been added at the end.
abbrev pub Extends : {A : Type 0} → List A → List A → Type 0
Extends {A} xs ys = (more : List A) × (ys ≡ xs ++ more)

pub Extends-refl : {A : Type 0} (xs : List A) → Extends xs xs
Extends-refl xs = ([], sym (append-nil xs))

pub Extends-trans : {A : Type 0} (xs ys zs : List A) → Extends xs ys → Extends ys zs → Extends xs zs
Extends-trans xs ys zs (a, e) (b, f) = (a ++ b, f ∙ ap (λ k. k ++ b) e ∙ append_assoc xs a b)

-- The journal and the outbox have only grown; the currencies, the users and the clock are the same.
pub record Grows (db db' : Db) : Type 0 where
  pub entries : Extends db.entries db'.entries
  pub lines : Extends db.lines db'.lines
  pub events : Extends db.outbox_events db'.outbox_events
  pub currencies : db'.currencies ≡ db.currencies
  pub users : db'.users ≡ db.users

pub Grows-refl : (db : Db) → Grows db db
Grows-refl db = record {
  entries = Extends-refl db.entries;
  lines = Extends-refl db.lines;
  events = Extends-refl db.outbox_events;
  currencies = refl;
  users = refl;
}

pub Grows-trans : (a b c : Db) → Grows a b → Grows b c → Grows a c
Grows-trans a b c f g = record {
  entries = Extends-trans a.entries b.entries c.entries f.entries g.entries;
  lines = Extends-trans a.lines b.lines c.lines f.lines g.lines;
  events = Extends-trans a.outbox_events b.outbox_events c.outbox_events f.events g.events;
  currencies = g.currencies ∙ f.currencies;
  users = g.users ∙ f.users;
}

-- Beyond that, no request and no order has been touched.
pub record Posts (db db' : Db) : Type 0 where
  pub grows : Grows db db'
  pub requests : db'.withdrawal_requests ≡ db.withdrawal_requests
  pub orders : db'.orders ≡ db.orders

pub Posts-refl : (db : Db) → Posts db db
Posts-refl db = record { grows = Grows-refl db; requests = refl; orders = refl }

pub Posts-trans : (a b c : Db) → Posts a b → Posts b c → Posts a c
Posts-trans a b c f g = record {
  grows = Grows-trans a b c f.grows g.grows;
  requests = g.requests ∙ f.requests;
  orders = g.orders ∙ f.orders;
}

abbrev pub posts : Relation
posts = record { Holds = Posts; stays = Posts-refl; joins = Posts-trans }

-- what has to be shown of the tables
pub adds :
    (db db' : Db)
    → Extends db.entries db'.entries
    → Extends db.lines db'.lines
    → Extends db.outbox_events db'.outbox_events
    → db'.currencies ≡ db.currencies
    → db'.users ≡ db.users
    → db'.withdrawal_requests ≡ db.withdrawal_requests
    → db'.orders ≡ db.orders
    → Posts db db'
adds db db' entries lines events currencies users requests orders = record {
  grows = record {
    entries = entries;
    lines = lines;
    events = events;
    currencies = currencies;
    users = users;
  };
  requests = requests;
  orders = orders;
}

opened-Posts : (p : EnsureAccountInput) (db : Db) → Posts db (opened p db)
opened-Posts p db = adds db _ (Extends-refl _) (Extends-refl _) (Extends-refl _) refl refl refl refl

pub ensure_account-Keeps : (p : EnsureAccountInput) → Keeps posts (ensure_account p)
ensure_account-Keeps p = record {
  holds = λ db. elim (ensure_account_cases p db) [
    | inl (a, found, done) ↦ subst (λ q. Posts db q.1) (sym done) (Posts-refl db)
    | inr (absent, done) ↦ subst (λ q. Posts db q.1) (sym done) (opened-Posts p db)
  ];
}

pub ensure_accounts-Keeps : (p q : EnsureAccountInput) → Keeps posts (ensure_accounts p q)
unfolding ensure_accounts
ensure_accounts-Keeps p q =
    bind-Keeps posts _ _ (ensure_account-Keeps p)
      (λ a. bind-Keeps posts _ _ (ensure_account-Keeps q) (λ b. pure-Keeps posts _))

pub fresh_id-Keeps : Keeps posts fresh_id
unfolding fresh_id
fresh_id-Keeps = record {
  holds = λ db. adds db _ (Extends-refl _) (Extends-refl _) (Extends-refl _) refl refl refl refl;
}

pub get_currency-Keeps : (code : Text) → Keeps posts (get_currency code)
unfolding get_currency
get_currency-Keeps code =
    bind-Keeps posts _ _ (gets-Keeps posts _) (λ found. or_throw-Keeps posts found not_found)

pub find_by_id-Keeps : (id : ℕ) → Keeps posts (find_by_id id)
unfolding find_by_id
find_by_id-Keeps id = record { holds = λ db. Posts-refl db }

pub find_by_email-Keeps : (email : Text) → Keeps posts (find_by_email email)
unfolding find_by_email
find_by_email-Keeps email = record { holds = λ db. Posts-refl db }

pub append-Keeps :
    (t : DomainEventType) (id : ℕ) (email : Option Text) → Keeps posts (append t id email)
unfolding append fresh_id
append-Keeps t id email = record {
  holds = λ db. adds db _ (Extends-refl _) (Extends-refl _) (_ ∷ [], refl) refl refl refl refl;
}

add_lines-Keeps :
    (rows : List JournalLine) → Keeps posts (modify (λ db. record db { lines = db.lines ++ rows }))
add_lines-Keeps rows = record {
  holds = λ db. adds db _ (Extends-refl _) (rows, refl) (Extends-refl _) refl refl refl refl;
}

set_balances-Keeps : (f : ℕ → ℤ) → Keeps posts (modify (λ db. record db { balances = f }))
set_balances-Keeps f = record {
  holds = λ db. adds db _ (Extends-refl _) (Extends-refl _) (Extends-refl _) refl refl refl refl;
}

module _ (n : Numbers) where
  insert_entry-Keeps :
      (t : JournalEntryType) (metadata : Option TransferMetadata)
      → Keeps posts (insert_entry n t metadata)
  unfolding insert_entry fresh_id
  insert_entry-Keeps t metadata = record {
    holds = λ db. adds db _ (_ ∷ [], refl) (Extends-refl _) (Extends-refl _) refl refl refl refl;
  }

  write_entry-Keeps :
      (input : PostEntryInput n) (balances : Dict ℕ n.Decimal)
      → Keeps posts (write_entry n input balances)
  unfolding write_entry
  write_entry-Keeps input balances =
      bind-Keeps posts _ _ (insert_entry-Keeps input.entry_type input.metadata) (λ entry.
        bind-Keeps posts _ _ (lift-Keeps posts (line_rows n entry input.lines)) (λ rows.
          bind-Keeps posts _ _ (add_lines-Keeps rows) (λ z.
            bind-Keeps posts _ _ (gets-Keeps posts (λ db. db.balances)) (λ before.
              bind-Keeps posts _ _ (lift-Keeps posts (update_balances n balances before))
                (λ updated. bind-Keeps posts _ _ (set_balances-Keeps updated) (λ y.
                  pure-Keeps posts
                    (record { entry_id = entry; balances = format_balances n balances })))))))

  post_entry_with_manager-Keeps :
      (input : PostEntryInput n) → Keeps posts (post_entry_with_manager n input)
  unfolding post_entry_with_manager
  post_entry_with_manager-Keeps input = bind-Keeps posts _ _ (gets-Keeps posts _) (λ db.
      bind-Keeps posts _ _ (lift-Keeps posts (prepare_entry n db input.lines))
        (λ balances. write_entry-Keeps input balances))

  pub post_entry-Keeps :
      (input : PostEntryInput n) (manager : Bool) → Keeps posts (post_entry n input manager)
  unfolding post_entry
  post_entry-Keeps input manager =
      bind-Keeps posts _ _ (lift-Keeps posts (validate_entry_lines n input.lines)) (λ z.
        if-Keeps posts manager _ _ (post_entry_with_manager-Keeps input)
          (transaction-Keeps posts _ (post_entry_with_manager-Keeps input)))

  pub open_accounts-Keeps : (i : ExecuteSwapInput n) → Keeps posts (open_accounts n i)
  unfolding open_accounts
  open_accounts-Keeps i =
      bind-Keeps posts _ _ (ensure_accounts-Keeps _ _) (λ sources.
        bind-Keeps posts _ _ (ensure_accounts-Keeps _ _) (λ targets. pure-Keeps posts _))

  pub post_swap-Keeps : (i : ExecuteSwapInput n) (a : SwapAccounts) → Keeps posts (post_swap n i a)
  unfolding post_swap
  post_swap-Keeps i a =
      bind-Keeps posts _ _ (post_entry-Keeps _ true) (λ result. pure-Keeps posts _)
