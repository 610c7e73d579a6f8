-- ===== src/Tests.antt =====
-- Concrete runs: the data that the runs of the services share.
mod Posting
mod Requests
mod Failures
mod Histories
mod Mails
mod People
mod Conversions
mod Services
mod Trades
mod Titles
mod Transfer
use flow_pay.Prelude.{ℕ, ◌*◌, ◌^◌, List, [], ◌∷◌, some, none, ◌≡◌, ap, refl}
use flow_pay.Prelude.Int.{ℤ, pos}
use flow_pay.Prelude.Text.{Text}
use flow_pay.Numbers.Scaled.{scaled}
use flow_pay.Config.{EnvConfig}
use flow_pay.Db.{Db, Currency, CurrencyType, User, UserRole}
use flow_pay.Ledger.Invariant.{IsSound}
use flow_pay.Withdrawals.Held.{IsHeld}

abbrev pub usd : Text
usd = 85 ∷ 83 ∷ 68 ∷ []

abbrev pub btc : Text
btc = 66 ∷ 84 ∷ 67 ∷ []

abbrev pub ada_mail : Text
ada_mail = 97 ∷ 64 ∷ 98 ∷ []

abbrev pub ada : User
ada = record { id = 1; email = ada_mail; password_hash = []; role = UserRole.user }

abbrev pub bob_mail : Text
bob_mail = 98 ∷ 64 ∷ 98 ∷ []

abbrev pub bob : User
bob = record { id = 0; email = bob_mail; password_hash = []; role = UserRole.user }

-- Before the first deposit: two currencies, two users.
abbrev pub empty_db : Db
empty_db = record {
  currencies =
      record { code = usd; name = usd; currency_type = CurrencyType.fiat; decimals = 8 }
      ∷ record { code = btc; name = btc; currency_type = CurrencyType.crypto; decimals = 8 }
      ∷ [];
  users = ada ∷ bob ∷ [];
  accounts = [];
  balances = λ id. pos 0;
  entries = [];
  lines = [];
  withdrawal_requests = [];
  orders = [];
  outbox_events = [];
  next_id = 2;
  now = 1000;
}

abbrev pub config : EnvConfig scaled
config = record {
  deposit_max_amount = some (pos (1000 * 10 ^ 8));
  transfer_fee_flat = some (pos 10);
  idempotency_stale_ms = 60000;
  fx_spread_bps = 50;
  rate_cache_ttl_ms = 60000;
}

pub empty_db-IsHeld : IsHeld empty_db
empty_db-IsHeld = record {
  sound = record {
    reconciled = λ id. refl;
    balanced = λ c. refl;
    solvent = λ id a found owned. cc;
    indexed = λ p a found. cc;
    numbered = λ id a found. cc;
    unused = λ id le. refl;
  };
  backed = λ c. refl;
}

pub some_injective : {A : Type 0} (a b : A) → some a ≡ some b → a ≡ b
some_injective a b e = ap (λ o. elim o [ none ↦ a | some x ↦ x ]) e
