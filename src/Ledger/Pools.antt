-- ===== src/Ledger/Pools.antt =====
-- The platform's accounts of one kind, a pool for each currency: what goes in and out of them.
use flow_pay.Prelude.{
  ℕ, ◌≡◌, false, ◌==◌, nat_eq, option_eq, if◌then◌else◌, beq_refl, refl, inl, inr, Bool-cases,
}
use flow_pay.Prelude.Int.{ℤ, pos, ◌-ℤ◌, int_laws}
use flow_pay.Prelude.Text.{Text, text_eq}
use flow_pay.Db.{AccountKind, kind_eq}
use flow_pay.Ledger.Input.{EnsureAccountInput, system_key, wallet_key}
use flow_pay.Ledger.Keys.{key_net, key_eq}
use flow_pay.Ledger.TwoLines.{carry}

-- What a payment out of a pool takes from the pool of a currency.
pub key_net-carry_out :
    (k : AccountKind) (c c' : Text) (q : EnsureAccountInput) (z : ℤ)
    → (q == system_key k c) ≡ false
    → key_net (system_key k c) (carry (system_key k c') q z)
      ≡ (if c' == c then pos 0 -ℤ z else pos 0)
key_net-carry_out k c c' q z other = elim (Bool-cases (c' == c)) [
  | inl same ↦ rw (other, same, beq_refl k) (omega int_laws)
  | inr diff ↦ rw (other, diff) (omega int_laws)
]

-- What a payment into a pool adds to the pool of a currency.
pub key_net-carry_in :
    (k : AccountKind) (c c' : Text) (q : EnsureAccountInput) (z : ℤ)
    → (q == system_key k c) ≡ false
    → key_net (system_key k c) (carry q (system_key k c') z) ≡ (if c' == c then z else pos 0)
key_net-carry_in k c c' q z other = elim (Bool-cases (c' == c)) [
  | inl same ↦ rw (other, same, beq_refl k) (omega int_laws)
  | inr diff ↦ rw (other, diff) (omega int_laws)
]

pub wallet_pool :
    (k : AccountKind) (c c' : Text) (user : ℕ) → (wallet_key user c' == system_key k c) ≡ false
wallet_pool k c c' user = refl

pub treasury_pool :
    (k : AccountKind) (c c' : Text)
    → (AccountKind.treasury == k) ≡ false
    → (system_key AccountKind.treasury c' == system_key k c) ≡ false
treasury_pool k c c' other = elim (Bool-cases (c' == c)) [
  | inl same ↦ rw (same, other) refl
  | inr diff ↦ rw diff refl
]
