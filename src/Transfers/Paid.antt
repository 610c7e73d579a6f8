-- ===== src/Transfers/Paid.antt =====
-- What a transfer moves.
use flow_pay.Prelude.{
  ℕ, ◌+◌, ◌≡◌, Bool, true, false, Option, none, some, List, [], ◌∷◌, ◌==◌, nat_eq, nat_beq, arith,
  refl, ap, sym, ◌∙◌, find, inl, inr, Option-cases, Bool-cases,
}
use mathlib.Core.Path.{subst}
use flow_pay.Prelude.Int.{pos, magnitude}
use flow_pay.Prelude.Text.{Text, text_eq, to_lower, to_upper}
use flow_pay.Numbers.{Numbers, IsExact}
use flow_pay.Exec.{ok, transaction, transaction-eq-ok, Outcome-cases}
use flow_pay.Db.{
  Db, Currency, Account, AccountKind, JournalEntryType, DomainEventType, User, debit, credit,
}
use flow_pay.Config.{EnvConfig}
use flow_pay.Users.{find_by_id, find_by_email}
use flow_pay.Ledger.{
  get_currency, EnsureAccountInput, PostEntryInput, PostEntryResult, wallet_key, system_key,
  post_entry, matches, fresh_id,
}
use flow_pay.Ledger.Amounts.{amount_units, Within}
use flow_pay.Ledger.Invariant.{IsSound}
use flow_pay.Ledger.Keys.{Move, Moved, Keyed}
use flow_pay.Ledger.Ensured.{
  Opens, Opens-refl, Opens-trans, ensure_account-Opens, ensure_accounts-Opens,
}
use flow_pay.Ledger.TwoLines.{Headroom}
use flow_pay.Ledger.Carried.{post_entry-Carried}
use flow_pay.Outbox.{append, appended, appended-Moved, Announces}
use flow_pay.Transfers.{
  CreateTransferDto, TransferResponse, TransferAmounts, transfer_amounts, fees_account,
  transfer_lines, transfer_metadata, post_transfer, pay_recipient, execute_transfer,
}

abbrev pub fees_key : Text → EnsureAccountInput
fees_key code = system_key AccountKind.fees code

-- The fees account is there where there is a fee.
abbrev pub IsFees : Bool → Text → Option Account → Db → Type 0
IsFees false code o d = o ≡ none
IsFees true code o d =
    (a : Account) × (o ≡ some a) × (find (matches (fees_key code)) d.accounts ≡ some a)

pub fees_account-Opens :
    (b : Bool) (code : Text) (db : Db)
    → IsSound db
    → (o : Option Account) × (d : Db) × (fees_account b code db ≡ (ok o, d))
      × IsFees b code o d
      × Opens db d
unfolding fees_account
fees_account-Opens false code db h = (none, db, refl, refl, Opens-refl db h)
fees_account-Opens true code db h =
    let (a, d, e, found, opens) = ensure_account-Opens (fees_key code) db h in
    (some a, d, ground (arith, e), (a, refl, found), opens)

module _ (n : Numbers) where
  abbrev pub fee_moves : Bool → Text → n.Numeral → List Move
  fee_moves false code fee = []
  fee_moves true code fee =
      record { key = fees_key code; direction = credit; units = amount_units n fee } ∷ []

  -- The sender pays, the recipient and, where there is a fee, the fees account are paid.
  abbrev pub transfer_moves : ℕ → ℕ → Bool → TransferAmounts n → Text → List Move
  transfer_moves sender recipient has_fee m code =
      record {
        key = wallet_key sender code;
        direction = debit;
        units = amount_units n m.debit_amount;
      }
      ∷ record {
        key = wallet_key recipient code;
        direction = credit;
        units = amount_units n m.credit_amount;
      }
      ∷ fee_moves has_fee code m.fee_amount

  -- What the request asks for: the amount with the fee is debited, the amount and the fee are credited.
  abbrev pub asked : n.Numeral → n.Decimal → n.Decimal → TransferAmounts n
  asked amount value fee = record {
    debit_amount = n.to_fixed 8 (n.plus value fee);
    credit_amount = amount;
    fee_amount = n.to_fixed 8 fee;
  }

  -- Room for the amounts of a transfer.
  abbrev pub TransferRoom : TransferAmounts n → Db → Type 0
  TransferRoom m db =
      Headroom
        (magnitude (amount_units n m.debit_amount)
          + (magnitude (amount_units n m.credit_amount) + magnitude (amount_units n m.fee_amount)))
        db

  transfer_lines-Within :
      (from to : ℕ) (o : Option Account) (m : TransferAmounts n) (code : Text) (db d : Db)
      → TransferRoom m db
      → Opens db d
      → Within n d (transfer_lines n from to o m code)
  transfer_lines-Within from to none m code db d room o id =
      rw (o.balances id) (omega (arith, room id))
  transfer_lines-Within from to (some a) m code db d room o id =
      rw (o.balances id) (omega (arith, room id))

  transfer_lines-Keyed :
      (sender recipient : ℕ) (b : Bool) (x y : Account) (o : Option Account) (m : TransferAmounts n)
      (code : Text) (d : Db)
      → find (matches (wallet_key sender code)) d.accounts ≡ some x
      → find (matches (wallet_key recipient code)) d.accounts ≡ some y
      → IsFees b code o d
      → Keyed n d (transfer_lines n x.id y.id o m code) (transfer_moves sender recipient b m code)
  transfer_lines-Keyed sender recipient false x y o m code d fx fy none_open =
      rw none_open ((x, fx, refl), refl, refl, ((y, fy, refl), refl, refl, tt))
  transfer_lines-Keyed sender recipient true x y o m code d fx fy (a, some_open, fa) =
      rw some_open
        ((x, fx, refl), refl, refl, ((y, fy, refl), refl, refl, ((a, fa, refl), refl, refl, tt)))

  post_transfer-eq-ok :
      (entry : PostEntryInput n) (email : Text) (d d' : Db) (r : PostEntryResult n)
      → post_transfer n entry email d ≡ (ok r, d')
      → (x : Db) × (post_entry n entry true d ≡ (ok r, x))
        × (d' ≡ appended DomainEventType.transfer_completed r.entry_id (some email) x)
  unfolding post_transfer append fresh_id
  post_transfer-eq-ok entry email d d' r e = elim (Outcome-cases (post_entry n entry true d)) [
    | inl (x, s, bad) ↦ ground (arith, bad, e)
    | inr (p, x, posted) ↦ (x, ground (arith, posted, e), ground (arith, posted, e))
  ]

  -- The money has moved, and the mail to the recipient is due.
  abbrev pub Paid : ℕ → ℕ → Bool → TransferAmounts n → Text → Text → Db → Db → Type 0
  Paid sender recipient has_fee m code email db db' =
      IsSound db'
      × Moved (transfer_moves sender recipient has_fee m code) db db'
      × Announces DomainEventType.transfer_completed (some email) db db'

  -- A payment that ends well takes the debit amount from the sender's wallet, gives the amount to
  -- the recipient's and the fee, if there is one, to the fees account of the currency, moves no
  -- other balance, keeps the ledger sound, and leaves one mail to the recipient in the outbox.
  -- Balances stay below 20 digits.
  pub pay_recipient-Paid :
      (sender_id : ℕ) (sender : Option User) (recipient : User) (code : Text) (fee : n.Decimal)
      (dto : CreateTransferDto n) (db db' : Db) (r : TransferResponse n)
      → IsExact n
      → IsSound db
      → ((value : n.Decimal)
          → n.parse dto.amount ≡ some value
          → TransferRoom (asked dto.amount value fee) db)
      → pay_recipient n sender_id sender recipient code fee dto db ≡ (ok r, db')
      → (value : n.Decimal) × (n.parse dto.amount ≡ some value)
        × Paid sender_id recipient.id
            (n.greater_than fee (n.of_int (pos 0)))
            (asked dto.amount value fee)
            code
            recipient.email
            db
            db'
        × (r.currency ≡ code)
        × (r.amount ≡ dto.amount)
  unfolding pay_recipient
  pay_recipient-Paid sender_id sender recipient code fee dto db db' r ex h room e =
      let p = wallet_key sender_id code in
      let q = wallet_key recipient.id code in
      let has_fee = n.greater_than fee (n.of_int (pos 0)) in
      let (x, y, d₁, ensured, fx, fy, o₁) = ensure_accounts-Opens p q db h in
      let (o, d, fees_ready, is_fees, o₂) = fees_account-Opens has_fee code d₁ o₁.sound in
      elim (Option-cases (n.parse dto.amount)) [
        | inl bad ↦ ground (arith, ensured, fees_ready, bad, e)
        | inr (value, parses) ↦
            let m = transfer_amounts n dto.amount value fee in
            let entry : PostEntryInput n = record {
              entry_type = JournalEntryType.transfer;
              metadata = some (transfer_metadata n sender_id sender recipient dto.note);
              lines = transfer_lines n x.id y.id o m code;
            } in
            elim (Outcome-cases (transaction (post_transfer n entry recipient.email) d)) [
              | inl (w, s, bad) ↦ ground (arith, ensured, fees_ready, parses, bad, e)
              | inr (result, s, done) ↦
                  let there : s ≡ db' = ground (arith, ensured, fees_ready, parses, done, e) in
                  let opens = Opens-trans db d₁ d o₁ o₂ in
                  let (t, posted, same) =
                    post_transfer-eq-ok entry recipient.email d s result
                      (transaction-eq-ok (post_transfer n entry recipient.email) done) in
                  let ms = transfer_moves sender_id recipient.id has_fee m code in
                  let carried =
                    post_entry-Carried n ms entry db d t result ex opens
                      (transfer_lines-Within x.id y.id o m code db d (room value parses) opens)
                      (transfer_lines-Keyed sender_id recipient.id has_fee x y o m code d
                        (o₂.keeps p x fx) (o₂.keeps q y fy) is_fees)
                      posted in
                  let paid =
                    appended-Moved DomainEventType.transfer_completed result.entry_id
                      (some recipient.email) ms db t carried.sound carried.moved
                      (ap (λ (w : Db). w.outbox_events) carried.frame) in
                  (
                    value,
                    parses,
                    subst (λ w. Paid sender_id recipient.id has_fee m code recipient.email db w)
                        (sym same ∙ there) paid,
                    ground (arith, ensured, fees_ready, parses, done, e),
                    ground (arith, ensured, fees_ready, parses, done, e),
                  )
            ]
      ]

  -- What `executeTransfer` finds before it opens accounts.
  pub record Found (config : EnvConfig n) (sender_id : ℕ) (dto : CreateTransferDto n) (db : Db)
      : Type 0 where
    pub currency : Currency
    pub currency_found : find (λ c. c.code == to_upper dto.currency) db.currencies ≡ some currency
    pub recipient : User
    pub fee : n.Decimal
    pub fee_parsed : n.parse config.transfer_fee_flat ≡ some fee
    pub recipient_found :
        find (λ u. u.email == to_lower dto.recipient_email) db.users ≡ some recipient
    pub other : nat_beq recipient.id sender_id ≡ false

  execute_transfer-eq-ok :
      (config : EnvConfig n) (sender_id : ℕ) (dto : CreateTransferDto n) (db db' : Db)
      (r : TransferResponse n)
      → execute_transfer n config sender_id dto db ≡ (ok r, db')
      → (f : Found config sender_id dto db) × (pay_recipient n sender_id
            (find (λ u. u.id == sender_id) db.users)
            f.recipient
            f.currency.code
            f.fee
            dto
            db
          ≡ (ok r, db'))
  unfolding execute_transfer find_by_id find_by_email get_currency
  execute_transfer-eq-ok config sender_id dto db db' r e =
      elim (Option-cases (find (λ c. c.code == to_upper dto.currency) db.currencies)) [
        | inl absent ↦ ground (arith, absent, e)
        | inr (c, ec) ↦
            elim (Option-cases (find (λ u. u.email == to_lower dto.recipient_email) db.users)) [
              | inl missing ↦ ground (arith, ec, missing, e)
              | inr (u, found) ↦ elim (Bool-cases (nat_beq u.id sender_id)) [
                | inl self ↦ ground (arith, ec, found, self, e)
                | inr other ↦ elim (Option-cases (n.parse config.transfer_fee_flat)) [
                  | inl bad ↦ ground (arith, ec, found, other, bad, e)
                  | inr (fee, parsed) ↦ (
                    record {
                      currency = c;
                      currency_found = ec;
                      recipient = u;
                      fee = fee;
                      fee_parsed = parsed;
                      recipient_found = found;
                      other = other;
                    },
                    ground (arith, ec, found, other, parsed, e),
                  )
                ]
              ]
            ]
      ]

  -- A transfer that ends well goes to another user, the one with the address of the request, in the
  -- currency of the request. It takes the debit amount, which is the amount with the fee, from the
  -- sender's wallet, gives the amount to the recipient's and the fee, if there is one, to the fees
  -- account of the currency, moves no other balance, keeps the ledger sound, and leaves one mail to
  -- the recipient in the outbox; the answer tells the currency and the amount. Balances stay below
  -- 20 digits.
  pub execute_transfer-Paid :
      (config : EnvConfig n) (sender_id : ℕ) (dto : CreateTransferDto n) (db db' : Db)
      (r : TransferResponse n)
      → IsExact n
      → IsSound db
      → ((fee value : n.Decimal)
          → n.parse config.transfer_fee_flat ≡ some fee
          → n.parse dto.amount ≡ some value
          → TransferRoom (asked dto.amount value fee) db)
      → execute_transfer n config sender_id dto db ≡ (ok r, db')
      → (f : Found config sender_id dto db) × (value : n.Decimal) × (n.parse dto.amount
          ≡ some value)
        × Paid sender_id f.recipient.id
            (n.greater_than f.fee (n.of_int (pos 0)))
            (asked dto.amount value f.fee)
            f.currency.code
            f.recipient.email
            db
            db'
        × (r.currency ≡ f.currency.code)
        × (r.amount ≡ dto.amount)
  execute_transfer-Paid config sender_id dto db db' r ex h room e =
      let (f, paying) = execute_transfer-eq-ok config sender_id dto db db' r e in
      let (value, parses, paid, told, amount) =
        pay_recipient-Paid sender_id (find (λ u. u.id == sender_id) db.users) f.recipient
          f.currency.code f.fee dto db db' r ex h
          (λ value parses. room f.fee value f.fee_parsed parses) paying in
      (f, value, parses, paid, told, amount)
