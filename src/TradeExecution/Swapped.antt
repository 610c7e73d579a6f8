-- ===== src/TradeExecution/Swapped.antt =====
-- What a swap moves.
use flow_pay.Prelude.{
  ℕ, ◌+◌, ◌*◌, ◌≡◌, true, none, some, List, [], ◌∷◌, arith, refl, find, inl, inr,
}
use mathlib.Core.Path.{subst}
use flow_pay.Prelude.Int.{magnitude}
use flow_pay.Prelude.Text.{Text}
use flow_pay.Numbers.{Numbers, IsExact}
use flow_pay.Exec.{ok, Outcome-cases}
use flow_pay.Db.{Db, AccountKind, debit, credit}
use flow_pay.Ledger.{
  EnsureAccountInput, PostEntryInput, wallet_key, system_key, post_entry, matches,
}
use flow_pay.Ledger.Amounts.{amount_units, Within}
use flow_pay.Ledger.Invariant.{IsSound}
use flow_pay.Ledger.Keys.{Move}
use flow_pay.Ledger.Ensured.{Opens, Opens-trans, ensure_accounts-Opens}
use flow_pay.Ledger.TwoLines.{Headroom}
use flow_pay.Ledger.Carried.{Carried, post_entry-Carried}
use flow_pay.TradeExecution.{
  ExecuteSwapInput, ExecuteSwapResult, SwapAccounts, open_accounts, swap_lines, post_swap,
}

module _ (n : Numbers) where
  -- The source pays the treasury in its currency, and the treasury pays the user's wallet in the other.
  -- The source pays the treasury in its currency, and the treasury pays the user's wallet in another.
  abbrev pub exchange_moves : EnsureAccountInput → n.Numeral → ℕ → Text → n.Numeral → List Move
  exchange_moves source from_amount user to_code to_amount =
      record { key = source; direction = debit; units = amount_units n from_amount }
      ∷ record {
        key = system_key AccountKind.treasury source.currency_code;
        direction = credit;
        units = amount_units n from_amount;
      }
      ∷ record {
        key = system_key AccountKind.treasury to_code;
        direction = debit;
        units = amount_units n to_amount;
      }
      ∷ record {
        key = wallet_key user to_code;
        direction = credit;
        units = amount_units n to_amount;
      }
      ∷ []

  abbrev pub swap_moves : ExecuteSwapInput n → List Move
  swap_moves i = exchange_moves i.source i.from_amount i.to_user_id i.to_currency_code i.to_amount

  -- Room for both amounts, each on two lines.
  abbrev pub SwapRoom : ExecuteSwapInput n → Db → Type 0
  SwapRoom i db =
      Headroom
        (2 * magnitude (amount_units n i.from_amount) + 2 * magnitude (amount_units n i.to_amount))
        db

  -- The accounts are those of the keys.
  pub record Opened (i : ExecuteSwapInput n) (a : SwapAccounts) (db : Db) : Type 0 where
    pub source : find (matches i.source) db.accounts ≡ some a.source_account
    pub treasury_source :
        find (matches (system_key AccountKind.treasury i.source.currency_code)) db.accounts
        ≡ some a.treasury_source
    pub treasury_dest :
        find (matches (system_key AccountKind.treasury i.to_currency_code)) db.accounts
        ≡ some a.treasury_dest
    pub dest :
        find (matches (wallet_key i.to_user_id i.to_currency_code)) db.accounts ≡ some a.dest_wallet

  pub open_accounts-Opens :
      (i : ExecuteSwapInput n) (db : Db)
      → IsSound db
      → (a : SwapAccounts) × (d : Db) × (open_accounts n i db ≡ (ok a, d))
        × Opened i a d
        × Opens db d
  unfolding open_accounts
  open_accounts-Opens i db h =
      let q = system_key AccountKind.treasury i.source.currency_code in
      let r = system_key AccountKind.treasury i.to_currency_code in
      let s = wallet_key i.to_user_id i.to_currency_code in
      let (a, b, d₁, e₁, fa, fb, o₁) = ensure_accounts-Opens i.source q db h in
      let (c, w, d₂, e₂, fc, fw, o₂) = ensure_accounts-Opens r s d₁ o₁.sound in
      let opened : SwapAccounts = record {
        source_account = a;
        treasury_source = b;
        treasury_dest = c;
        dest_wallet = w;
      } in
      (
        opened,
        d₂,
        ground (arith, e₁, e₂),
        record {
          source = o₂.keeps i.source a fa;
          treasury_source = o₂.keeps q b fb;
          treasury_dest = fc;
          dest = fw;
        },
        Opens-trans db d₁ d₂ o₁ o₂,
      )

  -- A swap makes its four moves and nothing else, and keeps the ledger sound.
  pub post_swap-Carried :
      (i : ExecuteSwapInput n) (a : SwapAccounts) (db d d' : Db) (r : ExecuteSwapResult n)
      → IsExact n
      → SwapRoom i db
      → Opened i a d
      → Opens db d
      → post_swap n i a d ≡ (ok r, d')
      → Carried (swap_moves i) db d'
  unfolding post_swap
  post_swap-Carried i a db d d' r ex room f o e =
      let entry : PostEntryInput n = record {
        entry_type = i.entry_type;
        metadata = none;
        lines = swap_lines n i a;
      } in
      elim (Outcome-cases (post_entry n entry true d)) [
        | inl (x, s, bad) ↦ ground (arith, bad, e)
        | inr (p, s, posted) ↦
            let there : s ≡ d' = ground (arith, posted, e) in
            let within : Within n d (swap_lines n i a) =
              λ id. rw (o.balances id) (omega (arith, room id)) in
            subst (λ x. Carried (swap_moves i) db x) there
              (post_entry-Carried n (swap_moves i) entry db d s p ex o within
                (
                  (a.source_account, f.source, refl),
                  refl,
                  refl,
                  (
                    (a.treasury_source, f.treasury_source, refl),
                    refl,
                    refl,
                    (
                      (a.treasury_dest, f.treasury_dest, refl),
                      refl,
                      refl,
                      ((a.dest_wallet, f.dest, refl), refl, refl, tt),
                    ),
                  ),
                )
                posted)
      ]
