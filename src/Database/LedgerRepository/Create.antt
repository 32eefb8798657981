-- ===== src/Database/LedgerRepository/Create.antt =====
-- A funded sign-up opens an account that holds the opening balance.
use mathlib.Core.Path.{subst}
use banking_go.Prelude.{
  ℕ, ◌≡◌, refl, ap, ◌∙◌, ◌==◌, ==_refl, some, Text, ℤ, pos, ◌+ℤ◌, arith, int_laws, if◌then◌else◌,
}
use banking_go.Errors.{Result, ok}
use banking_go.Decimal.{Decimals, DecimalLaws}
use banking_go.Ledger.Port.{NewCustomer, FundedCustomer}
use banking_go.Database.Tables.{Account, Database}
use banking_go.Database.Tx.{Env, World, query, new_uuid, pure}
use banking_go.Database.Tx.Inversion.{bind_ok}
use banking_go.Database.Queries.Accounts.{
  find_account, add_balance, create_account, insert_account, new_account, CreateAccountParams,
}
use banking_go.Database.Ledger.{gain}
use banking_go.Database.Ledger.Balances.{find_account-add_balance}
use banking_go.Database.Ledger.Moved.{Moved, LedgerValid, Moved-balances}
use banking_go.Database.LedgerRepository.{
  deposit_tx, identity_user, current_account, fund, open_funded, create_funded_tx,
}
use banking_go.Database.LedgerRepository.Deposit.{deposit_tx-Moved}
use banking_go.Database.LedgerRepository.Keeps.{identity_user-OkKeeps, create_account-OkKeeps}

zero_plus : (x : ℤ) → pos 0 +ℤ x ≡ x
zero_plus x = omega int_laws

-- A new row is found under its number.
created :
    (arg : CreateAccountParams) (env : Env) (w : World) {a : Account} {w' : World}
    → create_account arg env w ≡ (ok a, w')
    → (find_account a.id w'.db.accounts ≡ some a) × (a ≡ new_account a.id arg)
unfolding create_account new_uuid query insert_account find_account
created arg env w h = (ground (arith, ==_refl (env.ids w.tick)), ground arith)

-- An account is still there after a movement.
still_there :
    {before after : Database} {from_id to_id : ℕ} {x : ℤ} (m : Moved before after from_id to_id x)
    (id : ℕ) (a : Account)
    → find_account id before.accounts ≡ some a
    → (b : Account) × (find_account id after.accounts ≡ some b)
still_there {before} {after} m id a found =
    let first = m.first in
    let second = m.second in
    rw m.entry.accounts (
      rw
        (find_account-add_balance id second.account_id (gain second)
          (add_balance first.account_id (gain first) before.accounts))
        (rw (find_account-add_balance id first.account_id (gain first) before.accounts)
          (rw found (_, refl))))

own_side : (i : ℕ) (y z : ℤ) → (if i == i then y else z) ≡ y
own_side i y z = rw (==_refl i) refl

-- A movement into a new account leaves it with the amount.
opened_balance :
    {before after : Database} {from_id : ℕ} {x : ℤ} (arg : CreateAccountParams) (a : Account)
    (m : Moved before after from_id a.id x)
    → find_account a.id before.accounts ≡ some a
    → a ≡ new_account a.id arg
    → (b : Account) × (find_account a.id after.accounts ≡ some b) × (b.balance ≡ x)
opened_balance {before} {after} {from_id} {x} arg a m found fresh =
    let (b, later) = still_there m a.id a found in
    let empty : a.balance ≡ pos 0 = ap (λ (c : Account). c.balance) fresh in
    let held = Moved-balances m a.id a b found later in
    (b, later, held ∙ own_side a.id _ _ ∙ ap (λ y. y +ℤ x) empty ∙ zero_plus x)

returned :
    {r q : FundedCustomer} {v w' : World}
    → ◌≡◌ {A = Result FundedCustomer × World} (ok q, v) (ok r, w')
    → (q ≡ r) × (v ≡ w')
returned h = (ground arith, ground arith)

module _ (D : Decimals) (L : DecimalLaws D) (input : NewCustomer) (iban : Text)
    (opening : D.Decimal) (env : Env) (w : World) (valid : LedgerValid w.db) {r : FundedCustomer}
    {w' : World} where
  -- A funded sign-up that succeeds on a valid ledger has opened an account whose balance is the
  -- opening balance.
  pub create_funded_tx-opening :
      create_funded_tx D input iban opening env w ≡ (ok r, w')
      → (b : Account) × (find_account r.account_id w'.db.accounts ≡ some b)
        × (b.balance ≡ D.numeric opening)
  unfolding create_funded_tx
  create_funded_tx-opening h =
      let (user, v1, e1, h1) = bind_ok (identity_user input) (open_funded D iban opening) env w h in
      let (account, v2, e2, h2) =
        bind_ok (create_account (current_account user.id iban)) (fund D opening user) env v1 h1 in
      let (_, v3, e3, h3) =
        bind_ok (deposit_tx D account.id opening)
          (λ _. pure (record {
            user_id = user.id;
            user_email = user.email;
            account_id = account.id;
            account_iban = account.iban;
          }))
          env v2 h2 in
      let valid1 = (identity_user-OkKeeps D L input).at env w user v1 valid e1 in
      let valid2 =
        (create_account-OkKeeps D L (current_account user.id iban)).at env v1 account v2 valid1
          e2 in
      let (found, fresh) = created (current_account user.id iban) env v1 e2 in
      let (s, _, m) = deposit_tx-Moved D L env account.id opening v2 valid2 e3 in
      let (b, later, held) = opened_balance (current_account user.id iban) account m found fresh in
      let (same, at) = returned h3 in
      (
        b,
        subst (λ (x : World). find_account r.account_id x.db.accounts ≡ some b) at
            (subst (λ (q : FundedCustomer). find_account q.account_id v3.db.accounts ≡ some b) same
              later),
        held,
      )
