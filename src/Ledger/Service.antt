-- ===== src/Ledger/Service.antt =====
-- backend/internal/ledger/service.go: the ledger's use cases over the persistence port.
pub mod History
use banking_go.Prelude.{
  ℕ, suc, ◌%◌, ◌≡◌, Bool, true, false, not, ◌&&◌, none, some, List, [], ◌∷◌, ◌==◌, Text, codes,
  text_eq, if◌then◌else◌,
}
use banking_go.Errors.{Result, ok, err, Error}
use banking_go.Decimal.{Decimals}
use banking_go.Account.Iban.{german_demo_iban}
use banking_go.Ledger.Money.{parse_eur_amount}
use banking_go.Ledger.Port.{NewCustomer, FundedCustomer, Repository}
use banking_go.Database.Tables.{Database}
use banking_go.Database.Tx.{Env, World, Tx, lift, wrap_error, ◌>>=◌, ◌>>◌, fail_if}

-- `GenerateGermanDemoIBAN` of backend/internal/account/iban.go: a random number below 10 ^ 10.
unfoldable pub generate_german_demo_iban : Tx Text
generate_german_demo_iban env w = elim (env.random w.tick) [
  | none ↦ (
    err (Error.wrapped "generate demo account number" Error.driver),
    record w { tick = suc w.tick },
  )
  | some r ↦ (german_demo_iban (r % 10_000_000_000), record w { tick = suc w.tick })
]

abbrev pub signup_opening_balance : Text
signup_opening_balance = codes "500.00"

module _ (D : Decimals) (repository : Repository D) where
  unfoldable pub create_funded_customer : NewCustomer → Tx FundedCustomer
  create_funded_customer input = do
    iban ← wrap_error "generate signup account IBAN" generate_german_demo_iban
    repository.create_funded_customer input iban (D.require_from_string signup_opening_balance)

  unfoldable pub deposit : ℕ → Text → Tx (Unit {0})
  deposit account_id amount = do
    parsed ← lift (parse_eur_amount D amount)
    repository.deposit account_id parsed

  unfoldable pub withdraw : ℕ → Text → Tx (Unit {0})
  withdraw account_id amount = do
    parsed ← lift (parse_eur_amount D amount)
    repository.withdraw account_id parsed

  unfoldable pub adjust_balance_as_admin : ℕ → ℕ → Text → Text → Text → Tx (Unit {0})
  adjust_balance_as_admin actor_id account_id operation amount request_id = do
    parsed ← lift (parse_eur_amount D amount)
    fail_if
        (not (text_eq operation (codes "DEPOSIT")) && not (text_eq operation (codes "WITHDRAW")))
        Error.unsupported_balance_operation
    repository.adjust_balance_as_admin actor_id account_id operation parsed request_id

  unfoldable pub transfer : ℕ → ℕ → ℕ → Text → Tx (Unit {0})
  transfer owner_id from_id to_id amount = do
    fail_if (owner_id == 0) Error.account_ownership
    parsed ← lift (parse_eur_amount D amount)
    fail_if (from_id == to_id) Error.same_account_transfer
    repository.transfer owner_id from_id to_id parsed

  unfoldable pub reconcile_account : ℕ → Tx Bool
  reconcile_account account_id = repository.reconcile_account account_id

-- One call of the service.
pub data Call : Type 0 where
  create_funded : NewCustomer → Call
  deposit_call withdraw_call : ℕ → Text → Call
  adjust : ℕ → ℕ → Text → Text → Text → Call
  transfer_call : ℕ → ℕ → ℕ → Text → Call
  reconcile : ℕ → Call

module _ (D : Decimals) (repository : Repository D) where
  -- The world after a call, whatever the call returned.
  unfoldable pub perform : Call → Env → World → World
  perform (create_funded input) env w = (create_funded_customer D repository input env w).1
  perform (deposit_call id amount) env w = (deposit D repository id amount env w).1
  perform (withdraw_call id amount) env w = (withdraw D repository id amount env w).1
  perform (adjust actor id operation amount request) env w =
      (adjust_balance_as_admin D repository actor id operation amount request env w).1
  perform (transfer_call owner from to amount) env w =
      (transfer D repository owner from to amount env w).1
  perform (reconcile id) env w = (reconcile_account D repository id env w).1

  -- A history of calls, each in its own environment.
  unfoldable pub perform_all : List (Call × Env) → World → World
  perform_all [] w = w
  perform_all ((call, env) ∷ rest) w = perform_all rest (perform call env w)
