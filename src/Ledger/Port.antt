-- ===== src/Ledger/Port.antt =====
-- The persistence port of backend/internal/ledger/service.go: the operations that the service calls,
-- and what it may rely on.
use banking_go.Prelude.{ℕ, Bool, Text}
use banking_go.Decimal.{Decimals}
use banking_go.Database.Tables.{Database}
use banking_go.Database.Tx.{Tx}
use banking_go.Database.Tx.Keeps.{Keeps}

pub record NewCustomer : Type 0 where
  pub identity_id : ℕ
  pub email : Text
  pub hashed_password : Text
  pub full_name : Text

-- The `User` and the `Account` of the result.
pub record FundedCustomer : Type 0 where
  pub user_id : ℕ
  pub user_email : Text
  pub account_id : ℕ
  pub account_iban : Text

module _ (D : Decimals) where
  pub record Repository : Type 0 where
    pub create_funded_customer : NewCustomer → Text → D.Decimal → Tx FundedCustomer
    pub deposit : ℕ → D.Decimal → Tx (Unit {0})
    pub withdraw : ℕ → D.Decimal → Tx (Unit {0})
    pub adjust_balance_as_admin : ℕ → ℕ → Text → D.Decimal → Text → Tx (Unit {0})
    pub transfer : ℕ → ℕ → ℕ → D.Decimal → Tx (Unit {0})
    pub reconcile_account : ℕ → Tx Bool

-- A repository each of whose operations keeps `P`.
pub record RepositoryKeeps (D : Decimals) (P : Database → Type 0) (r : Repository D) : Type 0 where
  pub create :
      (input : NewCustomer) (iban : Text) (opening : D.Decimal)
      → Keeps P (r.create_funded_customer input iban opening)
  pub deposit : (account_id : ℕ) (amount : D.Decimal) → Keeps P (r.deposit account_id amount)
  pub withdraw : (account_id : ℕ) (amount : D.Decimal) → Keeps P (r.withdraw account_id amount)
  pub adjust :
      (actor_id account_id : ℕ) (operation : Text) (amount : D.Decimal) (request_id : Text)
      → Keeps P (r.adjust_balance_as_admin actor_id account_id operation amount request_id)
  pub transfer :
      (owner_id from_id to_id : ℕ) (amount : D.Decimal)
      → Keeps P (r.transfer owner_id from_id to_id amount)
  pub reconcile : (account_id : ℕ) → Keeps P (r.reconcile_account account_id)
