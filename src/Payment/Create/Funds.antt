-- ===== src/Payment/Create/Funds.antt =====
-- The creation of a payment books nothing, and keeps the bank valid.
use banking_go.Prelude.{◌≡◌, refl, not, if_both}
use banking_go.Errors.{Result}
use banking_go.Decimal.{Decimals}
use banking_go.Payment.Create.{create_payment}
use banking_go.Payment.Create.Keeps.{create_payment-Keeps}
use banking_go.Payment.Input.{CreatePaymentInput}
use banking_go.Payment.Payee.Names.{Letters}
use banking_go.Payment.Service.Valid.{BankValid}
use banking_go.Payment.Service.Inserted.{insert_order-BankValid, unchanged-BankValid}
use banking_go.Database.Tables.{Database, PaymentOrder}
use banking_go.Database.Tx.{Env, World}
use banking_go.Database.Queries.Orders.Insert.{
  insert_order, order_checks, order_taken, order_grounded,
}

-- The accounts, with their balances, and the entries are those of `before`.
abbrev pub SameFunds : Database → Database → Type 0
SameFunds before after = (after.accounts ≡ before.accounts) × (after.entries ≡ before.entries)

insert_order-SameFunds :
    (before : Database) (row : PaymentOrder) (db : Database)
    → SameFunds before db
    → SameFunds before (insert_order row db).1
unfolding insert_order
insert_order-SameFunds before row db h =
    let Kept : Result PaymentOrder × Database → Type 0 = λ p. SameFunds before p.1 in
    if_both Kept (not (order_checks row)) _ _ h (
      if_both Kept (order_taken row db.orders) _ _ h (if_both Kept (order_grounded row db) _ _ h h))

module _ (D : Decimals) (letters : Letters) (input : CreatePaymentInput) (env : Env)
    (w : World) where
  -- The creation of a payment changes no account, no balance and no entry, whether it succeeds,
  -- replays, is refused or fails halfway.
  pub create_payment-SameFunds : SameFunds w.db (create_payment D letters input env w).1.db
  create_payment-SameFunds =
      create_payment-Keeps (SameFunds w.db) (λ row db _ h. insert_order-SameFunds w.db row db h)
        (λ event db h. h) D letters input env w (refl, refl)

  pub create_payment-BankValid :
      BankValid w.db → BankValid (create_payment D letters input env w).1.db
  create_payment-BankValid =
      create_payment-Keeps BankValid (λ row db unbooked v. insert_order-BankValid row db unbooked v)
        (λ event db v. unchanged-BankValid db _ refl refl refl refl v) D letters input env w
