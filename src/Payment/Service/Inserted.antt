-- ===== src/Payment/Service/Inserted.antt =====
-- A new payment order moves no funds: the ledger is the one of before, and the orders stay valid.
use banking_go.Prelude.{
  ◌≡◌, ◌≢◌, refl, true, false, some, none, ◌∷◌, inl, inr, arith, Bool-cases, Option,
}
use banking_go.Payment.Service.Finish.{same-LedgerValid}
use banking_go.Payment.Service.Valid.{OrdersValid, same-OrdersValid, BankValid}
use banking_go.Database.Tables.{Database, PaymentOrder}
use banking_go.Database.Queries.Users.{find_user}
use banking_go.Database.Queries.Standing.{present}
use banking_go.Database.Queries.Orders.Insert.{
  insert_order, order_checks, order_taken, order_grounded,
}

module _ (db : Database) (row : PaymentOrder) (v : OrdersValid db)
    (unbooked : row.ledger_transaction_id.valid ≡ false)
    (owned : find_user row.owner_id db.users ≢ none) where
  inserted-OrdersValid : OrdersValid (record db { orders = row ∷ db.orders })
  inserted-OrdersValid = record {
    sound = (record { owned = owned; unbooked = λ _. unbooked }, v.sound);
  }

present_found : {A : Type 0} (o : Option A) → present o ≡ true → o ≢ none
present_found none h e = cc
present_found (some a) h e = cc

grounded_owner :
    (db : Database) (row : PaymentOrder)
    → order_grounded row db ≡ true
    → find_user row.owner_id db.users ≢ none
unfolding order_grounded
grounded_owner db row h = present_found (find_user row.owner_id db.users) (ground arith)

-- The insert of an unbooked order, accepted or refused by a constraint, leaves a valid ledger with
-- valid orders.
pub insert_order-BankValid :
    (row : PaymentOrder) (db : Database)
    → row.ledger_transaction_id.valid ≡ false
    → BankValid db
    → BankValid (insert_order row db).1
unfolding insert_order
insert_order-BankValid row db unbooked (l, o) = elim (Bool-cases (order_checks row)) [
  | inr bad ↦ rw bad (l, o)
  | inl good ↦ elim (Bool-cases (order_taken row db.orders)) [
    | inl taken ↦ rw (good, taken) (l, o)
    | inr fresh ↦ elim (Bool-cases (order_grounded row db)) [
      | inr loose ↦ rw (good, fresh, loose) (l, o)
      | inl grounded ↦
          rw (good, fresh, grounded)
            (
              same-LedgerValid db _ refl refl l,
              inserted-OrdersValid db row o unbooked (grounded_owner db row grounded),
            )
    ]
  ]
]

-- A database with the same accounts, entries, orders and users is as valid.
pub unchanged-BankValid :
    (before after : Database)
    → after.accounts ≡ before.accounts
    → after.entries ≡ before.entries
    → after.orders ≡ before.orders
    → after.users ≡ before.users
    → BankValid before
    → BankValid after
unchanged-BankValid before after a e o u (l, v) = (
  same-LedgerValid before after a e l,
  same-OrdersValid (record { accounts = a; entries = e; orders = o; users = u }) v,
)
