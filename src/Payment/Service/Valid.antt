-- ===== src/Payment/Service/Valid.antt =====
-- The orders of the database: their owners exist, and none is booked before its confirmation.
use mathlib.Core.Path.{subst}
use banking_go.Prelude.{
  All, if_both, ℕ, ◌≡◌, ◌≢◌, sym, ap, ◌∙◌, true, false, ◌==◌, ==_refl, some, none, List, [], ◌∷◌,
  inl, inr, arith, Bool-cases,
}
use banking_go.Payment.Lifecycle.{is_awaiting}
use banking_go.Payment.Booking.Booked.{Booking}
use banking_go.Payment.Service.Events.{SameLedger}
use banking_go.Payment.Service.Finish.{Attempted, Attempted-LedgerValid, find_order_id}
use banking_go.Database.Ledger.Moved.{LedgerValid}
use banking_go.Database.Tables.{Database, PaymentOrder, User}
use banking_go.Database.Queries.Users.{find_user}
use banking_go.Database.Queries.Orders.{find_order, replace_order}

-- The foreign key of an order's owner, and no booking on an order that awaits its confirmation.
pub record OrderSound (users : List User) (o : PaymentOrder) : Type 0 where
  pub owned : find_user o.owner_id users ≢ none
  pub unbooked : is_awaiting o.status ≡ true → o.ledger_transaction_id.valid ≡ false

pub record OrdersValid (db : Database) : Type 0 where
  pub sound : All (OrderSound db.users) db.orders

-- A row that a look-up finds has what all rows have.
pub find_order-All :
    (P : PaymentOrder → Type 0) (id : ℕ) (orders : List PaymentOrder) (o : PaymentOrder)
    → find_order id orders ≡ some o
    → All P orders
    → P o
unfolding find_order
find_order-All P id [] o e h = absurd (ground arith)
find_order-All P id (p ∷ orders) o e h = elim (Bool-cases (id == p.id)) [
  | inl here ↦ subst P (first id p orders o here e) h.0
  | inr other ↦ find_order-All P id orders o (ground arith) h.1
]
  where
    first :
        (id : ℕ) (p : PaymentOrder) (orders : List PaymentOrder) (o : PaymentOrder)
        → (id == p.id) ≡ true
        → find_order id (p ∷ orders) ≡ some o
        → p ≡ o
    first id p orders o here e = ground arith

-- A look-up after a write finds the written row under its number.
pub find-replace_order :
    (row : PaymentOrder) (orders : List PaymentOrder) (old : PaymentOrder)
    → find_order row.id orders ≡ some old
    → find_order row.id (replace_order row orders) ≡ some row
unfolding find_order replace_order
find-replace_order row [] old h = absurd (ground arith)
find-replace_order row (o ∷ orders) old h = elim (Bool-cases (row.id == o.id)) [
  | inl here ↦ ground (arith, ==_refl row.id)
  | inr later ↦
      (let rest = find-replace_order row orders old (ground arith) in ground (arith, rest))
]

pub replace_order-All :
    (P : PaymentOrder → Type 0) (row : PaymentOrder) (orders : List PaymentOrder)
    → P row
    → All P orders
    → All P (replace_order row orders)
unfolding replace_order
replace_order-All P row [] h k = tt
replace_order-All P row (o ∷ orders) h k =
    (if_both P (row.id == o.id) row o h k.0, replace_order-All P row orders h k.1)

module _ (db : Database) (v : OrdersValid db) (id : ℕ) (o : PaymentOrder)
    (found : find_order id db.orders ≡ some o) where
  pub owner_exists : find_user o.owner_id db.users ≢ none
  owner_exists = (find_order-All (OrderSound db.users) id db.orders o found v.sound).owned

  pub awaiting_unbooked : is_awaiting o.status ≡ true → o.ledger_transaction_id.valid ≡ false
  awaiting_unbooked = (find_order-All (OrderSound db.users) id db.orders o found v.sound).unbooked

module _ (before after : Database) (valid : OrdersValid before) (row old : PaymentOrder)
    (users : after.users ≡ before.users) (orders : after.orders ≡ replace_order row before.orders)
    (found : find_order row.id before.orders ≡ some old) (owner : row.owner_id ≡ old.owner_id)
    (unbooked : is_awaiting row.status ≡ false) where
  -- A write that keeps the owner and leaves no order waiting keeps the orders valid.
  pub replaced-OrdersValid : OrdersValid after
  replaced-OrdersValid = record {
    sound = rw users (
        rw orders (
          replace_order-All (OrderSound before.users) row before.orders
            (record {
              owned =
                  subst (λ owner_id. find_user owner_id before.users ≢ none) (sym owner)
                    (owner_exists before valid row.id old found);
              unbooked = λ waits. absurd (ground arith);
            })
            valid.sound));
  }

-- A step that leaves orders and users alone keeps the orders valid.
pub same-OrdersValid :
    {before after : Database} → SameLedger before after → OrdersValid before → OrdersValid after
same-OrdersValid s v = record { sound = rw s.orders (rw s.users v.sound) }

booked-OrdersValid :
    {before after : Database} {order result : PaymentOrder}
    → Booking before after order result
    → OrdersValid before
    → OrdersValid after
booked-OrdersValid {before} {after} {order} {result} b v =
    replaced-OrdersValid before after v result b.row b.users b.orders
      (subst (λ id. find_order id before.orders ≡ some b.row)
        (sym (
          ap (λ (r : PaymentOrder). r.id) b.written
          ∙ find_order_id order.id before.orders b.row b.found))
        b.found)
      (ap (λ (r : PaymentOrder). r.owner_id) b.written)
      (ap (λ (r : PaymentOrder). is_awaiting r.status) b.written)

-- A recorded booking attempt keeps the orders valid.
Attempted-OrdersValid :
    (before after : Database) (order result : PaymentOrder)
    → Attempted before after order result
    → OrdersValid before
    → OrdersValid after
Attempted-OrdersValid before after order result (inl (mid, b, s)) v =
    same-OrdersValid s (booked-OrdersValid b v)
Attempted-OrdersValid before after order result (inr n) v =
    replaced-OrdersValid before after v result n.row n.users n.orders
      (subst (λ id. find_order id before.orders ≡ some n.row) (sym n.identity) n.row_found) n.owner
      (ap is_awaiting n.status)

-- A valid ledger with valid orders.
abbrev pub BankValid : Database → Type 0
BankValid db = LedgerValid db × OrdersValid db

pub Attempted-BankValid :
    (before after : Database) (order result : PaymentOrder)
    → Attempted before after order result
    → BankValid before
    → BankValid after
Attempted-BankValid before after order result attempted (v, o) = (
  Attempted-LedgerValid before after order result attempted v,
  Attempted-OrdersValid before after order result attempted o,
)
