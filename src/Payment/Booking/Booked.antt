-- ===== src/Payment/Booking/Booked.antt =====
-- A payment that is booked is a movement of its amount, under one transaction number, once.
use banking_go.Prelude.{
  ℕ, ◌≡◌, refl, sym, ap, ◌∙◌, true, false, some, [], ◌∷◌, inl, inr, pos, ◌≤ℤ◌, All, Option-cases,
}
use banking_go.Errors.{ok}
use banking_go.Decimal.{Decimals, DecimalLaws}
use banking_go.Ledger.Posting.{Posting, planned, Permitted}
use banking_go.Payment.Lifecycle.{booked, is_processing}
use banking_go.Account.Ownership.{customer_can_operate}
use banking_go.Database.Ledger.Moved.{Moved, LedgerValid}
use banking_go.Database.Queries.Accounts.Rows.{IsRow, select_two-IsRow}
use banking_go.Database.LedgerRepository.Transfer.{active_row}
use banking_go.Database.LedgerRepository.{account_by_id, source_snapshot, destination_snapshot}
use banking_go.Database.LedgerRepository.Columns.{credit_gain, debit_gain}
use mathlib.Core.Path.{subst}
use banking_go.Payment.Booking.Steps.{
  read_amount, resolved, found_rows, read_available, permitted, posting_left,
}
use banking_go.Database.Tables.{Account, Database, PaymentOrder, null_string, Database}
use banking_go.Database.Tx.{Env, World}
use banking_go.Database.Queries.Accounts.{find_account, select_two}
use banking_go.Database.Queries.Users.{find_user}
use banking_go.Database.Queries.Orders.{find_order, replace_order}
use banking_go.Payment.Booking.{post_payment, book_payment_tx, system_destination}
use banking_go.Payment.Booking.Posted.{
  sent_entry, received_entry, sender_exists, row_exists, posted, positive, final,
}

-- What a booking has done: the order's row was in processing and unbooked, and is now booked under the
-- number of two new entries, which move the order's amount.
pub record Booking (before after : Database) (order order' : PaymentOrder) : Type 0 where
  pub destination : ℕ
  pub movement : Moved before after order.source_account_id destination order.amount
  pub row : PaymentOrder
  pub found : find_order order.id before.orders ≡ some row
  pub unbooked : row.ledger_transaction_id.valid ≡ false
  pub in_processing : is_processing row.status ≡ true
  pub written : order' ≡ record row {
    status = booked;
    ledger_transaction_id = record { uuid = movement.first.transaction_id; valid = true };
    failure_reason = null_string;
    reject_code = null_string;
  }
  pub orders : after.orders ≡ replace_order order' before.orders
  pub users : after.users ≡ before.users
  pub owned :
      customer_can_operate order.owner_id movement.from_row.owner_id.uuid
        movement.from_row.owner_id.valid movement.from_row.is_system
      ≡ true

module _ (D : Decimals) (L : DecimalLaws D) where
  covered_by_available :
      (db : Database)
      → LedgerValid db
      → (id : ℕ) (row : Account) → find_account id db.accounts ≡ some row
      → (available amount : D.Decimal) → D.from_numeric row.available_balance ≡ some available
      → D.less_than available amount ≡ false
      → D.numeric amount ≤ℤ row.balance
  covered_by_available db v id row found available amount reads enough =
      let (stored, usable) = v.reconciled id row found in
      rw (stored ∙ sym usable) (
        rw (← L.from_numeric_exact row.available_balance available reads)
          (L.numeric_mono available amount enough))

  module _ (env : Env) (order : PaymentOrder) {order' : PaymentOrder} {w' : World}
      {amount : D.Decimal} (paid : D.from_numeric order.amount ≡ some amount) (dest : ℕ) (w : World)
      (v : LedgerValid w.db) {a b : Account}
      (rows : select_two order.source_account_id dest w.db.accounts ≡ a ∷ b ∷ [])
      {available : D.Decimal}
      (reads : D.from_numeric (account_by_id a b order.source_account_id).available_balance
        ≡ some available)
      (allowed : Permitted D order.owner_id
        (source_snapshot D (account_by_id a b order.source_account_id) available)
        (destination_snapshot D (account_by_id a b dest))
        amount
        system_destination)
      (left : post_payment D order
          (account_by_id a b order.source_account_id)
          (planned D
            (source_snapshot D (account_by_id a b order.source_account_id) available)
            (destination_snapshot D (account_by_id a b dest))
            amount)
          env
          w
        ≡ (ok order', w')) where
    abbrev source : Account
    source = account_by_id a b order.source_account_id

    abbrev destination : Account
    destination = account_by_id a b dest

    abbrev intended : Posting D
    intended =
        planned D (source_snapshot D source available) (destination_snapshot D destination) amount

    post_payment-Booking : Booking w.db w'.db order order'
    post_payment-Booking = elim (Option-cases (find_user order.owner_id w.db.users)) [
      | inl gone ↦ absurd (sender_exists D env order source intended w left gone)
      | inr (sender, s) ↦ elim (Option-cases (find_order order.id w.db.orders)) [
        | inl gone ↦ absurd (row_exists D env order source intended w left gone)
        | inr (row, o) ↦
            (let after = posted D env order source intended w left s o in
              let (unbooked, in_processing, written) =
                final D env order source intended w left s o in
              let found : All (IsRow w.db.accounts) (a ∷ b ∷ []) =
                subst (All (IsRow w.db.accounts)) rows
                  (select_two-IsRow order.source_account_id dest w.db.accounts v.unique) in
              let (from_found, from_same) =
                active_row w.db.accounts a b order.source_account_id found.0 found.1.0
                  allowed.active in
              let (to_found, to_same) =
                active_row w.db.accounts a b dest found.0 found.1.0 allowed.active_destination in
              record {
                destination = dest;
                movement = record {
                  first = sent_entry D env order source intended w;
                  second = received_entry D env order source intended w sender;
                  entry = record {
                    one_transaction = refl;
                    debit_mirrored = refl;
                    credit_mirrored = refl;
                    accounts = cc (
                      ap (λ (db : Database). db.accounts) after,
                      credit_gain D L amount,
                      debit_gain D L amount,
                    );
                    entries = ap (λ (db : Database). db.entries) after;
                  };
                  sides = inl (
                    (from_same, L.from_numeric_exact order.amount amount paid, L.numeric-zero),
                    (to_same, L.from_numeric_exact order.amount amount paid, L.numeric-zero),
                  );
                  positive =
                      subst (λ x. pos 1 ≤ℤ x) (L.from_numeric_exact order.amount amount paid)
                        (positive D env order source intended w left s o L.numeric-zero refl);
                  distinct = λ e. allowed.distinct (from_same ∙ e ∙ sym to_same);
                  from_row = source;
                  from_found = from_found;
                  to_row = destination;
                  to_found = to_found;
                  covered = λ _.
                      subst (λ x. x ≤ℤ source.balance)
                        (L.from_numeric_exact order.amount amount paid)
                        (covered_by_available w.db v order.source_account_id source from_found
                          available amount reads allowed.covered);
                };
                row = row;
                found = o;
                unbooked = unbooked;
                in_processing = in_processing;
                written = written;
                orders = ap (λ (db : Database). db.orders) after;
                users = ap (λ (db : Database). db.users) after;
                owned = allowed.owned;
              })
      ]
    ]

  -- A booking that succeeds on a valid ledger has moved the order's amount, by two entries of one
  -- new transaction, from the source account, which the order's owner may operate, to another
  -- account; the order's row was in processing and not booked, and is now booked under that
  -- transaction's number.
  pub book_payment_tx-Booking :
      (env : Env) (order : PaymentOrder) (w : World) {order' : PaymentOrder} {w' : World}
      → LedgerValid w.db
      → book_payment_tx D order env w ≡ (ok order', w')
      → Booking w.db w'.db order order'
  book_payment_tx-Booking env order w {order'} {w'} v h =
      let (amount, paid) = read_amount D env order w h in
      let (dest, u, to, at_u) = resolved D env order w h in
      let (a, b, rows) = found_rows D env order w h paid to in
      let (available, reads) = read_available D env order w h paid to rows in
      let (allowed, plan) = permitted D env order w h paid to rows reads in
      let (x, left, at_x) = posting_left D env order w h paid to rows reads plan in
      let same : x.db ≡ w.db = at_x ∙ at_u in
      subst (λ (db : Database). Booking db w'.db order order') same
        (post_payment-Booking env order paid dest x (subst LedgerValid (sym same) v)
          (subst
            (λ (db : Database). select_two order.source_account_id dest db.accounts ≡ a ∷ b ∷ [])
            (sym at_x) rows)
          reads allowed left)
