-- ===== src/Database/Queries/Entries.antt =====
-- backend/postgres/sqlc/entries.sql.go, with the CHECK of
-- backend/postgres/migrations/000003_create_entries_table.up.sql: a row debits or credits, not both.
use banking_go.Prelude.{ℕ, Bool, ◌&&◌, ◌||◌, ◌∷◌, Text, codes, ℤ, pos, ltb_ℤ, eqb_ℤ, if◌then◌else◌}
use banking_go.Errors.{Result, ok, err, Error}
use banking_go.Database.Tables.{Entry, NullUuid, NullString, null_uuid, null_string, Database}
use banking_go.Database.Tx.{Tx, query}

abbrev pub single_side : ℤ → ℤ → Bool
single_side debit credit =
    (ltb_ℤ (pos 0) debit && eqb_ℤ credit (pos 0)) || (eqb_ℤ debit (pos 0) && ltb_ℤ (pos 0) credit)

unfoldable pub insert_entry : Entry → Database → Result Entry × Database
insert_entry e db =
    if single_side e.debit e.credit
    then (ok e, record db { entries = e ∷ db.entries })
    else (err (Error.pq 23514), db)

pub record CreateEntryParams : Type 0 where
  pub account_id : ℕ
  pub debit : ℤ
  pub credit : ℤ
  pub transaction_id : ℕ
  pub operation_type : Text
  pub description : NullString

abbrev pub plain_entry : CreateEntryParams → Entry
plain_entry arg = record {
  account_id = arg.account_id;
  debit = arg.debit;
  credit = arg.credit;
  transaction_id = arg.transaction_id;
  operation_type = arg.operation_type;
  description = arg.description;
  payment_order_id = null_uuid;
  counterparty_name = null_string;
  counterparty_iban = null_string;
  purpose = null_string;
  category = null_string;
}

unfoldable pub create_entry : CreateEntryParams → Tx Entry
create_entry arg = query (insert_entry (plain_entry arg))

pub record CreatePaymentEntryParams : Type 0 where
  pub account_id : ℕ
  pub debit : ℤ
  pub credit : ℤ
  pub transaction_id : ℕ
  pub description : NullString
  pub payment_order_id : NullUuid
  pub counterparty_name : NullString
  pub counterparty_iban : NullString
  pub purpose : NullString
  pub category : NullString

abbrev pub payment_entry : CreatePaymentEntryParams → Entry
payment_entry arg = record {
  account_id = arg.account_id;
  debit = arg.debit;
  credit = arg.credit;
  transaction_id = arg.transaction_id;
  operation_type = codes "transfer";
  description = arg.description;
  payment_order_id = arg.payment_order_id;
  counterparty_name = arg.counterparty_name;
  counterparty_iban = arg.counterparty_iban;
  purpose = arg.purpose;
  category = arg.category;
}

unfoldable pub create_payment_entry : CreatePaymentEntryParams → Tx Entry
create_payment_entry arg = query (insert_entry (payment_entry arg))
