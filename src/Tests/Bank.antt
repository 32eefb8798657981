-- ===== src/Tests/Bank.antt =====
-- A small bank: two accounts of one customer, the settlement account, and orders in three states.
use banking_go.Prelude.{
  ℕ, ◌+◌, refl, true, false, none, some, [], ◌∷◌, Text, codes, pos, arith, ◌+ℤ◌, ◌-ℤ◌,
}
use banking_go.Errors.{ok}
use banking_go.Payment.Lifecycle.{Status, awaiting_confirmation, processing, scheduled}
use banking_go.Payment.Outbox.{OutboxWriter}
use banking_go.Payment.Service.Events.{WriterKeeps}
use banking_go.Payment.Service.Valid.{OrdersValid}
use banking_go.Database.Tables.{Account, User, PaymentOrder, Database, null_uuid, null_string}
use banking_go.Database.Tx.{Env, World, auto, open_tx, query}
use banking_go.Database.Tx.Keeps.{OkKeeps-query}
use banking_go.Database.Queries.Accounts.{find_account, calculated_balance, credits, debits}
use banking_go.Database.Queries.Users.{find_user}
use banking_go.Database.Queries.Orders.{find_order}
use banking_go.Database.Ledger.{total_balance, transaction_debits, transaction_credits}
use banking_go.Database.Ledger.Moved.{LedgerValid}

-- Nothing fails, and each call has its own identifier.
abbrev pub calm : Env
calm = record {
  faults = λ t. none;
  cancelled = λ t. false;
  ids = λ t. 100 + t;
  random = λ t. some 42;
  uuid_text = λ id. [];
  now = λ t. 1000;
  visit = λ t. [];
}

abbrev pub customer_account : ℕ → Text → Account
customer_account id iban = record {
  id = id;
  owner_id = record { uuid = 7; valid = true };
  name = codes "Girokonto";
  balance = pos 0;
  currency = codes "EUR";
  is_system = false;
  iban = iban;
  account_type = codes "GIROKONTO";
  status = codes "ACTIVE";
  available_balance = pos 0;
}

abbrev pub settlement_account : Account
settlement_account = record {
  id = 9;
  owner_id = null_uuid;
  name = codes "Settlement Account";
  balance = pos 0;
  currency = codes "EUR";
  is_system = true;
  iban = codes "C";
  account_type = codes "SETTLEMENT";
  status = codes "ACTIVE";
  available_balance = pos 0;
}

abbrev pub ada : User
ada = record { id = 7; email = codes "ada"; hashed_password = []; full_name = codes "Ada" }

abbrev pub order_of : ℕ → Status → PaymentOrder
order_of id status = record {
  id = id;
  owner_id = 7;
  source_account_id = 1;
  beneficiary_account_id = record { uuid = 2; valid = true };
  standing_order_id = null_uuid;
  beneficiary_name = codes "Ada";
  beneficiary_iban = codes "B";
  beneficiary_bic = null_string;
  amount = pos 250000;
  payment_kind = codes "UMBUCHUNG";
  schedule_type = codes "IMMEDIATE";
  purpose = null_string;
  creditor_reference = null_string;
  end_to_end_id = codes "E";
  idempotency_key = codes "K";
  requested_execution_at = 900;
  vop_result = codes "MATCH";
  vop_suggested_name = null_string;
  vop_overridden = false;
  status = status;
  reject_code = null_string;
  failure_reason = null_string;
  ledger_transaction_id = null_uuid;
  attempt_count = 0;
  processing_started_at = none;
}

abbrev pub bank : Database
bank = record {
  users = ada ∷ [];
  accounts =
      customer_account 1 (codes "A") ∷ customer_account 2 (codes "B") ∷ settlement_account ∷ [];
  entries = [];
  orders = order_of 50 awaiting_confirmation ∷ order_of 51 processing ∷ order_of 52 scheduled ∷ [];
  standing_orders = [];
  beneficiaries = [];
  audit_events = [];
  admin_audit = [];
  outbox = [];
}

pub bank-LedgerValid : LedgerValid bank
unfolding find_account calculated_balance credits debits total_balance transaction_debits
    transaction_credits ◌+ℤ◌ ◌-ℤ◌
bank-LedgerValid = record {
  unique = (refl, (refl, (refl, tt)));
  reconciled = λ id a h. ground arith;
  solvent = λ id a h c. ground arith;
  balanced = λ t. refl;
  grounded = λ id h. refl;
  closed = refl;
}

pub bank-OrdersValid : OrdersValid bank
unfolding find_order find_user
bank-OrdersValid = record {
  sound = (
    record { owned = λ gone. cc; unbooked = λ waits. refl },
    (
      record { owned = λ gone. cc; unbooked = λ waits. refl },
      (record { owned = λ gone. cc; unbooked = λ waits. refl }, tt),
    ),
  );
}

abbrev pub outside : World
outside = record { db = bank; tick = 0; mode = auto; captured = none }

abbrev pub inside : World
inside = record { db = bank; tick = 0; mode = open_tx; captured = none }

abbrev pub table_writer : OutboxWriter
table_writer = record {
  enqueue = λ event. query (λ db. (ok tt, record db { outbox = event ∷ db.outbox }));
}

pub table_writer-WriterKeeps : WriterKeeps table_writer
table_writer-WriterKeeps = record {
  enqueue = λ before event. OkKeeps-query _ (λ db s. record {
    accounts = s.accounts;
    entries = s.entries;
    orders = s.orders;
    users = s.users;
  });
}
