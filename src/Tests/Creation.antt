-- ===== src/Tests/Creation.antt =====
-- A payment of 12.50 EUR to another bank, created and created again.
use banking_go.Prelude.{
  ◌≡◌, refl, false, ◌||◌, none, [], codes, pos, neg_ℤ, trim_space, trim_left, is_space, is_control,
  text_eq, byte_len, to_upper_text, to_upper, leb, ◌&&◌, replicate, suc, to_lower,
}
use banking_go.Errors.{ok}
use banking_go.Account.Iban.{
  normalize_iban, drop_spaces, validate_iban, shape_ok, mod97, mod97_from,
}
use banking_go.Account.Ownership.{customer_can_operate}
use banking_go.Ledger.Money.{parse_eur_amount}
use banking_go.Payment.Booking.{audit_with_queries}
use banking_go.Payment.Create.{
  replay_of, source_checks, beneficiary_of, after_insert, create_new, after_lookup, create_valid,
  create_payment,
}
use banking_go.Payment.Create.Again.{create_payment-replay}
use banking_go.Payment.Create.Chain.{create_payment-Outcome}
use banking_go.Payment.Create.Funds.{SameFunds, create_payment-SameFunds}
use banking_go.Payment.Create.Outcome.{Outcome}
use banking_go.Payment.Create.Replay.{ReadsBack}
use banking_go.Payment.Input.{
  is_past, CreatePaymentInput, normalize_input, normalize_bic, drop_blanks, validate_payment_input,
  valid_payment_plain_text, payment_markup, has_control, has_char, normalize_payee_name,
  normalize_payment_plain_text, bic_pattern, bic_from,
}
use banking_go.Payment.Lifecycle.{awaiting_confirmation}
use banking_go.Payment.Payee.Lookup.{verify_payee}
use banking_go.Payment.Payee.Names.{Letters, evaluate_vop, normalize_person_name, normalize_from}
use banking_go.Payment.Reasons.{null_string_of}
use banking_go.Payment.Service.{audit}
use banking_go.Payment.Standing.Materialize.{strings_no_hyphen}
use banking_go.Database.Tables.{PaymentOrder, null_uuid, null_string}
use banking_go.Database.Tx.{
  Env, World, auto, query, exec_tx, exec_tx_loop, exec_tx_once, current_time, new_uuid, uuid_string,
}
use banking_go.Database.Queries.Accounts.{get_account, find_account, get_account_by_iban, find_iban}
use banking_go.Database.Queries.Orders.{
  find_order, find_idempotency, get_payment_order_by_idempotency,
}
use banking_go.Database.Queries.Orders.Insert.{
  create_payment_order, insert_order, order_checks, order_taken, order_grounded, end_to_end_taken,
}
use banking_go.Database.Queries.Payees.{
  lookup_payee_by_iban, find_payee, get_beneficiary_by_iban, find_beneficiary,
}
use banking_go.Database.Queries.Standing.{find_standing}
use banking_go.Database.Queries.Users.{create_audit_event, find_user}
use banking_go.Tests.Bank.{calm, outside, bank}
use banking_go.Tests.Numbers.{exact_decimals, exact_laws}

abbrev pub ascii_letters : Letters
ascii_letters = record {
  is_word =
      λ c. (leb b'a' c && leb c b'z') || (leb b'A' c && leb c b'Z') || (leb b'0' c && leb c b'9');
  lower = to_lower;
}

-- The text of every identifier is one of 32 zeros.
abbrev pub zeros_env : Env
zeros_env = record calm { uuid_text = λ id. replicate 32 b'0' }

abbrev pub request : CreatePaymentInput
request = record {
  owner_id = 7;
  source_account_id = 1;
  beneficiary_name = codes " Bob ";
  beneficiary_iban = codes "DE89 3704 0044 0532 0130 00";
  beneficiary_bic = [];
  amount = codes "12.50";
  transfer_type = codes "standard";
  schedule_type = codes "IMMEDIATE";
  purpose = [];
  creditor_reference = [];
  requested_execution = 0;
  idempotency_key = codes "key-0001";
  standing_order_id = null_uuid;
}

abbrev made_order : PaymentOrder
made_order = record {
  id = 106;
  owner_id = 7;
  source_account_id = 1;
  beneficiary_account_id = null_uuid;
  standing_order_id = null_uuid;
  beneficiary_name = codes "Bob";
  beneficiary_iban = codes "DE89370400440532013000";
  beneficiary_bic = null_string;
  amount = pos 125_000;
  payment_kind = codes "SEPA";
  schedule_type = codes "IMMEDIATE";
  purpose = null_string;
  creditor_reference = null_string;
  end_to_end_id = codes "DEMO-000000000000000000000000000";
  idempotency_key = codes "key-0001";
  requested_execution_at = 1000;
  vop_result = codes "OTHER";
  vop_suggested_name = null_string;
  vop_overridden = false;
  status = awaiting_confirmation;
  reject_code = null_string;
  failure_reason = null_string;
  ledger_transaction_id = null_uuid;
  attempt_count = 0;
  processing_started_at = none;
}

abbrev after_creation : World
after_creation = (create_payment exact_decimals ascii_letters request zeros_env outside).1

creation_runs :
    create_payment exact_decimals ascii_letters request zeros_env outside
    ≡ (ok (record { order = made_order; replayed = false }), after_creation)
unfolding create_payment create_valid normalize_input trim_space trim_left is_space normalize_iban
    drop_spaces to_upper_text to_upper normalize_bic drop_blanks current_time validate_payment_input
    valid_payment_plain_text text_eq payment_markup has_control has_char is_control validate_iban
    byte_len shape_ok mod97 mod97_from parse_eur_amount get_payment_order_by_idempotency query
    find_idempotency after_lookup create_new get_account find_account source_checks
    customer_can_operate get_account_by_iban find_iban beneficiary_of verify_payee
    normalize_payee_name normalize_payment_plain_text lookup_payee_by_iban find_payee
    get_beneficiary_by_iban find_beneficiary evaluate_vop normalize_person_name normalize_from
    new_uuid uuid_string strings_no_hyphen null_string_of create_payment_order insert_order
    order_checks order_taken order_grounded end_to_end_taken find_order find_user find_standing
    after_insert audit audit_with_queries create_audit_event exec_tx exec_tx_loop exec_tx_once
    bic_pattern bic_from neg_ℤ
creation_runs = refl

exact_ReadsBack : ReadsBack exact_decimals
exact_ReadsBack raw amount parsed = (amount, refl, exact_laws.equal_self amount)

create_payment-Outcome_example :
    (amount : exact_decimals.Decimal) × (validate_payment_input exact_decimals
        (normalize_input request)
        1000
      ≡ ok amount)
    × Outcome exact_decimals
        (normalize_input request)
        amount
        (record { order = made_order; replayed = false })
        bank
        after_creation.db
create_payment-Outcome_example =
    create_payment-Outcome exact_decimals ascii_letters request zeros_env outside creation_runs

-- The same request in the year 2026.
abbrev years_later : Env
years_later = record zeros_env { now = λ t. 63_908_000_000_000_000 }

immediate_timely :
    (text_eq (normalize_input request).schedule_type (codes "SCHEDULED")
      && is_past (normalize_input request).requested_execution 63_908_000_000_000_000)
    ≡ false
unfolding normalize_input to_upper_text to_upper trim_space trim_left is_space text_eq
immediate_timely = refl

create_payment-replay_example :
    create_payment exact_decimals ascii_letters request years_later
      (record after_creation { mode = auto })
    ≡ (
      ok (replay_of made_order),
      record after_creation { mode = auto; tick = suc after_creation.tick },
    )
create_payment-replay_example =
    create_payment-replay exact_decimals ascii_letters request exact_ReadsBack zeros_env outside
      creation_runs years_later (record after_creation { mode = auto }) refl refl refl
      immediate_timely

create_payment-SameFunds_example : SameFunds bank after_creation.db
create_payment-SameFunds_example =
    create_payment-SameFunds exact_decimals ascii_letters request zeros_env outside
