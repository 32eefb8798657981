-- ===== src/Payment/Create.antt =====
-- CreatePayment of backend/internal/payment/payments.go: one order that awaits its confirmation, or
-- the replay of the order that has the same key.
pub mod Replay
pub mod Keeps
pub mod Funds
pub mod Reads
pub mod Outcome
pub mod Again
pub mod Chain
use banking_go.Prelude.{
  ℕ, ◌+◌, ◌*◌, ◌/◌, Bool, true, false, not, ◌&&◌, ◌==◌, ◌++◌, Option, none, some, ◌∷◌, [], Text,
  codes, text_eq, to_upper_text, take, if◌then◌else◌,
}
use banking_go.Errors.{Result, ok, err, Error}
use banking_go.Decimal.{Decimals}
use banking_go.Account.Ownership.{customer_can_operate}
use banking_go.Payment.Input.{CreatePaymentInput, normalize_input, validate_payment_input}
use banking_go.Payment.Intent.{same_payment_intent}
use banking_go.Payment.Lifecycle.{awaiting_confirmation}
use banking_go.Payment.Payee.Lookup.{verify_payee}
use banking_go.Payment.Payee.Names.{Letters, VopResult}
use banking_go.Payment.Reasons.{null_string_of}
use banking_go.Payment.Service.{audit}
use banking_go.Payment.Standing.Materialize.{strings_no_hyphen}
use banking_go.Database.Tables.{
  Account, PaymentOrder, NullUuid, NullString, null_uuid, null_string, text, state,
}
use banking_go.Database.Tx.{
  Tx, pure, raise, lift, attempt, fail_if, current_time, new_uuid, uuid_string, is_unique_violation,
  ◌>>=◌, ◌>>◌,
}
use banking_go.Database.Queries.Accounts.{get_account, get_account_by_iban}
use banking_go.Database.Queries.Orders.{get_payment_order_by_idempotency}
use banking_go.Database.Queries.Orders.Insert.{CreatePaymentOrderParams, create_payment_order}

pub record CreatePaymentResult : Type 0 where
  pub order : PaymentOrder
  pub replayed : Bool

abbrev pub replay_of : PaymentOrder → CreatePaymentResult
replay_of order = record { order = order; replayed = true }

-- Every error of the look-up is `ErrAccountNotFound`.
abbrev pub source_or_error : Result Account → Result Account
source_or_error (ok source) = ok source
source_or_error (err _) = err Error.account_not_found

unfoldable pub source_checks : CreatePaymentInput → Account → Result (Unit {0})
source_checks input source =
    if not (
      customer_can_operate input.owner_id source.owner_id.uuid source.owner_id.valid
        source.is_system)
    then err Error.payment_unauthorized
    else if not (text_eq source.status (codes "ACTIVE"))
    then err Error.account_blocked
    else if not (text_eq source.currency (codes "EUR"))
    then err Error.currency_mismatch
    else ok tt

-- The kind of a payment to another bank.
abbrev pub external_kind : CreatePaymentInput → NullUuid × Text
external_kind input = (
  null_uuid,
  if text_eq input.transfer_type (codes "INSTANT") then codes "SEPA_INSTANT" else codes "SEPA",
)

abbrev pub internal_kind : CreatePaymentInput → Account → NullUuid × Text
internal_kind input destination = (
  record { uuid = destination.id; valid = true },
  if destination.owner_id.valid && destination.owner_id.uuid == input.owner_id
      then codes "UMBUCHUNG"
      else codes "INTERNAL",
)

-- The beneficiary's account, if it is here, and the kind of the payment.
unfoldable pub beneficiary_of :
    CreatePaymentInput → Account → Result Account → Result (NullUuid × Text)
beneficiary_of input source (ok destination) =
    if destination.is_system
    then ok (external_kind input)
    else if destination.id == source.id
    then err Error.same_account_transfer
    else ok (internal_kind input destination)
beneficiary_of input source (err Error.no_rows) = ok (external_kind input)
beneficiary_of input source (err e) = err e

-- The clock's microseconds, or the request's nanoseconds rounded half up to microseconds.
abbrev pub execution_of : CreatePaymentInput → ℕ → ℕ
execution_of input now =
    if text_eq input.schedule_type (codes "IMMEDIATE")
    then now
    else (input.requested_execution + 500) / 1_000

-- `optionalString`
abbrev pub optional_string : Option Text → NullString
optional_string none = null_string
optional_string (some value) = null_string_of value

module _ (D : Decimals) where
  -- `nonce` is the text of a new UUID.
  abbrev pub order_params :
      CreatePaymentInput
      → D.Decimal
      → NullUuid × Text
      → VopResult
      → ℕ
      → Text
      → CreatePaymentOrderParams
  order_params input amount (beneficiary, kind) vop now nonce = record {
    owner_id = input.owner_id;
    source_account_id = input.source_account_id;
    beneficiary_account_id = beneficiary;
    standing_order_id = input.standing_order_id;
    beneficiary_name = input.beneficiary_name;
    beneficiary_iban = input.beneficiary_iban;
    beneficiary_bic = null_string_of input.beneficiary_bic;
    amount = D.numeric amount;
    payment_kind = kind;
    schedule_type = input.schedule_type;
    purpose = null_string_of input.purpose;
    creditor_reference = null_string_of input.creditor_reference;
    end_to_end_id = codes "DEMO-" ++ take 27 (to_upper_text (strings_no_hyphen nonce));
    idempotency_key = input.idempotency_key;
    requested_execution_at = execution_of input now;
    vop_result = vop.result;
    vop_suggested_name = optional_string vop.suggested_name;
    status = awaiting_confirmation;
  }

  -- After a unique violation: the order that another request has inserted, if it is the same intent.
  abbrev pub replay_or_conflict :
      CreatePaymentInput → D.Decimal → Result PaymentOrder → Result CreatePaymentResult
  replay_or_conflict input amount (ok existing) =
      if same_payment_intent D existing input amount
      then ok (replay_of existing)
      else err Error.idempotency_conflict
  replay_or_conflict input amount (err _) = err Error.idempotency_conflict

  abbrev pub created_event : PaymentOrder → Tx (Unit {0})
  created_event order = audit order.owner_id order.id (codes "PAYMENT_CREATED") (
      (codes "status", state order.status)
      ∷ (codes "vop_result", text order.vop_result)
      ∷ (codes "payment_kind", text order.payment_kind)
      ∷ [])

  unfoldable pub after_insert :
      CreatePaymentInput → D.Decimal → Result PaymentOrder → Tx CreatePaymentResult
  after_insert input amount (ok order) =
      created_event order >> pure (record { order = order; replayed = false })
  after_insert input amount (err e) =
      if is_unique_violation e
      then (attempt (get_payment_order_by_idempotency input.owner_id input.idempotency_key)
          >>= λ found. lift (replay_or_conflict input amount found))
      else raise e

  module _ (letters : Letters) where
    unfoldable pub create_new : CreatePaymentInput → D.Decimal → Tx CreatePaymentResult
    create_new input amount = do
      looked ← attempt (get_account input.source_account_id)
      source ← lift (source_or_error looked)
      lift (source_checks input source)
      destination ← attempt (get_account_by_iban input.beneficiary_iban)
      beneficiary ← lift (beneficiary_of input source destination)
      vop ← verify_payee letters input.owner_id input.beneficiary_name input.beneficiary_iban
      now ← current_time
      nonce_id ← new_uuid
      nonce ← uuid_string nonce_id
      inserted ←
          attempt (create_payment_order (order_params input amount beneficiary vop now nonce))
      after_insert input amount inserted

    -- The order with this key, if there is one, is replayed.
    unfoldable pub after_lookup :
        CreatePaymentInput → D.Decimal → Result PaymentOrder → Tx CreatePaymentResult
    after_lookup input amount (ok existing) =
        if same_payment_intent D existing input amount
        then pure (replay_of existing)
        else raise Error.idempotency_conflict
    after_lookup input amount (err Error.no_rows) = create_new input amount
    after_lookup input amount (err e) = raise e

    unfoldable pub create_valid : CreatePaymentInput → Tx CreatePaymentResult
    create_valid input = do
      now ← current_time
      amount ← lift (validate_payment_input D input now)
      found ← attempt (get_payment_order_by_idempotency input.owner_id input.idempotency_key)
      after_lookup input amount found

    unfoldable pub create_payment : CreatePaymentInput → Tx CreatePaymentResult
    create_payment input = create_valid (normalize_input input)
