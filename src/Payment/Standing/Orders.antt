-- ===== src/Payment/Standing/Orders.antt =====
-- CreateStandingOrder, UpdateStandingOrder and CancelStandingOrder of
-- backend/internal/payment/standing_orders.go. The hub that wakes listening browsers after a call is
-- left out.
use banking_go.Prelude.{
  ℕ, ◌+◌, Bool, true, false, not, ◌&&◌, ◌||◌, ◌==◌, ltb, Option, none, some, ◌∷◌, [], Text, codes,
  text_eq, trim_space, to_upper_text, if◌then◌else◌,
}
use banking_go.Errors.{Result, ok, err, Error}
use banking_go.Account.Iban.{normalize_iban, validate_iban}
use banking_go.Calendar.{Time, micros, day_micros}
use banking_go.Decimal.{Decimals}
use banking_go.Ledger.Money.{parse_eur_amount}
use banking_go.Payment.Input.{normalize_bic, valid_payment_plain_text}
use banking_go.Payment.Reasons.{null_string_of}
use banking_go.Payment.Service.{audit}
use banking_go.Payment.Standing.{valid_frequency}
use banking_go.Database.Tables.{Account, StandingOrder, NullUuid, null_uuid, uuid}
use banking_go.Database.Tx.{Tx, pure, lift, attempt, fail_if, current_time, ◌>>=◌, ◌>>◌}
use banking_go.Database.Queries.Accounts.{get_account, get_account_by_iban}
use banking_go.Database.Queries.Standing.{
  CreateStandingOrderParams, create_standing_order as insert_standing_order,
  update_standing_order as write_standing_order, delete_standing_order,
}

-- `MaxOccurrences` below 0 is refused by its CHECK like 0.
pub record CreateStandingOrderInput : Type 0 where
  pub owner_id : ℕ
  pub source_account_id : ℕ
  pub beneficiary_name : Text
  pub beneficiary_iban : Text
  pub beneficiary_bic : Text
  pub amount : Text
  pub purpose : Text
  pub creditor_reference : Text
  pub transfer_type : Text
  pub frequency : Text
  pub start_date : Time
  pub end_date : Option Time
  pub max_occurrences : Option ℕ

unfoldable pub normalize_standing : CreateStandingOrderInput → CreateStandingOrderInput
normalize_standing input = record input {
  beneficiary_name = trim_space input.beneficiary_name;
  beneficiary_iban = normalize_iban input.beneficiary_iban;
  beneficiary_bic = normalize_bic input.beneficiary_bic;
  purpose = trim_space input.purpose;
  creditor_reference = trim_space input.creditor_reference;
  transfer_type = to_upper_text (trim_space input.transfer_type);
  frequency = to_upper_text (trim_space input.frequency);
}

abbrev pub ends_before : Option Time → Time → Bool
ends_before none start = false
ends_before (some end_date) start = ltb (micros end_date) (micros start)

-- `source.OwnerID.UUID != input.OwnerID`, and every error of the look-up.
abbrev pub standing_source : ℕ → Result Account → Result Account
standing_source owner_id (err _) = err Error.payment_unauthorized
standing_source owner_id (ok source) =
    if source.is_system || not source.owner_id.valid || not (source.owner_id.uuid == owner_id)
    then err Error.payment_unauthorized
    else ok source

unfoldable pub standing_beneficiary : Account → Result Account → Result NullUuid
standing_beneficiary source (ok destination) =
    if destination.is_system
    then ok null_uuid
    else if destination.id == source.id
    then err Error.same_account_transfer
    else ok (record { uuid = destination.id; valid = true })
standing_beneficiary source (err Error.no_rows) = ok null_uuid
standing_beneficiary source (err e) = err e

abbrev pub not_found_if_none : Error → Result StandingOrder → Result StandingOrder
not_found_if_none refusal (err Error.no_rows) = err refusal
not_found_if_none refusal r = r

module _ (D : Decimals) where
  abbrev pub standing_amount : Text → Result D.Decimal
  standing_amount raw = elim (parse_eur_amount D raw) [
    | ok amount ↦ ok amount
    | err _ ↦ err Error.standing_order_invalid
  ]

  abbrev pub standing_params :
      CreateStandingOrderInput → D.Decimal → NullUuid → CreateStandingOrderParams
  standing_params input amount beneficiary = record {
    owner_id = input.owner_id;
    source_account_id = input.source_account_id;
    beneficiary_account_id = beneficiary;
    beneficiary_name = input.beneficiary_name;
    beneficiary_iban = input.beneficiary_iban;
    beneficiary_bic = null_string_of input.beneficiary_bic;
    amount = D.numeric amount;
    purpose = null_string_of input.purpose;
    creditor_reference = null_string_of input.creditor_reference;
    transfer_type = input.transfer_type;
    frequency = input.frequency;
    start_date = input.start_date;
    end_date = input.end_date;
    max_occurrences = input.max_occurrences;
    next_execution_at = input.start_date;
  }

  unfoldable pub create_valid_standing : CreateStandingOrderInput → Tx StandingOrder
  create_valid_standing input = do
    amount ← lift (standing_amount input.amount)
    fail_if
        (not (valid_payment_plain_text input.beneficiary_name 1 140 true)
          || not (valid_payment_plain_text input.purpose 0 140 false)
          || not (valid_payment_plain_text input.creditor_reference 0 35 false))
        Error.standing_order_invalid
    lift (validate_iban input.beneficiary_iban)
    fail_if
        (not (text_eq input.transfer_type (codes "STANDARD"))
          && not (text_eq input.transfer_type (codes "INSTANT")))
        Error.standing_order_invalid
    now ← current_time
    fail_if
        (not (valid_frequency input.frequency) || ltb (micros input.start_date + day_micros) now)
        Error.standing_order_invalid
    fail_if (ends_before input.end_date input.start_date) Error.standing_order_invalid
    looked ← attempt (get_account input.source_account_id)
    source ← lift (standing_source input.owner_id looked)
    destination ← attempt (get_account_by_iban input.beneficiary_iban)
    beneficiary ← lift (standing_beneficiary source destination)
    order ← insert_standing_order (standing_params input amount beneficiary)
    audit input.owner_id 0 (codes "STANDING_ORDER_CREATED")
        ((codes "standing_order_id", uuid order.id) ∷ [])
    pure order

  unfoldable pub create_standing_order : CreateStandingOrderInput → Tx StandingOrder
  create_standing_order input = create_valid_standing (normalize_standing input)

  unfoldable pub update_standing_order :
      ℕ → ℕ → Text → Text → Text → Option Time → Option ℕ → Tx StandingOrder
  update_standing_order owner_id order_id amount purpose status end_date max_occurrences = do
    value ← lift (standing_amount amount)
    fail_if (not (valid_payment_plain_text (trim_space purpose) 0 140 false))
        Error.standing_order_invalid
    let wanted = to_upper_text (trim_space status)
    fail_if (not (text_eq wanted (codes "ACTIVE")) && not (text_eq wanted (codes "PAUSED")))
        Error.standing_order_invalid
    updated ← attempt (
        write_standing_order (record {
          amount = D.numeric value;
          purpose = null_string_of (trim_space purpose);
          end_date = end_date;
          max_occurrences = max_occurrences;
          status = wanted;
          standing_order_id = order_id;
          owner_id = owner_id;
        }))
    lift (not_found_if_none Error.payment_not_found updated)

unfoldable pub cancel_standing_order : ℕ → ℕ → Tx StandingOrder
cancel_standing_order owner_id order_id = do
  cancelled ← attempt (delete_standing_order order_id owner_id)
  lift (not_found_if_none Error.invalid_payment_state cancelled)
