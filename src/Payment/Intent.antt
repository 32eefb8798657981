-- ===== src/Payment/Intent.antt =====
-- backend/internal/payment/domain/intent.go, and samePaymentIntent of
-- backend/internal/payment/payments.go.
use banking_go.Prelude.{
  ℕ, ◌-◌, ◌*◌, Bool, true, false, not, ◌&&◌, ◌||◌, ◌==◌, leb, Text, codes, text_eq, none, some,
  Option, if◌then◌else◌,
}
use banking_go.Decimal.{Decimals}
use banking_go.Payment.Input.{CreatePaymentInput}
use banking_go.Database.Tables.{PaymentOrder}

-- Go's `==` on Booleans.
abbrev pub same_bool : Bool → Bool → Bool
same_bool true b = b
same_bool false b = not b

module _ (D : Decimals) where
  -- Times are in nanoseconds.
  pub record Intent : Type 0 where
    pub requested_execution : ℕ
    pub amount : D.Decimal
    pub beneficiary_name : Text
    pub beneficiary_iban : Text
    pub beneficiary_bic : Text
    pub schedule_type : Text
    pub purpose : Text
    pub creditor_reference : Text
    pub source_account_id : ℕ
    pub instant : Bool
    pub internal : Bool

  -- `executionDelta <= time.Microsecond`, of the absolute difference.
  abbrev pub same_execution : ℕ → ℕ → Bool
  same_execution stored requested = leb (stored - requested) 1_000 && leb (requested - stored) 1_000

  unfoldable pub equivalent_intent : Intent → Intent → Bool
  equivalent_intent stored requested =
      stored.source_account_id == requested.source_account_id
      && text_eq stored.beneficiary_iban requested.beneficiary_iban
      && text_eq stored.beneficiary_name requested.beneficiary_name
      && text_eq stored.beneficiary_bic requested.beneficiary_bic
      && D.equal stored.amount requested.amount
      && text_eq stored.schedule_type requested.schedule_type
      && text_eq stored.purpose requested.purpose
      && text_eq stored.creditor_reference requested.creditor_reference
      && (if text_eq requested.schedule_type (codes "SCHEDULED")
          then same_execution stored.requested_execution requested.requested_execution
          else true)
      && (same_bool stored.instant requested.instant || stored.internal)

  abbrev pub stored_intent : PaymentOrder → D.Decimal → Intent
  stored_intent order amount = record {
    requested_execution = order.requested_execution_at * 1_000;
    amount = amount;
    beneficiary_name = order.beneficiary_name;
    beneficiary_iban = order.beneficiary_iban;
    beneficiary_bic = order.beneficiary_bic.string;
    schedule_type = order.schedule_type;
    purpose = order.purpose.string;
    creditor_reference = order.creditor_reference.string;
    source_account_id = order.source_account_id;
    instant = text_eq order.payment_kind (codes "SEPA_INSTANT");
    internal =
        text_eq order.payment_kind (codes "INTERNAL")
        || text_eq order.payment_kind (codes "UMBUCHUNG");
  }

  abbrev pub requested_intent : CreatePaymentInput → D.Decimal → Intent
  requested_intent input amount = record {
    requested_execution = input.requested_execution;
    amount = amount;
    beneficiary_name = input.beneficiary_name;
    beneficiary_iban = input.beneficiary_iban;
    beneficiary_bic = input.beneficiary_bic;
    schedule_type = input.schedule_type;
    purpose = input.purpose;
    creditor_reference = input.creditor_reference;
    source_account_id = input.source_account_id;
    instant = text_eq input.transfer_type (codes "INSTANT");
    internal = false;
  }

  abbrev pub same_read_intent :
      PaymentOrder → CreatePaymentInput → D.Decimal → Option D.Decimal → Bool
  same_read_intent order input amount none = false
  same_read_intent order input amount (some stored) =
      equivalent_intent (stored_intent order stored) (requested_intent input amount)

  unfoldable pub same_payment_intent : PaymentOrder → CreatePaymentInput → D.Decimal → Bool
  same_payment_intent order input amount =
      same_read_intent order input amount (D.from_numeric order.amount)
