-- ===== src/Ledger/Posting.antt =====
-- backend/internal/ledger/domain/posting.go: the infrastructure-free rules of a transfer.
use banking_go.Prelude.{
  ℕ, ◌≡◌, ◌≢◌, Bool, true, false, not, ◌&&◌, ◌||◌, ◌==◌, Text, codes, text_eq, arith, if◌then◌else◌,
}
use banking_go.Errors.{Result, ok, Error, ◌>>◌, fail_if}
use banking_go.Decimal.{Decimals, DecimalLaws}
use banking_go.Account.Ownership.{customer_can_operate}

pub record TransferPolicy : Type 0 where
  pub require_destination_ownership : Bool
  pub allow_system_destination : Bool

module _ (D : Decimals) where
  pub record AccountSnapshot : Type 0 where
    pub available_balance : D.Decimal
    pub currency : Text
    pub status : Text
    pub id : ℕ
    pub owner_id : ℕ
    pub owner_assigned : Bool
    pub system : Bool

  pub record Leg : Type 0 where
    pub debit : D.Decimal
    pub credit : D.Decimal
    pub account_id : ℕ

  pub record Posting : Type 0 where
    pub debit_leg : Leg
    pub credit_leg : Leg

  unfoldable pub balanced : Posting → Bool
  balanced posting =
      not (posting.debit_leg.account_id == posting.credit_leg.account_id)
      && D.is_positive posting.debit_leg.debit
      && D.is_zero posting.debit_leg.credit
      && D.is_zero posting.credit_leg.debit
      && D.equal posting.credit_leg.credit posting.debit_leg.debit

  -- The plan of a transfer, once every rule holds.
  abbrev pub planned : AccountSnapshot → AccountSnapshot → D.Decimal → Posting
  planned source destination amount = record {
    debit_leg = record { account_id = source.id; debit = amount; credit = D.zero_decimal };
    credit_leg = record { account_id = destination.id; debit = D.zero_decimal; credit = amount };
  }

  unfoldable pub plan_customer_transfer :
      ℕ → AccountSnapshot → AccountSnapshot → D.Decimal → TransferPolicy → Result Posting
  plan_customer_transfer requester_id source destination amount policy = do
    fail_if (not (D.is_positive amount)) Error.invalid_amount
    fail_if (source.id == destination.id) Error.same_account_transfer
    fail_if
        (not
          (customer_can_operate requester_id source.owner_id source.owner_assigned source.system))
        (if source.system then Error.system_account else Error.account_ownership)
    fail_if (destination.system && not policy.allow_system_destination) Error.system_account
    fail_if
        (policy.require_destination_ownership
          && not (
              customer_can_operate requester_id destination.owner_id destination.owner_assigned
                destination.system))
        Error.account_ownership
    fail_if
        (not (text_eq source.status (codes "ACTIVE"))
          || not (text_eq destination.status (codes "ACTIVE")))
        Error.account_blocked
    fail_if (not (text_eq source.currency destination.currency)) Error.currency_mismatch
    fail_if (D.less_than source.available_balance amount) Error.insufficient_funds
    ok (planned source destination amount)

  -- What a transfer may rely on once it is planned.
  pub record Permitted (requester_id : ℕ) (source destination : AccountSnapshot)
      (amount : D.Decimal) (policy : TransferPolicy) : Type 0 where
    pub positive : D.is_positive amount ≡ true
    pub distinct : source.id ≢ destination.id
    pub owned :
        customer_can_operate requester_id source.owner_id source.owner_assigned source.system ≡ true
    pub open_destination : (destination.system && not policy.allow_system_destination) ≡ false
    pub owned_destination :
        (policy.require_destination_ownership
          && not (
              customer_can_operate requester_id destination.owner_id destination.owner_assigned
                destination.system))
        ≡ false
    pub active : text_eq source.status (codes "ACTIVE") ≡ true
    pub active_destination : text_eq destination.status (codes "ACTIVE") ≡ true
    pub one_currency : text_eq source.currency destination.currency ≡ true
    pub covered : D.less_than source.available_balance amount ≡ false

  -- A transfer is planned only if it is permitted (a positive amount, two accounts, the
  -- requester's own source and, where the policy asks, destination, no system destination unless
  -- allowed, both active, one currency, and the amount covered), and then the plan debits the
  -- source and credits the destination with the amount.
  pub plan_customer_transfer_sound :
      (requester_id : ℕ) (source destination : AccountSnapshot) (amount : D.Decimal)
      (policy : TransferPolicy) {posting : Posting}
      → plan_customer_transfer requester_id source destination amount policy ≡ ok posting
      → Permitted requester_id source destination amount policy
        × (posting ≡ planned source destination amount)
  unfolding plan_customer_transfer
  plan_customer_transfer_sound r s d a p h = (ground arith, ground arith)

  -- A permitted transfer is planned, with the debit of its source and the credit of its
  -- destination.
  pub plan_customer_transfer_complete :
      (requester_id : ℕ) (source destination : AccountSnapshot) (amount : D.Decimal)
      (policy : TransferPolicy)
      → Permitted requester_id source destination amount policy
      → plan_customer_transfer requester_id source destination amount policy
        ≡ ok (planned source destination amount)
  unfolding plan_customer_transfer
  plan_customer_transfer_complete r s d a p h = ground arith

  -- With the laws of the decimal package, what is planned passes the balance test on postings.
  pub plan_customer_transfer_balanced :
      DecimalLaws D
      → (requester_id : ℕ) (source destination : AccountSnapshot) (amount : D.Decimal)
        (policy : TransferPolicy) {posting : Posting}
      → plan_customer_transfer requester_id source destination amount policy ≡ ok posting
      → balanced posting ≡ true
  unfolding balanced
  plan_customer_transfer_balanced L r s d a p {posting} h =
      let (allowed, same) = plan_customer_transfer_sound r s d a p h in
      rw same (ground (arith, allowed.positive, allowed.distinct, L.zero-IsZero, L.equal_self a))
