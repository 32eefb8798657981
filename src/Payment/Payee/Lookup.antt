-- ===== src/Payment/Payee/Lookup.antt =====
-- VerifyPayee of backend/internal/payment/vop.go: the name that is known for an IBAN.
use banking_go.Prelude.{ℕ, not, [], Text, codes, text_eq, if◌then◌else◌}
use banking_go.Errors.{Result, ok, err, Error}
use banking_go.Account.Iban.{normalize_iban, validate_iban}
use banking_go.Payment.Input.{normalize_payee_name}
use banking_go.Payment.Payee.Names.{Letters, VopResult, evaluate_vop}
use banking_go.Database.Tables.{Beneficiary}
use banking_go.Database.Tx.{Tx, pure, lift, attempt, ◌>>=◌, ◌>>◌}
use banking_go.Database.Queries.Payees.{PayeeRow, lookup_payee_by_iban, get_beneficiary_by_iban}

-- The name of an active account's holder, or no name.
abbrev pub account_name : Result PayeeRow → Result Text
account_name (ok payee) = ok (if text_eq payee.status (codes "ACTIVE") then payee.full_name else [])
account_name (err Error.no_rows) = ok []
account_name (err e) = err e

abbrev pub saved_name : Result Beneficiary → Result Text
saved_name (ok beneficiary) = ok beneficiary.name
saved_name (err Error.no_rows) = ok []
saved_name (err e) = err e

-- The customer's own payee, where no account holder is known.
abbrev pub fall_back : ℕ → Text → Text → Tx Text
fall_back owner_id iban name =
    if text_eq name []
    then (attempt (get_beneficiary_by_iban owner_id iban) >>= λ found. lift (saved_name found))
    else pure name

unfoldable pub verify_payee : Letters → ℕ → Text → Text → Tx VopResult
verify_payee letters owner_id provided_name raw_iban = do
  _ ← lift (normalize_payee_name provided_name)
  let iban = normalize_iban raw_iban
  lift (validate_iban iban)
  payee ← attempt (lookup_payee_by_iban iban)
  known ← lift (account_name payee)
  actual_name ← fall_back owner_id iban known
  pure (evaluate_vop letters provided_name actual_name (not (text_eq actual_name [])))
