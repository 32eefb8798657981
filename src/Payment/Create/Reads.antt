-- ===== src/Payment/Create/Reads.antt =====
-- The reading steps of CreatePayment keep every property of the database.
use banking_go.Prelude.{ℕ, [], not, Text, text_eq, if_both}
use banking_go.Account.Iban.{normalize_iban, validate_iban}
use banking_go.Payment.Input.{normalize_payee_name}
use banking_go.Payment.Payee.Lookup.{verify_payee, account_name, fall_back, saved_name}
use banking_go.Payment.Payee.Names.{Letters, VopResult, evaluate_vop}
use banking_go.Database.Tables.{Database}
use banking_go.Database.Tx.{Tx, pure, lift, attempt, ◌>>=◌, ◌>>◌}
use banking_go.Database.Tx.Keeps.{Keeps, Keeps-bind, Keeps-query}
use banking_go.Database.Queries.Accounts.{get_account, get_account_by_iban}
use banking_go.Database.Queries.Orders.{get_payment_order_by_idempotency}
use banking_go.Database.Queries.Payees.{lookup_payee_by_iban, get_beneficiary_by_iban}

module _ (P : Database → Type 0) where
  module _ (owner_id : ℕ) (iban : Text) where
    payee-Kept : Keeps P (lookup_payee_by_iban iban)
    unfolding lookup_payee_by_iban
    payee-Kept = Keeps-query P _ (λ db h. h)

    beneficiary-Kept : Keeps P (get_beneficiary_by_iban owner_id iban)
    unfolding get_beneficiary_by_iban
    beneficiary-Kept = Keeps-query P _ (λ db h. h)

    fall_back-Kept : (name : Text) → Keeps P (fall_back owner_id iban name)
    fall_back-Kept name =
        if_both (Keeps P) (text_eq name []) _ _
          (Keeps-bind P (attempt (get_beneficiary_by_iban owner_id iban))
            (λ found. lift (saved_name found)) (λ env w h. beneficiary-Kept env w h)
            (λ found env w h. h))
          (λ env w h. h)

    module _ (letters : Letters) (provided : Text) where
      abbrev judge : Text → Tx VopResult
      judge name = pure (evaluate_vop letters provided name (not (text_eq name [])))

      abbrev with_name : Text → Tx VopResult
      with_name known = fall_back owner_id iban known >>= judge

      abbrev with_payee : Tx VopResult
      with_payee =
          attempt (lookup_payee_by_iban iban) >>= λ payee. lift (account_name payee) >>= with_name

      with_payee-Kept : Keeps P with_payee
      with_payee-Kept =
          Keeps-bind P (attempt (lookup_payee_by_iban iban))
            (λ payee. lift (account_name payee) >>= with_name) (λ env w h. payee-Kept env w h)
            (λ payee.
              Keeps-bind P (lift (account_name payee)) with_name (λ env w h. h)
                (λ known.
                  Keeps-bind P (fall_back owner_id iban known) judge (fall_back-Kept known)
                    (λ name env w h. h)))

  pub verify_payee-Kept :
      (letters : Letters) (owner_id : ℕ) (provided raw_iban : Text)
      → Keeps P (verify_payee letters owner_id provided raw_iban)
  unfolding verify_payee
  verify_payee-Kept letters owner_id provided raw_iban =
      let iban = normalize_iban raw_iban in
      Keeps-bind P (lift (normalize_payee_name provided))
        (λ _. lift (validate_iban iban) >> with_payee owner_id iban letters provided) (λ env w h. h)
        (λ _.
          Keeps-bind P (lift (validate_iban iban)) (λ _. with_payee owner_id iban letters provided)
            (λ env w h. h) (λ _. with_payee-Kept owner_id iban letters provided))

  pub find_key-Kept :
      (owner_id : ℕ) (key : Text) → Keeps P (get_payment_order_by_idempotency owner_id key)
  unfolding get_payment_order_by_idempotency
  find_key-Kept owner_id key = Keeps-query P _ (λ db h. h)

  pub get_account-Kept : (id : ℕ) → Keeps P (get_account id)
  unfolding get_account
  get_account-Kept id = Keeps-query P _ (λ db h. h)

  pub get_iban-Kept : (iban : Text) → Keeps P (get_account_by_iban iban)
  unfolding get_account_by_iban
  get_iban-Kept iban = Keeps-query P _ (λ db h. h)
