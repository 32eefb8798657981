-- ===== src/Database/Queries/Payees.antt =====
-- LookupPayeeByIBAN and GetBeneficiaryByIBAN of backend/postgres/sqlc/payments.sql.go.
use banking_go.Prelude.{
  ℕ, not, ◌&&◌, ◌==◌, Option, none, some, List, [], ◌∷◌, Text, text_eq, if◌then◌else◌,
}
use banking_go.Database.Tables.{Account, User, Beneficiary}
use banking_go.Database.Tx.{Tx, query}
use banking_go.Database.Queries.Accounts.{row_or_none}
use banking_go.Database.Queries.Users.{find_user}

pub record PayeeRow : Type 0 where
  pub account_id : ℕ
  pub full_name : Text
  pub status : Text

-- The join with `users` on the owner; an account with no owner joins no row.
abbrev pub joined : Account → Option User → Option PayeeRow → Option PayeeRow
joined a none rest = rest
joined a (some u) rest =
    some (record { account_id = a.id; full_name = u.full_name; status = a.status })

unfoldable pub find_payee : Text → List User → List Account → Option PayeeRow
find_payee iban users [] = none
find_payee iban users (a ∷ accounts) =
    let rest = find_payee iban users accounts in
    if text_eq a.iban iban && not a.is_system && a.owner_id.valid
    then joined a (find_user a.owner_id.uuid users) rest
    else rest

unfoldable pub lookup_payee_by_iban : Text → Tx PayeeRow
lookup_payee_by_iban iban = query (λ db. (row_or_none (find_payee iban db.users db.accounts), db))

unfoldable pub find_beneficiary : ℕ → Text → List Beneficiary → Option Beneficiary
find_beneficiary owner_id iban [] = none
find_beneficiary owner_id iban (b ∷ rest) =
    if b.owner_id == owner_id && text_eq b.iban iban
    then some b
    else find_beneficiary owner_id iban rest

unfoldable pub get_beneficiary_by_iban : ℕ → Text → Tx Beneficiary
get_beneficiary_by_iban owner_id iban =
    query (λ db. (row_or_none (find_beneficiary owner_id iban db.beneficiaries), db))
