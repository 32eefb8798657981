-- ===== src/Database/Queries/Accounts.antt =====
-- backend/postgres/sqlc/accounts.sql.go
pub mod Rows
use banking_go.Prelude.{
  ℕ, suc, ◌≡◌, Bool, true, false, not, ◌&&◌, ◌||◌, Option, none, some, List, [], ◌∷◌, ltb, ◌==◌,
  Text, codes, text_eq, ℤ, pos, ◌+ℤ◌, ◌-ℤ◌, eqb_ℤ, if◌then◌else◌,
}
use banking_go.Errors.{Result, ok, err, Error}
use banking_go.Database.Tables.{Account, NullUuid, Entry, Database}
use banking_go.Database.Tx.{Tx, query, new_uuid, ◌>>=◌}

-- A `:one` statement on the row that was found.
abbrev pub row_or_none {ℓ} : {A : Type ℓ} → Option A → Result A
row_or_none none = err Error.no_rows
row_or_none (some a) = ok a

-- WHERE id = $1 LIMIT 1
unfoldable pub find_account : ℕ → List Account → Option Account
find_account id [] = none
find_account id (a ∷ accounts) = if id == a.id then some a else find_account id accounts

unfoldable pub get_account : ℕ → Tx Account
get_account id = query (λ db. (row_or_none (find_account id db.accounts), db))

unfoldable pub get_account_for_update : ℕ → Tx Account
get_account_for_update id = query (λ db. (row_or_none (find_account id db.accounts), db))

-- WHERE is_system = TRUE AND account_type = 'SETTLEMENT' LIMIT 1
unfoldable pub find_settlement : List Account → Option Account
find_settlement [] = none
find_settlement (a ∷ accounts) =
    if a.is_system && text_eq a.account_type (codes "SETTLEMENT")
    then some a
    else find_settlement accounts

unfoldable pub get_settlement_account : Tx Account
get_settlement_account = query (λ db. (row_or_none (find_settlement db.accounts), db))

unfoldable pub get_settlement_account_for_update : Tx Account
get_settlement_account_for_update = query (λ db. (row_or_none (find_settlement db.accounts), db))

-- WHERE iban = $1 LIMIT 1
unfoldable pub find_iban : Text → List Account → Option Account
find_iban iban [] = none
find_iban iban (a ∷ accounts) = if text_eq a.iban iban then some a else find_iban iban accounts

unfoldable pub get_account_by_iban : Text → Tx Account
get_account_by_iban iban = query (λ db. (row_or_none (find_iban iban db.accounts), db))

-- ORDER BY id
unfoldable pub insert_by_id : Account → List Account → List Account
insert_by_id a [] = a ∷ []
insert_by_id a (b ∷ rest) =
    let later = b ∷ insert_by_id a rest in if ltb b.id a.id then later else a ∷ b ∷ rest

-- WHERE id = ANY($1), on two identifiers
unfoldable pub select_two : ℕ → ℕ → List Account → List Account
select_two i j [] = []
select_two i j (a ∷ accounts) =
    let rest = select_two i j accounts in
    if a.id == i || a.id == j then insert_by_id a rest else rest

unfoldable pub list_accounts_for_update : ℕ → ℕ → Tx (List Account)
list_accounts_for_update i j = query (λ db. (ok (select_two i j db.accounts), db))

-- SET balance = balance + $1, available_balance = available_balance + $1
abbrev pub credited : ℤ → Account → Account
credited x a = record a { balance = a.balance +ℤ x; available_balance = a.available_balance +ℤ x }

-- WHERE id = $2
unfoldable pub add_balance : ℕ → ℤ → List Account → List Account
add_balance id x [] = []
add_balance id x (a ∷ accounts) =
    (if id == a.id then credited x a else a) ∷ add_balance id x accounts

unfoldable pub update_account_balance : ℕ → ℤ → Tx (Unit {0})
update_account_balance id x =
    query (λ db. (ok tt, record db { accounts = add_balance id x db.accounts }))

pub record CreateAccountParams : Type 0 where
  pub owner_id : NullUuid
  pub name : Text
  pub currency : Text
  pub is_system : Bool
  pub iban : Text
  pub account_type : Text
  pub status : Text

-- Whether a row has this `iban`, which is unique.
unfoldable pub iban_taken : Text → List Account → Bool
iban_taken iban [] = false
iban_taken iban (a ∷ accounts) = text_eq a.iban iban || iban_taken iban accounts

abbrev pub new_account : ℕ → CreateAccountParams → Account
new_account id arg = record {
  id = id;
  owner_id = arg.owner_id;
  name = arg.name;
  balance = pos 0;
  currency = arg.currency;
  is_system = arg.is_system;
  iban = arg.iban;
  account_type = arg.account_type;
  status = arg.status;
  available_balance = pos 0;
}

-- The server draws the key (DEFAULT gen_random_uuid()); a duplicate key or IBAN violates a UNIQUE
-- constraint.
unfoldable pub insert_account : ℕ → CreateAccountParams → Database → Result Account × Database
insert_account id arg db = elim (find_account id db.accounts) [
  | some _ ↦ (err (Error.pq 23505), db)
  | none ↦
      (if iban_taken arg.iban db.accounts
        then (err (Error.pq 23505), db)
        else (ok (new_account id arg), record db { accounts = new_account id arg ∷ db.accounts }))
]

unfoldable pub create_account : CreateAccountParams → Tx Account
create_account arg = do id ← new_uuid; query (insert_account id arg)

-- COALESCE(SUM(credit), 0) - COALESCE(SUM(debit), 0) WHERE account_id = $1
unfoldable pub credits : ℕ → List Entry → ℤ
credits id [] = pos 0
credits id (e ∷ entries) = (if id == e.account_id then e.credit else pos 0) +ℤ credits id entries

unfoldable pub debits : ℕ → List Entry → ℤ
debits id [] = pos 0
debits id (e ∷ entries) = (if id == e.account_id then e.debit else pos 0) +ℤ debits id entries

unfoldable pub calculated_balance : ℕ → List Entry → ℤ
calculated_balance id entries = credits id entries -ℤ debits id entries

unfoldable pub get_account_balance : ℕ → Tx ℤ
get_account_balance id = query (λ db. (ok (calculated_balance id db.entries), db))
