-- ===== src/Database/Queries/Standing.antt =====
-- backend/postgres/sqlc/standing_orders.sql.go on the table `standing_orders` of
-- backend/postgres/migrations/000005_add_sepa_payments.up.sql.
use banking_go.Prelude.{
  ℕ, ◌+◌, Bool, true, false, not, ◌&&◌, ◌||◌, Option, none, some, List, [], ◌∷◌, ltb, leb, ◌==◌,
  Text, codes, text_eq, if◌then◌else◌, take, length, ℤ, pos, ltb_ℤ,
}
use banking_go.Errors.{Result, ok, err, Error}
use banking_go.Calendar.{Time, micros}
use banking_go.Database.Tables.{StandingOrder, NullUuid, NullString, Database}
use banking_go.Database.Tx.{Tx, query, current_time, new_uuid, ◌>>=◌}
use banking_go.Database.Queries.Accounts.{row_or_none, find_account}
use banking_go.Database.Queries.Users.{find_user}

unfoldable pub find_standing : ℕ → List StandingOrder → Option StandingOrder
find_standing id [] = none
find_standing id (s ∷ orders) = if id == s.id then some s else find_standing id orders

unfoldable pub get_standing_order : ℕ → Tx StandingOrder
get_standing_order id = query (λ db. (row_or_none (find_standing id db.standing_orders), db))

unfoldable pub replace_standing : StandingOrder → List StandingOrder → List StandingOrder
replace_standing row [] = []
replace_standing row (s ∷ orders) =
    (if row.id == s.id then row else s) ∷ replace_standing row orders

-- A DATE column keeps the day.
abbrev pub as_date : Time → Time
as_date t = record t { clock = 0 }

abbrev pub optional_date : Option Time → Option Time
optional_date none = none
optional_date (some t) = some (as_date t)

-- CHECK (max_occurrences IS NULL OR max_occurrences > 0)
abbrev pub positive_limit : Option ℕ → Bool
positive_limit none = true
positive_limit (some n) = ltb 0 n

-- CHECK (end_date IS NULL OR end_date >= start_date)
abbrev pub ends_after : Time → Option Time → Bool
ends_after start none = true
ends_after start (some end_date) = leb (micros start) (micros end_date)

-- The CHECK constraints of a row; a NULL passes. The length of a text counts its characters.
unfoldable pub standing_checks : StandingOrder → Bool
standing_checks s =
    ltb_ℤ (pos 0) s.amount
    && leb (length s.purpose.string) 140
    && (text_eq s.transfer_type (codes "STANDARD") || text_eq s.transfer_type (codes "INSTANT"))
    && (text_eq s.frequency (codes "WEEKLY")
        || text_eq s.frequency (codes "MONTHLY")
        || text_eq s.frequency (codes "QUARTERLY")
        || text_eq s.frequency (codes "YEARLY"))
    && positive_limit s.max_occurrences
    && (text_eq s.status (codes "ACTIVE")
        || text_eq s.status (codes "PAUSED")
        || text_eq s.status (codes "CANCELLED")
        || text_eq s.status (codes "COMPLETED"))
    && ends_after s.start_date s.end_date

-- UPDATE … WHERE id = $n AND <guard> RETURNING …
abbrev pub write_standing :
    (StandingOrder → Bool)
    → (StandingOrder → StandingOrder)
    → Option StandingOrder
    → Database
    → Result StandingOrder × Database
write_standing guard change none db = (err Error.no_rows, db)
write_standing guard change (some s) db =
    if not (guard s)
    then (err Error.no_rows, db)
    else if standing_checks (change s)
    then (
      ok (change s),
      record db { standing_orders = replace_standing (change s) db.standing_orders },
    )
    else (err (Error.pq 23514), db)

unfoldable pub update_standing :
    (StandingOrder → Bool)
    → (StandingOrder → StandingOrder)
    → ℕ
    → Database
    → Result StandingOrder × Database
update_standing guard change id db =
    write_standing guard change (find_standing id db.standing_orders) db

unfoldable pub advance_standing_order : Time → Text → ℕ → Tx StandingOrder
advance_standing_order next_execution_at status id = query (
    update_standing (λ s. text_eq s.status (codes "ACTIVE"))
      (λ s. record s {
        occurrences_created = s.occurrences_created + 1;
        next_execution_at = next_execution_at;
        status = status;
      })
      id)

unfoldable pub delete_standing_order : ℕ → ℕ → Tx StandingOrder
delete_standing_order id owner_id = query (
    update_standing
      (λ s.
        s.owner_id == owner_id
        && (text_eq s.status (codes "ACTIVE") || text_eq s.status (codes "PAUSED")))
      (λ s. record s { status = codes "CANCELLED" }) id)

pub record UpdateStandingOrderParams : Type 0 where
  pub amount : ℤ
  pub purpose : NullString
  pub end_date : Option Time
  pub max_occurrences : Option ℕ
  pub status : Text
  pub standing_order_id : ℕ
  pub owner_id : ℕ

unfoldable pub update_standing_order : UpdateStandingOrderParams → Tx StandingOrder
update_standing_order arg = query (
    update_standing (λ s. s.owner_id == arg.owner_id)
      (λ s. record s {
        amount = arg.amount;
        purpose = arg.purpose;
        end_date = optional_date arg.end_date;
        max_occurrences = arg.max_occurrences;
        status = arg.status;
      })
      arg.standing_order_id)

pub record CreateStandingOrderParams : Type 0 where
  pub owner_id : ℕ
  pub source_account_id : ℕ
  pub beneficiary_account_id : NullUuid
  pub beneficiary_name : Text
  pub beneficiary_iban : Text
  pub beneficiary_bic : NullString
  pub amount : ℤ
  pub purpose : NullString
  pub creditor_reference : NullString
  pub transfer_type : Text
  pub frequency : Text
  pub start_date : Time
  pub end_date : Option Time
  pub max_occurrences : Option ℕ
  pub next_execution_at : Time

-- The columns that the statement leaves out have their defaults.
abbrev pub new_standing : ℕ → CreateStandingOrderParams → StandingOrder
new_standing id arg = record {
  id = id;
  owner_id = arg.owner_id;
  source_account_id = arg.source_account_id;
  beneficiary_account_id = arg.beneficiary_account_id;
  beneficiary_name = arg.beneficiary_name;
  beneficiary_iban = arg.beneficiary_iban;
  beneficiary_bic = arg.beneficiary_bic;
  amount = arg.amount;
  purpose = arg.purpose;
  creditor_reference = arg.creditor_reference;
  transfer_type = arg.transfer_type;
  frequency = arg.frequency;
  start_date = as_date arg.start_date;
  end_date = optional_date arg.end_date;
  max_occurrences = arg.max_occurrences;
  occurrences_created = 0;
  next_execution_at = arg.next_execution_at;
  status = codes "ACTIVE";
}

-- A row that a foreign key asks for.
abbrev pub present {ℓ} : {A : Type ℓ} → Option A → Bool
present none = false
present (some _) = true

abbrev pub absent_or : NullUuid → Bool → Bool
absent_or key found = not key.valid || found

unfoldable pub insert_standing :
    ℕ → CreateStandingOrderParams → Database → Result StandingOrder × Database
insert_standing id arg db =
    let row = new_standing id arg in
    if not (standing_checks row)
    then (err (Error.pq 23514), db)
    else if present (find_standing id db.standing_orders)
    then (err (Error.pq 23505), db)
    else if present (find_user arg.owner_id db.users)
        && present (find_account arg.source_account_id db.accounts)
        && absent_or arg.beneficiary_account_id
            (present (find_account arg.beneficiary_account_id.uuid db.accounts))
    then (ok row, record db { standing_orders = row ∷ db.standing_orders })
    else (err (Error.pq 23503), db)

unfoldable pub create_standing_order : CreateStandingOrderParams → Tx StandingOrder
create_standing_order arg = do id ← new_uuid; query (insert_standing id arg)

-- WHERE status = 'ACTIVE' AND next_execution_at <= CURRENT_TIMESTAMP
abbrev pub is_due_standing : ℕ → StandingOrder → Bool
is_due_standing now s = text_eq s.status (codes "ACTIVE") && leb (micros s.next_execution_at) now

-- ORDER BY next_execution_at, id
abbrev pub standing_before : StandingOrder → StandingOrder → Bool
standing_before a b =
    ltb (micros a.next_execution_at) (micros b.next_execution_at)
    || (micros a.next_execution_at == micros b.next_execution_at && ltb a.id b.id)

unfoldable pub insert_standing_due : StandingOrder → List StandingOrder → List StandingOrder
insert_standing_due s [] = s ∷ []
insert_standing_due s (r ∷ rest) =
    let later = r ∷ insert_standing_due s rest in
    if standing_before r s then later else s ∷ r ∷ rest

unfoldable pub select_standing_due : ℕ → List StandingOrder → List StandingOrder
select_standing_due now [] = []
select_standing_due now (s ∷ orders) =
    let rest = select_standing_due now orders in
    if is_due_standing now s then insert_standing_due s rest else rest

unfoldable pub claim_due_standing_orders : ℕ → Tx (List StandingOrder)
claim_due_standing_orders batch_size = do
  now ← current_time
  query (λ db. (ok (take batch_size (select_standing_due now db.standing_orders)), db))
