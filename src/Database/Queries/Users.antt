-- ===== src/Database/Queries/Users.antt =====
-- backend/postgres/sqlc/users.sql.go, and the audit and outbox inserts that run in a transaction.
use banking_go.Prelude.{
  ℕ, Bool, false, ◌||◌, Option, none, some, List, [], ◌∷◌, ◌==◌, Text, text_eq, if◌then◌else◌,
}
use banking_go.Errors.{Result, ok, err, Error}
use banking_go.Database.Tables.{User, AuditEvent, AdminAuditEvent, Database}
use banking_go.Database.Tx.{Tx, query, new_uuid, ◌>>=◌}
use banking_go.Database.Queries.Accounts.{row_or_none}

unfoldable pub find_user : ℕ → List User → Option User
find_user id [] = none
find_user id (u ∷ users) = if id == u.id then some u else find_user id users

unfoldable pub get_user_by_id : ℕ → Tx User
get_user_by_id id = query (λ db. (row_or_none (find_user id db.users), db))

unfoldable pub email_taken : Text → List User → Bool
email_taken email [] = false
email_taken email (u ∷ users) = text_eq u.email email || email_taken email users

-- The key and the e-mail address are unique.
unfoldable pub insert_user : User → Database → Result User × Database
insert_user u db = elim (find_user u.id db.users) [
  | some _ ↦ (err (Error.pq 23505), db)
  | none ↦
      (if email_taken u.email db.users
        then (err (Error.pq 23505), db)
        else (ok u, record db { users = u ∷ db.users }))
]

unfoldable pub create_user : Text → Text → Text → Tx User
create_user email hashed_password full_name = do
  id ← new_uuid
  query (
      insert_user (record {
        id = id;
        email = email;
        hashed_password = hashed_password;
        full_name = full_name;
      }))

unfoldable pub create_audit_event : AuditEvent → Tx (Unit {0})
create_audit_event event =
    query (λ db. (ok tt, record db { audit_events = event ∷ db.audit_events }))

-- `RecordAdminAuditTx` of backend/internal/platform/database/admin.go
unfoldable pub record_admin_audit : AdminAuditEvent → Tx (Unit {0})
record_admin_audit event = query (λ db. (ok tt, record db { admin_audit = event ∷ db.admin_audit }))
