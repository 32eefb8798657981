-- ===== src/Errors.antt =====
-- The errors that the services return, and the results that carry them. The sentinel errors of
-- backend/internal/ledger/domain/posting.go, backend/internal/ledger/service.go and
-- backend/internal/payment/payments.go are constructors. `wrapped` is `fmt.Errorf` with `%w`: it
-- keeps the error inside, which `errors.Is` and `errors.As` look through.
use banking_go.Prelude.{ℕ, Bool, true, false, String}

pub data Error : Type 0 where
  insufficient_funds same_account_transfer invalid_amount currency_mismatch : Error
  system_account account_ownership account_blocked : Error
  account_not_found unsupported_balance_operation invalid_iban : Error
  payment_not_found invalid_payment_state vop_override_required idempotency_conflict : Error
  payment_unauthorized invalid_payment_input standing_order_invalid : Error
  -- `sql.ErrNoRows`
  no_rows : Error
  -- `*pq.Error` with its SQLSTATE
  pq : ℕ → Error
  -- a lost connection, or any other failure below the queries
  driver : Error
  -- SQLSTATE 25P02: a statement in a transaction that an earlier statement has aborted
  tx_aborted : Error
  -- `ctx.Err()`
  context_done : Error
  -- `errors.New` in place
  plain : String → Error
  wrapped : String → Error → Error

-- What a fallible function returns.
pub data Result {ℓ} (A : Type ℓ) : Type ℓ where
  err : Error → Result A
  ok : A → Result A

-- `if test { return err }`
abbrev pub fail_if : Bool → Error → Result (Unit {0})
fail_if true e = err e
fail_if false e = ok tt

-- A step, and the rest where it succeeds.
infixl 5 ◌>>◌ ◌>>=◌
abbrev pub ◌>>◌ {ℓ} : {A : Type ℓ} → Result (Unit {0}) → Result A → Result A
err e >> rest = err e
ok _ >> rest = rest

abbrev pub ◌>>=◌ {ℓ κ} : {A : Type ℓ} {B : Type κ} → Result A → (A → Result B) → Result B
err e >>= rest = err e
ok a >>= rest = rest a
