-- ===== src/Database/Tx.antt =====
-- Queries and transactions of backend/internal/platform/database/store.go. What the server, the
-- clock and the random source do is an environment: at each tick it says whether the call fails.
pub mod Atomic
pub mod Backoff
pub mod Inversion
pub mod Keeps
pub mod Refusal
use banking_go.Prelude.{
  ℕ, zero, suc, ◌+◌, ◌*◌, ◌-◌, Bool, true, false, Option, none, some, List, String, Text, ltb, leb,
  ◌==◌, if◌then◌else◌,
}
use banking_go.Errors.{Result, ok, err, Error}
use banking_go.Database.Tables.{Database}

-- What can go wrong below a query: an SQLSTATE from the server, a lost connection, or, for a commit,
-- a connection that is lost after the server has committed.
pub data Fault : Type 0 where
  sqlstate : ℕ → Fault
  lost : Fault
  unanswered : Fault

abbrev pub fault_error : Fault → Error
fault_error (sqlstate code) = Error.pq code
fault_error lost = Error.driver
fault_error unanswered = Error.driver

pub record Env : Type 0 where
  pub faults : ℕ → Option Fault
  -- whether the context is done
  pub cancelled : ℕ → Bool
  -- `uuid.New`
  pub ids : ℕ → ℕ
  -- what `crypto/rand` draws, if it does; the caller reduces it to its range
  pub random : ℕ → Option ℕ
  -- `uuid.UUID.String`
  pub uuid_text : ℕ → Text
  -- the clock, in microseconds
  pub now : ℕ → ℕ
  -- the order in which a `range` visits the entries of a map
  pub visit : ℕ → List ℕ

-- Outside a transaction, in one, and in one that a failed statement has aborted: PostgreSQL then
-- refuses every statement up to the rollback.
pub data Mode : Type 0 where
  auto open_tx aborted : Mode

-- The committed or transaction-local contents of the database, and the number of calls made.
pub record World : Type 0 where
  pub db : Database
  pub tick : ℕ
  pub mode : Mode
  -- what a transaction's closure has assigned to its caller's `businessErr`; no rollback resets it
  pub captured : Option Error

abbrev pub Tx {ℓ} : Type ℓ → Type ℓ
Tx A = Env → World → Result A × World

module _ {ℓ} {A : Type ℓ} where
  abbrev pub pure : A → Tx A
  pure a env w = (ok a, w)

  abbrev pub raise : Error → Tx A
  raise e env w = (err e, w)

  -- A call of a pure function that may fail.
  abbrev pub lift : Result A → Tx A
  lift r env w = (r, w)

  -- The mode after a statement: an error of the server aborts a transaction, a missing row does not.
  abbrev pub mode_after : Mode → Result A → Mode
  mode_after open_tx (err (Error.pq code)) = aborted
  mode_after open_tx (err Error.driver) = aborted
  mode_after mode _ = mode

  abbrev pub run_statement :
      (Database → Result A × Database) → World → Option Fault → Result A × World
  run_statement q w (some f) = (
    err (fault_error f),
    record w { tick = suc w.tick; mode = mode_after w.mode (err (fault_error f)) },
  )
  run_statement q w none =
      let (r, db') = q w.db in
      (r, record w { db = db'; tick = suc w.tick; mode = mode_after w.mode r })

  abbrev pub run_in :
      Mode → (Database → Result A × Database) → World → Option Fault → Result A × World
  run_in aborted q w f = (err Error.tx_aborted, record w { tick = suc w.tick })
  run_in open_tx q w f = run_statement q w f
  run_in auto q w f = run_statement q w f

  -- One statement: it fails as the environment says, or runs.
  unfoldable pub query : (Database → Result A × Database) → Tx A
  query q env w = run_in w.mode q w (env.faults w.tick)

  -- `if err != nil { return fmt.Errorf("…: %w", err) }`
  abbrev pub wrap_error : String → Tx A → Tx A
  wrap_error message m env w =
      let (r, w') = m env w in (elim r [ ok a ↦ ok a | err e ↦ err (Error.wrapped message e) ], w')

-- A step whose error the code inspects itself: `value, err := …`.
abbrev pub attempt {ℓ} : {A : Type ℓ} → Tx A → Tx (Result A)
attempt m env w = (ok (m env w).0, (m env w).1)

-- The rest of a block, from what its first step gave.
abbrev pub resume {ℓ κ} :
    {A : Type ℓ} {B : Type κ} → (A → Tx B) → Env → Result A × World → Result B × World
resume f env (ok a, w) = f a env w
resume f env (err e, w) = (err e, w)

infixl 5 ◌>>=◌ ◌>>◌
abbrev pub ◌>>=◌ {ℓ κ} : {A : Type ℓ} {B : Type κ} → Tx A → (A → Tx B) → Tx B
◌>>=◌ m f env w = resume f env (m env w)

abbrev pub ◌>>◌ {ℓ} : {B : Type ℓ} → Tx (Unit {0}) → Tx B → Tx B
m >> k = m >>= λ _. k

abbrev pub fail_if : Bool → Error → Tx (Unit {0})
fail_if test e env w = (if test then err e else ok tt, w)

-- `businessErr = …`
unfoldable pub capture : Option Error → Tx (Unit {0})
capture e env w = (ok tt, record w { captured = e })

unfoldable pub read_captured : Tx (Option Error)
read_captured env w = (ok w.captured, w)

-- `uuid.New()`
unfoldable pub new_uuid : Tx ℕ
new_uuid env w = (ok (env.ids w.tick), record w { tick = suc w.tick })

-- `id.String()`
unfoldable pub uuid_string : ℕ → Tx Text
uuid_string id env w = (ok (env.uuid_text id), w)

-- `s.now()` and `CURRENT_TIMESTAMP`
unfoldable pub current_time : Tx ℕ
current_time env w = (ok (env.now w.tick), w)

-- `isSerializationError`; `errors.As` looks through wrapping.
unfoldable pub is_serialization_error : Error → Bool
is_serialization_error (Error.pq code) = code == 40001
is_serialization_error (Error.wrapped _ e) = is_serialization_error e
is_serialization_error _ = false

-- `IsUniqueViolation`
unfoldable pub is_unique_violation : Error → Bool
is_unique_violation (Error.pq code) = code == 23505
is_unique_violation (Error.wrapped _ e) = is_unique_violation e
is_unique_violation _ = false

-- Milliseconds.
retry_wait_from : ℕ → ℕ → ℕ
retry_wait_from base zero = base
retry_wait_from base (suc n) =
    let rest = retry_wait_from (base * 2) n in if leb 1000 (base * 2) then 1000 else rest

unfoldable pub retry_wait : ℕ → ℕ
unfolding retry_wait_from
retry_wait attempt = retry_wait_from 50 attempt

unfoldable pub sleep_with_context : ℕ → Tx (Unit {0})
sleep_with_context d env w =
    (if env.cancelled w.tick then err Error.context_done else ok tt, record w { tick = suc w.tick })

abbrev pub max_attempts : ℕ
max_attempts = 10

-- The contents before the transaction come back.
abbrev pub rolled_back : Database → World → World
rolled_back before w = record w { db = before; tick = suc w.tick; mode = auto }

module _ {ℓ} {A : Type ℓ} where
  -- `tx.Rollback` after an error of the body, and `tx.Commit`, by whether they fail.
  abbrev pub rollback : Database → Error → World → Option Fault → Result A × World
  rollback before e w none = (err e, rolled_back before w)
  rollback before e w (some _) =
      (err (Error.wrapped "tx failed, rollback failed" e), rolled_back before w)

  -- An aborted transaction cannot be committed; one whose commit is unanswered has taken effect.
  abbrev pub commit_in : Mode → Database → A → World → Option Fault → Result A × World
  commit_in aborted before a w f =
      (err (Error.wrapped "commit failed" Error.tx_aborted), rolled_back before w)
  commit_in mode before a w (some unanswered) = (
    err (Error.wrapped "commit failed" Error.driver),
    record w { tick = suc w.tick; mode = auto },
  )
  commit_in mode before a w (some f) =
      (err (Error.wrapped "commit failed" (fault_error f)), rolled_back before w)
  commit_in mode before a w none = (ok a, record w { tick = suc w.tick; mode = auto })

  -- The transaction's end, by how its body ended.
  abbrev pub settle : Database → Env → Result A → World → Result A × World
  settle before env (err e) w = rollback before e w (env.faults w.tick)
  settle before env (ok a) w = commit_in w.mode before a w (env.faults w.tick)

  abbrev pub begin : Tx A → Env → World → Option Fault → Result A × World
  begin body env w (some f) = (err (fault_error f), record w { tick = suc w.tick })
  begin body env w none =
      let (r, w') = body env (record w { tick = suc w.tick; mode = open_tx }) in
      settle w.db env r w'

  unfoldable pub exec_tx_once : Tx A → Tx A
  exec_tx_once body env w = begin body env w (env.faults w.tick)

  abbrev pub after_wait :
      (Error → Tx A) → Error → Env → Result (Unit {0}) → World → Result A × World
  after_wait rest e env (ok _) w = rest e env w
  after_wait rest e env (err waiting) w = (err waiting, w)

  -- After a failed attempt: whether the error is a serialization failure, and whether a wait is due.
  abbrev pub after_failure :
      Bool → Bool → ℕ → (Error → Tx A) → Error → Env → World → Result A × World
  after_failure false due attempt rest e env w = (err e, w)
  after_failure true false attempt rest e env w = rest e env w
  after_failure true true attempt rest e env w =
      let (r, w') = sleep_with_context (retry_wait attempt) env w in after_wait rest e env r w'

  -- The rest of a round, once its attempt has ended; `rest` is the next round.
  abbrev pub after_attempt : ℕ → (Error → Tx A) → Env → Result A → World → Result A × World
  after_attempt attempt rest env (ok a) w = (ok a, w)
  after_attempt attempt rest env (err e) w =
      after_failure (is_serialization_error e) (ltb attempt (max_attempts - 1)) attempt rest e env w

  -- The loop with `remaining` rounds to go and the last error.
  unfoldable pub exec_tx_loop : ℕ → ℕ → Tx A → Error → Tx A
  exec_tx_loop zero attempt body last env w = (
    err (Error.wrapped "transaction failed after 10 attempts due to serialization conflicts" last),
    w,
  )
  exec_tx_loop (suc remaining) attempt body last env w =
      let (r, w') = exec_tx_once body env w in
      after_attempt attempt (exec_tx_loop remaining (attempt + 1) body) env r w'

  unfoldable pub exec_tx : Tx A → Tx A
  exec_tx body = exec_tx_loop max_attempts 0 body (Error.plain "")
