-- ===== src/Lib.antt =====
-- A verification library for the banking backend (backend/): the money movements, the transactions
-- they run in, the payments that are built on them, the publication of their events, and the cards.
--
-- The program and the files that model it:
-- - Errors: the sentinel errors of backend/internal/ledger and backend/internal/payment, and results.
-- - Decimal: github.com/shopspring/decimal is third-party code, so it is a parameter, `Decimals`, with
--   what the program relies on as `DecimalLaws`. A NUMERIC(19,4) column is an integer number of
--   ten-thousandths. Tests/Numbers has a concrete instance.
-- - Account/Ownership, Account/Iban: backend/internal/account/ownership.go and iban.go. A text is a
--   list of code points; the masking counts them as bytes, which they are in an IBAN.
-- - Ledger/Posting, Ledger/Money: backend/internal/ledger/domain/posting.go and
--   backend/internal/ledger/money.go.
-- - Ledger/Port, Ledger/Service: the persistence port and the use cases of
--   backend/internal/ledger/service.go. `Repository` is the Go interface; `RepositoryKeeps` is what an
--   adapter owes its client, and Database/LedgerRepository fills both.
-- - Database/Tables: the rows of backend/postgres/sqlc/models.go. Columns that only order listings or
--   are only displayed (created, updated, booking and execution times) are left out.
-- - Database/Queries: the statements of backend/postgres/sqlc, each by its SQL, with the UNIQUE and
--   CHECK constraints of backend/postgres/migrations that they can meet.
-- - Database/Tx: ExecTx, execTxOnce, retryWait and sleepWithContext of
--   backend/internal/platform/database/store.go. A transaction is a function from an environment and a
--   world to a result and a world. The environment says at each tick whether a call fails and with
--   what, so that a theorem about all environments is one about all failures. As in PostgreSQL, a
--   failed statement aborts its transaction: later statements fail, and so does the commit. A commit
--   whose connection is lost has taken effect or not, as the environment says. A statement outside a
--   transaction that is reported as failed has had no effect.
--   Transactions are serializable, so one runs at a time.
-- - Database/LedgerRepository: backend/internal/platform/database/ledger_repository.go, the bodies
--   (`deposit_tx`) apart from their transactions (`deposit`).
-- - Database/Ledger: what the ledger promises, as predicates on a database, and the contract `Moved`
--   that every movement meets.
-- - Calendar: the part of Go's package time that the payments use, in UTC. A time is in microseconds
--   from 1 January of year 1; Calendar/Days and Calendar/Carry relate it to dates.
-- - Prelude/Trim, Prelude/Strings: strings.TrimSpace and what the program relies on of it.
-- - Database/Queries/Orders/Insert, Database/Queries/Standing, Database/Queries/Payees: the statements on
--   new orders, standing orders and saved payees, with the constraints that an insert can meet.
-- - Payment/Payee, Payment/Payee/Names, Payment/Payee/Lookup: backend/internal/payment/vop.go, the edit
--   distance, the comparison of names and the verification of a payee. The tables of package unicode
--   are the parameter `Letters`.
-- - Payment/Input, Payment/Intent, Payment/Create: the validation of an input, the comparison of a
--   replayed request with the stored order, and CreatePayment, all of
--   backend/internal/payment/payments.go. The name after Create/ says what is proved: Outcome and Chain
--   of the result, Replay and Again of a repeated request, Funds and Keeps of the data.
-- - Payment/Standing: backend/internal/payment/standing_orders.go. Materialize is the worker's part,
--   Orders the owner's operations; Steps, Rows, Current, Limit, Kept, History and Revived hold proofs.
-- - Payment/Lifecycle, Payment/Reasons, Payment/Outbox, Payment/Booking, Payment/Service:
--   backend/internal/payment/domain/lifecycle.go, payments.go, payment_worker.go and outbox.go. The
--   variable `businessErr`, which a closure assigns across attempts, is the world's `captured`. The
--   order in which Go ranges over a map is the environment's `visit`.
-- - Outbox: backend/internal/platform/outbox/outbox.go, the statements on the table of events and the
--   cycle that publishes them. The broker and the failures of each call are the environment of a cycle.
--   Cycles run one after another, as the row locks of a claim are not modelled. Outbox/Delivery and
--   Outbox/Drain hold what it promises.
-- - Card: backend/internal/card/service.go and backend/internal/platform/database/cards.go. The packages
--   of cryptography are the parameter `Secrets`, with `SecretsLaws`, for the one key of the service.
--   Random bytes are a list that is used up; an operation that finds it empty has the error of the
--   random source. Card/Number has the check digit, Card/Store the tables, Card/Service the operations,
--   and Card/Derived, Card/Reveal, Card/Authorize and Card/Cancel what they promise.
--
-- Bounds: the retry loop runs at most ten attempts, as in the code. The carry of days into months
-- takes as many rounds as there are days, and each round takes off at least one month. The
-- search for a check digit has the code's ten rounds. All other
-- recursion is structural.
--
-- Not modelled: HTTP handlers, identity, notifications, the message broker and the frontend, which are
-- I/O around this core; merchant checkouts, the account profile and the hub that tells open browsers of
-- a payment. The table behind the OutboxWriter of a payment is a port. The ticker around the cycle of
-- the publisher is left out.
pub mod Prelude
pub mod Errors
pub mod Decimal
pub mod Account
pub mod Calendar
pub mod Ledger
pub mod Outbox
pub mod Card
pub mod Payment
pub mod Database
pub mod Tests
