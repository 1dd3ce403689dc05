-- ===== src/Lib.antt =====
-- The wagering service of this repository (Go): providers send bets, wins, losses, refunds and
-- rollbacks, which move the balance of a player's wallet at most once each. `internal/domain`
-- decides what an operation does to a wallet; `internal/app` runs it in one SQL transaction over
-- the repositories of `internal/adapter/postgres`.
--
-- What models what:
--   Prelude            Go's int64 (Int64, over the integers of Int), strings as bytes (Str), instants
--                      (Time) and `(value, error)` results (Fallible)
--   Domain.Errors      internal/domain/errors.go: codes, classes and sentinels
--   Domain.Types       types.go: Kind, Status, Direction, Origin and their strings
--   Domain.Money       money.go: ParseMoney, Add, Sub, Cmp and the checked int64 operations
--   Domain.Ledger      ledger.go: newLedgerEntry, RehydrateLedgerEntry
--   Domain.Wallet      wallet.go: RehydrateWallet, Debit, Credit
--   Domain.Transaction transaction.go: the constructors and the status machine
--   Domain.Event       event.go
--   Domain.Reference   apply.go: ApplyInput, ApplyResult, rejectOp, waitOp, processWithLedger and
--                      the checks of a reference
--   Domain.Apply       apply.go: Apply, one function for each kind of operation; Apply.Verdict is
--                      the decision table that it is compared with
--   Domain.Opening     opening.go: OpenWallet
--   Domain.History     a wallet's life: an opening and the operations applied since
--   Domain.Idempotency idempotency.go, Domain.Canonical canonical.go
--   App.Ports          internal/app/ports.go with internal/adapter/postgres: the tables, their
--                      lookups, inserts and updates, and their unique indexes
--   App.Tx             the unit of work: ports.go and internal/adapter/postgres/uow.go
--   App.Service        internal/app/service.go and outbox.go: persistApply, RecordsFromEvents
--   App.Lookup         internal/app/submit.go: the command, and the lookups for a replay
--   App.Submit         submit.go: Submit, submitInTx, applyInTx and the retry after a conflict
--   App.Identity       identity.go and the authorization checks
--   App.Backoff        Backoff of envelope.go
--   App.Books          what the tables satisfy between units of work, and how a unit keeps it
--   App.Reconcile      reconcile.go and SumByWallet of internal/adapter/postgres/ledger.go
--   App.Open           open.go: OpenWallet over the tables
--   App.Inbound        inbound.go: HandleInbound, the inbox and the recovery after a conflict
--   App.Pending        pending.go: resumeOne and pendingExhausted
--   App.Relay          relay.go: PublishDue over the interface OutboxClaimer; Relay.Rows is the
--                      claimer of internal/adapter/postgres/outbox.go
--   App.Read           read.go: the reads, the pages of the ledger and their cursors
--   App.System         the use cases that write, called one after another
--   Adapter.Sqs        internal/adapter/sqs: ParseInbound, DispositionOf; Sqs.Consumer is Handle
--   Adapter.Http       internal/adapter/http: the bearer token, the status of an error, the handlers
--                      (Wagering, Routes) and the routes of server.go
--   Examples           concrete wallets, commands and tables
--
-- How the code is rendered. A method that changes its receiver returns the changed value. A money
-- keeps whether it was initialized. An int64 is an integer, and each sum, difference and shift is
-- wrapped as the machine wraps it. A struct that is kept in a table is a row of a list. A use case
-- is a function of the world: the committed tables, the tables that the transaction sees, what
-- other transactions are still to commit, and how many identifiers and instants were asked for.
-- At READ COMMITTED another transaction can commit before any statement, so `read`, `get` and
-- `write` first let the next one commit. A failed unit of work restores the committed tables.
-- Every loop is over a list, but for the digits of a number that is printed, which count down from
-- the number itself; it has no more digits than that.
--
-- Parameters. The generator of identifiers, the clock, the digest of a canonical body (JSON and
-- SHA-256) and the JSON of an event are functions of the environment; that no identifier is blank is
-- assumed where a theorem says so. The decoders of JSON, base64 and times, the hash of a message, the
-- verification of a token, and whether SQS and the event bus accept what they are given are fields
-- of the records Codec, CursorCodec, Server, Consumer and Relay.
--
-- Not modelled: ResumeDue with the claims of waiting operations; the polling loops of the workers;
-- the verification of tokens, metrics, health probes, configuration, wiring and the load generator;
-- the scanning of a row, which is kept as the value that was stored, so that RehydrateTransaction and
-- the microseconds of a TIMESTAMPTZ change nothing; CHECK and foreign-key failures, deadlocks and
-- lost connections of the database; the text of an error and the JSON of a response.
pub mod Prelude
pub mod Domain
pub mod App
pub mod Adapter
pub mod Examples
