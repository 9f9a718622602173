-- ===== src/Lib.antt =====
-- A verification library for the wager backend: the domain, the repositories, the service that
-- applies wager operations to wallets, the consumer of messages, the publisher of events and the
-- HTTP interface.
--
-- Parts, and the files that model them
--   Base                shared names, tables as lists, integers and int64
--   AppErr              internal/domain/apperr/apperr.go: `Error`, `KindOf`, `CodeOf`, `errors.Is`
--   Money               internal/domain/money/money.go: `Money` and its arithmetic; Money/Text has
--                       `parseMinorUnits` and `FormatMinorUnits`
--   Wallet              internal/domain/wallet/wallet.go: `Wallet`, `Debit`, `Credit`
--   Ledger              internal/domain/ledger/entry.go: `Entry` and its validation
--   Wagering            internal/domain/wagering/transaction.go: `Transaction`, its constructors,
--                       and in Wagering/Transitions its state machine
--   Events              internal/domain/events/events.go: the payloads and their checks
--   Store               internal/adapters/postgres and migrations/0001_init.up.sql: the tables, and
--                       a monad `Db` of calls that run statements; Store/Wallets, Store/Entries,
--                       Store/Transactions, Store/TransactionRepo, Store/TransactionQueries,
--                       Store/Outbox and Store/Inbox have one repository each;
--                       Store/Transactions/RoundTrip reads rows back, Store/Transactions/Names
--                       has the requests of the stored transactions; Store/Hoare, Store/Post,
--                       Store/Calm and Store/Frame are logics of such calls
--   Wager               internal/app/wager/service.go and hash.go: Wager/Service has `Process` and
--                       `ResumeDue`, Wager/Movement `applyOperation`, Wager/References
--                       `resolveReference`, Wager/Operation the outcomes, Wager/Events `enqueue`
--   Wallets             internal/app/wallets/service.go: `Open`, `Get`, `Reconcile` and `Ledger`, whose
--                       query is in Store/Pages; Wallets/Pages has the cursors
--   Consumer            internal/app/consumer/wager.go: `Handle`, with `parseRequest` and `classify` in
--                       Consumer/Request; Consumer/Delivery has `processOne` of
--                       internal/adapters/sqs/consumer.go
--   Outbox              internal/app/outbox/publisher.go: `PublishDue`; Outbox/Locks has the locks
--                       of the events that are claimed
--   Http                internal/adapters/httpapi: the answers, with errors.go and dto.go; Http/Access
--                       has `RequireRoles` and `authorizeProvider`, Http/Submit and Http/Lookup the
--                       handlers of wagering.go, Http/Wallets those of wallets.go, with their
--                       routes, and Http/Cursor has cursor.go
--   Oidc                internal/adapters/oidc/verifier.go: `Verify`, from the claims of a token
--   Tests               sample data, and the theorems at concrete inputs
--
-- How they interact. `Process` validates a command, computes its payload hash and runs
-- `processOnce` in a database transaction, again and again while the error is one that
-- `isRetryable` accepts. `processOnce` looks for an earlier operation (a replay, or a conflict),
-- stores a new transaction and calls `applyOperation`, which reads the wallet, resolves the
-- reference of a reversal, moves the balance through `Wallet`, writes a `Ledger` entry and puts
-- events into the outbox. `ResumeDue` claims transactions that wait for a reference. The consumer
-- claims a message in the inbox, calls `Process` and completes the message in one transaction, and
-- `processOne` then deletes the message, sends it to the dead-letter queue or leaves it. The
-- publisher claims events of the outbox, sends them and marks them as published. An HTTP request is
-- authenticated, its roles are checked, and a handler calls `Process` or the service of wallets.
--
-- The state. A `World` has the tables and three counters; a call of type `Db A` takes an `Env` and
-- a `World` and returns a result and the next `World`. The `Env` stands for what is not in the
-- repository: the identities that the uuid library draws, the clock, whether a round trip to the
-- database fails, whether a COMMIT that fails has taken effect all the same, the texts of
-- identities, and the SHA-256 of the canonical payload. A method that changes an aggregate returns
-- the new one. Errors are values of `Result`; of an `errors.Join` with a rollback that fails there
-- is the first error only.
--
-- Numbers. An int64 is an integer with the wrap-around of Go written out (`wrap64`). Counts of
-- attempts, which grow by one with every scheduled retry, are not wrapped; the row of a
-- transaction is refused when they leave the INTEGER of the column. A time is a natural number of
-- nanoseconds, 0 the zero time; a column keeps its whole microseconds (`in_microseconds`). The
-- instant of a page cursor, which is read from a column, is compared as it is. Strings of amounts
-- are lists of bytes.
--
-- Loops. The loop of `Process` is a recursion on the number of attempts that are left, which is
-- `MaxWalletRetries` after the first one, so it is the loop of the source and no fuel is added;
-- the same holds for `resumeOne` and `ResumeDue`.
--
-- Not modelled. Statements run one after the other: locks, isolation levels and concurrent writers
-- are left out. So are the triggers of the database, the HTTP server and its parsing of headers,
-- metrics, logs and the wiring of the program. Of SQS, base64 and the token library there are only
-- the results of their calls, and of JSON the fields that encoding/json finds in a message (`Codec`,
-- `JsonBody`), since they are libraries.
pub mod Base
pub mod AppErr
pub mod Money
pub mod Types
pub mod Wallet
pub mod Ledger
pub mod Wagering
pub mod Events
pub mod Store
pub mod Wager
pub mod Wallets
pub mod Consumer
pub mod Outbox
pub mod Http
pub mod Oidc
pub mod Tests
