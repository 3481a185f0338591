-- ===== src/Lib.antt =====
-- HCM time off: requests for time off over balances that an external HCM system owns.
--
-- The program keeps a cached snapshot of each balance and a ledger of holds and debits beside it, so
-- that the available balance is derived and never stored. A request goes through a state machine;
-- approving or cancelling it writes a message into an outbox in the same transaction; a processor
-- delivers the messages to the HCM; snapshots of the HCM come back by webhook, batch or polling and
-- are reconciled with the ledger.
--
-- Which file models which part (paths from the repository's root):
--   Common/Enums            src/common/enums.ts, RequestAction of src/common/state-machine.ts
--   Common/StateMachine     src/common/state-machine.ts: TRANSITIONS, canTransition, nextState,
--                           isTerminal; Lifecycle has the runs of the table
--   Common/BalanceMath      src/common/balance-math.ts; Bounds is on canReserve
--   Common/Reconciliation   src/common/reconciliation-math.ts: reconcile; Absorption and Outcome are
--                           on its matching and its result
--   Common/CircuitBreaker   src/common/circuit-breaker.ts
--   Common/KeyedMutex       src/common/keyed-mutex.ts: the steps of `runExclusive` and their
--                           interleavings; Invariant, Entering and Exclusion are on what they keep
--   Common/Errors, Exec     src/common/errors.ts: what services throw, and the HTTP exception that each
--                           is; methods with state and throws
--   Common/HttpExceptionFilter  src/common/http-exception.filter.ts
--   Hcm/Core                src/hcm/hcm-core.ts: the in-memory HCM; Versions, Deltas and Replay are on
--                           its version stamps, the effect of a delta and its idempotency,
--                           Overdraft its overdraft check, Keys the keys that it joins from two ids
--   Hcm/HttpClient          src/hcm/http-hcm.client.ts over `fetch`; Breaking is on how its guard drives
--                           the circuit breaker
--   MockHcm                 src/mock-hcm/mock-hcm.controller.ts; Remote is on the HTTP client over it
--   Hcm/Client              src/hcm/hcm-client.interface.ts, src/hcm/in-process-hcm.client.ts
--   Database                src/database/entities: a record for each table row, a list for each table,
--                           oldest row first; Orm is TypeORM and SQLite, Rows is on written rows
--   Balances                src/balances/balance.service.ts; Sums is on the grouped query, View on
--                           getView and Moves on the writes that settle a request
--   Outbox                  src/outbox/outbox.service.ts; Claims and Retry
--   Processor               src/outbox/outbox.processor.ts; Timer is its timer, Stuck is on INFLIGHT
--                           messages after a crash and on late acknowledgements, Settled on the
--                           answers to a debit, Drained and Commits on a drain that runs to its end,
--                           InStep on a debit through the in-process client
--   TimeOff                 src/time-off/time-off.service.ts and its DTOs; Reserve and Submit are on
--                           submit, Idempotent on create, Messages on approve and cancel, Concurrent
--                           on submits that run at the same time
--   Validation              the decorators of src/time-off/dto and src/sync/dto/sync.dto.ts, behind the
--                           ValidationPipe of src/main.ts; Reading is what the handlers read of a body
--   Sync                    src/sync/sync.service.ts; Again is on repeated and late snapshots,
--                           Watermarks and Batches on repeated batches, Ledger, Shown and View on
--                           the balance that a reconciliation leaves, LateAck on a debit that is
--                           acknowledged after the snapshot that has it
--   Api                     the controllers of src/time-off, src/balances, src/sync and src/health with
--                           the filter around them; Incoming has the ValidationPipe in front of them,
--                           Stored is on what the rows can hold, Atomic and Failures on calls that fail
--   Holds                   which requests may hold days, over all of the services; History has the
--                           step relation of their transactions
--   Sent                    which messages a request may have in the outbox, over all of the services
--   Prelude                 Boolean tests, signed integers, lists, text keys, numbers as text
--   Tests                   a store that meets the laws, and a concrete input for each theorem
--
-- How code becomes a definition. A function of the source has its name in snake_case, and a method
-- takes and returns the state that it reads and writes: `HcmCore` for the engine, `Db` for the five
-- tables, `World` for the tables beside the HCM. A transaction is `transaction`, which undoes the
-- writes of a body that throws. TypeORM is the parameter `orm`, with the laws `IsOrm` of what its
-- documentation says of find, update, save, insert-or-ignore and the grouped sum; the HCM behind the
-- client is a parameter `HcmClient`; ids of `uuid()`, times and the reading of dates are arguments.
-- Loops are structural recursion over the rows. Amounts are integers without bound, where the source
-- has doubles that hold integer columns; `show_ℕ` runs on fuel n + 1, more than n has digits.
--
-- `fetch` and the server behind it are a parameter, and so are the response objects that Nest gives
-- its own exception classes. A call of the mutex takes a step from each `await` to the next, in any
-- order with those of other calls; in the services a critical section is one step, but for
-- TimeOff/Concurrent, where a submit reads and writes in two steps between which other calls run.
--
-- class-validator and the ValidationPipe are a parameter with the law `IsDocumented` of what each
-- decorator checks. A body is an object as JSON gives it; a nested value that is no object is left open.
--
-- Not modelled: Nest's routing and wiring, the parsing of JSON, the encoding of a path and when timers fire;
-- errors of the database itself, its unique constraints and the columns `updated_at` and `version`,
-- which no code reads; the identity of the row objects that the engine returns, which callers only
-- read.
pub mod Prelude
pub mod Common
pub mod Hcm
pub mod Database
pub mod Balances
pub mod Outbox
pub mod Processor
pub mod TimeOff
pub mod Validation
pub mod Sync
pub mod Holds
pub mod Sent
pub mod MockHcm
pub mod Api
pub mod Tests
