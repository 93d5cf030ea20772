-- ===== src/Lib.antt =====
-- PassHub decides who may enter and leave, from the qualification of a person and from where the
-- person is, and admits the HTTP requests and the write operations that ask for it. This library
-- models the parts that decide.
--
-- The parts and their files:
--
-- - Qualification.antt: src/access/domain/qualification.ts. A qualification is a record; the check
--   assertQualificationState and each decide... function has a definition of the same name.
--   Qualification/WellFormed states what the check accepts, Qualification/Management what may be
--   changed and how long a face mapping is kept.
-- - Decision.antt: src/access/domain/access-decision.ts, decideAccess with its rules for entry and
--   exit, over the decisions of Qualification. Its theorems are in Decision/Laws.
-- - Rate.antt: src/composition/internal/fixed-minute-rate-ledger.ts. The ledger is explicit state;
--   a request to one of its four ports takes it to the next ledger and an outcome. The clock is an
--   argument of each request: an integer, another value, a throw, or a call of the ledger itself.
--   Rate/Bounds, Windows, Timing, Clock, Freezing and Allowed hold the theorems.
-- - Resource.antt: src/composition/internal/admission-resource-ledger.ts. Pools with fixed limits,
--   and leases of them in bundles. A weak map from leases is a list of entries by number, since a
--   lease has nothing but its identity; the numbers come from a counter. Resource/Pools, Acquire,
--   Release and Histories hold the theorems.
-- - Budget.antt: src/access/application/internal/budget-ledger.ts. One ledger bounds what a write
--   operation may still do. Budget holds its state, the clock, the owner fence and the guards of
--   every method; Budget/Execution the rounds and their commands; Budget/Confirmation the
--   confirmations of an unknown result; Budget/Native the native groups; Budget/Continuation
--   authorizeContinuation and snapshot; Budget/Calls any sequence of calls. Each method is a
--   function from the ledger and the replies of the trusted callbacks to the ledger after it and
--   what it returns or throws. Budget/Flight, Limits and Permits hold the theorems.
-- - Quiescence.antt: src/access/application/internal/writer-quiescence.ts, the states of writers
--   and the lease of an observation. Its theorems are in Quiescence/Laws and Leases.
-- - Recovery.antt: src/composition/internal/g10c-recovery-scheduler.ts, the driver that asks for
--   the result of a commit whose answer was lost, as a step function on its state. Its theorems are
--   in Recovery/Laws.
-- - Coordinator.antt: src/access/application/internal/write-operation-coordinator.ts, the queue of
--   the write operations and the drain that runs them. Coordinator holds its state and helpers;
--   Coordinator/Settling the settlements and the failure of all that is queued; Draining the drain
--   and runOperation, cut at every place where the code waits; Provisional registerProvisional and
--   its handle; Recovering the recovery handles; Maintenance the commands of the bundle; Calls any
--   sequence of events. Order and Wakes hold the theorems.
-- - Registry.antt: src/access/application/internal/operation-registry.ts, the operations by their
--   idempotency keys. Registry holds its state and the checks of every method, Registry/Leases the
--   methods of a lease, Registry/Registration registration, reservations, lookup and snapshot,
--   Registry/Calls any sequence of calls. Registry/Lifecycle is the abstract lifecycle of one key,
--   Refinement sets the registry against it, and Capacity is about its counters; Rules and Kept
--   carry a property through every method once.
-- - Cursor.antt: src/access/application/internal/query-cursor.ts, the cursors of paged queries.
--   Cursor holds the regular expressions, as tests of texts, and the checks of the arguments;
--   Cursor/Codec encode and decode, over a record of what JavaScript does with JSON, base64url,
--   UTF-8 and dates. Cursor/Laws and Canonical hold the theorems, whose hypotheses say that
--   JavaScript reads what it has written.
-- - Termination.antt: src/access/application/internal/precommit-termination-lifecycle.ts, who may
--   abort before a commit, over an interface of native groups (NativeGroups, with the promise
--   CountsAttempts); Termination/Native gives it by the budget ledger. Calls is any
--   sequence of events, between which others use the ledger. Closing and Bounded hold the theorems.
-- - Base: lists, maps as lists of entries in the order of insertion, integers, results, tests.
--
-- How they meet: an access decision uses the decisions on the qualification. An admitted request
-- has passed the rate ledger and holds a bundle of the resource ledger; a write operation then has
-- a budget ledger of its own and a place in the queue of the coordinator, whose gate asks the
-- quiescence whether a writer may start; the registry knows its key.
--
-- Numbers: instants and counts are safe integers in the code, and natural numbers or integers here,
-- with the tests of Number.isSafeInteger written out where the code has them; sums that the code
-- tests for overflow are tested here. There is no fuel: every function is by recursion on its data.
--
-- Not modelled: values outside the static types of TypeScript (a permit that is no object, an
-- unknown kind), the texts of errors, frozen objects, and promises that a callback returns, which
-- the code refuses and which are one reply here. A callback that calls back into a ledger is a
-- reply too, except that the clock of the quiescence may call its lifecycle; the hooks, the gate
-- and the executors of the coordinator do not call back. Authentication, persistence, HTTP, logs
-- and deployment are not modelled: much of them only calls the database, the network and the file
-- system.
pub mod Base
pub mod Qualification
pub mod Decision
pub mod Rate
pub mod Resource
pub mod Budget
pub mod Quiescence
pub mod Recovery
pub mod Coordinator
pub mod Registry
pub mod Cursor
pub mod Termination
