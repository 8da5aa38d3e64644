-- ===== src/Lib.antt =====
-- Stormbox: the outbox of queued mutations, the send of a message, the paging of queries, scheduled
-- sends, list selection.
--
-- The program is a webmail client. A user's change is a row of the table `pending_mutations`; a
-- worker runs one outbox runner per account, which drains the table in passes, runs each row
-- against the server, and parks, retries or deletes it. Callers may wait for a row. The send of a
-- message is the row whose work must not be repeated blindly: it writes a checkpoint and a phase to
-- its row before each step that the server cannot undo, and a later attempt goes on from there. The
-- other parts modelled here stand beside the runner: the reader of complete query results, the
-- times of scheduled sends, the record of which part of a cached message list was fetched, and the
-- selection of a message or contact list.
--
-- Files and the code that they model (paths from the root of the repository):
--   Base, Base/*         shared: Boolean tests, lists, keys, sets of keys, integers
--   Outbox/Vocabulary    src/constants/states.ts (statuses, phases, types, recovery policies) and
--                        the constants at the top of src/sync/backends/jmap/backend.ts
--   Outbox/Errors        src/sync/backends/jmap/outbox/errors.ts and the function
--                        classifyAuthenticationOrAuthorizationError of jmap/transport.ts
--   Outbox/Batch         src/sync/backends/jmap/outbox/batch.ts (results of batches)
--   Outbox/Store         the SQL of src/sync/backends/jmap/outbox-runner.ts: _loadReadyRows,
--                        _loadRow, _claimInFlight, _markRetry, _markConflicted, _deleteRow
--   Outbox/Recovery      recoverStranded of outbox-runner.ts
--   Outbox/Lanes         _dispatch of outbox-runner.ts: lock keys and promise chains
--   Outbox/Runner        _runWithRetry, _settleUnclaimedRow, _resolveAwaiters, _fireTally
--   Outbox/Await         runMutation, _awaitMutation, _stoppedError, stop
--   Outbox/Control       notify, _kickDrain, drain, the timers
--   Paging               src/sync/backends/jmap/query-paging.ts
--   Schedule             src/utils/schedule-time.ts (clock window, validateScheduleTarget) and
--                        src/sync/backends/jmap/schedule-time.ts (computeHoldFor)
--   Views, Views/Items   src/db/batch-helpers.ts: the fetched ranges of a cached query view, and the
--                        compaction of its items
--   Send/Checkpoint      src/sync/backends/jmap/send-checkpoint.ts and the reader of
--                        mutation-checkpoint.ts
--   Send/Outcome         src/sync/backends/jmap/outbox/send-outcome.ts, and what
--                        outbox/index.ts gives the runner for a send
--   Send/Program         the effects of a send; Send/Program/World: what they do to the row and the
--                        server, with saveMutationCheckpoint and the handler
--                        SEND_ACCEPT_AND_QUEUE_TRUST of src/db/handlers.ts
--   Send/Reconcile       src/sync/backends/jmap/send-reconcile.ts, normalizeMessageId(s) of
--                        src/utils/message-id.ts
--   Send/Drafts          destroyDraftEmails of src/sync/backends/jmap/outbox/draft-apply.ts
--   Send/Run, Run/Filing src/sync/backends/jmap/outbox/operations/send.ts: runSend up to the record of
--                        the acceptance, and the filing with its repair budget
--   Send/Once            the states of a row between the attempts at a send
--   Selection            src/composables/useListSelection.ts
--   Examples/*           tests and instances
-- The modules below a part hold its proofs.
--
-- State and operations. The table is a list of rows, and an SQL statement a function of it. An
-- error that is written as JSON text is kept as the error object, without the texts for the user.
-- `World` is what an attempt reads and writes: the table, the registered promises, and logs of the
-- promises resolved and of the tally calls. `Control` is what decides when a pass starts; its
-- events may come in any order. `Dispatcher` is the lock map with the promises that are chained
-- through it; its events, too, may come in any order. Awaits inside `_awaitMutation` are arguments, functions on the
-- world that stand for what other tasks do meanwhile.
--
-- A send is a program: a tree whose nodes are its awaited calls, with a branch for each answer or
-- throw. `Exec` runs it on a `World` of its own, the row and what the server accepted. There, a
-- write that fails may have been made, a submission whose answer is lost may have been accepted,
-- and the worker may die at every await, so that a theorem on `Exec` holds for every crash. The
-- server is honest: it has not accepted what it refuses (RFC 8620, 3.6.2), and the id of a record is
-- not empty. Attempts at one row come one after another, as the claim of a row sees to.
--
-- Parameters: `processRow` (the backend's request for a row), `JSON.parse` of a request, the
-- server's answer to a page, and the instants that the clock gives. Each is an argument of the
-- definitions that use it.
--
-- Numbers: ids, attempts and milliseconds after the epoch are natural numbers, offsets and
-- instants of the scheduler integers; none is as large as the 2^53 where the source loses
-- exactness. `2 ** (attempt - 1)` is a power of natural numbers, and an attempt is at least 1.
-- The paging loop runs on fuel; the theorem on its end names how much is enough. The removal of
-- drafts has as many rounds of fuel as drafts and one more, and the theorem on its end shows that
-- this is enough.
--
-- Not modelled: the loop of a drain pass over its waves, progress listeners and foreground
-- signals, delays of timers, parsing of dates, wall-clock times and time zones, the processors of
-- the mutation types other than a send, in a send the making of the message, its attachments and
-- hold, and the copy that is filed (calls with an arbitrary answer), the synchronisation of mailboxes, messages and contacts, the database engine, the placing of
-- a new message in a view, the stores and the user interface.
pub mod Base
pub mod Examples
pub mod Outbox
pub mod Paging
pub mod Schedule
pub mod Selection
pub mod Send
pub mod Views
