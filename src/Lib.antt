-- ===== src/Lib.antt =====
-- Verification of the task core of Copilot Agent Mesh.
--
-- Copilot Agent Mesh lets one VS Code window hand a task to another. A request to start a task is
-- normalized, hashed and matched against the records that are kept; a new one becomes a task
-- record. Each event of the agent or of the user goes through a reducer, which changes the record,
-- numbers the event, appends it to the record's journal and cuts the journal to its limits.
--
-- Prelude    tests, lists measured by the native numbers, and maps with text keys.
-- Keys       maps whose keys stand once.
-- Protocol   shared/protocol: Status (constants.ts), Limits (limits.ts), Errors (errors.ts and
--            src/domain/errors.ts), Records, Schema and Validation (models.ts: the record's fields,
--            their schemas, `validateTaskState` and `validateFullJournal`), Json (the size of
--            `JSON.stringify` of an event, and numbers as text), Host (what the code calls).
-- Task       src/domain: Journal (taskEvents.ts, `compactTaskEventJournal`), Reducer
--            (taskReducer.ts, `taskReducer`), Request (task.ts, requests, canonical texts and the
--            records that accept them), Idempotency (task.ts, `matchIdempotentStart` and
--            `matchIdempotentRoutedStart`, `migrateTaskRecordV1`, `getOwnedTask`),
--            Snapshot (`snapshot` of src/application/RemoteTaskRunner.ts, and the refinements of
--            `taskSnapshotAfterEventSeqSchema`, but for the budget of the whole envelope).
-- Leases     src/tasks/WorkspaceLeaseManager.ts: who uses a workspace.
-- Invocations
--            src/tools/DelegatedToolInvocationRegistry.ts: the tool calls that delegated sessions
--            were seen to make.
-- Outbox     src/gateway/RpcPeer.ts, `send` and what it calls: the queue of outbound messages. The
--            socket's `bufferedAmount` and the lengths of the JSON texts are arguments, a promise is
--            a numbered waiter, and an object's identity is a number.
-- Storage    what the stores call: Effects (the contract of `readJson`, `writeJson` and `list` of
--            src/storage/AtomicFileStore.ts, and the fence of the owner), Rules (how files change),
--            Documents (src/storage/FencedDocumentStore.ts: one document in one file; the schema and
--            the sizes are arguments).
-- TaskStore  src/tasks/FileTaskStore.ts: the files of the tasks and every method on them.
-- TaskRoutes src/broker/TaskRouteCatalog.ts: Records (the schema of a route, the sources, the hash of a
--            request), State (reading, writing, room and attempts), Marks (lookups and reports).
-- RemotePolicy
--            src/broker/RemotePeerPolicyStore.ts: the peers that may use a workspace, in a fenced
--            document (Storage.Documents). Lists, Removal, Grants and Updating are about its lists, the
--            removal of a peer, who may use a workspace, and an update of many.
-- Scenarios  concrete requests and records.
--
-- A function that throws returns a `Result`, whose errors keep the class and the reason and leave
-- the message text out. `undefined` is `none`. The two versions of a task record are one record
-- with a field `version`. UUIDs, timestamps, `Date.parse` and SHA-256 are the fields of
-- `Platform`, which every definition that needs them takes as an instance argument; times count
-- from the least value of a Date, so none is negative, and the cutoff of the journal is tested with
-- the retention added on the other side. `JSON.stringify` escapes are counted by code point, for
-- texts without lone surrogates. The loops are structural on the journal. `number_text` runs on fuel
-- that is one more than the number, and a number has fewer digits than that.
--
-- The loops of the registry that delete entries run on as many rounds as there are entries, and one
-- more; each round deletes one. `parseDelegateTaskInput` of src/tools/taskToolsCore.ts is a parameter
-- there, as are `JSON.parse` and `JSON.stringify`. A method that reads the clock takes the time.
--
-- A method of the task store is an action on a `World`: the files by path, and a count of the calls.
-- `Surroundings` answers by that count what the clock shows, how the disk does and what the ownership
-- says, so a theorem for all surroundings holds whatever happens between two calls. What was written
-- stays written when a method throws. Two records are told apart by what the source compares by
-- reference: the reducer counts an event up when it changes a record, and compaction writes only the
-- journal's fields. Calls of one store run one after the other (`runExclusive`).
--
-- A method of the route catalog takes the catalog and returns a result and a catalog. It takes what the
-- state store does at its one update: save, reject without saving, or reject after saving. The calls
-- of one catalog run one after the other (`serialize`). `localeCompare` is an argument, of which
-- nothing is assumed; the first of the sorted routes is the least in the order of the list.
--
-- Not modelled: input and output, the VS Code and Node interfaces, sockets and processes.
pub mod Prelude
pub mod Keys
pub mod Protocol
pub mod Task
pub mod Leases
pub mod Invocations
pub mod Outbox
pub mod Storage
pub mod TaskStore
pub mod TaskRoutes
pub mod RemotePolicy
pub mod Scenarios
