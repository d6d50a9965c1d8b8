-- ===== src/Lib.antt =====
-- rolekit runs a task in a role through an executor. This library models the code that decides, without
-- the input and output around it, and proves what makes it correct.
--
-- The parts and their files:
--
-- Common: texts, thrown values and sorted lists. A text is its list of UTF-16 code units, since
-- `length`, `slice`, `startsWith` and the order of `sort` go by code units.
-- Common/SortedUnique is `sortedUnique` of src/core/execution-plan.ts, which SortedOrder is about; Trim is about `trim`.
--
-- Core/Redact: `redactSensitiveText` and `redactSensitiveJsonValue` of src/core/validation.ts. Replace has
-- the first, and Absent says what it leaves out of a text; JsonValue has the second with its law. Numbers
-- are not redacted.
--
-- Core/Json: JSON data of src/core/types.ts and `canonicalJson` of src/core/json.ts. A number is the text
-- that `JSON.stringify` gives for it.
--
-- Core/Error: `RolekitError` of src/core/errors.ts, and results of code that may throw it.
--
-- Core/Response: `validateExecutorResponse` of src/core/response-validation.ts. Validate has the code,
-- one function for each group of its checks; Distinct, Coherent and Laws say what passes.
--
-- Core/Plan: src/core/execution-plan.ts, with src/core/execution-contract.ts, src/core/capabilities.ts and
-- src/core/digest.ts. Data has the documents, Encode their form as JSON data, Normalize the normalized
-- snapshots, Create `createExecutionPlan`, Integrity `assertExecutionPlanIntegrity`, Receipt and Outcome the small
-- functions of finalization and Finalize `finalizeExecution`. Idempotent, RoundTrip and the modules under
-- Final say what they guarantee. A plan that is created goes to an executor, whose receipt comes back to
-- `finalizeExecution`, which checks the plan again and validates the response with Core/Response.
--
-- Core/Events: `RunEventEmitter` of src/core/events.ts. Emitter has the class, a call being a step from a
-- state to a state; Order, Terminal and Redacted say what its callback and its logger receive. The
-- emitter redacts with Core/Redact.
--
-- Core/Options: `validatePublicOptionSafety` and `validatePreparedExecutorOptions` of src/core/validation.ts.
-- Pointers has the JSON Pointers at which an adapter may show a marker in place of a secret, Safety the walk
-- over the public options, Prepared the options that an adapter returns, and Clean what passes.
--
-- Core/Rolekit: the class of src/core/rolekit.ts. Registry has its state, the maps of roles and adapters and the
-- set of active run ids, with the operations that change it; Distinct, Active and Refused are about any
-- sequence of these. Adapter has what a run asks of an adapter, Prepare the capture of the options, the preparation, the
-- admissions and the probe, Ending the data that a run works on and its own endings, Flow what `run` does
-- from the static admission to the result, Run the whole of `run` with its events and the release of its
-- id, and Compile `compile` and `inspectExecutor`. What else happens to the instance while a run waits is a
-- list of changes that the run is given. Gate, Settle, Achieved, Own, Start, Release, Finish, Returns and
-- Forecast say what holds of every run. It is built on Core/Options, Core/Plan and Core/Events.
--
-- Cli/Errors: the error classes of src/adapters/cli/errors.ts.
--
-- Cli/Process: `runCliProcess` of src/adapters/cli/process.ts from the spawn on. Model has the closure's
-- variables as a record, Machine one function per listener, and a run is a list of events in any order.
-- Calm describes a run before anything went wrong, and Lifecycle, Output and Complete say what holds
-- of every run.
--
-- Cli/Redaction: the part of src/adapters/cli/redaction.ts that finds plain occurrences, merges their spans and
-- replaces them. Spans has the code; Cover is about the positions that spans cover, Blind about what the
-- replaced text tells, and Found about the occurrences.
--
-- Cli/Version: src/adapters/cli/version.ts. Compare has the precedence of parsed versions, Order its laws, and
-- Report the compatibility report. The parsing of a version by a regular expression is not modelled.
--
-- Cli/Termination: `terminateWindowsProcessTree` of src/adapters/cli/termination.ts. Windows has the code, with
-- the outcomes of the helper processes and the looks at the process table as given, and Verified says what a
-- termination establishes. Its end is an event of Cli/Process.
--
-- Rpc: `PiRpcClient` of src/adapters/pi-rpc/rpc-client.ts. Model has its state and its events, Requests how
-- requests begin and settle, Responses the lines that are read, and Client the listeners as steps; a run is
-- a list of events in any order. A request comes with what `JSON.stringify` throws at it, and the state tells how
-- each promise has settled, which only its first settlement decides. Count counts ids, Valid, Reading and
-- Once say how requests settle, and Bytes and Frames are about the chunks of the input. Its errors are those of
-- Cli/Errors.
--
-- Every definition is by structural recursion. The one fuel is that of the decimal digits of a number, which is
-- the number and one more: Common/Digits gets the number back from the digits.
--
-- Taken as parameters: the validators that Ajv makes of the document schemas and of a role's schema, SHA-256,
-- `Date.parse`, `JSON.parse`, the code of an adapter, the reading of JSON data at the type of a document, Node's
-- UTF-8 decoding and the redaction that a process run or the Pi RPC client is given. Asynchronous code is
-- modelled by the order of its effects: a promise that is awaited is a step of the sequence. A frozen deep
-- copy of JSON data is the same data, and a value that cannot be copied as JSON is an absent one. Error
-- messages are modelled as the source builds them.
--
-- Not modelled: the schemas themselves, the configuration loader and resolver, secrets, the adapters of
-- the single tools but for the Pi RPC client, the command line, and the test kit; the requests to cancel
-- that a run passes to its adapter, which change nothing of its own; and the walk over the properties of
-- a role, since roles are JSON data here.
pub mod Common
pub mod Cli
pub mod Core
pub mod Rpc
