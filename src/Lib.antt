-- ===== src/Lib.antt =====
-- linear-agent-bridge receives the webhooks of Linear agent sessions, runs an agent for each event,
-- and must run no event twice, although webhooks are delivered again, processes crash, and several
-- processes share one state file.
--
-- At the centre is the state store, src/state/store.ts, through which every webhook passes: a
-- delivery is claimed (claimEvent, claimStopEvent), dispatched to a runtime (beginEventDispatch) or
-- given back (releasePreDispatchClaim), and ended (completeEvent, failEvent, supersedeEvent). The
-- store also keeps the order of recovery, how far each session's activity has been seen, and the
-- autonomous goals, which are worked on in steps. The webhook server (src/server.ts) authenticates
-- a delivery, reads it as an event and calls these operations; src/state/recovery-envelope.ts seals
-- the payloads that the store keeps.
--
-- Base and its children hold what the other files share: tests on numbers, strings as lists of UTF-16
-- code units, plain objects as association lists in insertion order, lists.
--
-- Json holds the values that JSON.parse gives, and what is asked of JSON.stringify.
--
-- Recovery is src/state/recovery-envelope.ts:
--   Types       the payloads and identities, and the interface Vault, through which the store uses
--               the file
--   Base64      base64url as Buffer writes and reads it, and its canonical decoding
--   Payloads    which payloads, notices and objectives are valid, and their JSON
--   Keyring     the keys; Envelope: sealing and opening
--   RoundTrip, Rotation, Binding: their theorems; vault_of in Rotation fills the interface Vault
-- AES-256-GCM, SHA-256, JSON and Date are parameters, with the laws that the code relies on; a nonce
-- is an argument.
--
-- Webhook is the way of a delivery through src/server.ts and src/linear/webhook-verify.ts:
--   Verify      the signature and the time of a delivery, over an HMAC and JSON.parse as parameters
--   Event       parseAgentSessionEvent, eventIdentity, recoveryPayload, isStopEvent
--   Recovered   recoveredEvent, which rebuilds an event from its payload
--   Handler     handleWebhook, with its calls of the store on the disk of State.Disk
--   Recovering  recoverAcceptedIngressPass, where anything may happen to the disk between two steps
--   Routes      handleRequest; Oauth: OAuthStateStore
--   Reconciled  the events and identities that reconciliation makes of the activities it finds
--   Runs        the runs of the process with their abort controllers; Aborts: what a stop aborts
--   Begin       the calls of the store at the start of processClaimedWebhook
--   Settled, Gate, Stops, Naming: their theorems
--
-- Linear is the client of Linear's API, src/linear/client.ts, and its tokens, src/linear/oauth.ts:
--   Calls       requests and their answers, as functions of the calls made before; the second try
--               after a 401
--   Client      createActivity and queryGraphQL; Issues: getAutonomousGoalIssueContext, completeIssue
--   Pages, Shapes: parsePageInfo, nextPageCursor, parseAgentActivity and the other tests of an answer
--   Sessions    listRecentAppOwnedSessions; Activities: listAgentSessionActivities
--   Tokens      the file of the tokens, parseTokenResponse, waitForPromise
--   Refreshing  LinearOAuthTokenManager, as steps between its awaits
--   Sending, Delivery, Queries, Cursors, Recent, Listing, Listed, Spent: their theorems
-- A loop over pages has fuel for the pages that it asks for: each page that leads to another names a
-- cursor that was not seen, so that one page more than there are cursors is enough.
--
-- Tasks is the work on autonomous goals in src/server.ts:
--   Calls       what a task asks of the store, of Linear and of the runtime; any answer may come
--   Notices     emitAutonomousGoalActivity, blockAutonomousGoalWithNotice,
--               recoverAutonomousGoalPendingNotice
--   Completion  finishAutonomousGoalCompletion; Loop: runAutonomousGoalTask, whose fuel is the number
--               of its rounds: nothing bounds it, since guidance may come for ever
--   Guards      what was asked before each act; Guarded, Completed, Endings, Rounds: their
--               theorems
-- What the store does with these calls is State.Goals, what Linear answers is Linear.
--
-- Config is src/config.ts: Config.Values reads and tests the variables, Config.Ranges and
-- Config.Loaded say what holds of what they give. Number, the paths and the file system are a parameter.
--
-- State is the store, one file per part:
--   Types       the records of the file; times that the store writes are milliseconds, times from
--               outside stay strings; and Env, what an operation reads besides the state: options,
--               clock (one reading for one operation), Date.parse, toISOString, localeCompare, vault
--   Steps       an operation as the writes it makes, with the predicate Runs on all of them
--   Checks      the functions at the end of the file: validators, comparisons, outcomes
--   Prune       prune with its loops, and removeReceipt
--   Sequence    createRecoveryEnvelope, recordRecoveryStopFence, receiptIsAtOrBeforeFence
--   Claiming    claimEventInState; Claim: claimEvent and resolveExistingReceipt
--   Dispatch    beginEventDispatch, releasePreDispatchClaim, terminalize, supersedeEvent and
--               getOrCreateActivityId
--   Reconcile   claimStopEvent and the cursors of reconciliation
--   Goals       what each call does to one autonomous goal; Goals.Store: the calls on the state
--   Recoverable what a recovery reads: assertRecoverableEventsAvailable, listRecoverableEvents
--   Disk        writeState and mutate, where each write may fail before or after the rename, the
--               lock may not be got, and its release may fail
--   Invariant   what holds of every state on disk; its children prove it of each operation
--   History     histories of calls by any number of processes; Answers: what an answer says of the
--               disk; Freshness: the order of recovery; Goals.History: histories of calls on goals
--
-- Lanes is src/queue.ts, as a step relation on the lane objects and the map of sessions, and
-- Lanes.Order its runs with logs of what was enqueued and finished; drain waits for promises and
-- changes nothing.
--
-- Shutdown is src/shutdown.ts, as steps on the variables of installGracefulShutdown; Decision is
-- parseAutonomousGoalDecision of src/goals/protocol.ts, and Session is src/sessions/store.ts.
--
-- An operation is a function from the state it reads to its Steps; Disk.mutate runs it against a plan
-- of faults. A process that dies at a write leaves the disk that a fault leaves there, so histories
-- with faults are also histories with crashes. Operations of several processes never interleave
-- inside the lock, and a history is a list of calls. All loops of the store run over lists, without
-- fuel. The loop of a recovery pass has fuel: its sequence grows with each batch and stays a safe
-- integer, so that fuel for each safe integer is enough.
--
-- Not modelled: the lock directory and the probe of its owner (a call either holds the lock or
-- throws), JSON encoding of the state file and the check of its structure, the read-only queries
-- but those of a recovery, the logging, the rest of src/server.ts (the turns of a session,
-- reconciliation), the runtimes (src/runtime), the entry point (src/index.ts), the native helper
-- (native) and the scripts: they are I/O, or sequence it. The client sends a request as a value,
-- not as text; numbers in Linear's answers are finite. src/index.ts loads the token manager before
-- anything calls it, and the steps of Refreshing begin there. A key of a plain object is never the
-- name of a member of Object.prototype: the ids come from Linear. A payload whose prompt is no string
-- is claimed with a vault that refuses to seal it (unsealing in Webhook.Handler), as the checks of
-- src/state/recovery-envelope.ts do. handle_request takes the flags of startup recovery as they are
-- when a request comes, and its Deps as they are once the body is read.
pub mod Base
pub mod Json
pub mod Recovery
pub mod Webhook
pub mod Linear
pub mod Config
pub mod Tasks
pub mod Lanes
pub mod Shutdown
pub mod Decision
pub mod Session
pub mod State
