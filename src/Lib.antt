-- ===== src/Lib.antt =====
-- A verification library for Baselithbot, an agent plugin in Python.
--
-- Parts of the program and the files that model them, with paths from the repository's root:
--
--   Policies/RateLimit     policies/rate_limit.py: `RateLimiter`, sliding windows per key
--   Policies/DmPolicy      policies/dm_policy.py: `DMPairingPolicy`, who may write to a channel; it
--                          uses a rate limiter for the senders it lets through
--   Policies/HostAcl       policies/host_acl.py: `HostACL`, the first rule that applies
--   Policies/DashboardAuth policies/dashboard_auth.py: `DashboardAuth`, the guard of the dashboard
--                          with its single-use stream tickets
--   Control/Approvals      control/approvals.py: `ApprovalGate`, requests that wait for an operator.
--                          Broadcast: its subscribers' queues. Schedule: the coroutines as steps
--   Control/RunTracker     control/run_tracker.py: `RunTaskTracker`, the recent runs
--   Control/Replay         control/replay.py: `TaskReplayStore`. Rows: its tables and statements.
--                          Reads: what the dashboard reads. Durable: any calls in a row
--   Routing                model_routing/: `AuthProfilePool`, `FailoverPolicy` and `ModelRouter`
--   Inbound                inbound/: signatures, `verify_inbound_request`, `InboundDispatcher`
--   Inbound/DefaultHandler inbound/default_handler.py: the client of Sessions and Dashboard/Bus
--   Observability/Usage    observability/usage.py: `UsageLedger`
--   Dashboard/Bus          dashboard/bus.py: `DashboardEventBus`
--   Chat/Commands          chat/commands.py: `ChatCommandRouter`
--   Sessions               sessions/manager.py: `SessionManager`, sessions and their histories
--   Cron/Scheduler         cron/scheduler.py: `CronScheduler`. Loop: its task among client calls
--   Security/Redaction     security/redaction.py: the copy of a payload with its secrets masked
--   Security/ShellMeta     security/shell_meta.py: the rejection of shell operators, over Security/Shlex,
--                          the automaton of Python's shlex
--   ComputerUse            computer_use/: `ComputerUseConfig` (Config), `AuditLogger` (Audit),
--                          `ShellExecutor` (ShellExec) and `ScopedFileSystem` (Scope: its state, gate
--                          and resolution of paths, Filesystem: its methods), over Paths, the
--                          interface to a host's files, which Paths/Memory meets
--   CodeEdit               code_edit/: `MultiFileEditor` (MultiFile), `LineRangePatcher` (Patcher),
--                          unified diffs (Diff), SearchReplace and the refactorings of AstRefactor,
--                          clients of ComputerUse/Filesystem
--   Gateway/Ssh            gateway/ssh.py: `SSHGateway`
--   Nodes/Pairing          nodes/pairing.py: `NodePairing`, tokens that pair nodes
--
-- Each class is a record of its fields and each method a function by clauses from the record to the
-- record and its result; a method that raises gives `none` or a result type of the model. A method
-- under an asyncio lock, with no await inside, is one step. `ApprovalGate.submit` and
-- `CronScheduler._run_loop` are split at the await, and a run is a list of steps in whatever order. The
-- actions that `FailoverPolicy.call` awaits may change the states of its providers, as other calls do
-- in the meantime. The other methods that await are one step, which nothing interleaves with:
-- `ChatCommandRouter.handle`, whose await is its last action, `ScopedFileSystem`, `ShellExecutor` and
-- the editors over them (the operator's answer and the threads of file access), and the reads of
-- `TaskReplayStore`, whose flush and SELECT take two locks in turn.
--
-- Common, Lists, Slices, Numerals, Heap, Dict and Text hold what the parts share: Python's dict with its
-- insertion order (Dict), slices with negative bounds (Slices), int (Numerals), mutable objects as
-- references into a heap (Heap), strip, lower and prefixes of strings (Text, Strings). Clock: times
-- are natural numbers of milliseconds, `time.time()` and `time.monotonic()` are arguments of a call,
-- and fractions below a millisecond are left out.
--
-- The statements of SQLite are functions on two tables; what a commit copies is what the second
-- connection reads.
--
-- A file system is a host with laws: a resolved path has no symbolic links, a file has one resolved
-- path, and writing a file changes that file alone. What an OSError may have written is not kept. The
-- append of the audit log may break off behind any line, and the file of the usage ledger may refuse
-- a line; a line that is torn in its middle is left out. The classes that log to the audit log do so
-- with a file that can be written.
--
-- Texts are of any code points. Whitespace is that of Unicode; a comparison in lower case is with ASCII
-- words, which the Kelvin sign can match beside the letters.
--
-- Fuel: none is used. Every loop of the source is structural recursion on a list, a text or a payload.
--
-- Parameters: the cron parser of `core.task_queue.cron` (`CronLibrary`), random tokens and ids, the
-- functions of jobs (only their error is seen), the search of `re` in host rules,
-- HMAC and Ed25519 (`Crypto`), Fernet (`Fernet`, which gives back what it encrypted), json texts
-- (`Json`, `EventJson`), the operator's answers (`Operator`), subprocesses (`System`), the files of a
-- host (`Host`), regular expressions of search and replace (`Re`), libcst (`Libcst`) and the
-- identifiers and words of Unicode (`Unicode`), the calls of model providers and the handlers of
-- inbound events.
--
-- Not modelled: log lines, the views that only print a state, HTTP routes and the wiring of plugin.py,
-- browser and desktop control, channels, skills, agents, workspaces, the canvas, custom cron jobs, the
-- parsers of inbound payloads, diagnostics, integrations, voice and the user interface.
pub mod Common
pub mod Lists
pub mod Slices
pub mod Numerals
pub mod Heap
pub mod Dict
pub mod Text
pub mod Strings
pub mod Policies
pub mod Clock
pub mod Control
pub mod Sessions
pub mod Nodes
pub mod Cron
pub mod Routing
pub mod Inbound
pub mod Dashboard
pub mod Observability
pub mod Security
pub mod ComputerUse
pub mod Gateway
pub mod CodeEdit
pub mod Chat
mod Tests
