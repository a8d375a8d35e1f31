-- ===== src/Lib.antt =====
-- switchstand coordinates agents that work on shared work items: a controller in front of the work
-- providers, grants that say what a caller may do, a broker that leases the host's resources to
-- workers, and policies that decide what may land and what must be tested. This library models the
-- parts of it that decide, and proves what their decisions mean.
--
-- Parts and files (paths from the root of the repository):
--
-- StackedDelivery: src/switchstand/stacked_delivery.py. Evidence of a stacked delivery: receipts
--   (`LayerQualification`) are combined, reviews of the layers are checked, and
--   `stack_is_ready_to_land` decides. Frozen sets are lists without regard to order.
-- Policy: src/switchstand/tracker/policy.py. The validators of a work item's resultant state and of
--   a created one. A `ValueError` is a constructor of `PolicyError`; the keyword arguments are the
--   record `WorkState` and the set `affected` is a list of field names.
-- SuiteDue: src/switchstand/full_suite_due.py. When the full test suite is due. The ratio of
--   selected tests is compared as a fraction, and a datetime is an instant with a time zone flag.
-- RunBudget: src/switchstand/ci_runtime_budget.py. The advisory run budgets of CI jobs. The
--   `__post_init__` checks are functions into `Result`, and a run's state is built by one of them.
-- Broker: src/switchstand/agent_broker.py. The ledger of `state.json` is the record `BrokerState`.
--   Budget has the seven dimensions and the worker classes, Pressure the host sample and its
--   refusals, Ledger the leases and their lookups, Reserve `reserve`, `ingest` and `initialize`,
--   Release the attach, claim and reconciliation operations. Steps, Effect, Lifecycle and Capacity
--   are about sequences of operations. The file lock makes each operation one step, and an operation
--   that refuses leaves the ledger as it was. Only the ledger is modelled: the code writes it before
--   the receipt and spool files, whose failure raises with the ledger already changed, which is here
--   the step that succeeds. The clock, the boot id, the fresh reservation id and the
--   pressure sample are arguments (`Host`). A time is a number of nanoseconds and a pressure stall
--   value is in hundredths, so that a comparison of floats is one of integers; a float that is not
--   finite is a value of its own.
-- Core: src/switchstand/core.py with the results of src/switchstand/contracts.py. The `State`,
--   `EventState` and `Provider` protocols are the record `World`: each of its answers may depend on
--   all the calls before, and each may raise `UnknownEffect`, another `ProviderError` or any other
--   exception. An operation gives the list of its calls, the latest first, and its result. Reads has
--   `get`, with `history` and `event` in Reads/History and Reads/Event; Writes has `apply_scalar` and
--   the lock, with `update` and `append` in Writes/Update and Writes/Append; Launch has `bind_work`
--   and `provision_launch`. The flag of a write that may have been applied is the field
--   `maybe_applied` of `Body`.
-- Grants: src/switchstand/grants.py, with `PullRequestChange` of src/switchstand/pull_requests.py. A
--   grant's methods and the validator of relations; Grants/Outcome has those of outcomes and feedback
--   classifications. It takes
--   `LaunchAuthority` from Core.
-- PullRequests: src/switchstand/pull_requests.py, `change`: the links and the owner of a pull request,
--   with the mailboxes and message deliveries that it reads. It takes the change and its actions from
--   Grants. A table is a list of rows in which a select finds the first, and the result is the row
--   that the final select finds. PullRequests/Change has the transaction.
-- TaskRuns: src/switchstand/task_runs.py, with `canonical_revision` and `get_locked` of
--   src/switchstand/tracker/work.py. The tables of requests, executions and results are lists of rows.
--   TaskRuns has the rows, TaskRuns/Stored their validators, TaskRuns/Request the admission,
--   TaskRuns/Reads the reads, TaskRuns/Execution `bind_start`, TaskRuns/Submit `submit_result` and
--   `terminal_evidence`. A transaction that raises is rolled back; a request reads one state and
--   inserts into a later one, since others may commit in between. Digests, UUIDs and what PostgreSQL
--   stores are arguments (`Externals`). A stored column may differ from what was sent, since JSONB
--   changes some numbers and text refuses NUL: an insert stores and returns the columns as PostgreSQL
--   keeps them, and raises for those that it refuses. No injectivity of a digest is assumed: where two
--   digests have to differ, the statement names a collision. That digests have 64 characters (`IsSha`)
--   and that PostgreSQL keeps the columns as they are, are hypotheses where a statement needs them.
-- AffectedTests: src/switchstand/affected_tests.py. Paths has the module names and patterns, Imports the
--   imports of a parsed file, Walk the search through them, Planner `_plan`, Authority the promotion,
--   and Exact `plan_exact` and `validate_execution_tree`. The answers of git and of Python's parser are
--   arguments. A set is iterated in the order of a list, and no statement depends on the order.
-- Base: shared names, Boolean tests, decidable equality as an instance, lists as sets, integers and
--   the error monad `Result`.
--
-- All loops are structural recursion on lists but one: the search of AffectedTests/Walk has as fuel
-- two more than the number of imported names of all files, which is enough since each round takes a
-- waiting file and a file's names are pushed once. Python's integers are `ℤ` where
-- the code may see a negative one and ℕ where a check or a type has excluded it.
--
-- Not modelled: files, directories, locks and network calls; the databases behind the state; the
-- texts of errors; cancellation of a coroutine; the length bounds that field declarations of
-- pydantic models put on texts. The services around these parts (the MCP server, the ChatGPT edge,
-- reviews, mailboxes, deployment and monitoring) are left out for their size.
pub mod Base
pub mod StackedDelivery
pub mod Policy
pub mod SuiteDue
pub mod RunBudget
pub mod Broker
pub mod Core
pub mod Grants
pub mod PullRequests
pub mod TaskRuns
pub mod AffectedTests
