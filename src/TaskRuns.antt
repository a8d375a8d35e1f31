-- ===== src/TaskRuns.antt =====
-- src/switchstand/task_runs.py: the tables of task runs, the requests, executions and results that
-- they hold. A table is the list of its rows. A result contract is the text that `json.dumps` gives
-- for it, which is ASCII. Digests and UUID functions of Python's standard library and what PostgreSQL
-- keeps of a row's columns are the parameter `Externals`.
pub mod Stored
pub mod Rows
pub mod Request
pub mod Reads
pub mod Execution
pub mod Submit
pub mod Evolution
pub mod Commits
pub mod Effects
pub mod Ending
pub mod Soundness
pub mod Terminal
pub mod Ended
pub mod Submitted
pub mod Evidence
pub mod Answered
pub mod Replay
pub mod Admits
pub mod Completes
mod Examples
use switchstand.Base.{
  err, string_eq, Bool, List, Option, Result, String, [], all, false, if◌then◌else◌, is_none, leb,
  length, none, ok, require, some, text_len, true, ℕ, ◌&&◌, ◌==◌, ◌>>=◌, ◌>>◌, ◌∷◌,
}

pub data TaskKind : Type 0 where
  investigation validation implementation : TaskKind

pub data Continuation : Type 0 where
  start continue takeover : Continuation

-- `AgentTaskRequest | ImplementationTaskRequest`: the kind tells which, and only an implementation
-- request has the two references.
pub record TaskRequest : Type 0 where
  pub execution_work_id : String
  pub observed_revision : String
  pub task_kind : TaskKind
  pub objective : String
  pub result_contract : String
  pub continuation : Continuation
  pub candidate_ref : Option String
  pub authorization_ref : Option String
  pub send_authority_ref : Option String

pub record AgentTaskResult : Type 0 where
  pub outcome : String
  pub summary : String
  pub evidence_refs : List String

-- a row of `task_run_requests`
pub record RequestRow : Type 0 where
  pub request_id : String
  pub operation_id : String
  pub requester_work_id : String
  pub columns : TaskRequest
  pub content_digest : String
  pub terminal_result_id : Option String

-- a row of `task_run_executions`
pub record ExecutionRow : Type 0 where
  pub request_id : String
  pub run_id : String

-- a row of `task_run_results`
pub record ResultRow : Type 0 where
  pub result_id : String
  pub request_id : String
  pub run_id : String
  pub columns : AgentTaskResult
  pub content_digest : String

-- a row of `canonical_work`, of which the model has the version
pub record CurrentWork : Type 0 where
  pub work_id : String
  pub row_version : ℕ

pub record Tables : Type 0 where
  pub handles : List String
  pub works : List CurrentWork
  pub requests : List RequestRow
  pub executions : List ExecutionRow
  pub results : List ResultRow

-- `_digest`, `_result_digest`, `uuid5(REQUEST_NAMESPACE, ...)`,
-- `uuid5(REQUEST_OPERATION_NAMESPACE, ...)`, `UUID(...)` and the digest of a revision, by what they
-- digest; and what the columns of a row hold once PostgreSQL stored them, where a JSONB value may
-- come back changed, and none is a value that it refuses
pub record Externals : Type 0 where
  pub digest : String → TaskRequest → String
  pub result_digest : String → String → AgentTaskResult → String
  pub revision_digest : String → ℕ → String
  pub request_uuid : String → String
  pub operation_uuid : String → String
  pub parse_uuid : String → Option String
  pub stored_request : TaskRequest → Option TaskRequest
  pub stored_result : AgentTaskResult → Option AgentTaskResult

-- what a transaction may raise: `SQLAlchemyError` or `ValueError`
pub data Failure : Type 0 where
  sql_error value_error : Failure

-- the stored columns; a value that PostgreSQL refuses raises
abbrev pub as_stored {ℓ} : {A : Type ℓ} → Option A → Result Failure A
as_stored none = err sql_error
as_stored (some columns) = ok columns

-- An exception rolls the transaction back, and is answered.
abbrev pub close_transaction {ℓ} :
    {A : Type ℓ} → Tables → A → Result Failure (Tables × A) → Tables × A
close_transaction t failed (ok done) = done
close_transaction t failed (err raised) = (t, failed)

pub data RequestStatus : Type 0 where
  ok_status stale denied conflict unknown : RequestStatus

pub data Reason : Type 0 where
  request_not_found requester_work_not_found execution_work_not_found : Reason
  source_revision_changed continuation_not_bound operation_identity_conflict : Reason
  execution_not_bound result_identity_conflict terminal_result_conflict run_superseded : Reason
  runtime_currentness_unavailable state_unavailable : Reason
  execution_work_mismatch execution_already_bound run_already_bound no_send_authority : Reason
  not_eligible : String → Reason

-- the request that a validated row stands for
pub record TaskRunRequest : Type 0 where
  pub request_id : String
  pub requester_work_id : String
  pub payload : TaskRequest
  pub terminal_result_id : Option String

pub record TaskRunResult : Type 0 where
  pub result_id : String
  pub request_id : String
  pub run_id : String
  pub payload : AgentTaskResult

pub record TaskRunRequestResult : Type 0 where
  pub status : RequestStatus
  pub request : Option TaskRunRequest
  pub reason : Option Reason

abbrev pub is_implementation : TaskKind → Bool
is_implementation implementation = true
is_implementation _ = false

abbrev pub is_start : Continuation → Bool
is_start start = true
is_start _ = false
