-- ===== src/TaskRuns/Execution.antt =====
-- `bind_start` of `TaskRunState`. The eligibility of an implementation request, which
-- implementation_requests.py decides without a write when a current request is given, is the
-- argument `eligibility`.
use switchstand.TaskRuns.Request.{find_request}
use switchstand.TaskRuns.Stored.{find_row, validated_task_run_request}
use switchstand.TaskRuns.{
  close_transaction, ExecutionRow, Failure, Externals, Reason, RequestRow, RequestStatus, Tables,
  TaskRunRequest, conflict, continuation_not_bound, denied, execution_already_bound,
  execution_work_mismatch, is_implementation, is_start, ok_status, request_not_found,
  run_already_bound, state_unavailable, unknown,
}
use switchstand.Base.{
  Bool, List, Option, Result, String, [], any, err, false, if◌then◌else◌, none, not, ok, some,
  string_eq, ◌++◌, ◌==◌, ◌>>=◌, ◌∷◌,
}

pub record RunReceipt : Type 0 where
  pub run_id : String
  pub active_work_id : String

pub record TaskRunBindResult : Type 0 where
  pub status : RequestStatus
  pub execution : Option ExecutionRow
  pub reason : Option Reason

-- what the eligibility of an implementation request may be
pub data Eligibility : Type 0 where
  replayed : Eligibility
  refused : RequestStatus → Reason → Eligibility

abbrev pub bind_failed : RequestStatus → Reason → TaskRunBindResult
bind_failed status reason = record { status = status; execution = none; reason = some reason }

abbrev pub bind_ok : ExecutionRow → TaskRunBindResult
bind_ok e = record { status = ok_status; execution = some e; reason = none }

-- `current`: the execution of a request
abbrev pub find_execution : String → List ExecutionRow → Option ExecutionRow
find_execution = find_row (λ (e : ExecutionRow). e.request_id)

-- `uq_task_run_execution_run`
unfoldable pub run_bound : String → List ExecutionRow → Bool
run_bound run_id es = any (λ (e : ExecutionRow). e.run_id == run_id) es

-- the insert of an execution: a run that is bound already is a conflict
unfoldable pub insert_execution : Tables → ExecutionRow → Tables × TaskRunBindResult
unfolding run_bound any
insert_execution t e =
    if run_bound e.run_id t.executions
    then (t, bind_failed conflict run_already_bound)
    else (record t { executions = t.executions ++ e ∷ [] }, bind_ok e)

-- `current is not None and current["run_id"] != receipt.run_id`
abbrev pub is_other_run : String → Option ExecutionRow → Bool
is_other_run run_id none = false
is_other_run run_id (some e) = not (e.run_id == run_id)

-- the end of the transaction: the same execution again, or a new one
unfoldable pub bind_execution :
    Tables → ExecutionRow → Option ExecutionRow → Tables × TaskRunBindResult
unfolding insert_execution
bind_execution t e (some current) = (t, bind_ok e)
bind_execution t e none = insert_execution t e

abbrev pub bind_eligible :
    Tables → ExecutionRow → Option ExecutionRow → Eligibility → Tables × TaskRunBindResult
bind_eligible t e current replayed = bind_execution t e current
bind_eligible t e current (refused status reason) = (t, bind_failed status reason)

abbrev pub eligible_bind :
    Tables
    → ExecutionRow
    → Option ExecutionRow
    → Result Failure Eligibility
    → Result Failure (Tables × TaskRunBindResult)
eligible_bind t e current (ok answer) = ok (bind_eligible t e current answer)
eligible_bind t e current (err raised) = err raised

unfoldable pub bind_current :
    (TaskRunRequest → Result Failure Eligibility)
    → Tables
    → TaskRunRequest
    → ExecutionRow
    → Option ExecutionRow
    → Result Failure (Tables × TaskRunBindResult)
unfolding bind_execution
bind_current eligibility t verified e current =
    if is_other_run e.run_id current
    then ok (t, bind_failed denied execution_already_bound)
    else if is_implementation verified.payload.task_kind
    then eligible_bind t e current (eligibility verified)
    else ok (bind_execution t e current)

unfoldable pub bind_verified :
    (TaskRunRequest → Result Failure Eligibility)
    → Tables
    → String
    → RunReceipt
    → TaskRunRequest
    → Result Failure (Tables × TaskRunBindResult)
unfolding bind_current find_row
bind_verified eligibility t request_id receipt verified =
    if not (verified.payload.execution_work_id == receipt.active_work_id)
    then ok (t, bind_failed denied execution_work_mismatch)
    else if not (is_start verified.payload.continuation)
    then ok (t, bind_failed denied continuation_not_bound)
    else bind_current eligibility t verified
        (record { request_id = request_id; run_id = receipt.run_id })
        (find_execution request_id t.executions)

unfoldable pub bind_locked :
    Externals
    → (TaskRunRequest → Result Failure Eligibility)
    → Tables
    → String
    → RunReceipt
    → Option RequestRow
    → Result Failure (Tables × TaskRunBindResult)
unfolding bind_verified
bind_locked h eligibility t request_id receipt none = ok (t, bind_failed denied request_not_found)
bind_locked h eligibility t request_id receipt (some row) = do
  verified ← validated_task_run_request h t.results row
  bind_verified eligibility t request_id receipt verified

-- `bind_start`
unfoldable pub bind_start :
    Externals
    → (TaskRunRequest → Result Failure Eligibility)
    → Tables
    → String
    → RunReceipt
    → Tables × TaskRunBindResult
unfolding bind_locked
bind_start h eligibility t request_id receipt =
    close_transaction t (bind_failed unknown state_unavailable)
      (bind_locked h eligibility t request_id receipt (find_request request_id t.requests))
