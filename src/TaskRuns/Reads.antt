-- ===== src/TaskRuns/Reads.antt =====
-- The methods of `TaskRunState` of src/switchstand/task_runs.py that read a request.
use switchstand.Base.{
  option_eq, string_eq, Bool, List, Option, Result, String, [], err, if◌then◌else◌, none, ok, some,
  ◌&&◌, ◌==◌, ◌>>=◌, ◌∷◌,
}
use switchstand.TaskRuns.Stored.{validated_task_run_request}
use switchstand.TaskRuns.Request.{find_operation, find_request, request_failed, request_ok}
use switchstand.TaskRuns.{
  Failure, Externals, RequestRow, ResultRow, Tables, TaskRunRequestResult, denied,
  is_implementation, request_not_found, sql_error, state_unavailable, unknown,
}

abbrev pub close_get : Result Failure TaskRunRequestResult → TaskRunRequestResult
close_get (ok answer) = answer
close_get (err raised) = request_failed unknown state_unavailable

unfoldable pub read_request :
    Externals → List ResultRow → Option RequestRow → Result Failure TaskRunRequestResult
unfolding validated_task_run_request
read_request h results none = ok (request_failed denied request_not_found)
read_request h results (some row) = do
  verified ← validated_task_run_request h results row
  ok (request_ok verified)

-- `get_operation_in_transaction`
unfoldable pub get_operation_in_transaction :
    Externals → Tables → String → Result Failure TaskRunRequestResult
unfolding read_request
get_operation_in_transaction h t operation_id =
    read_request h t.results (find_operation operation_id t.requests)

-- the conditions of `get_implementation_in_transaction`; a missing reference equals none
unfoldable pub is_implementation_of : String → String → String → RequestRow → Bool
is_implementation_of package_work_id observed_revision authorization_ref row =
    row.requester_work_id == package_work_id
    && (row.columns.execution_work_id == package_work_id
        && (row.columns.observed_revision == observed_revision
            && (is_implementation row.columns.task_kind
                && row.columns.authorization_ref == some authorization_ref)))

unfoldable pub select_rows : (RequestRow → Bool) → List RequestRow → List RequestRow
select_rows p [] = []
select_rows p (r ∷ rs) = let rest = select_rows p rs in if p r then r ∷ rest else rest

-- `one_or_none`, which raises `MultipleResultsFound` for more rows than one
abbrev pub one_or_none : List RequestRow → Result Failure (Option RequestRow)
one_or_none [] = ok none
one_or_none (r ∷ []) = ok (some r)
one_or_none (r ∷ s ∷ rows) = err sql_error

-- `get_implementation_in_transaction`
unfoldable pub get_implementation_in_transaction :
    Externals → Tables → String → String → String → Result Failure TaskRunRequestResult
unfolding select_rows is_implementation_of read_request
get_implementation_in_transaction h t package_work_id observed_revision authorization_ref = do
  row ← one_or_none (
      select_rows (is_implementation_of package_work_id observed_revision authorization_ref)
        t.requests)
  read_request h t.results row

-- `get`
unfoldable pub get : Externals → Tables → String → TaskRunRequestResult
unfolding read_request
get h t request_id = close_get (read_request h t.results (find_request request_id t.requests))
