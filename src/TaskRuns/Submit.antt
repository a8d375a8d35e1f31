-- ===== src/TaskRuns/Submit.antt =====
-- `submit_result` and `terminal_evidence` of `TaskRunState`.
use switchstand.TaskRuns.Request.{find_request}
use switchstand.TaskRuns.Stored.{
  find_row, find_result, validated_task_run_request, validated_task_run_result,
}
use switchstand.TaskRuns.{
  as_stored, close_transaction, AgentTaskResult, ExecutionRow, Failure, Externals, Reason,
  RequestRow, RequestStatus, ResultRow, Tables, TaskRunRequest, TaskRunResult, conflict, denied,
  execution_not_bound, ok_status, request_not_found, result_identity_conflict, run_superseded,
  runtime_currentness_unavailable, sql_error, stale, state_unavailable, terminal_result_conflict,
  unknown, value_error,
}
use switchstand.Base.{
  option_eq, string_eq, Bool, List, Option, Result, String, [], any, err, false, if◌then◌else◌,
  is_none, leb, nat_beq, none, not, ok, require, some, text_len, true, ℕ, ◌&&◌, ◌++◌, ◌+◌, ◌==◌,
  ◌>>=◌, ◌>>◌, ◌∷◌,
}

pub record RuntimeCurrentness : Type 0 where
  pub generation : String
  pub current_generation : Option String

pub record TaskRunResultResult : Type 0 where
  pub status : RequestStatus
  pub result : Option TaskRunResult
  pub terminal : Bool
  pub reason : Option Reason

pub record TaskRunTerminalEvidence : Type 0 where
  pub request : TaskRunRequest
  pub result : TaskRunResult

abbrev pub submit_failed : RequestStatus → Option TaskRunResult → Reason → TaskRunResultResult
submit_failed status result reason = record {
  status = status;
  result = result;
  terminal = false;
  reason = some reason;
}

-- `update(task_run_requests).where(...).values(terminal_result_id=result_id)`
unfoldable pub set_terminal : String → String → List RequestRow → List RequestRow
set_terminal request_id result_id [] = []
set_terminal request_id result_id (r ∷ rs) =
    (if r.request_id == request_id then record r { terminal_result_id = some result_id } else r)
    ∷ set_terminal request_id result_id rs

abbrev pub submit_ok : TaskRunResult → TaskRunResultResult
submit_ok view = record { status = ok_status; result = some view; terminal = true; reason = none }

-- the tests of the run's currentness and of the terminal result
unfoldable pub submit_current :
    Tables
    → String
    → String
    → RuntimeCurrentness
    → Option String
    → TaskRunResult
    → Tables × TaskRunResultResult
unfolding set_terminal
submit_current t request_id result_id runtime terminal view =
    if is_none runtime.current_generation
    then (t, submit_failed unknown (some view) runtime_currentness_unavailable)
    else if not (runtime.current_generation == some runtime.generation)
    then (t, submit_failed stale (some view) run_superseded)
    else if is_none terminal
    then (record t { requests = set_terminal request_id result_id t.requests }, submit_ok view)
    else if terminal == some result_id
    then (t, submit_ok view)
    else (t, submit_failed conflict (some view) terminal_result_conflict)

-- the check constraints of `task_run_results`
unfoldable pub result_checks : ResultRow → Bool
unfolding text_len
result_checks row =
    leb 1 (text_len row.columns.outcome)
    && (leb 1 (text_len row.columns.summary) && nat_beq (text_len row.content_digest) 64)

-- the result's row, stored or inserted
unfoldable pub submit_stored :
    Externals
    → Tables
    → TaskRunRequest
    → RuntimeCurrentness
    → ResultRow
    → Option ResultRow
    → Result Failure (Tables × TaskRunResultResult)
unfolding submit_current validated_task_run_result result_checks
submit_stored h t verified runtime row none = do
  columns ← as_stored (h.stored_result row.columns)
  let inserted = record row { columns = columns }
  require (result_checks inserted) sql_error
  view ← validated_task_run_result h inserted
  let stored = record t { results = t.results ++ inserted ∷ [] }
  ok (submit_current stored row.request_id row.result_id runtime verified.terminal_result_id view)
submit_stored h t verified runtime row (some existing) =
    if not (existing.content_digest == row.content_digest)
    then ok (t, submit_failed conflict none result_identity_conflict)
    else validated_task_run_result h existing >>= λ view.
        ok (submit_current t row.request_id row.result_id runtime verified.terminal_result_id view)

-- the executions that are the run's, and those of the request
unfoldable pub execution_of : String → String → List ExecutionRow → Bool
unfolding any
execution_of request_id run_id es =
    any (λ (e : ExecutionRow). e.request_id == request_id && e.run_id == run_id) es

unfoldable pub execution_count : String → List ExecutionRow → ℕ
execution_count request_id [] = 0
execution_count request_id (e ∷ es) =
    (if e.request_id == request_id then 1 else 0) + execution_count request_id es

unfoldable pub submit_bound :
    Externals
    → Tables
    → TaskRunRequest
    → RuntimeCurrentness
    → ResultRow
    → Result Failure (Tables × TaskRunResultResult)
unfolding submit_stored find_row execution_of execution_count
submit_bound h t verified runtime row =
    if not (execution_of row.request_id row.run_id t.executions)
    then ok (t, submit_failed denied none execution_not_bound)
    else if not (nat_beq (execution_count row.request_id t.executions) 1)
    then ok (t, submit_failed unknown none state_unavailable)
    else submit_stored h t verified runtime row (find_result row.result_id t.results)

unfoldable pub submit_locked :
    Externals
    → Tables
    → RuntimeCurrentness
    → ResultRow
    → Option RequestRow
    → Result Failure (Tables × TaskRunResultResult)
unfolding submit_bound
submit_locked h t runtime row none = ok (t, submit_failed denied none request_not_found)
submit_locked h t runtime row (some request) = do
  verified ← validated_task_run_request h t.results request
  submit_bound h t verified runtime row

-- the row that is inserted for a run
abbrev pub new_result : Externals → String → String → String → AgentTaskResult → ResultRow
new_result h request_id result_id run_id result = record {
  result_id = result_id;
  request_id = request_id;
  run_id = run_id;
  columns = result;
  content_digest = h.result_digest request_id run_id result;
}

unfoldable pub submit_for_run :
    Externals
    → Tables
    → String
    → String
    → RuntimeCurrentness
    → AgentTaskResult
    → Option String
    → Result Failure (Tables × TaskRunResultResult)
unfolding submit_locked
submit_for_run h t request_id result_id runtime result none = err value_error
submit_for_run h t request_id result_id runtime result (some run_id) =
    submit_locked h t runtime (new_result h request_id result_id run_id result)
      (find_request request_id t.requests)

-- `submit_result`
unfoldable pub submit_result :
    Externals
    → Tables
    → String
    → String
    → RuntimeCurrentness
    → AgentTaskResult
    → Tables × TaskRunResultResult
unfolding submit_for_run
submit_result h t request_id result_id runtime result =
    close_transaction t (submit_failed unknown none state_unavailable)
      (submit_for_run h t request_id result_id runtime result (h.parse_uuid runtime.generation))

abbrev pub close_evidence :
    Result Failure (Option TaskRunTerminalEvidence) → Option TaskRunTerminalEvidence
close_evidence (ok answer) = answer
close_evidence (err raised) = none

unfoldable pub evidence_of :
    Externals
    → List ResultRow
    → TaskRunResult
    → Option RequestRow
    → Result Failure (Option TaskRunTerminalEvidence)
evidence_of h results view none = ok none
evidence_of h results view (some row) = do
  verified ← validated_task_run_request h results row
  ok (
      if verified.terminal_result_id == some view.result_id
      then some (record { request = verified; result = view })
      else none)

unfoldable pub evidence_found :
    Externals → Tables → Option ResultRow → Result Failure (Option TaskRunTerminalEvidence)
unfolding evidence_of
evidence_found h t none = ok none
evidence_found h t (some row) = do
  view ← validated_task_run_result h row
  evidence_of h t.results view (find_request view.request_id t.requests)

-- `terminal_evidence`
unfoldable pub terminal_evidence : Externals → Tables → String → Option TaskRunTerminalEvidence
unfolding evidence_found
terminal_evidence h t result_id =
    close_evidence (evidence_found h t (find_result result_id t.results))
