-- ===== src/TaskRuns/Stored.antt =====
-- The validators of src/switchstand/task_runs.py that read a stored row back.
use switchstand.TaskRuns.{
  is_start, start, value_error, Failure, TaskRunRequest, TaskRunResult, is_implementation,
  AgentTaskResult, Externals, RequestRow, ResultRow, TaskRequest,
}
use switchstand.Base.{
  string_eq, Bool, List, Option, Result, String, [], all, false, if◌then◌else◌, is_none, leb,
  length, none, ok, require, some, text_len, true, ℕ, ◌&&◌, ◌==◌, ◌>>◌, ◌∷◌,
}

-- `Field(min_length=1, max_length=n)`
abbrev pub bounded_text : ℕ → String → Bool
bounded_text n s = leb 1 (text_len s) && leb (text_len s) n

abbrev pub bounded_option : ℕ → Option String → Bool
bounded_option n none = true
bounded_option n (some s) = bounded_text n s

abbrev pub bounded_present : ℕ → Option String → Bool
bounded_present n none = false
bounded_present n (some s) = bounded_text n s

-- what the fields of both classes require
abbrev pub bounded_fields : TaskRequest → Bool
bounded_fields r =
    bounded_text 512 r.observed_revision
    && (bounded_text 8000 r.objective
        && (leb (text_len r.result_contract) 16384 && bounded_option 1024 r.candidate_ref))

-- an `AgentTaskRequest` or an `ImplementationTaskRequest` that can be built
unfoldable pub request_valid : TaskRequest → Bool
unfolding text_len
request_valid r =
    bounded_fields r
    && (if is_implementation r.task_kind
        then bounded_present 1024 r.authorization_ref
          && (bounded_present 1024 r.send_authority_ref && is_start r.continuation)
        else is_none r.authorization_ref && is_none r.send_authority_ref)

unfoldable pub result_valid : AgentTaskResult → Bool
unfolding text_len all
result_valid r =
    bounded_text 128 r.outcome
    && (bounded_text 8000 r.summary
        && (leb (length r.evidence_refs) 64 && all (bounded_text 2048) r.evidence_refs))

-- The payload of a row: an implementation has the continuation of its class.
abbrev pub payload_of : RequestRow → TaskRequest
payload_of row =
    if is_implementation row.columns.task_kind
    then record row.columns { continuation = start }
    else row.columns

-- `select(...).where(key == id)`, of which the code takes one row at most
unfoldable pub find_row {ℓ} : {A : Type ℓ} → (A → String) → String → List A → Option A
find_row key id [] = none
find_row key id (r ∷ rs) = if key r == id then some r else find_row key id rs

abbrev pub find_result : String → List ResultRow → Option ResultRow
find_result = find_row (λ (r : ResultRow). r.result_id)

-- `terminal_owner != request_id` is not the case
abbrev pub owns : String → Option ResultRow → Bool
owns request_id none = false
owns request_id (some r) = r.request_id == request_id

unfoldable pub terminal_owned : List ResultRow → RequestRow → Bool
unfolding find_row
terminal_owned results row = elim row.terminal_result_id [
  | none ↦ true
  | some id ↦ owns row.request_id (find_result id results)
]

abbrev pub view_of : RequestRow → TaskRunRequest
view_of row = record {
  request_id = row.request_id;
  requester_work_id = row.requester_work_id;
  payload = payload_of row;
  terminal_result_id = row.terminal_result_id;
}

unfoldable pub validated_task_run_request :
    Externals → List ResultRow → RequestRow → Result Failure TaskRunRequest
unfolding request_valid terminal_owned
validated_task_run_request h results row = do
  require (request_valid (payload_of row)) value_error
  require (row.content_digest == h.digest row.requester_work_id (payload_of row)) value_error
  require (terminal_owned results row) value_error
  ok (view_of row)

abbrev pub result_view_of : ResultRow → TaskRunResult
result_view_of row = record {
  result_id = row.result_id;
  request_id = row.request_id;
  run_id = row.run_id;
  payload = row.columns;
}

unfoldable pub validated_task_run_result : Externals → ResultRow → Result Failure TaskRunResult
unfolding result_valid
validated_task_run_result h row = do
  require (result_valid row.columns) value_error
  require (row.content_digest == h.result_digest row.request_id row.run_id row.columns) value_error
  ok (result_view_of row)
