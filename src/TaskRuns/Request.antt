-- ===== src/TaskRuns/Request.antt =====
-- `canonical_revision` and `get_locked` of src/switchstand/tracker/work.py, and of `TaskRunState` of
-- src/switchstand/task_runs.py the methods that admit a request.
use switchstand.Base.{
  true, false, option_eq, Bool, List, Option, Result, String, [], elem, if◌then◌else◌, is_none,
  is_some, leb, nat_beq, none, not, ok, require, some, string_eq, text_len, ◌&&◌, ◌++◌, ◌<>◌, ◌==◌,
  ◌>>=◌, ◌>>◌, ◌||◌, ◌∷◌,
}
use switchstand.TaskRuns.Stored.{find_row, validated_task_run_request}
use switchstand.TaskRuns.{
  as_stored, close_transaction, CurrentWork, Failure, Externals, Reason, RequestRow, RequestStatus,
  ResultRow, Tables, TaskRequest, TaskRunRequest, TaskRunRequestResult, conflict,
  continuation_not_bound, denied, execution_work_not_found, is_implementation, is_start, ok_status,
  operation_identity_conflict, requester_work_not_found, source_revision_changed, sql_error, stale,
  state_unavailable, unknown, value_error,
}

-- `canonical_revision`
unfoldable pub canonical_revision : Externals → CurrentWork → Result Failure String
canonical_revision h work = do
  require (leb 1 work.row_version) value_error
  ok ("pg_" <> h.revision_digest work.work_id work.row_version)

-- the row of an operation, of which there is one at most
abbrev pub find_operation : String → List RequestRow → Option RequestRow
find_operation = find_row (λ (r : RequestRow). r.operation_id)

abbrev pub find_request : String → List RequestRow → Option RequestRow
find_request = find_row (λ (r : RequestRow). r.request_id)

-- `get_locked`
abbrev pub get_locked : String → List CurrentWork → Option CurrentWork
get_locked = find_row (λ (w : CurrentWork). w.work_id)

-- `task_request_operation_id`
unfoldable pub task_request_operation_id : Externals → String → TaskRequest → String
task_request_operation_id h requester request = h.operation_uuid (h.digest requester request)

abbrev pub request_failed : RequestStatus → Reason → TaskRunRequestResult
request_failed status reason = record { status = status; request = none; reason = some reason }

abbrev pub request_ok : TaskRunRequest → TaskRunRequestResult
request_ok r = record { status = ok_status; request = some r; reason = none }

-- `ck_task_run_request_authority`
abbrev pub authority_checked : TaskRequest → Bool
authority_checked r =
    if is_implementation r.task_kind
    then is_some r.authorization_ref && is_some r.send_authority_ref
    else is_none r.authorization_ref && is_none r.send_authority_ref

-- the check constraints of `task_run_requests`
unfoldable pub request_checks : RequestRow → Bool
unfolding text_len
request_checks row =
    leb 1 (text_len row.columns.observed_revision)
    && (authority_checked row.columns
        && (not (row.columns.candidate_ref == some "")
            && (leb 1 (text_len row.columns.objective)
                && nat_beq (text_len row.content_digest) 64)))

-- a primary key or unique constraint has the row's ids already
unfoldable pub conflicts : Tables → RequestRow → Bool
unfolding find_row
conflicts t row =
    is_some (find_request row.request_id t.requests)
    || is_some (find_operation row.operation_id t.requests)

-- the insert, under the foreign keys
unfoldable pub insert_fresh : Tables → RequestRow → Result Failure (Option (Tables × RequestRow))
insert_fresh t row = do
  require (elem row.requester_work_id t.handles && elem row.columns.execution_work_id t.handles)
      sql_error
  ok (some (record t { requests = t.requests ++ row ∷ [] }, row))

-- the insert of a row as it is stored
unfoldable pub insert_row : Tables → RequestRow → Result Failure (Option (Tables × RequestRow))
unfolding request_checks conflicts insert_fresh
insert_row t row = do
  require (request_checks row) sql_error
  if conflicts t row then ok none else insert_fresh t row

-- `insert(task_run_requests)...on_conflict_do_nothing().returning(...)`: the tables and the row that
-- is stored, or none on a conflict
unfoldable pub insert_request :
    Externals → Tables → RequestRow → Result Failure (Option (Tables × RequestRow))
unfolding insert_row
insert_request h t row = do
  columns ← as_stored (h.stored_request row.columns)
  insert_row t (record row { columns = columns })

-- the row that is inserted
abbrev pub new_request : Externals → String → String → TaskRequest → RequestRow
new_request h requester operation_id request = record {
  request_id = h.request_uuid operation_id;
  operation_id = operation_id;
  requester_work_id = requester;
  columns = request;
  content_digest = h.digest requester request;
  terminal_result_id = none;
}

-- the answer from a row that the operation has already
unfoldable pub replay_request :
    Externals → List ResultRow → String → RequestRow → Result Failure TaskRunRequestResult
unfolding validated_task_run_request
replay_request h results digest row = do
  verified ← validated_task_run_request h results row
  ok (
      if row.content_digest == digest
      then request_ok verified
      else request_failed conflict operation_identity_conflict)

-- the answer from the second look for the operation's row
unfoldable pub replay_found :
    Externals → List ResultRow → String → Option RequestRow → Result Failure TaskRunRequestResult
unfolding replay_request
replay_found h results digest none = ok (request_failed conflict operation_identity_conflict)
replay_found h results digest (some row) = replay_request h results digest row

-- the end of the transaction, by what the insert returned
unfoldable pub after_insert :
    Externals
    → Tables
    → RequestRow
    → Option (Tables × RequestRow)
    → Result Failure (Tables × TaskRunRequestResult)
unfolding replay_found
after_insert h t row (some (inserted, returned)) = do
  verified ← validated_task_run_request h inserted.results returned
  ok (inserted, request_ok verified)
after_insert h t row none = do
  answer ← replay_found h t.results row.content_digest (find_operation row.operation_id t.requests)
  ok (t, answer)

-- the checks on the revision and the continuation, and the insert
unfoldable pub admit_current :
    Externals
    → Tables
    → String
    → String
    → TaskRequest
    → Bool
    → Result Failure (Tables × TaskRunRequestResult)
unfolding after_insert insert_request
admit_current h t requester operation_id request false =
    ok (t, request_failed stale source_revision_changed)
admit_current h t requester operation_id request true =
    if not (is_start request.continuation)
    then ok (t, request_failed denied continuation_not_bound)
    else insert_request h t (new_request h requester operation_id request)
      >>= after_insert h t (new_request h requester operation_id request)

-- the checks on the work that executes, and the insert
unfoldable pub admit_request :
    Externals
    → Tables
    → String
    → String
    → TaskRequest
    → Option CurrentWork
    → Result Failure (Tables × TaskRunRequestResult)
unfolding admit_current canonical_revision
admit_request h u requester operation_id request none =
    ok (u, request_failed denied execution_work_not_found)
admit_request h u requester operation_id request (some work) = do
  revision ← canonical_revision h work
  admit_current h u requester operation_id request (revision == request.observed_revision)

-- the request of an operation that has no row yet. The tables are `t` at the reads, and `u` at the
-- insert: other transactions may commit in between.
unfoldable pub request_unreplayed :
    Externals
    → Tables
    → Tables
    → String
    → String
    → TaskRequest
    → Result Failure (Tables × TaskRunRequestResult)
unfolding admit_request
request_unreplayed h t u requester operation_id request =
    if not (elem requester t.handles)
    then ok (u, request_failed denied requester_work_not_found)
    else admit_request h u requester operation_id request
        (get_locked request.execution_work_id t.works)

-- the two ways of the request, by the row that the operation has
unfoldable pub request_known :
    Externals
    → Tables
    → Tables
    → String
    → String
    → TaskRequest
    → Option RequestRow
    → Result Failure (Tables × TaskRunRequestResult)
unfolding request_unreplayed replay_request
request_known h t u requester operation_id request none =
    request_unreplayed h t u requester operation_id request
request_known h t u requester operation_id request (some row) = do
  answer ← replay_request h t.results (h.digest requester request) row
  ok (u, answer)

-- `request_in_transaction`
unfoldable pub request_in_transaction :
    Externals
    → Tables
    → Tables
    → String
    → String
    → TaskRequest
    → Result Failure (Tables × TaskRunRequestResult)
unfolding request_known find_row
request_in_transaction h t u requester operation_id request =
    request_known h t u requester operation_id request (find_operation operation_id t.requests)

-- `request`
unfoldable pub request :
    Externals → Tables → Tables → String → String → TaskRequest → Tables × TaskRunRequestResult
unfolding request_in_transaction
request h t u requester operation_id intent =
    close_transaction u (request_failed unknown state_unavailable)
      (request_in_transaction h t u requester operation_id intent)
