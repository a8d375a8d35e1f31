-- ===== src/TaskRuns/Examples.antt =====
-- Tests of src/switchstand/task_runs.py on concrete tables, and the instances of the theorems.
use switchstand.TaskRuns.Reads.{get_implementation_in_transaction}
use switchstand.TaskRuns.Completes.{start_completes}
use switchstand.TaskRuns.Ending.{Run-Change}
use switchstand.TaskRuns.Admits.{IsSha}
use switchstand.TaskRuns.Submitted.{IsSubmitted, submit_result-IsSubmitted}
use switchstand.TaskRuns.Replay.{request_again}
use switchstand.TaskRuns.Submit.{
  new_result, submit_ok, RuntimeCurrentness, submit_result, terminal_evidence,
}
use switchstand.TaskRuns.Soundness.{IsSound, Run-IsSound, empty-IsSound}
use switchstand.TaskRuns.Evidence.{terminal_evidence-submit_result}
use switchstand.TaskRuns.Terminal.{FoundLater, Later, Run-Later}
use switchstand.TaskRuns.Request.{
  request_failed, find_operation, get_locked, canonical_revision, find_request, new_request,
  request, request_in_transaction, request_ok,
}
use switchstand.TaskRuns.Execution.{
  find_execution, run_bound, Eligibility, RunReceipt, bind_start, refused,
}
use switchstand.TaskRuns.Evolution.{Change, Collision, begin, bind_run, request_run, submit_run}
use switchstand.TaskRuns.Stored.{
  validated_task_run_request, terminal_owned, find_result, result_view_of, request_valid,
  result_valid, find_row, view_of,
}
use switchstand.TaskRuns.{
  state_unavailable, unknown, sql_error, implementation, AgentTaskResult, Failure, Externals,
  RequestRow, Tables, TaskRequest, TaskRunRequest, TaskRunResult, denied, investigation,
  no_send_authority, ok_status, stale, start, terminal_result_conflict,
}
use switchstand.Base.{
  not, err, false, if_both, all, any, true, text_len, elem, Result, String, [], if◌then◌else◌,
  nat_beq, none, ok, refl, some, string_eq, ◌&&◌, ◌<>◌, ◌==◌, ◌∷◌, ◌≡◌, ◌⊎◌,
}

-- two texts of the length of a digest
abbrev digest_one : String
digest_one = "1111111111111111111111111111111111111111111111111111111111111111"

abbrev digest_two : String
digest_two = "2222222222222222222222222222222222222222222222222222222222222222"

abbrev hashes : Externals
hashes = record {
  digest = λ requester intent.
      if requester == "package" && not (intent.result_contract == "{\"x\":1e16}")
      then digest_one
      else digest_two;
  result_digest =
      λ id run result. if id == "request-op" && run == "run" then digest_one else digest_two;
  revision_digest = λ work version. if nat_beq version 3 then digest_one else digest_two;
  request_uuid = λ op. "request-" <> op;
  operation_uuid = λ digest. "op-" <> digest;
  parse_uuid = λ text. if text == "" then none else some text;
  stored_request = λ request.
      if request.result_contract == "{\"x\":1e16}"
      then some (record request { result_contract = "{\"x\":10000000000000000}" })
      else some request;
  stored_result = λ result. if result.summary == "\0" then none else some result;
}

abbrev intent : TaskRequest
intent = record {
  execution_work_id = "work";
  observed_revision = "pg_" <> digest_one;
  task_kind = investigation;
  objective = "find the cause";
  result_contract = "{}";
  continuation = start;
  candidate_ref = none;
  authorization_ref = none;
  send_authority_ref = none;
}

abbrev empty : Tables
empty = record {
  handles = "package" ∷ "work" ∷ [];
  works = record { work_id = "work"; row_version = 3 } ∷ [];
  requests = [];
  executions = [];
  results = [];
}

abbrev asked : Tables
asked = (request hashes empty empty "package" "op" intent).0

abbrev receipt : RunReceipt
receipt = record { run_id = "run"; active_work_id = "work" }

abbrev ineligible : TaskRunRequest → Result Failure Eligibility
ineligible r = ok (refused denied no_send_authority)

abbrev started : Tables
started = (bind_start hashes ineligible asked "request-op" receipt).0

abbrev runtime : RuntimeCurrentness
runtime = record { generation = "run"; current_generation = some "run" }

abbrev found : AgentTaskResult
found = record { outcome = "done"; summary = "a race"; evidence_refs = "log" ∷ [] }

abbrev finished : Tables
finished = (submit_result hashes started "request-op" "result" runtime found).0

asked_ok : (request hashes empty empty "package" "op" intent).1.status ≡ ok_status
unfolding request request_in_transaction find_row elem
asked_ok = refl

started_ok : (bind_start hashes ineligible asked "request-op" receipt).1.status ≡ ok_status
unfolding bind_start request find_row elem
started_ok = refl

submitted_ok :
    (submit_result hashes started "request-op" "result" runtime found).1.status ≡ ok_status
unfolding submit_result bind_start request find_row elem
submitted_ok = refl

-- A contract that JSONB gives back changed has another digest than the one that was stored.
changed_contract :
    request hashes empty empty "package" "op" (record intent { result_contract = "{\"x\":1e16}" })
    ≡ (empty, request_failed unknown state_unavailable)
unfolding request request_in_transaction find_row elem request_valid text_len
changed_contract = refl

-- A superseded run leaves its result in the table, and the request open.
superseded :
    (submit_result hashes started "request-op" "result"
      (record { generation = "run"; current_generation = some "next" })
      found).1.status
    ≡ stale
unfolding submit_result bind_start request find_row elem
superseded = refl

abbrev row : RequestRow
row = new_request hashes "package" "op" intent

-- An implementation request is found by its work, revision and authorization.
abbrev implementation_row : RequestRow
implementation_row = new_request hashes "package" "op-2" (record {
  execution_work_id = "package";
  observed_revision = "pg_" <> digest_two;
  task_kind = implementation;
  objective = "repair it";
  result_contract = "{}";
  continuation = start;
  candidate_ref = none;
  authorization_ref = some "outcome/1";
  send_authority_ref = some "grant/key";
})

implementation_found :
    get_implementation_in_transaction hashes
      (record asked { requests = row ∷ implementation_row ∷ [] })
      "package"
      ("pg_" <> digest_two)
      "outcome/1"
    ≡ ok (request_ok (view_of implementation_row))
unfolding get_implementation_in_transaction request_valid text_len terminal_owned request find_row
    elem validated_task_run_request
implementation_found = refl

-- Two requests of one authorization raise.
implementation_twice :
    get_implementation_in_transaction hashes
      (record asked { requests = implementation_row ∷ implementation_row ∷ [] })
      "package"
      ("pg_" <> digest_two)
      "outcome/1"
    ≡ err sql_error
unfolding get_implementation_in_transaction request find_row elem
implementation_twice = refl

-- Another result does not replace the terminal one.
second_result :
    (submit_result hashes finished "request-op" "other" runtime found).1.reason
    ≡ some terminal_result_conflict
unfolding submit_result bind_start request find_row elem
second_result = refl

row_found : find_request "request-op" asked.requests ≡ some row
unfolding request find_row elem
row_found = refl

Run-Later_example : FoundLater finished "request-op" row
Run-Later_example =
    Run-Later {h = hashes} {s = asked} {t = finished} "request-op" row
      (submit_run "request-op" "result" runtime found
        (bind_run ineligible "request-op" receipt begin))
      row_found

Run-IsSound_example : IsSound hashes finished
Run-IsSound_example =
    Run-IsSound {h = hashes} {s = empty} {t = finished}
      (submit_run "request-op" "result" runtime found
        (bind_run ineligible "request-op" receipt (request_run "package" "op" intent begin begin)))
      (empty-IsSound hashes empty.handles empty.works)

submit_result-IsSubmitted_example :
    IsSubmitted hashes started finished "request-op" "result" runtime found
      (submit_result hashes started "request-op" "result" runtime found).1
submit_result-IsSubmitted_example =
    submit_result-IsSubmitted hashes started "request-op" "result" runtime found submitted_ok

terminal_evidence-submit_result_example :
    ((view : TaskRunResult) × (old : RequestRow) × (find_request "request-op" started.requests
        ≡ some old)
      × ((submit_result hashes started "request-op" "result" runtime found).1.result ≡ some view)
      × (terminal_evidence hashes finished "result"
          ≡ some (record {
            request = view_of (record old { terminal_result_id = some "result" });
            result = view;
          })))
    ⊎ Collision hashes
terminal_evidence-submit_result_example =
    terminal_evidence-submit_result hashes started "request-op" "result" runtime found submitted_ok

request_again_example :
    ((row row' : RequestRow) × ((request hashes empty empty "package" "op" intent).1.request
        ≡ some (view_of row))
      × Later row row'
      × (request hashes finished finished "package" "op" intent
          ≡ (finished, request_ok (view_of row'))))
    ⊎ Collision hashes
request_again_example =
    request_again hashes empty empty finished finished "package" "op" intent
      (empty-IsSound hashes empty.handles empty.works) begin asked_ok
      (submit_run "request-op" "result" runtime found
        (bind_run ineligible "request-op" receipt begin))

Run-Change_example : Change hashes empty finished
Run-Change_example = Run-Change hashes {s = empty} {t = finished} (
    submit_run "request-op" "result" runtime found
      (bind_run ineligible "request-op" receipt (request_run "package" "op" intent begin begin)))

hashes-IsSha : IsSha hashes
unfolding text_len
hashes-IsSha = (
  λ requester intent.
      if_both (λ d. text_len d ≡ 64)
        (requester == "package" && not (intent.result_contract == "{\"x\":1e16}")) digest_one
        digest_two refl refl,
  λ id run result.
      if_both (λ d. text_len d ≡ 64) (id == "request-op" && run == "run") digest_one digest_two refl
        refl,
)

intent_valid : request_valid intent ≡ true
unfolding request_valid text_len
intent_valid = refl

found_valid : result_valid found ≡ true
unfolding result_valid text_len all
found_valid = refl

work_held :
    (elem "package" empty.handles ≡ true)
    × (elem "work" empty.handles ≡ true)
    × (get_locked "work" empty.works ≡ some (record { work_id = "work"; row_version = 3 }))
    × (canonical_revision hashes (record { work_id = "work"; row_version = 3 })
        ≡ ok intent.observed_revision)
unfolding elem find_row canonical_revision
work_held = (refl, refl, refl, refl)

tables_empty :
    (find_operation "op" empty.requests ≡ none)
    × (find_request "request-op" empty.requests ≡ none)
    × (find_execution "request-op" empty.executions ≡ none)
    × (run_bound "run" empty.executions ≡ false)
    × (find_result "result" empty.results ≡ none)
unfolding find_row run_bound any
tables_empty = (refl, refl, refl, refl, refl)

start_completes_example :
    ((request hashes empty empty "package" "op" intent).1 ≡ request_ok (view_of row))
    × ((bind_start hashes ineligible asked "request-op" receipt).1.status ≡ ok_status)
    × ((submit_result hashes started "request-op" "result" runtime found).1
        ≡ submit_ok (result_view_of (new_result hashes "request-op" "result" "run" found)))
    × (terminal_evidence hashes finished "result"
        ≡ some (record {
          request = view_of (record row { terminal_result_id = some "result" });
          result = result_view_of (new_result hashes "request-op" "result" "run" found);
        }))
start_completes_example =
    start_completes hashes ineligible empty "package" "op" "result" intent
      (record { work_id = "work"; row_version = 3 }) receipt runtime found hashes-IsSha refl
      intent_valid refl refl work_held.0 work_held.1 work_held.2 work_held.3 tables_empty.0
      tables_empty.1 refl tables_empty.2 tables_empty.3 refl refl tables_empty.4 refl found_valid
