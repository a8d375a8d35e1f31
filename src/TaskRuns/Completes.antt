-- ===== src/TaskRuns/Completes.antt =====
-- A request from its admission to its terminal result, in src/switchstand/task_runs.py.
use switchstand.TaskRuns.Evidence.{evidence_after}
use switchstand.TaskRuns.Rows.{execution_count-none, execution_count-append, find_row-new}
use switchstand.TaskRuns.Ended.{submit_current-IsTerminal}
use switchstand.TaskRuns.Admits.{
  new_request-readable, request_admits, IsSha, result_valid-result_checks,
}
use switchstand.TaskRuns.Request.{
  request_ok, request, new_request, find_operation, canonical_revision, get_locked, find_request,
}
use switchstand.TaskRuns.Execution.{
  Eligibility, RunReceipt, bind_current, bind_execution, bind_locked, bind_ok, bind_start,
  bind_verified, find_execution, insert_execution, run_bound,
}
use switchstand.TaskRuns.Stored.{
  request_valid, find_result, payload_of, result_valid, result_view_of, validated_task_run_request,
  validated_task_run_result, view_of,
}
use switchstand.TaskRuns.{
  ResultRow, CurrentWork, TaskRequest, ok_status, AgentTaskResult, ExecutionRow, Failure, Externals,
  RequestRow, Tables, TaskRunRequest, is_implementation, is_start,
}
use switchstand.TaskRuns.Submit.{
  TaskRunResultResult, terminal_evidence, RuntimeCurrentness, execution_count, execution_of,
  new_result, submit_bound, submit_current, submit_for_run, submit_locked, submit_ok, submit_result,
  submit_stored,
}
use switchstand.Base.{
  sym, ◌∙◌, arith, List, any, ap, elem, string_eq, Result, String, [], beq_refl, false, none, ok,
  refl, some, str_iff, true, ◌++◌, ◌∷◌, ◌≡◌,
}

-- A run that is new, for a request that has none, is bound.
bind_admits :
    (h : Externals) (eligibility : TaskRunRequest → Result Failure Eligibility) (t : Tables)
    (row : RequestRow) (receipt : RunReceipt)
    → find_request row.request_id t.requests ≡ some row
    → validated_task_run_request h t.results row ≡ ok (view_of row)
    → (payload_of row).execution_work_id ≡ receipt.active_work_id
    → is_start (payload_of row).continuation ≡ true
    → is_implementation (payload_of row).task_kind ≡ false
    → find_execution row.request_id t.executions ≡ none
    → run_bound receipt.run_id t.executions ≡ false
    → (let e : ExecutionRow = record { request_id = row.request_id; run_id = receipt.run_id } in
        bind_start h eligibility t row.request_id receipt
        ≡ (record t { executions = t.executions ++ e ∷ [] }, bind_ok e))
unfolding bind_start bind_locked bind_verified bind_current bind_execution insert_execution
bind_admits h eligibility t row receipt held readable works starts generic unbound fresh =
    rw (held, readable, (str_iff _ receipt.active_work_id).1 works, starts, unbound, generic, fresh)
      refl

-- The first result of the one run of a request, while the run is current, is terminal.
submit_admits :
    (h : Externals) (t : Tables) (row : RequestRow) (result_id run_id : String)
    (runtime : RuntimeCurrentness) (result : AgentTaskResult)
    → IsSha h
    → find_request row.request_id t.requests ≡ some row
    → validated_task_run_request h t.results row ≡ ok (view_of row)
    → row.terminal_result_id ≡ none
    → execution_of row.request_id run_id t.executions ≡ true
    → execution_count row.request_id t.executions ≡ 1
    → find_result result_id t.results ≡ none
    → h.parse_uuid runtime.generation ≡ some run_id
    → runtime.current_generation ≡ some runtime.generation
    → h.stored_result result ≡ some result
    → result_valid result ≡ true
    → (let r = new_result h row.request_id result_id run_id result in
        let u = record t { results = t.results ++ r ∷ [] } in
        (validated_task_run_result h r ≡ ok (result_view_of r))
        × (submit_result h t row.request_id result_id runtime result
            ≡ submit_current u row.request_id result_id runtime row.terminal_result_id
                (result_view_of r))
        × ((submit_result h t row.request_id result_id runtime result).1
            ≡ submit_ok (result_view_of r)))
unfolding submit_result submit_for_run submit_locked submit_bound submit_stored submit_current
    validated_task_run_result
submit_admits h t row result_id run_id runtime result sha held readable opened runs once fresh
      parsed current kept valid =
    let checks = result_valid-result_checks h row.request_id result_id run_id result sha valid in
    let seal = beq_refl (h.result_digest row.request_id run_id result) in
    (
      rw (valid, seal) refl,
      rw (parsed, held, readable, runs, once, fresh, kept, checks, valid, seal) refl,
      rw
          (
            parsed,
            held,
            readable,
            runs,
            once,
            fresh,
            kept,
            checks,
            valid,
            seal,
            current,
            beq_refl runtime.generation,
            opened,
          )
          refl,
    )

-- The evidence of that result is the request with the result.
submit_admits-evidence :
    (h : Externals) (t : Tables) (row : RequestRow) (result_id run_id : String)
    (runtime : RuntimeCurrentness) (result : AgentTaskResult)
    → find_request row.request_id t.requests ≡ some row
    → validated_task_run_request h t.results row ≡ ok (view_of row)
    → find_result result_id t.results ≡ none
    → (let r = new_result h row.request_id result_id run_id result in
        let u = record t { results = t.results ++ r ∷ [] } in
        let out =
          submit_current u row.request_id result_id runtime row.terminal_result_id
            (result_view_of r) in
        validated_task_run_result h r ≡ ok (result_view_of r)
        → out.1.status ≡ ok_status
        → terminal_evidence h out.0 result_id
          ≡ some (record {
            request = view_of (record row { terminal_result_id = some result_id });
            result = result_view_of r;
          }))
submit_admits-evidence h t row result_id run_id runtime result held readable fresh intact s =
    let r = new_result h row.request_id result_id run_id result in
    let u = record t { results = t.results ++ r ∷ [] } in
    let ended =
      submit_current-IsTerminal row.request_id result_id runtime u row r held
        (find_row-new (λ (x : ResultRow). x.result_id) t.results r fresh) s in
    evidence_after h _ row.request_id result_id runtime _ row r ended t.results (view_of row) refl
      refl refl readable intact

execution_of-new :
    (id run : String) (es : List ExecutionRow)
    → execution_of id run (es ++ record { request_id = id; run_id = run } ∷ []) ≡ true
unfolding execution_of any
execution_of-new id run [] = rw (beq_refl id, beq_refl run) refl
execution_of-new id run (x ∷ es) = ground (arith, execution_of-new id run es)

execution_count-new :
    (id run : String) (es : List ExecutionRow)
    → find_execution id es ≡ none
    → execution_count id (es ++ record { request_id = id; run_id = run } ∷ []) ≡ 1
execution_count-new id run es unbound =
    let e : ExecutionRow = record { request_id = id; run_id = run } in
    execution_count-append id es e ∙ rw (execution_count-none id es unbound, beq_refl id) refl

-- Progress, with no other transaction in between: a registered requester's new operation, with free
-- ids and a valid start request that is no implementation, for registered work that is stored at
-- the observed revision, is admitted. A run for that work that is bound to no request is then bound
-- to it, if the request has no execution yet. A valid result of that run under a free id is then
-- taken as terminal, if the run is the current generation; and the evidence of the result's id is
-- then the request with this result. The digests are assumed to have 64 characters, and PostgreSQL to
-- give the columns of the request and of the result back as they are, which it does not for every
-- JSON value.
pub start_completes :
    (h : Externals) (eligibility : TaskRunRequest → Result Failure Eligibility) (t : Tables)
    (requester operation_id result_id : String) (intent : TaskRequest) (work : CurrentWork)
    (receipt : RunReceipt) (runtime : RuntimeCurrentness) (result : AgentTaskResult)
    → IsSha h
    → h.stored_request intent ≡ some intent
    → request_valid intent ≡ true
    → is_implementation intent.task_kind ≡ false
    → is_start intent.continuation ≡ true
    → elem requester t.handles ≡ true
    → elem intent.execution_work_id t.handles ≡ true
    → get_locked intent.execution_work_id t.works ≡ some work
    → canonical_revision h work ≡ ok intent.observed_revision
    → find_operation operation_id t.requests ≡ none
    → find_request (h.request_uuid operation_id) t.requests ≡ none
    → intent.execution_work_id ≡ receipt.active_work_id
    → find_execution (h.request_uuid operation_id) t.executions ≡ none
    → run_bound receipt.run_id t.executions ≡ false
    → h.parse_uuid runtime.generation ≡ some receipt.run_id
    → runtime.current_generation ≡ some runtime.generation
    → find_result result_id t.results ≡ none
    → h.stored_result result ≡ some result
    → result_valid result ≡ true
    → (let row = new_request h requester operation_id intent in
        let r = new_result h row.request_id result_id receipt.run_id result in
        let asked = request h t t requester operation_id intent in
        let started = bind_start h eligibility asked.0 row.request_id receipt in
        let ended = submit_result h started.0 row.request_id result_id runtime result in
        (asked.1 ≡ request_ok (view_of row))
        × (started.1.status ≡ ok_status)
        × (ended.1 ≡ submit_ok (result_view_of r))
        × (terminal_evidence h ended.0 result_id
            ≡ some (record {
              request = view_of (record row { terminal_result_id = some result_id });
              result = result_view_of r;
            })))
start_completes h eligibility t requester operation_id result_id intent work receipt runtime result
      sha kept valid generic starts asks runs current revision fresh fresh_id works unbound
      fresh_run parsed now fresh_result kept_result valid_result =
    let row = new_request h requester operation_id intent in
    let e : ExecutionRow = record { request_id = row.request_id; run_id = receipt.run_id } in
    let asked = record t { requests = t.requests ++ row ∷ [] } in
    let started = record asked { executions = t.executions ++ e ∷ [] } in
    let admitted =
      request_admits h t requester operation_id intent work sha kept valid generic starts asks runs
        current revision fresh fresh_id in
    let held = find_row-new (λ (x : RequestRow). x.request_id) t.requests row fresh_id in
    let readable = new_request-readable h t.results requester operation_id intent valid generic in
    let bound =
      bind_admits h eligibility asked row receipt held readable (rw generic works)
        (rw generic starts) (rw generic generic) unbound fresh_run in
    let (intact, is, answer) =
      submit_admits h started row result_id receipt.run_id runtime result sha held readable refl
        (execution_of-new row.request_id receipt.run_id t.executions)
        (execution_count-new row.request_id receipt.run_id t.executions unbound) fresh_result parsed
        now kept_result valid_result in
    let evidence =
      submit_admits-evidence h started row result_id receipt.run_id runtime result held readable
        fresh_result intact
        (ap (λ (a : TaskRunResultResult). a.status) (ap (λ o. o.1) (sym is) ∙ answer)) in
    rw (admitted, bound) (refl, refl, answer, rw is evidence)
