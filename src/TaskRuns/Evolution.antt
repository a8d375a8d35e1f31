-- ===== src/TaskRuns/Evolution.antt =====
-- What each transaction of src/switchstand/task_runs.py does to the tables, and sequences of them.
use switchstand.TaskRuns.Submit.{RuntimeCurrentness, execution_of, set_terminal, submit_result}
use switchstand.TaskRuns.Stored.{find_result}
use switchstand.TaskRuns.{
  AgentTaskResult, CurrentWork, ExecutionRow, Failure, Externals, RequestRow, ResultRow, Tables,
  TaskRequest, TaskRunRequest,
}
use switchstand.TaskRuns.Request.{find_operation, find_request, request}
use switchstand.TaskRuns.Execution.{Eligibility, RunReceipt, bind_start, find_execution, run_bound}
use switchstand.Base.{List, Result, String, [], false, none, some, true, ◌++◌, ◌∷◌, ◌≡◌, ◌⊎◌}

-- Two results of different requests or runs that have one digest.
pub record Collision (h : Externals) : Type 0 where
  pub id : String
  pub run : String
  pub result : AgentTaskResult
  pub id' : String
  pub run' : String
  pub result' : AgentTaskResult
  pub same : h.result_digest id run result ≡ h.result_digest id' run' result'
  pub differ : ¬ ((id ≡ id') × (run ≡ run'))

-- a result that is a request's and was stored for a run, unless two digests collide
abbrev pub IsOf : Externals → String → String → ResultRow → Type 0
IsOf h request_id run_id r = ((r.request_id ≡ request_id) × (r.run_id ≡ run_id)) ⊎ Collision h

-- The effects of the transactions: a row is added that conflicts with none, or a terminal result is
-- set that was not set.
pub data Change (h : Externals) : Tables → Tables → Type 0 where
  unchanged : {t : Tables} → Change h t t
  both : {s t u : Tables} → Change h s t → Change h t u → Change h s u
  admitted :
      {t : Tables} (row : RequestRow)
      → find_request row.request_id t.requests ≡ none
      → find_operation row.operation_id t.requests ≡ none
      → row.terminal_result_id ≡ none
      → Change h t (record t { requests = t.requests ++ row ∷ [] })
  bound :
      {t : Tables} (e : ExecutionRow)
      → find_execution e.request_id t.executions ≡ none
      → run_bound e.run_id t.executions ≡ false
      → Change h t (record t { executions = t.executions ++ e ∷ [] })
  stored :
      {t : Tables} (r : ResultRow)
      → find_result r.result_id t.results ≡ none
      → Change h t (record t { results = t.results ++ r ∷ [] })
  ended :
      {t : Tables} (request_id result_id run_id : String) (row : RequestRow) (r : ResultRow)
      → find_request request_id t.requests ≡ some row
      → row.terminal_result_id ≡ none
      → find_result result_id t.results ≡ some r
      → IsOf h request_id run_id r
      → execution_of request_id run_id t.executions ≡ true
      → Change h t (record t { requests = set_terminal request_id result_id t.requests })
  worked :
      {t : Tables} (handles : List String) (works : List CurrentWork)
      → Change h t (record t { handles = handles; works = works })

-- One transaction after another; a request reads the tables before others commit theirs. The
-- canonical work changes as it will.
pub data Run (h : Externals) (s : Tables) : Tables → Type 0 where
  begin : Run h s s
  request_run :
      {t u : Tables} (requester operation_id : String) (intent : TaskRequest)
      → Run h s t
      → Run h s u
      → Run h s (request h t u requester operation_id intent).0
  bind_run :
      {t : Tables} (eligibility : TaskRunRequest → Result Failure Eligibility) (request_id : String)
      (receipt : RunReceipt)
      → Run h s t
      → Run h s (bind_start h eligibility t request_id receipt).0
  submit_run :
      {t : Tables} (request_id result_id : String) (runtime : RuntimeCurrentness)
      (result : AgentTaskResult)
      → Run h s t
      → Run h s (submit_result h t request_id result_id runtime result).0
  work_run :
      {t : Tables} (handles : List String) (works : List CurrentWork)
      → Run h s t
      → Run h s (record t { handles = handles; works = works })
