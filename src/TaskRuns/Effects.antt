-- ===== src/TaskRuns/Effects.antt =====
-- The effect of each transaction of src/switchstand/task_runs.py is a change of the tables.
use switchstand.TaskRuns.Commits.{Commits, commits, raises, bind-Commits, close-Commits}
use switchstand.TaskRuns.Stored.{validated_task_run_request}
use switchstand.TaskRuns.{
  as_stored, CurrentWork, ExecutionRow, Failure, Externals, RequestRow, Tables, TaskRequest,
  TaskRunRequest, is_implementation, is_start, sql_error,
}
use switchstand.TaskRuns.Request.{
  insert_row, replay_found, replay_request, admit_current, admit_request, after_insert,
  canonical_revision, conflicts, find_operation, find_request, get_locked, insert_fresh,
  insert_request, new_request, request, request_checks, request_in_transaction, request_known,
  request_unreplayed,
}
use switchstand.Base.{
  bind_passed, string_eq, Bool, Option, Option-cases, Result, String, [], ap, elem, err, false,
  if_both, if_known, inl, inr, none, not, ok, refl, require_passed, some, subst, true, ◌&&◌, ◌++◌,
  ◌==◌, ◌∙◌, ◌∷◌, ◌≡◌,
}
use switchstand.TaskRuns.Evolution.{Change, admitted, bound, unchanged}
use switchstand.TaskRuns.Execution.{
  Eligibility, RunReceipt, TaskRunBindResult, bind_current, bind_execution, bind_locked, bind_start,
  bind_verified, eligible_bind, find_execution, insert_execution, is_other_run, refused, replayed,
  run_bound,
}

-- An insert that returns a row found neither id, and added the row.
insert_fresh-added :
    (u t' : Tables) (row row' : RequestRow)
    → insert_fresh u row ≡ ok (some (t', row'))
    → (record u { requests = u.requests ++ row ∷ [] } ≡ t') × (row ≡ row')
unfolding insert_fresh
insert_fresh-added u t' row row' p =
    let (keys, p2) =
      require_passed
        (elem row.requester_work_id u.handles && elem row.columns.execution_work_id u.handles)
        sql_error (ok (some (record u { requests = u.requests ++ row ∷ [] }, row)))
        (some (t', row')) p in
    (cc, cc)

insert_row-added :
    (u t' : Tables) (row row' : RequestRow)
    → insert_row u row ≡ ok (some (t', row'))
    → (find_request row.request_id u.requests ≡ none)
      × (find_operation row.operation_id u.requests ≡ none)
      × (record u { requests = u.requests ++ row ∷ [] } ≡ t')
      × (row ≡ row')
unfolding insert_row conflicts
insert_row-added u t' row row' p =
    let (checked, p1) = require_passed (request_checks row) _ _ (some (t', row')) p in
    elim (Option-cases (find_request row.request_id u.requests)) [
      | inr (a, e1) ↦ absurd (cc (rw e1 at p1))
      | inl e1 ↦ elim (Option-cases (find_operation row.operation_id u.requests)) [
        | inr (a, e2) ↦ absurd (cc (rw (e1, e2) at p1))
        | inl e2 ↦
            let (added, is) = insert_fresh-added u t' row row' (rw (e1, e2) at p1) in
            (e1, e2, added, is)
      ]
    ]

-- The row that an insert returns is the given one, with the columns as they are stored.
pub insert_request-added :
    (h : Externals) (u t' : Tables) (row row' : RequestRow)
    → insert_request h u row ≡ ok (some (t', row'))
    → (find_request row'.request_id u.requests ≡ none)
      × (find_operation row'.operation_id u.requests ≡ none)
      × (record u { requests = u.requests ++ row' ∷ [] } ≡ t')
      × ((columns : TaskRequest) × (record row { columns = columns } ≡ row'))
unfolding insert_request
insert_request-added h u t' row row' p =
    let (columns, e, p1) = bind_passed (as_stored (h.stored_request row.columns)) _ p in
    let (no_request, no_operation, added, is) =
      insert_row-added u t' (record row { columns = columns }) row' p1 in
    (
      subst (λ (x : RequestRow). find_request x.request_id u.requests ≡ none) is no_request,
      subst (λ (x : RequestRow). find_operation x.operation_id u.requests ≡ none) is no_operation,
      subst (λ (x : RequestRow). record u { requests = u.requests ++ x ∷ [] } ≡ t') is added,
      (columns, is),
    )

-- the tables that are committed are a change of `t`
abbrev pub Keeps {ℓ} : {A : Type ℓ} → Externals → Tables → Tables × A → Type 0
Keeps h t out = Change h t out.0

module _ (h : Externals) where
  insert_request-Change :
      (u t' : Tables) (row row' : RequestRow)
      → row.terminal_result_id ≡ none
      → insert_request h u row ≡ ok (some (t', row'))
      → Change h u t'
  insert_request-Change u t' row row' e p =
      let (no_request, no_operation, is, (columns, stored)) =
        insert_request-added h u t' row row' p in
      subst (Change h u) is (
        admitted row' no_request no_operation
          (subst (λ (x : RequestRow). x.terminal_result_id ≡ none) stored e))

  after_insert-Change :
      (u : Tables) (row : RequestRow) (inserted : Option (Tables × RequestRow))
      → ((t' : Tables) (row' : RequestRow) → inserted ≡ some (t', row') → Change h u t')
      → Commits (Keeps h u) (after_insert h u row inserted)
  unfolding after_insert
  after_insert-Change u row (some (t', row')) k =
      bind-Commits (Keeps h u) (validated_task_run_request h t'.results row') _
        (λ v e. commits (k t' row' refl))
  after_insert-Change u row none k =
      bind-Commits (Keeps h u)
        (replay_found h u.results row.content_digest (find_operation row.operation_id u.requests)) _
        (λ v e. commits unchanged)

  admit_current-Change :
      (u : Tables) (requester operation_id : String) (intent : TaskRequest) (current : Bool)
      → Commits (Keeps h u) (admit_current h u requester operation_id intent current)
  unfolding admit_current
  admit_current-Change u requester operation_id intent false = commits unchanged
  admit_current-Change u requester operation_id intent true =
      let row = new_request h requester operation_id intent in
      if_both (Commits (Keeps h u)) (not (is_start intent.continuation)) _ _ (commits unchanged) (
        bind-Commits (Keeps h u) (insert_request h u row) _ λ inserted e.
          after_insert-Change u row inserted
            (λ t' row' e'. insert_request-Change u t' row row' refl (e ∙ ap ok e')))

  request_known-Change :
      (t u : Tables) (requester operation_id : String) (intent : TaskRequest)
      (row : Option RequestRow)
      → Commits (Keeps h u) (request_known h t u requester operation_id intent row)
  unfolding request_known request_unreplayed
  request_known-Change t u requester operation_id intent (some row) =
      bind-Commits (Keeps h u) (replay_request h t.results (h.digest requester intent) row) _
        (λ answer e. commits unchanged)
  request_known-Change t u requester operation_id intent none =
      if_both (Commits (Keeps h u)) (not (elem requester t.handles)) _ _ (commits unchanged)
        (admitted_by (get_locked intent.execution_work_id t.works))
    where
      admitted_by :
          (work : Option CurrentWork)
          → Commits (Keeps h u) (admit_request h u requester operation_id intent work)
      admitted_by none = commits unchanged
      admitted_by (some work) =
          bind-Commits (Keeps h u) (canonical_revision h work) _
            (λ revision e. admit_current-Change u requester operation_id intent _)

  pub request-Change :
      (t u : Tables) (requester operation_id : String) (intent : TaskRequest)
      → Change h u (request h t u requester operation_id intent).0
  unfolding request request_in_transaction
  request-Change t u requester operation_id intent = close-Commits (Keeps h u) unchanged (
      request_known-Change t u requester operation_id intent
        (find_operation operation_id t.requests))

  bind_execution-Change :
      (t : Tables) (e : ExecutionRow) (current : Option ExecutionRow)
      → find_execution e.request_id t.executions ≡ current
      → Change h t (bind_execution t e current).0
  unfolding bind_execution insert_execution
  bind_execution-Change t e (some current) p = unchanged
  bind_execution-Change t e none p =
      if_known (λ (r : Tables × TaskRunBindResult). Change h t r.0)
        (run_bound e.run_id t.executions) _ _ (λ b. unchanged) (bound e p)

  eligible_bind-Change :
      (t : Tables) (e : ExecutionRow) (current : Option ExecutionRow)
      (answer : Result Failure Eligibility)
      → find_execution e.request_id t.executions ≡ current
      → Commits (Keeps h t) (eligible_bind t e current answer)
  eligible_bind-Change t e current (err raised) p = raises
  eligible_bind-Change t e current (ok replayed) p = commits (bind_execution-Change t e current p)
  eligible_bind-Change t e current (ok (refused because reason)) p = commits unchanged

  bind_current-Change :
      (eligibility : TaskRunRequest → Result Failure Eligibility) (t : Tables)
      (verified : TaskRunRequest) (e : ExecutionRow) (current : Option ExecutionRow)
      → find_execution e.request_id t.executions ≡ current
      → Commits (Keeps h t) (bind_current eligibility t verified e current)
  unfolding bind_current
  bind_current-Change eligibility t verified e current p =
      if_both (Commits (Keeps h t)) (is_other_run e.run_id current) _ _ (commits unchanged) (
        if_both (Commits (Keeps h t)) (is_implementation verified.payload.task_kind) _ _
          (eligible_bind-Change t e current (eligibility verified) p)
          (commits (bind_execution-Change t e current p)))

  bind_verified-Change :
      (eligibility : TaskRunRequest → Result Failure Eligibility) (t : Tables) (request_id : String)
      (receipt : RunReceipt) (verified : TaskRunRequest)
      → Commits (Keeps h t) (bind_verified eligibility t request_id receipt verified)
  unfolding bind_verified
  bind_verified-Change eligibility t request_id receipt verified =
      if_both (Commits (Keeps h t))
        (not (verified.payload.execution_work_id == receipt.active_work_id)) _ _ (commits unchanged)
        (if_both (Commits (Keeps h t)) (not (is_start verified.payload.continuation)) _ _
          (commits unchanged)
          (bind_current-Change eligibility t verified
            (record { request_id = request_id; run_id = receipt.run_id })
            (find_execution request_id t.executions) refl))

  pub bind_start-Change :
      (eligibility : TaskRunRequest → Result Failure Eligibility) (t : Tables) (request_id : String)
      (receipt : RunReceipt)
      → Change h t (bind_start h eligibility t request_id receipt).0
  unfolding bind_start bind_locked
  bind_start-Change eligibility t request_id receipt =
      close-Commits (Keeps h t) unchanged (locked (find_request request_id t.requests))
    where
      locked :
          (row : Option RequestRow)
          → Commits (Keeps h t) (bind_locked h eligibility t request_id receipt row)
      locked none = commits unchanged
      locked (some row) =
          bind-Commits (Keeps h t) (validated_task_run_request h t.results row) _
            (λ verified e. bind_verified-Change eligibility t request_id receipt verified)
