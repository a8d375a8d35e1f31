-- ===== src/TaskRuns/Admits.antt =====
-- Requests that `request` of src/switchstand/task_runs.py admits, and rows that read back.
use switchstand.Base.{
  option_eq, str_iff, inl, inr, Bool-cases, ◌==◌, not, Option, arith, ℕ, string_eq, List, String,
  [], beq_refl, elem, false, none, ok, refl, some, text_len, true, ◌++◌, ◌∷◌, ◌≡◌,
}
use switchstand.TaskRuns.Submit.{new_result, result_checks}
use switchstand.TaskRuns.Stored.{
  bounded_option, request_valid, result_valid, terminal_owned, validated_task_run_request, view_of,
}
use switchstand.TaskRuns.{
  AgentTaskResult, CurrentWork, Externals, ResultRow, Tables, TaskRequest, is_implementation,
  is_start,
}
use switchstand.TaskRuns.Request.{
  insert_row, admit_current, admit_request, after_insert, canonical_revision, conflicts,
  find_operation, find_request, get_locked, insert_fresh, insert_request, new_request, request,
  request_checks, request_in_transaction, request_known, request_ok, request_unreplayed,
}

-- the digest of a request has the length of a SHA-256 digest in hexadecimal
abbrev pub IsSha : Externals → Type 0
IsSha h =
    ((requester : String) (intent : TaskRequest) → text_len (h.digest requester intent) ≡ 64)
    × ((request_id run_id : String) (result : AgentTaskResult)
        → text_len (h.result_digest request_id run_id result) ≡ 64)

-- A bounded text is not empty.
bounded_option-not_empty :
    (n : ℕ) (c : Option String) → bounded_option n c ≡ true → not (c == some "") ≡ true
unfolding text_len
bounded_option-not_empty n none h = refl
bounded_option-not_empty n (some s) h = elim (Bool-cases (s == "")) [
  | inr full ↦ rw full refl
  | inl blank ↦ absurd (cc (rw ((str_iff s "").0 blank) at h))
]

-- A valid request passes the check constraints of its table.
request_valid-request_checks :
    (h : Externals) (requester operation_id : String) (intent : TaskRequest)
    → IsSha h
    → request_valid intent ≡ true
    → is_implementation intent.task_kind ≡ false
    → request_checks (new_request h requester operation_id intent) ≡ true
unfolding request_valid request_checks text_len
request_valid-request_checks h requester operation_id intent sha valid generic =
    let length = sha.0 requester intent in
    let named =
      bounded_option-not_empty 1024 intent.candidate_ref (ground (arith, rw generic at valid)) in
    ground (arith, rw generic at valid, named, length)

-- A valid result passes those of its table.
pub result_valid-result_checks :
    (h : Externals) (request_id result_id run_id : String) (result : AgentTaskResult)
    → IsSha h
    → result_valid result ≡ true
    → result_checks (new_result h request_id result_id run_id result) ≡ true
unfolding result_valid result_checks
result_valid-result_checks h request_id result_id run_id result sha valid =
    ground (arith, sha.1 request_id run_id result)

-- The row of a valid request reads back, whatever results there are.
pub new_request-readable :
    (h : Externals) (results : List ResultRow) (requester operation_id : String)
    (intent : TaskRequest)
    → request_valid intent ≡ true
    → is_implementation intent.task_kind ≡ false
    → (let row = new_request h requester operation_id intent in
        validated_task_run_request h results row ≡ ok (view_of row))
unfolding validated_task_run_request terminal_owned
new_request-readable h results requester operation_id intent valid generic =
    rw (generic, valid, beq_refl (h.digest requester intent)) refl

-- A new operation of a registered requester, at the current revision, is admitted, if PostgreSQL
-- gives its columns back as they are.
pub request_admits :
    (h : Externals) (t : Tables) (requester operation_id : String) (intent : TaskRequest)
    (work : CurrentWork)
    → IsSha h
    → h.stored_request intent ≡ some intent
    → request_valid intent ≡ true
    → is_implementation intent.task_kind ≡ false
    → is_start intent.continuation ≡ true
    → elem requester t.handles ≡ true
    → elem intent.execution_work_id t.handles ≡ true
    → get_locked intent.execution_work_id t.works ≡ some work
    → canonical_revision h work ≡ ok intent.observed_revision
    → find_operation operation_id t.requests ≡ none
    → find_request (h.request_uuid operation_id) t.requests ≡ none
    → (let row = new_request h requester operation_id intent in
        request h t t requester operation_id intent
        ≡ (record t { requests = t.requests ++ row ∷ [] }, request_ok (view_of row)))
unfolding request request_in_transaction request_known request_unreplayed admit_request
    admit_current insert_request insert_row conflicts insert_fresh after_insert
request_admits h t requester operation_id intent work sha kept valid generic starts asks runs
      current revision fresh fresh_id =
    let row = new_request h requester operation_id intent in
    rw
      (
        fresh,
        asks,
        current,
        revision,
        beq_refl intent.observed_revision,
        starts,
        kept,
        request_valid-request_checks h requester operation_id intent sha valid generic,
        fresh_id,
        fresh,
        asks,
        runs,
        new_request-readable h t.results requester operation_id intent valid generic,
      )
      refl
