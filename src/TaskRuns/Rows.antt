-- ===== src/TaskRuns/Rows.antt =====
-- Lemmas on the rows of a table, for the tables of src/switchstand/task_runs.py.
use switchstand.TaskRuns.Execution.{find_execution}
use switchstand.TaskRuns.Stored.{
  view_of, terminal_owned, payload_of, request_valid, validated_task_run_request, find_row,
}
use switchstand.TaskRuns.{TaskRunRequest, ResultRow, Externals, ExecutionRow, RequestRow}
use switchstand.TaskRuns.Submit.{execution_count, execution_of, set_terminal}
use switchstand.Base.{
  require_passed, ok, string_eq, Bool-cases, List, Option-cases, String, [], any, ap, arith,
  beq_refl, if◌then◌else◌, inl, inr, none, refl, some, some_inj, str_iff, sym, true, ◌++◌, ◌+◌,
  ◌==◌, ◌∙◌, ◌∷◌, ◌≡◌, ◌⊎◌,
}

module _ {ℓ} {A : Type ℓ} (key : A → String) where
  pub find_row-key : (id : String) (rs : List A) (r : A) → find_row key id rs ≡ some r → key r ≡ id
  unfolding find_row
  find_row-key id [] r h = cc
  find_row-key id (x ∷ rs) r h = elim (Bool-cases (key x == id)) [
    | inl here ↦ ap key (sym (some_inj (rw here at h))) ∙ (str_iff (key x) id).0 here
    | inr there ↦ find_row-key id rs r (rw there at h)
  ]

  -- A row that is found is found among more rows.
  pub find_row-append :
      (id : String) (rs added : List A) (r : A)
      → find_row key id rs ≡ some r
      → find_row key id (rs ++ added) ≡ some r
  unfolding find_row
  find_row-append id [] added r h = cc
  find_row-append id (x ∷ rs) added r h = elim (Bool-cases (key x == id)) [
    | inl here ↦ rw here (rw here at h)
    | inr there ↦ rw there (find_row-append id rs added r (rw there at h))
  ]

  -- What is found after a row was added is the row, or was there.
  pub find_row-added :
      (id : String) (rs : List A) (new r : A)
      → find_row key id (rs ++ new ∷ []) ≡ some r
      → (find_row key id rs ≡ some r) ⊎ ((find_row key id rs ≡ none) × (r ≡ new))
  unfolding find_row
  find_row-added id [] new r h = elim (Bool-cases (key new == id)) [
    | inl here ↦ inr (refl, sym (some_inj (rw here at h)))
    | inr there ↦ absurd (cc (rw there at h))
  ]
  find_row-added id (x ∷ rs) new r h = elim (Bool-cases (key x == id)) [
    | inl here ↦ rw here (inl (rw here at h))
    | inr there ↦ rw there (find_row-added id rs new r (rw there at h))
  ]

  pub find_row-new :
      (rs : List A) (new : A)
      → find_row key (key new) rs ≡ none
      → find_row key (key new) (rs ++ new ∷ []) ≡ some new
  unfolding find_row
  find_row-new [] new h = rw (beq_refl (key new))
  find_row-new (x ∷ rs) new h = elim (Bool-cases (key x == key new)) [
    | inl here ↦ absurd (cc (rw here at h))
    | inr there ↦ rw there (find_row-new rs new (rw there at h))
  ]

-- what `set_terminal` does to a row
abbrev pub terminated : String → String → RequestRow → RequestRow
terminated request_id result_id r =
    if r.request_id == request_id then record r { terminal_result_id = some result_id } else r

module _ (key : RequestRow → String) (request_id result_id : String)
    (kept : (r : RequestRow) → key (terminated request_id result_id r) ≡ key r) where
  -- The row that is found after the update is the row that was found, updated.
  pub find_row-set_terminal :
      (id : String) (rs : List RequestRow) (r : RequestRow)
      → find_row key id rs ≡ some r
      → find_row key id (set_terminal request_id result_id rs)
        ≡ some (terminated request_id result_id r)
  unfolding find_row set_terminal
  find_row-set_terminal id [] r h = cc
  find_row-set_terminal id (x ∷ rs) r h = elim (Bool-cases (key x == id)) [
    | inl here ↦
        rw (kept x, here)
          (ap (λ y. some (terminated request_id result_id y)) (some_inj (rw here at h)))
    | inr there ↦ rw (kept x, there) (find_row-set_terminal id rs r (rw there at h))
  ]

  pub find_row-none-set_terminal :
      (id : String) (rs : List RequestRow)
      → find_row key id rs ≡ none
      → find_row key id (set_terminal request_id result_id rs) ≡ none
  unfolding find_row set_terminal
  find_row-none-set_terminal id [] h = refl
  find_row-none-set_terminal id (x ∷ rs) h = elim (Bool-cases (key x == id)) [
    | inl here ↦ absurd (cc (rw here at h))
    | inr there ↦ rw (kept x, there) (find_row-none-set_terminal id rs (rw there at h))
  ]

  -- So a row that is found after it was found before.
  pub set_terminal-found :
      (id : String) (rs : List RequestRow) (r : RequestRow)
      → find_row key id (set_terminal request_id result_id rs) ≡ some r
      → (p : RequestRow) × (find_row key id rs ≡ some p) × (r ≡ terminated request_id result_id p)
  set_terminal-found id rs r h = elim (Option-cases (find_row key id rs)) [
    | inl e ↦ absurd (cc (find_row-none-set_terminal id rs e))
    | inr (p, e) ↦ (p, e, some_inj (sym h ∙ find_row-set_terminal id rs p e))
  ]

pub terminated-request_id :
    (request_id result_id : String) (r : RequestRow)
    → (terminated request_id result_id r).request_id ≡ r.request_id
terminated-request_id request_id result_id r = ground arith

pub terminated-operation_id :
    (request_id result_id : String) (r : RequestRow)
    → (terminated request_id result_id r).operation_id ≡ r.operation_id
terminated-operation_id request_id result_id r = ground arith

-- The executions of a request.
pub execution_count-append :
    (id : String) (es : List ExecutionRow) (e : ExecutionRow)
    → execution_count id (es ++ e ∷ [])
      ≡ execution_count id es + (if e.request_id == id then 1 else 0)
unfolding execution_count
execution_count-append id [] e = omega arith
execution_count-append id (x ∷ es) e = omega (arith, execution_count-append id es e)

pub execution_count-none :
    (id : String) (es : List ExecutionRow) → find_execution id es ≡ none → execution_count id es ≡ 0
unfolding execution_count find_row
execution_count-none id [] h = refl
execution_count-none id (x ∷ es) h = ground (arith, execution_count-none id es)

pub execution_of-append :
    (id run : String) (es : List ExecutionRow) (e : ExecutionRow)
    → execution_of id run es ≡ true
    → execution_of id run (es ++ e ∷ []) ≡ true
unfolding execution_of any
execution_of-append id run [] e h = cc
execution_of-append id run (x ∷ es) e h = ground (arith, execution_of-append id run es e)

-- A row that is read back was valid, has its digest, and owns its terminal result.
pub validated-parts :
    (h : Externals) (results : List ResultRow) (row : RequestRow) (v : TaskRunRequest)
    → validated_task_run_request h results row ≡ ok v
    → (request_valid (payload_of row) ≡ true)
      × (row.content_digest ≡ h.digest row.requester_work_id (payload_of row))
      × (terminal_owned results row ≡ true)
      × (view_of row ≡ v)
unfolding validated_task_run_request
validated-parts h results row v e =
    let (valid, e1) = require_passed (request_valid (payload_of row)) _ _ v e in
    let (agrees, e2) =
      require_passed (row.content_digest == h.digest row.requester_work_id (payload_of row)) _ _ v
        e1 in
    let (owned, e3) = require_passed (terminal_owned results row) _ _ v e2 in
    (valid, (str_iff _ _).0 agrees, owned, cc)
