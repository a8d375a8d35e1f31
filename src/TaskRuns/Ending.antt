-- ===== src/TaskRuns/Ending.antt =====
-- The effect of `submit_result` of src/switchstand/task_runs.py, and of a run of transactions.
use switchstand.TaskRuns.Commits.{
  Commits, commits, raises, bind-Commits, require-Commits, close-Commits,
}
use switchstand.TaskRuns.Rows.{validated-parts, find_row-new}
use switchstand.TaskRuns.Request.{find_request}
use switchstand.TaskRuns.Submit.{
  execution_count, result_checks, submit_for_run, RuntimeCurrentness, TaskRunResultResult,
  execution_of, new_result, submit_bound, submit_current, submit_locked, submit_result,
  submit_stored,
}
use switchstand.TaskRuns.Stored.{
  validated_task_run_request, find_result, result_valid, validated_task_run_result,
}
use switchstand.TaskRuns.{
  as_stored, sql_error, AgentTaskResult, Externals, RequestRow, ResultRow, Tables, TaskRunRequest,
  TaskRunResult,
}
use switchstand.TaskRuns.Effects.{Keeps, bind_start-Change, request-Change}
use switchstand.Base.{
  ap, nat_beq, subst, [], ◌∷◌, ◌++◌, option_eq, string_eq, Bool-cases, Option, String, and_parts,
  arith, if_both, if_known, inl, inr, is_none, none, not, ok, refl, require_passed, some, str_iff,
  sym, true, ◌&&◌, ◌==◌, ◌∙◌, ◌≡◌,
}
use switchstand.TaskRuns.Evolution.{
  stored, Change, IsOf, Run, begin, bind_run, both, ended, request_run, submit_run, unchanged,
  work_run, worked,
}

module _ (h : Externals) where
  -- A stored result that has the digest of a new one is of its request and its run.
  pub stored-IsOf :
      (request_id result_id run_id : String) (result : AgentTaskResult) (r : ResultRow)
      (view : TaskRunResult)
      → validated_task_run_result h r ≡ ok view
      → (r.content_digest == h.result_digest request_id run_id result) ≡ true
      → IsOf h request_id run_id r
  unfolding validated_task_run_result
  stored-IsOf request_id result_id run_id result r view e same =
      let (shaped, e1) = require_passed (result_valid r.columns) _ _ view e in
      let (agrees, e2) =
        require_passed (r.content_digest == h.result_digest r.request_id r.run_id r.columns) _ _
          view e1 in
      let one = (str_iff r.content_digest _).0 agrees in
      let two = (str_iff r.content_digest _).0 same in
      elim (Bool-cases (r.request_id == request_id && r.run_id == run_id)) [
        | inl b ↦
            let (b1, b2) = and_parts (r.request_id == request_id) (r.run_id == run_id) b in
            inl ((str_iff _ _).0 b1, (str_iff _ _).0 b2)
        | inr b ↦ inr (record {
          id = r.request_id;
          run = r.run_id;
          result = r.columns;
          id' = request_id;
          run' = run_id;
          result' = result;
          same = sym one ∙ two;
          differ =
              λ (p, q). ground (arith, str_iff r.request_id request_id, str_iff r.run_id run_id);
        })
      ]

  submit_current-Change :
      (t : Tables) (request_id result_id run_id : String) (runtime : RuntimeCurrentness)
      (row : RequestRow) (r : ResultRow) (view : TaskRunResult)
      → find_request request_id t.requests ≡ some row
      → find_result result_id t.results ≡ some r
      → IsOf h request_id run_id r
      → execution_of request_id run_id t.executions ≡ true
      → Change h t (submit_current t request_id result_id runtime row.terminal_result_id view).0
  unfolding submit_current
  submit_current-Change t request_id result_id run_id runtime row r view e1 e2 of runs =
      if_both P (is_none runtime.current_generation) _ _ unchanged (
        if_both P (not (runtime.current_generation == some runtime.generation)) _ _ unchanged (
          if_known P (is_none row.terminal_result_id) _ _
            (λ open_yet.
              ended request_id result_id run_id row r e1 (ground (arith, open_yet)) e2 of runs)
            (λ over. if_both P (row.terminal_result_id == some result_id) _ _ unchanged unchanged)))
    where
      P : Tables × TaskRunResultResult → Type 0
      P a = Change h t a.0

  submit_stored-Change :
      (t : Tables) (verified : TaskRunRequest) (runtime : RuntimeCurrentness)
      (request_id result_id run_id : String) (result : AgentTaskResult) (row : RequestRow)
      (existing : Option ResultRow)
      → find_request request_id t.requests ≡ some row
      → row.terminal_result_id ≡ verified.terminal_result_id
      → find_result result_id t.results ≡ existing
      → execution_of request_id run_id t.executions ≡ true
      → Commits (Keeps h t) (
          submit_stored h t verified runtime
            (new_result h request_id result_id run_id result)
            existing)
  unfolding submit_stored
  submit_stored-Change t verified runtime request_id result_id run_id result row none e same fresh
        runs =
      bind-Commits (Keeps h t) (as_stored (h.stored_result result)) _ λ columns kept.
        require-Commits (Keeps h t) (result_checks (new columns)) sql_error (
          bind-Commits (Keeps h t) (validated_task_run_result h (new columns)) _ λ view e'.
            commits (
              both (stored (new columns) fresh) (
                subst
                  (λ terminal.
                    Change h (after columns)
                      (submit_current (after columns) request_id result_id runtime terminal view).0)
                  same
                  (submit_current-Change (after columns) request_id result_id run_id runtime row
                    (new columns) view e
                    (find_row-new (λ (r : ResultRow). r.result_id) t.results (new columns) fresh)
                    (inl (refl, refl)) runs))))
    where
      new : AgentTaskResult → ResultRow
      new columns = record (new_result h request_id result_id run_id result) { columns = columns }

      after : AgentTaskResult → Tables
      after columns = record t { results = t.results ++ new columns ∷ [] }
  submit_stored-Change t verified runtime request_id result_id run_id result row (some r) e same
        found runs =
      if_known (Commits (Keeps h t))
        (not (r.content_digest == h.result_digest request_id run_id result)) _ _
        (λ differs. commits unchanged)
        λ agrees. bind-Commits (Keeps h t) (validated_task_run_result h r) _ λ view e'. commits (
          subst
            (λ terminal. Change h t (submit_current t request_id result_id runtime terminal view).0)
            same
            (submit_current-Change t request_id result_id run_id runtime row r view e found
              (stored-IsOf request_id result_id run_id result r view e' (ground (arith, agrees)))
              runs))

  submit_locked-Change :
      (t : Tables) (runtime : RuntimeCurrentness) (request_id result_id run_id : String)
      (result : AgentTaskResult) (row : Option RequestRow)
      → find_request request_id t.requests ≡ row
      → Commits
          (Keeps h t)
          (submit_locked h t runtime (new_result h request_id result_id run_id result) row)
  unfolding submit_locked submit_bound
  submit_locked-Change t runtime request_id result_id run_id result none e = commits unchanged
  submit_locked-Change t runtime request_id result_id run_id result (some row) e =
      bind-Commits (Keeps h t) (validated_task_run_request h t.results row) _ λ verified e'.
        let (valid, digest, owned, view) = validated-parts h t.results row verified e' in
        if_known (Commits (Keeps h t)) (not (execution_of request_id run_id t.executions)) _ _
          (λ unbound. commits unchanged)
          λ runs.
            if_both (Commits (Keeps h t))
              (not (nat_beq (execution_count request_id t.executions) 1)) _ _ (commits unchanged)
              (submit_stored-Change t verified runtime request_id result_id run_id result row
                (find_result result_id t.results) e
                (ap (λ (v : TaskRunRequest). v.terminal_result_id) view) refl
                (ground (arith, runs)))

  pub submit_result-Change :
      (t : Tables) (request_id result_id : String) (runtime : RuntimeCurrentness)
      (result : AgentTaskResult)
      → Change h t (submit_result h t request_id result_id runtime result).0
  unfolding submit_result submit_for_run
  submit_result-Change t request_id result_id runtime result =
      close-Commits (Keeps h t) unchanged (by_run (h.parse_uuid runtime.generation))
    where
      by_run :
          (run : Option String)
          → Commits (Keeps h t) (submit_for_run h t request_id result_id runtime result run)
      by_run none = raises
      by_run (some run_id) =
          submit_locked-Change t runtime request_id result_id run_id result
            (find_request request_id t.requests) refl

  -- Every run of transactions refines the abstract changes of the tables, whatever is asked and
  -- whatever is answered: a request's row is added under two ids that are free, with no terminal
  -- result; an execution is added for a request that has none and a run that is not bound; a result
  -- is added under a free id; a request that has no terminal result gets a stored one, of a run that
  -- is bound to the request, and the result is of that request and run unless two result digests
  -- collide. Nothing else is written, but the canonical work that other code writes.
  pub Run-Change : {s t : Tables} → Run h s t → Change h s t
  Run-Change begin = unchanged
  Run-Change (request_run {t} {u} requester operation_id intent r q) =
      both (Run-Change q) (request-Change h t u requester operation_id intent)
  Run-Change (bind_run {t} eligibility request_id receipt r) =
      both (Run-Change r) (bind_start-Change h eligibility t request_id receipt)
  Run-Change (submit_run {t} request_id result_id runtime result r) =
      both (Run-Change r) (submit_result-Change t request_id result_id runtime result)
  Run-Change (work_run handles works r) = both (Run-Change r) (worked handles works)
