-- ===== src/TaskRuns/Submitted.antt =====
-- What a result that `submit_result` of src/switchstand/task_runs.py takes as terminal means.
use switchstand.TaskRuns.Ended.{IsTerminal, submit_current-IsTerminal}
use switchstand.TaskRuns.Request.{find_request}
use switchstand.TaskRuns.Rows.{find_row-new, validated-parts}
use switchstand.TaskRuns.Commits.{
  commits, raises, Commits, bind-Commits, close-Commits, require-Commits,
}
use switchstand.TaskRuns.Stored.{
  find_result, result_valid, result_view_of, validated_task_run_request, validated_task_run_result,
  view_of,
}
use switchstand.TaskRuns.{
  as_stored, AgentTaskResult, Externals, RequestRow, ResultRow, Tables, TaskRunResult, ok_status,
  sql_error,
}
use switchstand.TaskRuns.Submit.{
  RuntimeCurrentness, TaskRunResultResult, execution_count, execution_of, new_result, result_checks,
  submit_bound, submit_current, submit_for_run, submit_locked, submit_result, submit_stored,
}
use switchstand.Base.{
  string_eq, Option, String, [], ap, arith, if_known, nat_beq, none, not, ok, refl, require_passed,
  some, str_iff, subst, sym, true, ◌++◌, ◌==◌, ◌∙◌, ◌∷◌, ◌≡◌,
}

-- The request was held and readable, exactly one run was bound to it, the one that submits, and the
-- result that is stored has the digest of what was submitted.
pub record IsSubmitted (h : Externals) (t t' : Tables) (request_id result_id : String)
    (runtime : RuntimeCurrentness) (result : AgentTaskResult) (a : TaskRunResultResult)
    : Type 0 where
  pub run_id : String
  pub parsed : h.parse_uuid runtime.generation ≡ some run_id
  pub old : RequestRow
  pub held : find_request request_id t.requests ≡ some old
  pub readable : validated_task_run_request h t.results old ≡ ok (view_of old)
  pub runs : execution_of request_id run_id t.executions ≡ true
  pub once : execution_count request_id t.executions ≡ 1
  pub r : ResultRow
  pub intact : validated_task_run_result h r ≡ ok (result_view_of r)
  pub submitted : r.content_digest ≡ h.result_digest request_id run_id result
  pub ended : IsTerminal t' request_id result_id runtime old r a

-- if the answer is ok
abbrev Submitted :
    Externals
    → Tables
    → String
    → String
    → RuntimeCurrentness
    → AgentTaskResult
    → Tables × TaskRunResultResult
    → Type 0
Submitted h t request_id result_id runtime result out =
    out.1.status ≡ ok_status → IsSubmitted h t out.0 request_id result_id runtime result out.1

validated_result-parts :
    (h : Externals) (r : ResultRow) (view : TaskRunResult)
    → validated_task_run_result h r ≡ ok view
    → view ≡ result_view_of r
unfolding validated_task_run_result
validated_result-parts h r view e =
    let (shaped, e1) = require_passed (result_valid r.columns) _ _ view e in
    let (agrees, e2) =
      require_passed (r.content_digest == h.result_digest r.request_id r.run_id r.columns) _ _ view
        e1 in
    cc

module _ (request_id result_id : String) (runtime : RuntimeCurrentness) (h : Externals) (t : Tables)
    (run_id : String) (result : AgentTaskResult)
    (parsed : h.parse_uuid runtime.generation ≡ some run_id) where
  abbrev Q : Tables × TaskRunResultResult → Type 0
  Q = Submitted h t request_id result_id runtime result

  new : ResultRow
  new = new_result h request_id result_id run_id result

  module _ (old : RequestRow) (held : find_request request_id t.requests ≡ some old)
      (readable : validated_task_run_request h t.results old ≡ ok (view_of old))
      (runs : execution_of request_id run_id t.executions ≡ true)
      (once : execution_count request_id t.executions ≡ 1) where
    -- the last step, over the tables that have the result
    from_stored :
        (u : Tables) (r : ResultRow) (view : TaskRunResult)
        → find_request request_id u.requests ≡ some old
        → find_result result_id u.results ≡ some r
        → validated_task_run_result h r ≡ ok view
        → r.content_digest ≡ h.result_digest request_id run_id result
        → Commits Q (
            ok
              (submit_current u request_id result_id runtime (view_of old).terminal_result_id view))
    from_stored u r view e1 e2 intact same =
        let is_view = validated_result-parts h r view intact in
        rw is_view (
          commits (λ s. record {
            run_id = run_id;
            parsed = parsed;
            old = old;
            held = held;
            readable = readable;
            runs = runs;
            once = once;
            r = r;
            intact = intact ∙ ap ok is_view;
            submitted = same;
            ended = submit_current-IsTerminal request_id result_id runtime u old r e1 e2 s;
          }))

    submit_stored-Submitted :
        (existing : Option ResultRow)
        → find_result result_id t.results ≡ existing
        → Commits Q (submit_stored h t (view_of old) runtime new existing)
    unfolding submit_stored new
    submit_stored-Submitted none e =
        bind-Commits Q (as_stored (h.stored_result result)) _ λ columns kept.
          let row = record new { columns = columns } in
          let u = record t { results = t.results ++ row ∷ [] } in
          require-Commits Q (result_checks row) sql_error (
            bind-Commits Q (validated_task_run_result h row) _ λ view e'.
              from_stored u row view held
                (find_row-new (λ (r : ResultRow). r.result_id) t.results row e) e' refl)
    submit_stored-Submitted (some r) e =
        if_known (Commits Q) (not (r.content_digest == h.result_digest request_id run_id result)) _
          _ (λ differs. commits (λ s. cc))
          λ agrees. bind-Commits Q (validated_task_run_result h r) _ λ view e'.
            from_stored t r view held e e' ((str_iff r.content_digest _).0 (ground (arith, agrees)))

  submit_locked-Submitted :
      (row : Option RequestRow)
      → find_request request_id t.requests ≡ row
      → Commits Q (submit_locked h t runtime new row)
  unfolding submit_locked submit_bound new
  submit_locked-Submitted none e = commits (λ s. cc)
  submit_locked-Submitted (some old) e =
      bind-Commits Q (validated_task_run_request h t.results old) _ λ verified e'.
        let (valid, digest, owned, view) = validated-parts h t.results old verified e' in
        if_known (Commits Q) (not (execution_of request_id run_id t.executions)) _ _
          (λ unbound. commits (λ s. cc))
          λ runs.
            if_known (Commits Q) (not (nat_beq (execution_count request_id t.executions) 1)) _ _
              (λ many. commits (λ s. cc))
              λ once.
                subst
                  (λ v.
                    Commits Q (submit_stored h t v runtime new (find_result result_id t.results)))
                  view
                  (submit_stored-Submitted old e (e' ∙ ap ok (sym view)) (ground (arith, runs))
                    (ground (arith, once)) (find_result result_id t.results) refl)

-- A submission that is answered ok was made for a request that is held and readable, by the one run
-- that is bound to it and that is the current generation; and it leaves the request as it was with
-- this result as its terminal one, over a stored result with the digest of what was submitted, which
-- is the result of the answer.
pub submit_result-IsSubmitted :
    (h : Externals) (t : Tables) (request_id result_id : String) (runtime : RuntimeCurrentness)
    (result : AgentTaskResult)
    → (submit_result h t request_id result_id runtime result).1.status ≡ ok_status
    → IsSubmitted h t
        (submit_result h t request_id result_id runtime result).0
        request_id
        result_id
        runtime
        result
        (submit_result h t request_id result_id runtime result).1
unfolding submit_result submit_for_run
submit_result-IsSubmitted h t request_id result_id runtime result =
    close-Commits (Submitted h t request_id result_id runtime result) (λ s. cc)
      (by_run (h.parse_uuid runtime.generation) refl)
  where
    by_run :
        (run : Option String)
        → h.parse_uuid runtime.generation ≡ run
        → Commits
            (Submitted h t request_id result_id runtime result)
            (submit_for_run h t request_id result_id runtime result run)
    by_run none e = raises
    by_run (some run_id) e =
        unfold new in
        submit_locked-Submitted request_id result_id runtime h t run_id result e
          (find_request request_id t.requests) refl
