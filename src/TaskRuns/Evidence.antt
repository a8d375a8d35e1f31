-- ===== src/TaskRuns/Evidence.antt =====
-- What `terminal_evidence` of src/switchstand/task_runs.py resolves after a submission.
use switchstand.TaskRuns.Ended.{IsTerminal}
use switchstand.TaskRuns.Submitted.{submit_result-IsSubmitted}
use switchstand.TaskRuns.Ending.{stored-IsOf}
use switchstand.TaskRuns.Evolution.{Collision}
use switchstand.TaskRuns.Request.{find_request}
use switchstand.Base.{subst, List, String, inl, inr, ok, refl, some, str_iff, sym, ◌∙◌, ◌≡◌, ◌⊎◌}
use switchstand.TaskRuns.Submit.{
  evidence_of, RuntimeCurrentness, TaskRunResultResult, evidence_found, submit_result,
  terminal_evidence,
}
use switchstand.TaskRuns.Rows.{find_row-key, validated-parts}
use switchstand.TaskRuns.Stored.{
  validated_task_run_result, result_view_of, terminal_owned, validated_task_run_request, view_of,
}
use switchstand.TaskRuns.{
  AgentTaskResult, Externals, RequestRow, ResultRow, Tables, TaskRunRequest, TaskRunResult,
  ok_status,
}

module _ (h : Externals) (t' : Tables) (request_id result_id : String)
    (runtime : RuntimeCurrentness) (a : TaskRunResultResult) (old : RequestRow) (r : ResultRow)
    (ended : IsTerminal t' request_id result_id runtime old r a) where
  abbrev after : RequestRow
  after = record old { terminal_result_id = some result_id }

  after_readable :
      (results : List ResultRow) (v : TaskRunRequest)
      → old.request_id ≡ request_id
      → r.request_id ≡ request_id
      → validated_task_run_request h results old ≡ ok v
      → validated_task_run_request h t'.results after ≡ ok (view_of after)
  unfolding validated_task_run_request terminal_owned
  after_readable results v its of e =
      let (valid, digest, owned, view) = validated-parts h results old v e in
      rw
        (
          valid,
          (str_iff old.content_digest _).1 digest,
          ended.kept,
          (str_iff r.request_id old.request_id).1 (of ∙ sym its),
        )
        refl

  pub evidence_after :
      (results : List ResultRow) (v : TaskRunRequest)
      → old.request_id ≡ request_id
      → r.request_id ≡ request_id
      → r.result_id ≡ result_id
      → validated_task_run_request h results old ≡ ok v
      → validated_task_run_result h r ≡ ok (result_view_of r)
      → terminal_evidence h t' result_id
        ≡ some (record { request = view_of after; result = result_view_of r })
  unfolding terminal_evidence evidence_found evidence_of
  evidence_after results v its of named e intact =
      let read = after_readable results v its of e in
      let row : find_request r.request_id t'.requests ≡ some after =
        subst (λ y. find_request y t'.requests ≡ some after) (sym of) ended.row in
      rw (ended.kept, intact, row, read, (str_iff result_id r.result_id).1 (sym named)) refl

-- After a submission that is answered ok, `terminal_evidence` of the result's id gives exactly the
-- pair: the request with this result as its terminal one, and the stored result that was answered.
-- This holds unless two result digests collide.
pub terminal_evidence-submit_result :
    (h : Externals) (t : Tables) (request_id result_id : String) (runtime : RuntimeCurrentness)
    (result : AgentTaskResult)
    → (submit_result h t request_id result_id runtime result).1.status ≡ ok_status
    → ((view : TaskRunResult) × (old : RequestRow) × (find_request request_id t.requests ≡ some old)
        × ((submit_result h t request_id result_id runtime result).1.result ≡ some view)
        × (terminal_evidence h (submit_result h t request_id result_id runtime result).0 result_id
            ≡ some (record {
              request = view_of (record old { terminal_result_id = some result_id });
              result = view;
            })))
      ⊎ Collision h
terminal_evidence-submit_result h t request_id result_id runtime result s =
    let i = submit_result-IsSubmitted h t request_id result_id runtime result s in
    elim (stored-IsOf h request_id result_id i.run_id result i.r (result_view_of i.r) i.intact
      ((str_iff i.r.content_digest _).1 i.submitted)) [
        | inr collision ↦ inr collision
        | inl (of, by) ↦ inl (
          result_view_of i.r,
          i.old,
          i.held,
          i.ended.view,
          evidence_after h _ request_id result_id runtime _ i.old i.r i.ended t.results
              (view_of i.old)
              (find_row-key (λ (row : RequestRow). row.request_id) request_id t.requests i.old
                i.held)
              of (find_row-key (λ (row : ResultRow). row.result_id) result_id _ i.r i.ended.kept)
              i.readable i.intact,
        )
      ]
