-- ===== src/TaskRuns/Ended.antt =====
-- What the last step of `submit_result` of src/switchstand/task_runs.py leaves.
use switchstand.TaskRuns.Request.{find_request}
use switchstand.TaskRuns.Rows.{
  find_row-key, find_row-set_terminal, terminated, terminated-request_id,
}
use switchstand.TaskRuns.Submit.{RuntimeCurrentness, TaskRunResultResult, submit_current}
use switchstand.TaskRuns.Stored.{find_result, result_view_of}
use switchstand.TaskRuns.{RequestRow, ResultRow, Tables, ok_status}
use switchstand.Base.{
  option_eq, string_eq, String, ap, arith, if_both, if_known, is_none, not, option_beq_iff, refl,
  some, str_iff, true, ◌==◌, ◌∙◌, ◌≡◌,
}

-- The request's row as it was, with the result as its terminal one; the result is stored, and the
-- run is the current one.
pub record IsTerminal (t : Tables) (request_id result_id : String) (runtime : RuntimeCurrentness)
    (old : RequestRow) (r : ResultRow) (a : TaskRunResultResult) : Type 0 where
  pub current : runtime.current_generation ≡ some runtime.generation
  pub row :
      find_request request_id t.requests ≡ some (record old { terminal_result_id = some result_id })
  pub kept : find_result result_id t.results ≡ some r
  pub view : a.result ≡ some (result_view_of r)
  pub is_terminal : a.terminal ≡ true

abbrev by_request : RequestRow → String
by_request row = row.request_id

with_terminal :
    (row : RequestRow) (x : String)
    → row.terminal_result_id ≡ some x
    → row ≡ record row { terminal_result_id = some x }
with_terminal row x e = ap (λ y. record row { terminal_result_id = y }) e

terminated_self :
    (request_id result_id : String) (row : RequestRow)
    → row.request_id ≡ request_id
    → terminated request_id result_id row ≡ record row { terminal_result_id = some result_id }
terminated_self request_id result_id row e = rw ((str_iff row.request_id request_id).1 e)

module _ (request_id result_id : String) (runtime : RuntimeCurrentness) where
  pub submit_current-IsTerminal :
      (t : Tables) (old : RequestRow) (r : ResultRow)
      → find_request request_id t.requests ≡ some old
      → find_result result_id t.results ≡ some r
      → (let out =
            submit_current t request_id result_id runtime old.terminal_result_id
              (result_view_of r) in
          out.1.status ≡ ok_status → IsTerminal out.0 request_id result_id runtime old r out.1)
  unfolding submit_current
  submit_current-IsTerminal t old r e1 e2 =
      if_both P (is_none runtime.current_generation) _ _ (λ s. cc)
        (if_known P (not (runtime.current_generation == some runtime.generation)) _ _ (λ b s. cc)
          λ same.
            let current =
              (option_beq_iff runtime.current_generation (some runtime.generation)).0
                (ground (arith, same)) in
            let its = find_row-key by_request request_id t.requests old e1 in
            if_both P (is_none old.terminal_result_id) _ _
              (λ s. record {
                current = current;
                row =
                    find_row-set_terminal by_request request_id result_id
                      (terminated-request_id request_id result_id) request_id t.requests old e1
                    ∙ ap some (terminated_self request_id result_id old its);
                kept = e2;
                view = refl;
                is_terminal = refl;
              })
              (if_known P (old.terminal_result_id == some result_id) _ _
                (λ again s. record {
                  current = current;
                  row =
                      e1
                      ∙ ap some (
                          with_terminal old result_id
                            ((option_beq_iff old.terminal_result_id (some result_id)).0 again));
                  kept = e2;
                  view = refl;
                  is_terminal = refl;
                })
                (λ b s. cc)))
    where
      P : Tables × TaskRunResultResult → Type 0
      P out = out.1.status ≡ ok_status → IsTerminal out.0 request_id result_id runtime old r out.1
