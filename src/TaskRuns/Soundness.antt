-- ===== src/TaskRuns/Soundness.antt =====
-- What the transactions of src/switchstand/task_runs.py keep true of the three tables.
use switchstand.TaskRuns.Ending.{Run-Change}
use switchstand.TaskRuns.Request.{find_operation, find_request}
use switchstand.TaskRuns.Rows.{
  execution_count-append, execution_count-none, execution_of-append, find_row-added,
  find_row-append, find_row-key, find_row-new, find_row-set_terminal, set_terminal-found,
  terminated, terminated-operation_id, terminated-request_id,
}
use switchstand.TaskRuns.Submit.{execution_count, execution_of, set_terminal}
use switchstand.TaskRuns.Stored.{find_result, find_row}
use switchstand.TaskRuns.{CurrentWork, ExecutionRow, Externals, RequestRow, ResultRow, Tables}
use switchstand.TaskRuns.Execution.{find_execution, run_bound}
use switchstand.Base.{
  string_eq, Bool-cases, List, String, [], any, arith, false, if◌then◌else◌, inl, inr, none, refl,
  some, some_inj, str_iff, subst, sym, true, ℕ, ◌++◌, ◌+◌, ◌==◌, ◌∙◌, ◌∷◌, ◌≡◌, ◌≤◌,
}
use switchstand.TaskRuns.Evolution.{
  Change, IsOf, Run, admitted, both, bound, ended, stored, unchanged, worked,
}

-- the executions of a run
pub run_count : String → List ExecutionRow → ℕ
run_count run [] = 0
run_count run (e ∷ es) = (if e.run_id == run then 1 else 0) + run_count run es

-- An operation and a request name one row; a request has one execution at most, and a run too; and a
-- terminal result is stored, of the request, and of the run that is bound to it.
pub record IsSound (h : Externals) (t : Tables) : Type 0 where
  pub keyed :
      (id : String) (row : RequestRow)
      → find_operation id t.requests ≡ some row
      → find_request row.request_id t.requests ≡ some row
  pub named :
      (id : String) (row : RequestRow)
      → find_request id t.requests ≡ some row
      → find_operation row.operation_id t.requests ≡ some row
  pub single : (id : String) → execution_count id t.executions ≤ 1
  pub alone : (run : String) → run_count run t.executions ≤ 1
  pub owned :
      (id x : String) (row : RequestRow)
      → find_request id t.requests ≡ some row
      → row.terminal_result_id ≡ some x
      → (r : ResultRow) × (find_result x t.results ≡ some r)
        × (run : String) × IsOf h id run r
        × (execution_of id run t.executions ≡ true)

run_count-append :
    (run : String) (es : List ExecutionRow) (e : ExecutionRow)
    → run_count run (es ++ e ∷ []) ≡ run_count run es + (if e.run_id == run then 1 else 0)
unfolding run_count
run_count-append run [] e = omega arith
run_count-append run (x ∷ es) e = omega (arith, run_count-append run es e)

run_count-unbound :
    (run : String) (es : List ExecutionRow) → run_bound run es ≡ false → run_count run es ≡ 0
unfolding run_count run_bound any
run_count-unbound run [] h = refl
run_count-unbound run (x ∷ es) h = ground (arith, run_count-unbound run es)

abbrev by_request : RequestRow → String
by_request r = r.request_id

abbrev by_operation : RequestRow → String
by_operation r = r.operation_id

module _ {h : Externals} {t : Tables} (s : IsSound h t) where
  admitted-IsSound :
      (new : RequestRow)
      → find_request new.request_id t.requests ≡ none
      → find_operation new.operation_id t.requests ≡ none
      → new.terminal_result_id ≡ none
      → IsSound h (record t { requests = t.requests ++ new ∷ [] })
  admitted-IsSound new a b c = record {
    keyed = λ id row e. elim (find_row-added by_operation id t.requests new row e) [
      | inl old ↦
          find_row-append by_request row.request_id t.requests (new ∷ []) row (s.keyed id row old)
      | inr (fresh, is_new) ↦
          subst (λ (r : RequestRow). find_request r.request_id (t.requests ++ new ∷ []) ≡ some r)
            (sym is_new) (find_row-new by_request t.requests new a)
    ];
    named = λ id row e. elim (find_row-added by_request id t.requests new row e) [
      | inl old ↦
          find_row-append by_operation row.operation_id t.requests (new ∷ []) row
            (s.named id row old)
      | inr (fresh, is_new) ↦
          subst
            (λ (r : RequestRow). find_operation r.operation_id (t.requests ++ new ∷ []) ≡ some r)
            (sym is_new) (find_row-new by_operation t.requests new b)
    ];
    single = s.single;
    alone = s.alone;
    owned = λ id x row e k. elim (find_row-added by_request id t.requests new row e) [
      | inl old ↦ s.owned id x row old k
      | inr (fresh, is_new) ↦ absurd (ground (arith, is_new, c, k))
    ];
  }

  bound-IsSound :
      (e : ExecutionRow)
      → find_execution e.request_id t.executions ≡ none
      → run_bound e.run_id t.executions ≡ false
      → IsSound h (record t { executions = t.executions ++ e ∷ [] })
  bound-IsSound e a b = record {
    keyed = s.keyed;
    named = s.named;
    single = λ id. ground (
      arith,
      s.single id,
      execution_count-append id t.executions e,
      str_iff e.request_id id,
      execution_count-none e.request_id t.executions a,
    );
    alone = λ run. ground (
      arith,
      s.alone run,
      run_count-append run t.executions e,
      str_iff e.run_id run,
      run_count-unbound e.run_id t.executions b,
    );
    owned = λ id x row f k.
        let (r, found, run, of, runs) = s.owned id x row f k in
        (r, found, run, of, execution_of-append id run t.executions e runs);
  }

  stored-IsSound : (new : ResultRow) → IsSound h (record t { results = t.results ++ new ∷ [] })
  stored-IsSound new = record {
    keyed = s.keyed;
    named = s.named;
    single = s.single;
    alone = s.alone;
    owned = λ id x row f k.
        let (r, found, run, of, runs) = s.owned id x row f k in
        (
          r,
          find_row-append (λ (y : ResultRow). y.result_id) x t.results (new ∷ []) r found,
          run,
          of,
          runs,
        );
  }

  module _ (request_id result_id run_id : String) (r : ResultRow)
      (found : find_result result_id t.results ≡ some r) (of : IsOf h request_id run_id r)
      (runs : execution_of request_id run_id t.executions ≡ true) where
    ended_owned :
        (id x : String) (p : RequestRow)
        → find_request id t.requests ≡ some p
        → (terminated request_id result_id p).terminal_result_id ≡ some x
        → (q : ResultRow) × (find_result x t.results ≡ some q)
          × (run : String) × IsOf h id run q
          × (execution_of id run t.executions ≡ true)
    ended_owned id x p e k = elim (Bool-cases (p.request_id == request_id)) [
      | inr other ↦ s.owned id x p e (rw other at k)
      | inl same ↦
          let here : request_id ≡ id =
            sym ((str_iff _ _).0 same) ∙ find_row-key by_request id t.requests p e in
          let is_x : result_id ≡ x = some_inj (rw same at k) in
          (
            r,
            subst (λ y. find_result y t.results ≡ some r) is_x found,
            run_id,
            subst (λ y. IsOf h y run_id r) here of,
            subst (λ y. execution_of y run_id t.executions ≡ true) here runs,
          )
    ]

    ended-IsSound : IsSound h (record t { requests = set_terminal request_id result_id t.requests })
    ended-IsSound = record {
      keyed = λ id row e.
          let (p, old, is) =
            set_terminal-found by_operation request_id result_id
              (terminated-operation_id request_id result_id) id t.requests row e in
          subst
            (λ y. find_request y.request_id (set_terminal request_id result_id t.requests) ≡ some y)
            (sym is)
            (rw (terminated-request_id request_id result_id p) (
              find_row-set_terminal by_request request_id result_id
                (terminated-request_id request_id result_id) p.request_id t.requests p
                (s.keyed id p old)));
      named = λ id row e.
          let (p, old, is) =
            set_terminal-found by_request request_id result_id
              (terminated-request_id request_id result_id) id t.requests row e in
          subst
            (λ y.
              find_operation y.operation_id (set_terminal request_id result_id t.requests) ≡ some y)
            (sym is)
            (rw (terminated-operation_id request_id result_id p) (
              find_row-set_terminal by_operation request_id result_id
                (terminated-operation_id request_id result_id) p.operation_id t.requests p
                (s.named id p old)));
      single = s.single;
      alone = s.alone;
      owned = λ id x row e k.
          let (p, old, is) =
            set_terminal-found by_request request_id result_id
              (terminated-request_id request_id result_id) id t.requests row e in
          ended_owned id x p old (subst (λ y. y.terminal_result_id ≡ some x) is k);
    }

pub Change-IsSound : {h : Externals} {s t : Tables} → Change h s t → IsSound h s → IsSound h t
Change-IsSound unchanged i = i
Change-IsSound (both p q) i = Change-IsSound q (Change-IsSound p i)
Change-IsSound (admitted row a b c) i = admitted-IsSound i row a b c
Change-IsSound (bound e a b) i = bound-IsSound i e a b
Change-IsSound (stored r a) i = stored-IsSound i r
Change-IsSound (ended request_id result_id run_id row r a b found of runs) i =
    ended-IsSound i request_id result_id run_id r found of runs
Change-IsSound (worked handles works) i = record {
  keyed = i.keyed;
  named = i.named;
  single = i.single;
  alone = i.alone;
  owned = i.owned;
}

-- Every run of transactions keeps the tables sound: an operation id and a request id name the same
-- row, a request is bound to one run at most and a run to one request at most, and a terminal result
-- is a stored result of its request, by the run that is bound to it, unless two result digests
-- collide.
pub Run-IsSound : {h : Externals} {s t : Tables} → Run h s t → IsSound h s → IsSound h t
Run-IsSound r i = Change-IsSound (Run-Change _ r) i

-- Tables without requests, executions and results are sound.
pub empty-IsSound :
    (h : Externals) (handles : List String) (works : List CurrentWork)
    → IsSound h
        (record { handles = handles; works = works; requests = []; executions = []; results = [] })
unfolding find_row execution_count run_count
empty-IsSound h handles works = record {
  keyed = λ id row e. cc;
  named = λ id row e. cc;
  single = λ id. omega arith;
  alone = λ run. omega arith;
  owned = λ id x row e k. cc;
}
