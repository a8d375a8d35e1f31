-- ===== src/TaskRuns/Terminal.antt =====
-- The rows of `task_run_requests` under the transactions of src/switchstand/task_runs.py.
use switchstand.TaskRuns.Ending.{Run-Change}
use switchstand.TaskRuns.Evolution.{
  Change, Run, admitted, both, bound, ended, stored, unchanged, worked,
}
use switchstand.TaskRuns.Rows.{
  find_row-append, find_row-key, find_row-set_terminal, terminated, terminated-request_id,
}
use switchstand.Base.{
  string_eq, Bool-cases, String, [], arith, inl, inr, none, refl, some, some_inj, str_iff, subst,
  ◌==◌, ◌∙◌, ◌∷◌, ◌≡◌, ◌⊎◌,
}
use switchstand.TaskRuns.Request.{find_request}
use switchstand.TaskRuns.{Externals, RequestRow, Tables}

-- A request's row at a later time: as it was, or with the terminal result that it did not have.
abbrev pub Later : RequestRow → RequestRow → Type 0
Later row row' =
    (row' ≡ row)
    ⊎ ((row.terminal_result_id ≡ none)
        × (x : String) × (row' ≡ record row { terminal_result_id = some x }))

pub Later-trans : (a b c : RequestRow) → Later a b → Later b c → Later a c
Later-trans a b c (inl p) q = subst (λ x. Later x c) p q
Later-trans a b c (inr p) (inl q) = inr (p.0, p.1, q ∙ p.2)
Later-trans a b c (inr p) (inr q) = absurd (ground (arith, p, q))

-- The row of a request is found after each change.
abbrev pub FoundLater : Tables → String → RequestRow → Type 0
FoundLater t id row =
    (row' : RequestRow) × (find_request id t.requests ≡ some row') × Later row row'

terminated-Later :
    (request_id result_id : String) (row : RequestRow)
    → (row.request_id ≡ request_id → row.terminal_result_id ≡ none)
    → Later row (terminated request_id result_id row)
terminated-Later request_id result_id row h = elim (Bool-cases (row.request_id == request_id)) [
  | inl e ↦ inr (h ((str_iff _ _).0 e), result_id, rw e)
  | inr e ↦ inl (rw e)
]

Change-Later :
    {h : Externals} {s t : Tables}
    → Change h s t
    → (id : String) (row : RequestRow) → find_request id s.requests ≡ some row
    → FoundLater t id row
Change-Later unchanged id row e = (row, e, inl refl)
Change-Later (both p q) id row e =
    let (row', e', l) = Change-Later p id row e in
    let (row'', e'', l') = Change-Later q id row' e' in
    (row'', e'', Later-trans row row' row'' l l')
Change-Later (admitted {t} new a b c) id row e = (
  row,
  find_row-append (λ (r : RequestRow). r.request_id) id t.requests (new ∷ []) row e,
  inl refl,
)
Change-Later (bound x a b) id row e = (row, e, inl refl)
Change-Later (stored r a) id row e = (row, e, inl refl)
Change-Later (worked handles works) id row e = (row, e, inl refl)
Change-Later (ended {t} request_id result_id run_id old r found unset a b c) id row e = (
  terminated request_id result_id row,
  find_row-set_terminal key request_id result_id (terminated-request_id request_id result_id) id
      t.requests row e,
  terminated-Later request_id result_id row λ same.
      let its : row.request_id ≡ id = find_row-key key id t.requests row e in
      let one : some old ≡ some row = cc in
      subst (λ (r : RequestRow). r.terminal_result_id ≡ none) (some_inj one) unset,
)
  where
    key : RequestRow → String
    key r = r.request_id

-- A request is never lost: after any run of transactions the id still names its row, which is as it
-- was in every column, except that a terminal result may stand where none stood. So a terminal
-- result is set once and never replaced.
pub Run-Later :
    {h : Externals} {s t : Tables} (id : String) (row : RequestRow)
    → Run h s t
    → find_request id s.requests ≡ some row
    → FoundLater t id row
Run-Later id row r e = Change-Later (Run-Change _ r) id row e
