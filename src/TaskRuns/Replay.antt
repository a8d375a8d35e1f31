-- ===== src/TaskRuns/Replay.antt =====
-- What a repeated `request` of src/switchstand/task_runs.py answers.
use switchstand.TaskRuns.Terminal.{Later-trans, Later, Run-Later}
use switchstand.TaskRuns.Evolution.{begin, Collision, Run, request_run}
use switchstand.TaskRuns.Rows.{find_row-key}
use switchstand.TaskRuns.Soundness.{IsSound, Run-IsSound}
use switchstand.TaskRuns.Answered.{IsAnswered, request-IsAnswered}
use switchstand.TaskRuns.Stored.{
  payload_of, request_valid, terminal_owned, validated_task_run_request, view_of,
}
use switchstand.TaskRuns.{
  TaskRunRequestResult, Externals, RequestRow, Tables, TaskRequest, ok_status,
}
use switchstand.TaskRuns.Request.{
  find_operation, find_request, replay_request, request, request_in_transaction, request_known,
  request_ok,
}
use switchstand.Base.{
  Option, String, inl, inr, none, refl, some, str_iff, subst, sym, true, ◌≡◌, ◌⊎◌,
}

-- What holds of a row whatever its terminal result is, holds of it later.
Later-keeps :
    (P : RequestRow → Type 0) (row row' : RequestRow)
    → ((x : String) → P (record row { terminal_result_id = some x }))
    → P row
    → Later row row'
    → P row'
Later-keeps P row row' same p (inl e) = subst P (sym e) p
Later-keeps P row row' same p (inr q) = subst P (sym q.2) (same q.1)

-- The row of an operation is found after each run of transactions.
operation-Later :
    (h : Externals) (t w : Tables) (operation_id : String) (row : RequestRow)
    → IsSound h t
    → Run h t w
    → find_operation operation_id t.requests ≡ some row
    → (row' : RequestRow) × (find_operation operation_id w.requests ≡ some row') × Later row row'
operation-Later h t w operation_id row sound run e =
    let (row', found, later) = Run-Later row.request_id row run (sound.keyed operation_id row e) in
    let its : row'.operation_id ≡ operation_id =
      Later-keeps (λ r. r.operation_id ≡ operation_id) row row' (λ x. its_row) its_row later in
    (
      row',
      subst (λ y. find_operation y w.requests ≡ some row') its
          ((Run-IsSound run sound).named row.request_id row' found),
      later,
    )
  where
    its_row : row.operation_id ≡ operation_id
    its_row = find_row-key (λ (r : RequestRow). r.operation_id) operation_id t.requests row e

-- In sound tables a terminal result belongs to its request, unless two digests collide.
sound-terminal_owned :
    (h : Externals) (w : Tables) (row : RequestRow) (terminal : Option String)
    → IsSound h w
    → find_request row.request_id w.requests ≡ some row
    → row.terminal_result_id ≡ terminal
    → (terminal_owned w.results row ≡ true) ⊎ Collision h
unfolding terminal_owned
sound-terminal_owned h w row none sound e k = inl (rw k)
sound-terminal_owned h w row (some x) sound e k =
    let (r, found, run, of, runs) = sound.owned row.request_id x row e k in
    elim of [
      | inr collision ↦ inr collision
      | inl (is, by) ↦ inl (rw (k, found) ((str_iff r.request_id row.request_id).1 is))
    ]

-- the answer from a row that is valid, has the digest, and owns its terminal result
replayed :
    (h : Externals) (w x : Tables) (requester operation_id : String) (intent : TaskRequest)
    (row : RequestRow)
    → find_operation operation_id w.requests ≡ some row
    → request_valid (payload_of row) ≡ true
    → row.content_digest ≡ h.digest row.requester_work_id (payload_of row)
    → row.content_digest ≡ h.digest requester intent
    → terminal_owned w.results row ≡ true
    → request h w x requester operation_id intent ≡ (x, request_ok (view_of row))
unfolding request request_in_transaction request_known replay_request validated_task_run_request
replayed h w x requester operation_id intent row e valid sealed asked owned =
    rw
      (
        e,
        valid,
        (str_iff row.content_digest _).1 sealed,
        owned,
        (str_iff row.content_digest _).1 asked,
      )
      refl

-- the row that the operation has once the request was answered
answered_row :
    (h : Externals) (t u : Tables) (requester operation_id : String) (intent : TaskRequest)
    (out : Tables × TaskRunRequestResult)
    → IsSound h t
    → Run h t u
    → (a : IsAnswered h t u requester operation_id intent out)
    → (row' : RequestRow) × (find_operation operation_id out.0.requests ≡ some row')
      × Later a.row row'
answered_row h t u requester operation_id intent out sound before a = elim a.held [
  | inr here ↦ (a.row, here, inl refl)
  | inl (e, is) ↦
      let (row', found, later) = operation-Later h t u operation_id a.row sound before e in
      (
        row',
        subst (λ (y : Tables). find_operation operation_id y.requests ≡ some row') (sym is) found,
        later,
      )
]

-- the second answer, from the row that an ok answer showed
replayed-Later :
    (h : Externals) (t u w x : Tables) (requester operation_id : String) (intent : TaskRequest)
    (out : Tables × TaskRunRequestResult) (row' : RequestRow)
    (a : IsAnswered h t u requester operation_id intent out)
    → IsSound h w
    → find_operation operation_id w.requests ≡ some row'
    → Later a.row row'
    → (request h w x requester operation_id intent ≡ (x, request_ok (view_of row'))) ⊎ Collision h
replayed-Later h t u w x requester operation_id intent out row' a sound found later =
    elim (sound-terminal_owned h w row' row'.terminal_result_id sound
      (sound.keyed operation_id row' found) refl) [
        | inr collision ↦ inr collision
        | inl owned ↦ inl (
            replayed h w x requester operation_id intent row' found
              (Later-keeps (λ r. request_valid (payload_of r) ≡ true) a.row row' (λ y. a.valid)
                a.valid later)
              (Later-keeps (λ r. r.content_digest ≡ h.digest r.requester_work_id (payload_of r))
                a.row row' (λ y. a.sealed) a.sealed later)
              (Later-keeps (λ r. r.content_digest ≡ h.digest requester intent) a.row row'
                (λ y. a.asked) a.asked later)
              owned)
      ]

-- A request that was answered ok is answered ok again, after whatever run of transactions, and the
-- tables stay as the other transactions leave them: the answer shows the same request, which may by
-- then have the terminal result that it did not have. This holds over sound tables unless two
-- result digests collide.
pub request_again :
    (h : Externals) (t u w x : Tables) (requester operation_id : String) (intent : TaskRequest)
    → IsSound h t
    → Run h t u
    → (request h t u requester operation_id intent).1.status ≡ ok_status
    → Run h (request h t u requester operation_id intent).0 w
    → ((row row' : RequestRow) × ((request h t u requester operation_id intent).1.request
          ≡ some (view_of row))
        × Later row row'
        × (request h w x requester operation_id intent ≡ (x, request_ok (view_of row'))))
      ⊎ Collision h
request_again h t u w x requester operation_id intent sound before s after =
    let out = request h t u requester operation_id intent in
    let a = request-IsAnswered h t u requester operation_id intent s in
    let sound_out : IsSound h out.0 =
      Run-IsSound (request_run requester operation_id intent begin before) sound in
    let (row0, found0, later0) =
      answered_row h t u requester operation_id intent out sound before a in
    let (row1, found1, later1) =
      operation-Later h out.0 w operation_id row0 sound_out after found0 in
    let later = Later-trans a.row row0 row1 later0 later1 in
    elim (replayed-Later h t u w x requester operation_id intent out row1 a
      (Run-IsSound after sound_out) found1 later) [
        | inl e ↦ inl (a.row, row1, a.shown, later, e)
        | inr collision ↦ inr collision
      ]
