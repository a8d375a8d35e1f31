-- ===== src/TaskRuns/Answered.antt =====
-- What an ok answer of `request` of src/switchstand/task_runs.py shows.
use switchstand.TaskRuns.Commits.{Commits, commits, bind-Commits, close-Commits}
use switchstand.TaskRuns.Effects.{insert_request-added}
use switchstand.TaskRuns.Rows.{find_row-new, validated-parts}
use switchstand.TaskRuns.Request.{
  get_locked, canonical_revision, admit_request, request_unreplayed, admit_current,
  request_in_transaction, request_known, after_insert, find_operation, insert_request, new_request,
  replay_found, replay_request, request,
}
use switchstand.TaskRuns.Stored.{payload_of, request_valid, validated_task_run_request, view_of}
use switchstand.TaskRuns.{
  is_start, CurrentWork, Externals, RequestRow, ResultRow, Tables, TaskRequest,
  TaskRunRequestResult, ok_status,
}
use switchstand.Base.{
  [], ◌∷◌, ◌++◌, elem, false, not, subst, if_both, sym, Bool, ap, string_eq, Bool-cases, List,
  Option, String, arith, bind_passed, inl, inr, none, ok, refl, some, str_iff, true, ◌==◌, ◌≡◌, ◌⊎◌,
}

-- The row that an ok answer shows: the operation has it, before the request or after it.
pub record IsAnswered (h : Externals) (t u : Tables) (requester operation_id : String)
    (intent : TaskRequest) (out : Tables × TaskRunRequestResult) : Type 0 where
  pub row : RequestRow
  pub shown : out.1.request ≡ some (view_of row)
  pub valid : request_valid (payload_of row) ≡ true
  pub sealed : row.content_digest ≡ h.digest row.requester_work_id (payload_of row)
  pub asked : row.content_digest ≡ h.digest requester intent
  pub held :
      ((find_operation operation_id t.requests ≡ some row) × (out.0 ≡ u))
      ⊎ (find_operation operation_id out.0.requests ≡ some row)

module _ (h : Externals) (t u : Tables) (requester operation_id : String)
    (intent : TaskRequest) where
  abbrev pub Answered : Tables × TaskRunRequestResult → Type 0
  Answered out = out.1.status ≡ ok_status → IsAnswered h t u requester operation_id intent out

  -- the answer from a row that the operation has at either look
  replay-Answered :
      (row : RequestRow) (results : List ResultRow) (answer : TaskRunRequestResult)
      → (find_operation operation_id t.requests ≡ some row)
        ⊎ (find_operation operation_id u.requests ≡ some row)
      → replay_request h results (h.digest requester intent) row ≡ ok answer
      → Answered (u, answer)
  unfolding replay_request
  replay-Answered row results answer held e s =
      let (v, e1, e2) = bind_passed (validated_task_run_request h results row) _ e in
      let (valid, digest, owned, view) = validated-parts h results row v e1 in
      elim (Bool-cases (row.content_digest == h.digest requester intent)) [
        | inr differs ↦ absurd (ground (arith, s, rw differs at e2))
        | inl same ↦ record {
          row = row;
          shown = ground (arith, rw same at e2, view);
          valid = valid;
          sealed = digest;
          asked = (str_iff _ _).0 same;
          held = elim held [ inl a ↦ inl (a, refl) | inr b ↦ inr b ];
        }
      ]

  abbrev new : RequestRow
  new = new_request h requester operation_id intent

  replay_found-Answered :
      (row : Option RequestRow) (answer : TaskRunRequestResult)
      → find_operation operation_id u.requests ≡ row
      → replay_found h u.results new.content_digest row ≡ ok answer
      → Answered (u, answer)
  unfolding replay_found
  replay_found-Answered none answer e1 e2 s = absurd (ground (arith, e2, s))
  replay_found-Answered (some row) answer e1 e2 s =
      replay-Answered row u.results answer (inr e1) e2 s

  after_insert-Answered :
      (inserted : Option (Tables × RequestRow))
      → insert_request h u new ≡ ok inserted
      → Commits Answered (after_insert h u new inserted)
  unfolding after_insert
  after_insert-Answered none e =
      bind-Commits Answered
        (replay_found h u.results new.content_digest (find_operation operation_id u.requests)) _
        λ answer e'.
          commits (replay_found-Answered (find_operation operation_id u.requests) answer refl e')
  after_insert-Answered (some (t', row')) e =
      bind-Commits Answered (validated_task_run_request h t'.results row') _ λ v e'.
        let (no_request, no_operation, is, (columns, stored)) =
          insert_request-added h u t' new row' e in
        let (valid, digest, owned, view) = validated-parts h t'.results row' v e' in
        commits (λ s. record {
          row = row';
          shown = ap some (sym view);
          valid = valid;
          sealed = digest;
          asked = ap (λ (x : RequestRow). x.content_digest) (sym stored);
          held = inr (
              subst (λ (x : Tables). find_operation operation_id x.requests ≡ some row') is
                (subst (λ (y : String). find_operation y (u.requests ++ row' ∷ []) ≡ some row')
                  (ap (λ (x : RequestRow). x.operation_id) (sym stored))
                  (find_row-new (λ (r : RequestRow). r.operation_id) u.requests row'
                    no_operation)));
        })

  admit_current-Answered :
      (current : Bool) → Commits Answered (admit_current h u requester operation_id intent current)
  unfolding admit_current
  admit_current-Answered false = commits (λ s. cc)
  admit_current-Answered true =
      if_both (Commits Answered) (not (is_start intent.continuation)) _ _ (commits (λ s. cc)) (
        bind-Commits Answered (insert_request h u new) _
          (λ inserted e. after_insert-Answered inserted e))

  request_known-Answered :
      (row : Option RequestRow)
      → find_operation operation_id t.requests ≡ row
      → Commits Answered (request_known h t u requester operation_id intent row)
  unfolding request_known request_unreplayed admit_request
  request_known-Answered (some row) e =
      bind-Commits Answered (replay_request h t.results (h.digest requester intent) row) _
        (λ answer e'. commits (replay-Answered row t.results answer (inl e) e'))
  request_known-Answered none e =
      if_both (Commits Answered) (not (elem requester t.handles)) _ _ (commits (λ s. cc))
        (by_work (get_locked intent.execution_work_id t.works))
    where
      by_work :
          (work : Option CurrentWork)
          → Commits Answered (admit_request h u requester operation_id intent work)
      by_work none = commits (λ s. cc)
      by_work (some work) =
          bind-Commits Answered (canonical_revision h work) _
            (λ revision e'. admit_current-Answered _)

  pub request-IsAnswered : Answered (request h t u requester operation_id intent)
  unfolding request request_in_transaction
  request-IsAnswered =
      close-Commits Answered (λ s. cc)
        (request_known-Answered (find_operation operation_id t.requests) refl)
