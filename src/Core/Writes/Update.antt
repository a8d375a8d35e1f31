-- ===== src/Core/Writes/Update.antt =====
-- `Controller.update`.
use switchstand.Core.Writes.{Body, apply_scalar, leave_lock}
use switchstand.Base.{
  string_eq, Bool, List, Option, Result, String, err, false, if◌then◌else◌, none, ok, some, true,
  ◌==◌, ◌∷◌,
}
use switchstand.Core.{
  Call, Handle, LaunchAuthority, Outcome, ProviderWork, Raised, WorkItem, WorkPatch, WorkResult,
  World, bare, denied, is_ok, make_item, ok_status, other_failure, provider_error, provider_failure,
  read_work, stale, state_lock, unknown, unknown_effect,
}

pub record WorkUpdateRequest : Type 0 where
  pub work_id : String
  pub observed_revision : String
  pub patch : WorkPatch

-- `update` after `apply_scalar`
unfoldable pub update_applied : String → Handle → Outcome (Option ProviderWork) → Body WorkResult
update_applied id h (log, err unknown_effect) = record {
  log = log;
  maybe_applied = true;
  result = ok (bare unknown);
}
update_applied id h (log, err e) = record { log = log; maybe_applied = false; result = err e }
update_applied id h (log, ok none) = record {
  log = log;
  maybe_applied = true;
  result = ok (bare unknown);
}
update_applied id h (log, ok (some work)) = record {
  log = log;
  maybe_applied = true;
  result = ok (record { status = ok_status; item = some (make_item id work h) });
}

-- the item of a read that is ok
abbrev pub ok_item : WorkResult → Option WorkItem
ok_item r = if is_ok r.status then r.item else none

-- `update` after the first `_read`: a result that is not ok is returned
unfoldable pub update_read :
    World → WorkUpdateRequest → Handle → Outcome WorkResult → Body WorkResult
update_read w r h (log, err e) = record { log = log; maybe_applied = false; result = err e }
update_read w r h (log, ok current) = elim (ok_item current) [
  | none ↦ record { log = log; maybe_applied = false; result = ok current }
  | some item ↦
      if item.revision == r.observed_revision
      then update_applied r.work_id h
          (apply_scalar w log h.provider h.provider_work_id r.patch true)
      else record {
        log = log;
        maybe_applied = false;
        result = ok (record { status = stale; item = some item });
      }
]

-- the body of `async with self.state.locked(...) as handle`
unfoldable pub update_locked :
    World → List Call → WorkUpdateRequest → Option Handle → Body WorkResult
update_locked w log r none = record { log = log; maybe_applied = false; result = ok (bare unknown) }
update_locked w log r (some h) = update_read w r h (read_work w log r.work_id h)

-- the `except` clauses of `update`
unfoldable pub update_result : Bool → Result Raised WorkResult → Result Raised WorkResult
update_result applied (ok r) = ok r
update_result applied (err unknown_effect) = ok (bare unknown)
update_result applied (err provider_failure) =
    ok (bare (if applied then unknown else provider_error))
update_result applied (err other_failure) = if applied then ok (bare unknown) else err other_failure

abbrev pub close_update : Body WorkResult → Outcome WorkResult
close_update b = (b.log, update_result b.maybe_applied b.result)

-- what `update` does with the answer of the lock
unfoldable pub update_entered :
    World → List Call → WorkUpdateRequest → Result Raised (Option Handle) → Outcome WorkResult
update_entered w log r (err e) = (log, update_result false (err e))
update_entered w log r (ok h) = close_update (leave_lock w r.work_id (update_locked w log r h))

-- `Controller.update`
unfoldable pub update_work_item :
    World → LaunchAuthority → List Call → WorkUpdateRequest → Outcome WorkResult
update_work_item w a log r =
    if r.work_id == a.active_work_id
    then update_entered w (state_lock r.work_id ∷ log) r (w.lock log r.work_id)
    else (log, ok (bare denied))
