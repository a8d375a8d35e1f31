-- ===== src/Core/Writes/Append.antt =====
-- `Controller.append`.
use switchstand.Core.Writes.{Body, leave_lock}
use switchstand.Base.{
  option_eq, Bool, List, Option, Result, String, err, false, if◌then◌else◌, is_none, is_some, none,
  not, ok, some, string_eq, true, ◌&&◌, ◌==◌, ◌∷◌,
}
use switchstand.Core.{
  Call, Handle, LaunchAuthority, Outcome, ProviderSourceStory, Raised, Status, WorkResult, World,
  denied, is_ok, needs_item, ok_status, other_failure, provider_append, provider_error,
  provider_failure, read_work, source_story, stale, state_lock, unknown, unknown_effect,
}

pub record WorkAppendRequest : Type 0 where
  pub work_id : String
  pub text : String

pub record AppendResult : Type 0 where
  pub status : Status
  pub task_gid : Option String
  pub story_gid : Option String

-- `AppendResult.valid_result`, whose status is never stale
unfoldable pub append_result_valid : AppendResult → Bool
append_result_valid r =
    if is_ok r.status
    then is_some r.task_gid && is_some r.story_gid
    else is_none r.task_gid && (is_none r.story_gid && not (needs_item r.status))

-- a failed append
abbrev pub no_append : Status → AppendResult
no_append s = record { status = s; task_gid = none; story_gid = none }

-- `current.status if current.status != "stale" else "provider_error"`
abbrev pub append_status : Status → Status
append_status stale = provider_error
append_status s = s

-- the last `_read` of `append`
unfoldable pub append_confirmed : Handle → String → Outcome WorkResult → Body AppendResult
append_confirmed h gid (log, err e) = record { log = log; maybe_applied = true; result = err e }
append_confirmed h gid (log, ok current) = record {
  log = log;
  maybe_applied = true;
  result = ok (
      if is_ok current.status
      then record { status = ok_status; task_gid = some h.provider_work_id; story_gid = some gid }
      else no_append unknown);
}

-- the story is the one that was appended, with the text of the request
abbrev pub story_confirms : Handle → String → String → ProviderSourceStory → Bool
story_confirms h gid text story =
    story.story_gid == gid && (story.task_gid == h.provider_work_id && story.text == some text)

unfoldable pub append_story_read :
    World
    → List Call
    → WorkAppendRequest
    → Handle
    → String
    → Result Raised (Option ProviderSourceStory)
    → Body AppendResult
append_story_read w log r h gid (err e) = record { log = log; maybe_applied = true; result = err e }
append_story_read w log r h gid (ok none) = record {
  log = log;
  maybe_applied = true;
  result = ok (no_append unknown);
}
append_story_read w log r h gid (ok (some story)) =
    if story_confirms h gid r.text story
    then append_confirmed h gid (read_work w log r.work_id h)
    else record { log = log; maybe_applied = true; result = ok (no_append unknown) }

-- what `append` does with the answer of `provider.append`
unfoldable pub append_sent :
    World
    → List Call
    → WorkAppendRequest
    → Handle
    → Result Raised (Option String)
    → Body AppendResult
append_sent w log r h (err e) = record { log = log; maybe_applied = false; result = err e }
append_sent w log r h (ok none) = record {
  log = log;
  maybe_applied = true;
  result = ok (no_append unknown);
}
append_sent w log r h (ok (some gid)) =
    append_story_read w (source_story h.provider h.provider_work_id gid ∷ log) r h gid
      (w.get_story log h.provider h.provider_work_id gid)

unfoldable pub append_read :
    World → WorkAppendRequest → Handle → Outcome WorkResult → Body AppendResult
append_read w r h (log, err e) = record { log = log; maybe_applied = false; result = err e }
append_read w r h (log, ok current) =
    if is_ok current.status
    then append_sent w (provider_append h.provider h.provider_work_id r.text ∷ log) r h
        (w.append_story log h.provider h.provider_work_id r.text)
    else record {
      log = log;
      maybe_applied = false;
      result = ok (no_append (append_status current.status));
    }

unfoldable pub append_locked :
    World → List Call → WorkAppendRequest → Option Handle → Body AppendResult
append_locked w log r none = record {
  log = log;
  maybe_applied = false;
  result = ok (no_append unknown);
}
append_locked w log r (some h) = append_read w r h (read_work w log r.work_id h)

-- the `except` clauses of `append`
unfoldable pub append_result : Bool → Result Raised AppendResult → Result Raised AppendResult
append_result returned (ok r) = ok r
append_result returned (err unknown_effect) = ok (no_append unknown)
append_result returned (err provider_failure) =
    ok (no_append (if returned then unknown else provider_error))
append_result returned (err other_failure) =
    if returned then ok (no_append unknown) else err other_failure

abbrev pub close_append : Body AppendResult → Outcome AppendResult
close_append b = (b.log, append_result b.maybe_applied b.result)

unfoldable pub append_entered :
    World → List Call → WorkAppendRequest → Result Raised (Option Handle) → Outcome AppendResult
append_entered w log r (err e) = (log, append_result false (err e))
append_entered w log r (ok h) = close_append (leave_lock w r.work_id (append_locked w log r h))

-- `Controller.append`
unfoldable pub append_work :
    World → LaunchAuthority → List Call → WorkAppendRequest → Outcome AppendResult
append_work w a log r =
    if r.work_id == a.active_work_id
    then append_entered w (state_lock r.work_id ∷ log) r (w.lock log r.work_id)
    else (log, ok (no_append denied))
