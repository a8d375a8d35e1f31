-- ===== src/Core/Reads/Event.antt =====
-- `Controller.event`.
use switchstand.Core.Reads.{WorkEvent, close_read, is_of, is_stale, make_event}
use switchstand.Core.{
  Call, EventBinding, Handle, LaunchAuthority, Outcome, ProviderSourceStory, ProviderSourceTask,
  Raised, Status, World, can_read, denied, get_event, is_ok, ok_status, provider_error,
  source_story, source_task, stale, state_get, unknown,
}
use switchstand.Base.{
  string_eq, Bool, List, Option, Result, String, err, false, if◌then◌else◌, is_none, is_some, none,
  not, ok, some, ◌&&◌, ◌==◌, ◌||◌, ◌∷◌,
}

pub record WorkEventRequest : Type 0 where
  pub work_id : String
  pub event_id : String
  pub observed_revision : String

pub record WorkEventResult : Type 0 where
  pub status : Status
  pub work_id : Option String
  pub revision : Option String
  pub item : Option WorkEvent

abbrev pub item_is_of : Option String → Option WorkEvent → Bool
item_is_of work_id none = false
item_is_of work_id (some e) = is_of work_id e

-- `WorkEventResult.valid_result`
unfoldable pub event_result_valid : WorkEventResult → Bool
event_result_valid r =
    if is_ok r.status
    then is_some r.work_id && (is_some r.revision && item_is_of r.work_id r.item)
    else if is_stale r.status
    then is_some r.work_id && (is_some r.revision && is_none r.item)
    else is_none r.work_id && (is_none r.revision && is_none r.item)

abbrev pub no_event : Status → WorkEventResult
no_event s = record { status = s; work_id = none; revision = none; item = none }

-- a stale answer names the revision that the task has
abbrev pub stale_event : WorkEventRequest → String → WorkEventResult
stale_event r revision = record {
  status = stale;
  work_id = some r.work_id;
  revision = some revision;
  item = none;
}

-- `event` over the second `source_task`
unfoldable pub event_after :
    List Call
    → WorkEventRequest
    → ProviderSourceTask
    → ProviderSourceStory
    → Result Raised (Option ProviderSourceTask)
    → Outcome WorkEventResult
event_after log r before story (err e) = (log, err e)
event_after log r before story (ok none) = (log, ok (no_event unknown))
event_after log r before story (ok (some after)) =
    if not after.canonical
    then (log, ok (no_event denied))
    else if not (after.revision == before.revision)
    then (log, ok (stale_event r after.revision))
    else (
      log,
      ok (record {
        status = ok_status;
        work_id = some r.work_id;
        revision = some after.revision;
        item = some (make_event r.work_id r.event_id story);
      }),
    )

-- `event` over the answer of `source_story`
unfoldable pub event_story :
    World
    → List Call
    → WorkEventRequest
    → Handle
    → String
    → ProviderSourceTask
    → Result Raised (Option ProviderSourceStory)
    → Outcome WorkEventResult
event_story w log r h gid before (err e) = (log, err e)
event_story w log r h gid before (ok none) = (log, ok (no_event unknown))
event_story w log r h gid before (ok (some story)) =
    if not (story.task_gid == h.provider_work_id) || not (story.story_gid == gid)
    then (log, ok (no_event denied))
    else event_after (source_task h.provider h.provider_work_id ∷ log) r before story
        (w.get_task log h.provider h.provider_work_id)

-- `event` over the first `source_task`
unfoldable pub event_before :
    World
    → List Call
    → WorkEventRequest
    → Handle
    → String
    → Result Raised (Option ProviderSourceTask)
    → Outcome WorkEventResult
event_before w log r h gid (err e) = (log, err e)
event_before w log r h gid (ok none) = (log, ok (no_event unknown))
event_before w log r h gid (ok (some before)) =
    if not before.canonical
    then (log, ok (no_event denied))
    else if not (before.revision == r.observed_revision)
    then (log, ok (stale_event r before.revision))
    else event_story w (source_story h.provider h.provider_work_id gid ∷ log) r h gid before
        (w.get_story log h.provider h.provider_work_id gid)

-- the binding is of the handle's provider and work
abbrev pub is_bound_to : Handle → EventBinding → Bool
is_bound_to h b = b.provider == h.provider && b.provider_work_id == h.provider_work_id

-- `event` over the answer of `get_event`
unfoldable pub event_bound :
    World
    → List Call
    → WorkEventRequest
    → Handle
    → Result Raised (Option EventBinding)
    → Outcome WorkEventResult
event_bound w log r h (err e) = (log, err e)
event_bound w log r h (ok none) = (log, ok (no_event denied))
event_bound w log r h (ok (some b)) =
    if not (is_bound_to h b)
    then (log, ok (no_event denied))
    else if not (w.has_provider h.provider)
    then (log, ok (no_event provider_error))
    else event_before w (source_task h.provider h.provider_work_id ∷ log) r h b.provider_event_id
        (w.get_task log h.provider h.provider_work_id)

unfoldable pub event_found :
    World → List Call → WorkEventRequest → Result Raised (Option Handle) → Outcome WorkEventResult
event_found w log r (err e) = (log, err e)
event_found w log r (ok none) = (log, ok (no_event unknown))
event_found w log r (ok (some h)) =
    event_bound w (get_event r.work_id r.event_id ∷ log) r h (w.find_event log r.work_id r.event_id)

-- `Controller.event`
unfoldable pub event :
    World → LaunchAuthority → List Call → WorkEventRequest → Outcome WorkEventResult
event w a log r =
    if can_read a r.work_id
    then close_read no_event
        (event_found w (state_get r.work_id ∷ log) r (w.get_handle log r.work_id))
    else (log, ok (no_event denied))
