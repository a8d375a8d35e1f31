-- ===== src/Core/Reads/History.antt =====
-- `Controller.history`.
use switchstand.Core.Reads.{WorkEvent, close_read, is_of, is_stale, make_event}
use switchstand.Core.{
  Call, EventBinding, Handle, LaunchAuthority, Outcome, ProviderSourceStory, ProviderStoriesPage,
  Raised, Status, World, bind_event, can_read, denied, is_ok, ok_status, provider_error,
  source_stories, stale, state_get, unknown,
}
use switchstand.Base.{
  string_eq, Bool, List, Option, Result, String, [], all, err, false, if◌then◌else◌, is_none,
  is_some, leb, length, none, not, ok, some, true, ℕ, ◌&&◌, ◌==◌, ◌||◌, ◌∷◌,
}

pub record WorkHistoryRequest : Type 0 where
  pub work_id : String
  pub observed_revision : String
  pub cursor : Option String
  pub limit : ℕ

pub record WorkHistoryResult : Type 0 where
  pub status : Status
  pub work_id : Option String
  pub revision : Option String
  pub events : List WorkEvent
  pub next_cursor : Option String

abbrev pub no_events : List WorkEvent → Bool
no_events [] = true
no_events (e ∷ es) = false

-- `WorkHistoryResult.valid_result`
unfoldable pub history_result_valid : WorkHistoryResult → Bool
history_result_valid r =
    if is_ok r.status
    then is_some r.work_id && (is_some r.revision && all (is_of r.work_id) r.events)
    else if is_stale r.status
    then is_some r.work_id && (is_some r.revision && (no_events r.events && is_none r.next_cursor))
    else is_none r.work_id && (is_none r.revision && (no_events r.events && is_none r.next_cursor))

abbrev pub no_history : Status → WorkHistoryResult
no_history s = record {
  status = s;
  work_id = none;
  revision = none;
  events = [];
  next_cursor = none;
}

-- an event in front of the events that the rest of the loop gives
abbrev pub cons_event : WorkEvent → Outcome (List WorkEvent) → Outcome (List WorkEvent)
cons_event e (log, ok es) = (log, ok (e ∷ es))
cons_event e (log, err x) = (log, err x)

-- one round of the loop, over the binding and the rounds after it
unfoldable pub bound_event :
    List Call
    → String
    → ProviderSourceStory
    → Result Raised EventBinding
    → Outcome (List WorkEvent)
    → Outcome (List WorkEvent)
bound_event log id story (err x) rest = (log, err x)
bound_event log id story (ok binding) rest = cons_event (make_event id binding.id story) rest

-- the loop over the stories of the page
unfoldable pub bind_events :
    World → List Call → String → Handle → List ProviderSourceStory → Outcome (List WorkEvent)
bind_events w log id h [] = (log, ok [])
bind_events w log id h (s ∷ ss) =
    let called = bind_event id h.provider h.provider_work_id s.story_gid ∷ log in
    bound_event called id s (w.bind_story log id h.provider h.provider_work_id s.story_gid)
      (bind_events w called id h ss)

-- the result of a page whose stories are bound
unfoldable pub history_bound :
    String → ProviderStoriesPage → Outcome (List WorkEvent) → Outcome WorkHistoryResult
history_bound id page (log, err x) = (log, err x)
history_bound id page (log, ok events) = (
  log,
  ok (record {
    status = ok_status;
    work_id = some id;
    revision = some page.revision;
    events = events;
    next_cursor = page.next_offset;
  }),
)

abbrev pub is_story_of : Handle → ProviderSourceStory → Bool
is_story_of h s = s.task_gid == h.provider_work_id

-- the test of the page against the request
unfoldable pub page_fits : WorkHistoryRequest → Handle → ProviderStoriesPage → Bool
page_fits r h page =
    page.task_gid == h.provider_work_id
    && (leb (length page.stories) r.limit && all (is_story_of h) page.stories)

-- `history` over the answer of `source_stories`
unfoldable pub history_page :
    World
    → List Call
    → WorkHistoryRequest
    → Handle
    → Result Raised (Option ProviderStoriesPage)
    → Outcome WorkHistoryResult
history_page w log r h (err e) = (log, err e)
history_page w log r h (ok none) = (log, ok (no_history unknown))
history_page w log r h (ok (some page)) =
    if not page.canonical
    then (log, ok (no_history denied))
    else if not (page_fits r h page)
    then (log, ok (no_history provider_error))
    else if page.stale_page || not (page.revision == r.observed_revision)
    then (
      log,
      ok (record {
        status = stale;
        work_id = some r.work_id;
        revision = some page.revision;
        events = [];
        next_cursor = none;
      }),
    )
    else history_bound r.work_id page (bind_events w log r.work_id h page.stories)

unfoldable pub history_found :
    World
    → List Call
    → WorkHistoryRequest
    → Result Raised (Option Handle)
    → Outcome WorkHistoryResult
history_found w log r (err e) = (log, err e)
history_found w log r (ok none) = (log, ok (no_history unknown))
history_found w log r (ok (some h)) =
    if w.has_provider h.provider
    then history_page w
        (source_stories h.provider h.provider_work_id r.observed_revision r.cursor r.limit ∷ log) r
        h (w.get_stories log h.provider h.provider_work_id r.observed_revision r.cursor r.limit)
    else (log, ok (no_history provider_error))

-- `Controller.history`
unfoldable pub history :
    World → LaunchAuthority → List Call → WorkHistoryRequest → Outcome WorkHistoryResult
history w a log r =
    if can_read a r.work_id
    then close_read no_history
        (history_found w (state_get r.work_id ∷ log) r (w.get_handle log r.work_id))
    else (log, ok (no_history denied))
