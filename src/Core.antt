-- ===== src/Core.antt =====
-- src/switchstand/core.py and the result types of contracts.py: the controller between callers and
-- the work providers. A UUID is its canonical text. State and providers are the record `World`:
-- each answer may depend on all the calls before it, and may raise.
pub mod Reads
pub mod Writes
pub mod Launch
mod Examples
use switchstand.Base.{
  ◌≡◌, Bool, List, Option, Result, String, bool_beq, elem, err, false, if◌then◌else◌, is_some, leb,
  length, nat_beq, none, not, ok, some, string_eq, to_set, true, ℕ, ◌&&◌, ◌==◌, ◌||◌, ◌∷◌,
}

pub data Status : Type 0 where
  ok_status stale denied unknown provider_error : Status

pub record Routing : Type 0 where
  pub priority : Option String
  pub work_type : Option String
  pub horizon : Option String
  pub review_next_action : Option String
  pub stage3_gate : Option String
  pub lifecycle_state : Option String
  pub canonical_root : Option String
  pub owner_key : Option String
  pub wait_kind : Option String
  pub unblock_condition : Option String
  pub next_due : Option String
  pub next_action_class : Option String
  pub next_action_ref : Option String

pub record WorkPlacement : Type 0 where
  pub area : String
  pub stage : Option String

pub record WorkContext : Type 0 where
  pub assignee : Option String
  pub placements : List WorkPlacement

pub record WorkSource : Type 0 where
  pub provider : String
  pub task_gid : String

-- the fields that the controller fills
pub record WorkItem : Type 0 where
  pub id : String
  pub title : String
  pub notes : String
  pub completed : Bool
  pub revision : String
  pub routing : Routing
  pub context : WorkContext
  pub source : WorkSource

-- A validated patch: a field that was set has a value, and the others have none.
pub record WorkPatch : Type 0 where
  pub title : Option String
  pub notes : Option String
  pub completed : Option Bool
  pub routing : Routing

pub record Handle : Type 0 where
  pub id : String
  pub provider : String
  pub provider_work_id : String

pub record EventBinding : Type 0 where
  pub id : String
  pub work_id : String
  pub provider : String
  pub provider_work_id : String
  pub provider_event_id : String

pub record ProviderWork : Type 0 where
  pub title : String
  pub notes : String
  pub completed : Bool
  pub revision : String
  pub routing : Routing
  pub context : WorkContext
  pub canonical : Bool

-- of a source task, what the controller reads
pub record ProviderSourceTask : Type 0 where
  pub revision : String
  pub canonical : Bool

pub record ProviderSourceStory : Type 0 where
  pub story_gid : String
  pub task_gid : String
  pub subtype : Option String
  pub text : Option String
  pub created_at : String
  pub created_by : Option String

pub record ProviderStoriesPage : Type 0 where
  pub task_gid : String
  pub revision : String
  pub stories : List ProviderSourceStory
  pub next_offset : Option String
  pub canonical : Bool
  pub stale_page : Bool

-- what a call may raise: `UnknownEffect`, another `ProviderError`, or another exception
pub data Raised : Type 0 where
  unknown_effect provider_failure other_failure : Raised

-- the calls to the state and to the providers, with the provider's name and work id
pub data Call : Type 0 where
  state_get : String → Call
  state_lock : String → Call
  state_unlock : String → Call
  state_bind : String → String → Call
  bind_event : String → String → String → String → Call
  get_event : String → String → Call
  provider_get : String → String → Call
  provider_update : String → String → WorkPatch → Call
  provider_append : String → String → String → Call
  source_task : String → String → Call
  source_stories : String → String → String → Option String → ℕ → Call
  source_story : String → String → String → Call

-- `State`, `EventState` and the `providers` of the controller. The first argument of each answer
-- is the calls before it, the latest first.
pub record World : Type 0 where
  pub has_provider : String → Bool
  pub get_handle : List Call → String → Result Raised (Option Handle)
  pub lock : List Call → String → Result Raised (Option Handle)
  pub unlock : List Call → String → Result Raised (Unit {0})
  pub bind : List Call → String → String → Result Raised Handle
  pub bind_story : List Call → String → String → String → String → Result Raised EventBinding
  pub find_event : List Call → String → String → Result Raised (Option EventBinding)
  pub get_work : List Call → String → String → Result Raised (Option ProviderWork)
  pub update_work : List Call → String → String → WorkPatch → Result Raised (Unit {0})
  pub append_story : List Call → String → String → String → Result Raised (Option String)
  pub get_task : List Call → String → String → Result Raised (Option ProviderSourceTask)
  pub get_stories :
      List Call
      → String
      → String
      → String
      → Option String
      → ℕ
      → Result Raised (Option ProviderStoriesPage)
  pub get_story : List Call → String → String → String → Result Raised (Option ProviderSourceStory)

pub record WorkResult : Type 0 where
  pub status : Status
  pub item : Option WorkItem

abbrev pub is_ok : Status → Bool
is_ok ok_status = true
is_ok _ = false

-- `self.status in {"ok", "stale"}`
abbrev pub needs_item : Status → Bool
needs_item ok_status = true
needs_item stale = true
needs_item _ = false

-- `WorkResult.valid_result`
unfoldable pub work_result_valid : WorkResult → Bool
work_result_valid r = bool_beq (needs_item r.status) (is_some r.item)

pub record LaunchAuthority : Type 0 where
  pub active_work_id : String
  pub reference_work_ids : List String

-- `LaunchAuthority.bounded`, with the bound on the length of the field
unfoldable pub authority_bounded : LaunchAuthority → Bool
authority_bounded a =
    leb (length a.reference_work_ids) 8
    && (not (elem a.active_work_id a.reference_work_ids)
        && nat_beq (length (to_set a.reference_work_ids)) (length a.reference_work_ids))

-- `LaunchAuthority.can_read`
unfoldable pub can_read : LaunchAuthority → String → Bool
can_read a work_id = work_id == a.active_work_id || elem work_id a.reference_work_ids

-- a result without an item
abbrev pub bare : Status → WorkResult
bare s = record { status = s; item = none }

-- `Controller._item`
unfoldable pub make_item : String → ProviderWork → Handle → WorkItem
make_item work_id w h = record {
  id = work_id;
  title = w.title;
  notes = w.notes;
  completed = w.completed;
  revision = w.revision;
  routing = w.routing;
  context = w.context;
  source = record { provider = h.provider; task_gid = h.provider_work_id };
}

-- the answer of `_read` to what the provider gave
unfoldable pub read_answer :
    String → Handle → Result Raised (Option ProviderWork) → Result Raised WorkResult
read_answer work_id h (err e) = err e
read_answer work_id h (ok none) = ok (bare unknown)
read_answer work_id h (ok (some w)) =
    if w.canonical
    then ok (record { status = ok_status; item = some (make_item work_id w h) })
    else ok (bare denied)

-- What an operation leaves: the calls made so far, and its value or what it raised.
abbrev pub Outcome {ℓ} : Type ℓ → Type ℓ
Outcome A = List Call × Result Raised A

-- A result that is returned passes its validator.
abbrev pub Returns : {A : Type 0} → (A → Bool) → Outcome A → Type 0
Returns valid (log, ok x) = valid x ≡ true
Returns valid (log, err e) = Unit

-- `Controller._read`
unfoldable pub read_work : World → List Call → String → Handle → Outcome WorkResult
read_work w log work_id h =
    if w.has_provider h.provider
    then (
      provider_get h.provider h.provider_work_id ∷ log,
      read_answer work_id h (w.get_work log h.provider h.provider_work_id),
    )
    else (log, ok (bare provider_error))
