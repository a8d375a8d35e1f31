-- ===== src/Core/Reads.antt =====
-- `Controller.get`, and what the three reads share.
pub mod History
pub mod Event
pub mod Answers
pub mod Events
pub mod Gate
use switchstand.Base.{
  option_eq, string_eq, Bool, List, Option, Result, String, err, false, if◌then◌else◌, none, ok,
  some, true, ◌==◌, ◌∷◌,
}
use switchstand.Core.{
  Call, Handle, LaunchAuthority, Outcome, ProviderSourceStory, Raised, Status, WorkResult, World,
  bare, can_read, denied, other_failure, provider_error, provider_failure, read_work, stale,
  state_get, unknown, unknown_effect,
}

pub record WorkEvent : Type 0 where
  pub id : String
  pub work_id : String
  pub subtype : Option String
  pub text : Option String
  pub created_at : String
  pub actor : Option String

abbrev pub is_stale : Status → Bool
is_stale stale = true
is_stale _ = false

abbrev pub is_of : Option String → WorkEvent → Bool
is_of work_id e = work_id == some e.work_id

-- `Controller._work_event`
abbrev pub make_event : String → String → ProviderSourceStory → WorkEvent
make_event work_id event_id story = record {
  id = event_id;
  work_id = work_id;
  subtype = story.subtype;
  text = story.text;
  created_at = story.created_at;
  actor = story.created_by;
}

-- the `except` clauses of the three reads, over the result for a status
unfoldable pub read_result {ℓ} : {A : Type ℓ} → (Status → A) → Result Raised A → Result Raised A
read_result f (ok r) = ok r
read_result f (err unknown_effect) = ok (f unknown)
read_result f (err provider_failure) = ok (f provider_error)
read_result f (err other_failure) = err other_failure

abbrev pub close_read {ℓ} : {A : Type ℓ} → (Status → A) → Outcome A → Outcome A
close_read f (log, r) = (log, read_result f r)

-- `get` over the answer of `self.state.get`
unfoldable pub get_found :
    World → List Call → String → Result Raised (Option Handle) → Outcome WorkResult
get_found w log id (err e) = (log, err e)
get_found w log id (ok none) = (log, ok (bare unknown))
get_found w log id (ok (some h)) = read_work w log id h

-- `Controller.get`
unfoldable pub get_work_item : World → LaunchAuthority → List Call → String → Outcome WorkResult
get_work_item w a log id =
    if can_read a id
    then close_read bare (get_found w (state_get id ∷ log) id (w.get_handle log id))
    else (log, ok (bare denied))
