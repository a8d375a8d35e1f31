-- ===== src/Core/Examples.antt =====
-- A provider that takes an update and an append, and the controller in front of it.
use switchstand.Core.Writes.Effects.{update-Claim}
use switchstand.Core.Writes.Once.{update_once}
use switchstand.Core.Writes.Claims.{provider_calls, Claim, updates}
use switchstand.Core.Reads.{get_work_item}
use switchstand.Core.Reads.Event.{WorkEventRequest, event, event_result_valid, no_event}
use switchstand.Core.Launch.Authority.{IsProvisioned, provision_launch-IsProvisioned}
use switchstand.Core.Writes.{
  after_update, apply_read, apply_scalar, converged, leave_lock, patch_matches, readback,
  routing_matches,
}
use switchstand.Core.Writes.Update.{
  WorkUpdateRequest, update_applied, update_entered, update_locked, update_read, update_result,
  update_work_item,
}
use switchstand.Core.Reads.History.{WorkHistoryRequest, history, history_result_valid, no_history}
use switchstand.Core.Reads.Events.{EventAnswer, event-EventAnswer}
use switchstand.Core.Writes.Append.{AppendResult, WorkAppendRequest}
use switchstand.Core.Reads.Gate.{GetAnswer, get-GetAnswer}
use switchstand.Core.Launch.{
  bind_all, handle_ids, launch_read, make_authority, provision_launch, read_all,
}
use switchstand.Core.{
  Call, Handle, LaunchAuthority, ProviderSourceStory, ProviderWork, Raised, Returns, Routing,
  WorkResult, World, authority_bounded, bare, can_read, denied, make_item, ok_status, other_failure,
  provider_append, provider_get, provider_update, read_answer, read_work, source_story, state_bind,
  state_lock, state_unlock, work_result_valid,
}
use switchstand.Base.{
  List, String, [], all, elem, err, false, length, none, ok, refl, some, string_eq, suc, to_set,
  true, zero, ℕ, ◌==◌, ◌∷◌, ◌≡◌, ◌≤◌,
}
use switchstand.Core.Writes.Fence.{Fenced, update-Fenced}
use switchstand.Core.Reads.Answers.{HistoryAnswer, history-HistoryAnswer}

abbrev no_routing : Routing
no_routing = record {
  priority = none;
  work_type = none;
  horizon = none;
  review_next_action = none;
  stage3_gate = none;
  lifecycle_state = none;
  canonical_root = none;
  owner_key = none;
  wait_kind = none;
  unblock_condition = none;
  next_due = none;
  next_action_class = none;
  next_action_ref = none;
}

abbrev title_of : ℕ → String
title_of zero = "draft"
title_of (suc n) = "final"

abbrev revision_of : ℕ → String
revision_of zero = "r1"
revision_of (suc n) = "r2"

abbrev work_after : ℕ → ProviderWork
work_after n = record {
  title = title_of n;
  notes = "";
  completed = false;
  revision = revision_of n;
  routing = no_routing;
  context = record { assignee = none; placements = [] };
  canonical = true;
}

abbrev the_handle : Handle
the_handle = record { id = "w1"; provider = "postgres"; provider_work_id = "g1" }

abbrev the_story : ProviderSourceStory
the_story = record {
  story_gid = "s1";
  task_gid = "g1";
  subtype = none;
  text = some "note";
  created_at = "t0";
  created_by = none;
}

abbrev is_sent : List Call → ℕ
is_sent [] = 0
is_sent (provider_update provider gid p ∷ cs) = 1
is_sent (c ∷ cs) = is_sent cs

abbrev a_world : World
a_world = record {
  has_provider = λ name. name == "postgres";
  get_handle = λ log id. ok (some the_handle);
  lock = λ log id. ok (some the_handle);
  unlock = λ log id. ok tt;
  bind = λ log provider gid. ok (record { id = gid; provider = provider; provider_work_id = gid });
  bind_story = λ log id provider gid story. ok (record {
    id = "e1";
    work_id = id;
    provider = provider;
    provider_work_id = gid;
    provider_event_id = story;
  });
  find_event = λ log id event_id. ok (
      some (record {
        id = event_id;
        work_id = id;
        provider = "postgres";
        provider_work_id = "g1";
        provider_event_id = "s1";
      }));
  get_work = λ log provider gid. ok (some (work_after (is_sent log)));
  update_work = λ log provider gid patch. ok tt;
  append_story = λ log provider gid text. ok (some "s1");
  get_task = λ log provider gid. ok (some (record { revision = "r1"; canonical = true }));
  get_stories = λ log provider gid revision cursor limit. ok (
      some (record {
        task_gid = "g1";
        revision = "r1";
        stories = the_story ∷ [];
        next_offset = none;
        canonical = true;
        stale_page = false;
      }));
  get_story = λ log provider gid story. ok (some the_story);
}

abbrev authority : LaunchAuthority
authority = record { active_work_id = "w1"; reference_work_ids = "w2" ∷ [] }

abbrev retitle : WorkUpdateRequest
retitle = record {
  work_id = "w1";
  observed_revision = "r1";
  patch = record { title = some "final"; notes = none; completed = none; routing = no_routing };
}

abbrev note : WorkAppendRequest
note = record { work_id = "w1"; text = "note" }

unlock_quiet :
    (before : List Call) (id : String) (e : Raised)
    → a_world.unlock before id ≡ err e
    → e ≡ other_failure
unlock_quiet before id e h = cc

abbrev update_calls : List Call
update_calls =
    state_unlock "w1"
    ∷ provider_get "postgres" "g1"
    ∷ provider_update "postgres" "g1" retitle.patch
    ∷ provider_get "postgres" "g1"
    ∷ state_lock "w1"
    ∷ []

abbrev update_answer : WorkResult
update_answer = record {
  status = ok_status;
  item = some (make_item "w1" (work_after 1) the_handle);
}

updated : update_work_item a_world authority [] retitle ≡ (update_calls, ok update_answer)
unfolding update_work_item update_entered update_locked read_work read_answer update_read make_item
    apply_scalar after_update apply_read readback converged patch_matches routing_matches updates
    update_applied leave_lock update_result
updated = refl

abbrev append_calls : List Call
append_calls =
    state_unlock "w1"
    ∷ provider_get "postgres" "g1"
    ∷ source_story "postgres" "g1" "s1"
    ∷ provider_append "postgres" "g1" "note"
    ∷ provider_get "postgres" "g1"
    ∷ state_lock "w1"
    ∷ []

abbrev append_answer : AppendResult
append_answer = record { status = ok_status; task_gid = some "g1"; story_gid = some "s1" }

abbrev launched : LaunchAuthority
launched = record { active_work_id = "g1"; reference_work_ids = "g2" ∷ [] }

abbrev launch_calls : List Call
launch_calls = state_bind "postgres" "g2" ∷ state_bind "postgres" "g1" ∷ []

provisioned : provision_launch a_world [] "postgres" "g1" ("g2" ∷ []) ≡ (
  state_bind "postgres" "g2"
      ∷ state_bind "postgres" "g1"
      ∷ provider_get "postgres" "g2"
      ∷ provider_get "postgres" "g1"
      ∷ [],
  ok launched,
)
unfolding provision_launch launch_read read_all bind_all make_authority authority_bounded length
    to_set elem all handle_ids
provisioned = refl

abbrev foreign_history : WorkHistoryRequest
foreign_history = record { work_id = "w9"; observed_revision = "r1"; cursor = none; limit = 50 }

abbrev foreign_event : WorkEventRequest
foreign_event = record { work_id = "w9"; event_id = "e1"; observed_revision = "r1" }

abbrev own_history : WorkHistoryRequest
own_history = record foreign_history { work_id = "w1" }

abbrev own_event : WorkEventRequest
own_event = record foreign_event { work_id = "w1" }

update-Claim_example :
    Claim a_world retitle [] (provider_calls update_calls) ok_status update_answer.item
    × (work_result_valid update_answer ≡ true)
unfolding updates
update-Claim_example =
    update-Claim a_world authority [] retitle update_calls update_answer unlock_quiet updated

update_once_example :
    (updates (update_work_item a_world authority [] retitle).0 ≤ suc (updates []))
    × ((retitle.work_id == authority.active_work_id) ≡ false
        → updates (update_work_item a_world authority [] retitle).0 ≡ updates [])
update_once_example = update_once a_world authority [] retitle

history-HistoryAnswer_example :
    HistoryAnswer own_history (history a_world authority [] own_history)
    × Returns history_result_valid (history a_world authority [] own_history)
history-HistoryAnswer_example = history-HistoryAnswer a_world authority [] own_history

event-EventAnswer_example :
    EventAnswer own_event (event a_world authority [] own_event)
    × Returns event_result_valid (event a_world authority [] own_event)
event-EventAnswer_example = event-EventAnswer a_world authority [] own_event

get-GetAnswer_example : GetAnswer authority "w1" (get_work_item a_world authority [] "w1")
get-GetAnswer_example = get-GetAnswer a_world authority [] "w1"

-- Work outside the launch authority is denied with no call.
outside_denied :
    (get_work_item a_world authority [] "w9" ≡ ([], ok (bare denied)))
    × (history a_world authority [] foreign_history ≡ ([], ok (no_history denied)))
    × (event a_world authority [] foreign_event ≡ ([], ok (no_event denied)))
unfolding get_work_item history event elem can_read
outside_denied = (refl, refl, refl)

provision_launch-IsProvisioned_example :
    IsProvisioned a_world [] "postgres" "g1" ("g2" ∷ []) launched
provision_launch-IsProvisioned_example =
    provision_launch-IsProvisioned a_world [] _ "postgres" "g1" ("g2" ∷ []) launched provisioned

update-Fenced_example :
    Fenced a_world retitle [] (provider_calls (update_work_item a_world authority [] retitle).0)
update-Fenced_example = update-Fenced a_world authority [] retitle
