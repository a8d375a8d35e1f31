-- ===== src/Core/Reads/Events.antt =====
-- What the answers of `event` claim.
use switchstand.Core.Reads.{close_read, make_event, read_result}
use switchstand.Core.Reads.Event.{
  WorkEventRequest, WorkEventResult, event, event_after, event_before, event_bound, event_found,
  event_result_valid, event_story, is_bound_to, no_event,
}
use switchstand.Core.{
  Call, EventBinding, Handle, LaunchAuthority, Outcome, ProviderSourceStory, ProviderSourceTask,
  Raised, Returns, Status, World, can_read, denied, ok_status, other_failure, provider_error,
  provider_failure, stale, state_get, unknown, unknown_effect,
}
use switchstand.Base.{
  string_eq, Bool, Bool-cases, List, Option, Result, String, ap, beq_refl, err, false, if_known,
  inl, inr, none, not, ok, refl, some, str_iff, true, ◌==◌, ◌||◌, ◌∙◌, ◌∷◌, ◌≡◌,
}

-- What an event answer of each status carries.
abbrev pub EventClaim : WorkEventRequest → WorkEventResult → Status → Type 0
EventClaim r x ok_status =
    (x.work_id ≡ some r.work_id)
    × (x.revision ≡ some r.observed_revision)
    × (story : ProviderSourceStory) × (x.item ≡ some (make_event r.work_id r.event_id story))
EventClaim r x stale =
    (x.work_id ≡ some r.work_id)
    × (x.item ≡ none)
    × ((revision : String) × (x.revision ≡ some revision)
        × ((revision == r.observed_revision) ≡ false))
EventClaim r x _ = (x.work_id ≡ none) × (x.revision ≡ none) × (x.item ≡ none)

abbrev pub EventAnswer : WorkEventRequest → Outcome WorkEventResult → Type 0
EventAnswer r (log, ok x) = EventClaim r x x.status
EventAnswer r (log, err e) = Unit

negated : (b : Bool) → not b ≡ true → b ≡ false
negated true h = cc
negated false h = refl

affirmed : (b : Bool) → not b ≡ false → b ≡ true
affirmed true h = refl
affirmed false h = cc

after-EventAnswer :
    (log : List Call) (r : WorkEventRequest) (before : ProviderSourceTask)
    (story : ProviderSourceStory) (t : Result Raised (Option ProviderSourceTask))
    → before.revision ≡ r.observed_revision
    → EventAnswer r (event_after log r before story t)
unfolding event_after
after-EventAnswer log r before story (err e) same = tt
after-EventAnswer log r before story (ok none) same = (refl, refl, refl)
after-EventAnswer log r before story (ok (some after)) same =
    if_known (EventAnswer r) (not after.canonical) _ _ (λ c. (refl, refl, refl))
      λ c.
        if_known (EventAnswer r) (not (after.revision == before.revision)) _ _
          (λ d. (refl, refl, (after.revision, refl, rw same at (negated _ d))))
          λ d. (
            refl,
            ap some ((str_iff after.revision before.revision).0 (affirmed _ d) ∙ same),
            story,
            refl,
          )

story-EventAnswer :
    (w : World) (log : List Call) (r : WorkEventRequest) (h : Handle) (gid : String)
    (before : ProviderSourceTask) (s : Result Raised (Option ProviderSourceStory))
    → before.revision ≡ r.observed_revision
    → EventAnswer r (event_story w log r h gid before s)
unfolding event_story
story-EventAnswer w log r h gid before (err e) same = tt
story-EventAnswer w log r h gid before (ok none) same = (refl, refl, refl)
story-EventAnswer w log r h gid before (ok (some story)) same =
    elim (Bool-cases (not (story.task_gid == h.provider_work_id) || not (story.story_gid == gid))) [
      | inl e ↦ rw (e, event_story) (refl, refl, refl)
      | inr e ↦ rw (e, event_story) (after-EventAnswer _ r before story _ same)
    ]

before-EventAnswer :
    (w : World) (log : List Call) (r : WorkEventRequest) (h : Handle) (gid : String)
    (t : Result Raised (Option ProviderSourceTask))
    → EventAnswer r (event_before w log r h gid t)
unfolding event_before
before-EventAnswer w log r h gid (err e) = tt
before-EventAnswer w log r h gid (ok none) = (refl, refl, refl)
before-EventAnswer w log r h gid (ok (some before)) =
    if_known (EventAnswer r) (not before.canonical) _ _ (λ c. (refl, refl, refl))
      λ c.
        if_known (EventAnswer r) (not (before.revision == r.observed_revision)) _ _
          (λ d. (refl, refl, (before.revision, refl, negated _ d)))
          λ d.
            story-EventAnswer w _ r h gid before _
              ((str_iff before.revision r.observed_revision).0 (affirmed _ d))

bound-EventAnswer :
    (w : World) (log : List Call) (r : WorkEventRequest) (h : Handle)
    (b : Result Raised (Option EventBinding))
    → EventAnswer r (event_bound w log r h b)
unfolding event_bound
bound-EventAnswer w log r h (err e) = tt
bound-EventAnswer w log r h (ok none) = (refl, refl, refl)
bound-EventAnswer w log r h (ok (some b)) = elim (Bool-cases (is_bound_to h b)) [
  | inr c ↦ rw (c, event_bound) (refl, refl, refl)
  | inl c ↦ elim (Bool-cases (w.has_provider h.provider)) [
    | inr p ↦ rw (c, p, event_bound) (refl, refl, refl)
    | inl p ↦ rw (c, p, event_bound) (before-EventAnswer w _ r h b.provider_event_id _)
  ]
]

found-EventAnswer :
    (w : World) (log : List Call) (r : WorkEventRequest) (h : Result Raised (Option Handle))
    → EventAnswer r (event_found w log r h)
unfolding event_found
found-EventAnswer w log r (err e) = tt
found-EventAnswer w log r (ok none) = (refl, refl, refl)
found-EventAnswer w log r (ok (some h)) = bound-EventAnswer w _ r h _

close-EventAnswer :
    (r : WorkEventRequest) (o : Outcome WorkEventResult)
    → EventAnswer r o
    → EventAnswer r (close_read no_event o)
unfolding read_result
close-EventAnswer r (log, ok x) c = c
close-EventAnswer r (log, err unknown_effect) c = (refl, refl, refl)
close-EventAnswer r (log, err provider_failure) c = (refl, refl, refl)
close-EventAnswer r (log, err other_failure) c = tt

claim_valid :
    (r : WorkEventRequest) (x : WorkEventResult) (s : Status)
    → x.status ≡ s
    → EventClaim r x s
    → event_result_valid x ≡ true
unfolding event_result_valid
claim_valid r x ok_status e (work, revision, story, item) =
    rw (event_result_valid, e, work, revision, item, beq_refl r.work_id) refl
claim_valid r x stale e (work, item, (other, revision, differs)) =
    rw (event_result_valid, e, work, revision, item) refl
claim_valid r x denied e (work, revision, item) =
    rw (event_result_valid, e, work, revision, item) refl
claim_valid r x unknown e (work, revision, item) =
    rw (event_result_valid, e, work, revision, item) refl
claim_valid r x provider_error e (work, revision, item) =
    rw (event_result_valid, e, work, revision, item) refl

answer_valid :
    (r : WorkEventRequest) (o : Outcome WorkEventResult)
    → EventAnswer r o
    → Returns event_result_valid o
answer_valid r (log, ok x) c = claim_valid r x x.status refl c
answer_valid r (log, err e) c = tt

event_answers :
    (w : World) (a : LaunchAuthority) (log : List Call) (r : WorkEventRequest)
    → EventAnswer r (event w a log r)
unfolding event
event_answers w a log r =
    if_known (EventAnswer r) (can_read a r.work_id) _ _
      (λ e.
        close-EventAnswer r
          (event_found w (state_get r.work_id ∷ log) r (w.get_handle log r.work_id))
          (found-EventAnswer w _ r _))
      (λ e. (refl, refl, refl))

-- An event that is returned ok has the requested event id and work, at the observed revision; a
-- stale answer names another revision and no event; any other carries no data. Each passes the
-- validator of its type.
pub event-EventAnswer :
    (w : World) (a : LaunchAuthority) (log : List Call) (r : WorkEventRequest)
    → EventAnswer r (event w a log r) × Returns event_result_valid (event w a log r)
event-EventAnswer w a log r =
    (event_answers w a log r, answer_valid r (event w a log r) (event_answers w a log r))
