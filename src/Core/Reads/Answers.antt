-- ===== src/Core/Reads/Answers.antt =====
-- What the answers of `history` claim.
use switchstand.Core.Reads.{WorkEvent, close_read, is_of, make_event, read_result}
use switchstand.Core.{
  Call, EventBinding, Handle, LaunchAuthority, Outcome, ProviderSourceStory, ProviderStoriesPage,
  Raised, Returns, Status, World, can_read, denied, ok_status, other_failure, provider_error,
  provider_failure, stale, state_get, unknown, unknown_effect,
}
use switchstand.Core.Reads.History.{
  WorkHistoryRequest, WorkHistoryResult, bind_events, bound_event, cons_event, history,
  history_bound, history_found, history_page, history_result_valid, no_history, page_fits,
}
use switchstand.Base.{
  string_eq, Bool-cases, List, Option, Result, String, [], all, ap, arith, beq_refl, err, false,
  if_known, inl, inr, is_some, length, none, not, ok, refl, some, str_iff, suc, true, ℕ, ◌==◌, ◌||◌,
  ◌∷◌, ◌≡◌, ◌≤◌,
}

-- What a history answer of each status carries.
abbrev pub HistoryClaim : WorkHistoryRequest → WorkHistoryResult → Status → Type 0
HistoryClaim r x ok_status =
    (x.work_id ≡ some r.work_id)
    × (x.revision ≡ some r.observed_revision)
    × (length x.events ≤ r.limit)
    × (all (is_of (some r.work_id)) x.events ≡ true)
HistoryClaim r x stale =
    (x.work_id ≡ some r.work_id)
    × (is_some x.revision ≡ true)
    × (x.events ≡ [])
    × (x.next_cursor ≡ none)
HistoryClaim r x _ =
    (x.work_id ≡ none) × (x.revision ≡ none) × (x.events ≡ []) × (x.next_cursor ≡ none)

abbrev pub HistoryAnswer : WorkHistoryRequest → Outcome WorkHistoryResult → Type 0
HistoryAnswer r (log, ok x) = HistoryClaim r x x.status
HistoryAnswer r (log, err e) = Unit

-- the events of the loop belong to the work, one for each story
abbrev EventsClaim : String → ℕ → Outcome (List WorkEvent) → Type 0
EventsClaim id n (log, ok es) = (length es ≡ n) × (all (is_of (some id)) es ≡ true)
EventsClaim id n (log, err e) = Unit

cons-EventsClaim :
    (id event_id : String) (s : ProviderSourceStory) (n : ℕ) (o : Outcome (List WorkEvent))
    → EventsClaim id n o
    → EventsClaim id (suc n) (cons_event (make_event id event_id s) o)
unfolding length all
cons-EventsClaim id event_id s n (log, ok es) (count, own) = (ap suc count, rw (beq_refl id) own)
cons-EventsClaim id event_id s n (log, err e) c = tt

bound-EventsClaim :
    (log : List Call) (id : String) (s : ProviderSourceStory) (n : ℕ)
    (b : Result Raised EventBinding) (rest : Outcome (List WorkEvent))
    → EventsClaim id n rest
    → EventsClaim id (suc n) (bound_event log id s b rest)
unfolding bound_event
bound-EventsClaim log id s n (err e) rest c = tt
bound-EventsClaim log id s n (ok b) rest c = cons-EventsClaim id b.id s n rest c

bind_events-EventsClaim :
    (w : World) (log : List Call) (id : String) (h : Handle) (ss : List ProviderSourceStory)
    → EventsClaim id (length ss) (bind_events w log id h ss)
unfolding bind_events length all
bind_events-EventsClaim w log id h [] = (refl, refl)
bind_events-EventsClaim w log id h (s ∷ ss) =
    bound-EventsClaim _ id s (length ss) _ _ (bind_events-EventsClaim w _ id h ss)

bound-HistoryAnswer :
    (r : WorkHistoryRequest) (page : ProviderStoriesPage) (o : Outcome (List WorkEvent))
    → EventsClaim r.work_id (length page.stories) o
    → length page.stories ≤ r.limit
    → page.revision ≡ r.observed_revision
    → HistoryAnswer r (history_bound r.work_id page o)
unfolding history_bound
bound-HistoryAnswer r page (log, err e) c n same = tt
bound-HistoryAnswer r page (log, ok es) (count, own) n same = (refl, ap some same, rw count n, own)

fits_few :
    (r : WorkHistoryRequest) (h : Handle) (page : ProviderStoriesPage)
    → not (page_fits r h page) ≡ false
    → length page.stories ≤ r.limit
unfolding page_fits
fits_few r h page f = ground arith

page-HistoryAnswer :
    (w : World) (log : List Call) (r : WorkHistoryRequest) (h : Handle)
    (p : Result Raised (Option ProviderStoriesPage))
    → HistoryAnswer r (history_page w log r h p)
unfolding history_page
page-HistoryAnswer w log r h (err e) = tt
page-HistoryAnswer w log r h (ok none) = (refl, refl, refl, refl)
page-HistoryAnswer w log r h (ok (some page)) =
    if_known (HistoryAnswer r) (not page.canonical) _ _ (λ c. (refl, refl, refl, refl))
      λ c.
        if_known (HistoryAnswer r) (not (page_fits r h page)) _ _ (λ f. (refl, refl, refl, refl))
          λ f.
            if_known (HistoryAnswer r)
              (page.stale_page || not (page.revision == r.observed_revision)) _ _
              (λ s. (refl, refl, refl, refl))
              λ s.
                bound-HistoryAnswer r page (bind_events w log r.work_id h page.stories)
                  (bind_events-EventsClaim w log r.work_id h page.stories) (fits_few r h page f)
                  (ground (arith, str_iff page.revision r.observed_revision))

found-HistoryAnswer :
    (w : World) (log : List Call) (r : WorkHistoryRequest) (h : Result Raised (Option Handle))
    → HistoryAnswer r (history_found w log r h)
unfolding history_found
found-HistoryAnswer w log r (err e) = tt
found-HistoryAnswer w log r (ok none) = (refl, refl, refl, refl)
found-HistoryAnswer w log r (ok (some h)) = elim (Bool-cases (w.has_provider h.provider)) [
  | inl p ↦ rw (p, history_found) (page-HistoryAnswer w _ r h _)
  | inr p ↦ rw (p, history_found) (refl, refl, refl, refl)
]

close-HistoryAnswer :
    (r : WorkHistoryRequest) (o : Outcome WorkHistoryResult)
    → HistoryAnswer r o
    → HistoryAnswer r (close_read no_history o)
unfolding read_result
close-HistoryAnswer r (log, ok x) c = c
close-HistoryAnswer r (log, err unknown_effect) c = (refl, refl, refl, refl)
close-HistoryAnswer r (log, err provider_failure) c = (refl, refl, refl, refl)
close-HistoryAnswer r (log, err other_failure) c = tt

claim_valid :
    (r : WorkHistoryRequest) (x : WorkHistoryResult) (s : Status)
    → x.status ≡ s
    → HistoryClaim r x s
    → history_result_valid x ≡ true
unfolding history_result_valid all
claim_valid r x ok_status e (work, revision, few, own) =
    rw (history_result_valid, e, work, revision, own) refl
claim_valid r x stale e (work, revision, none_left, cursor) =
    rw (history_result_valid, e, work, revision, none_left, cursor) refl
claim_valid r x denied e (work, revision, none_left, cursor) =
    rw (history_result_valid, e, work, revision, none_left, cursor) refl
claim_valid r x unknown e (work, revision, none_left, cursor) =
    rw (history_result_valid, e, work, revision, none_left, cursor) refl
claim_valid r x provider_error e (work, revision, none_left, cursor) =
    rw (history_result_valid, e, work, revision, none_left, cursor) refl

answer_valid :
    (r : WorkHistoryRequest) (o : Outcome WorkHistoryResult)
    → HistoryAnswer r o
    → Returns history_result_valid o
answer_valid r (log, ok x) c = claim_valid r x x.status refl c
answer_valid r (log, err e) c = tt

history_answers :
    (w : World) (a : LaunchAuthority) (log : List Call) (r : WorkHistoryRequest)
    → HistoryAnswer r (history w a log r)
unfolding history
history_answers w a log r =
    if_known (HistoryAnswer r) (can_read a r.work_id) _ _
      (λ e.
        close-HistoryAnswer r
          (history_found w (state_get r.work_id ∷ log) r (w.get_handle log r.work_id))
          (found-HistoryAnswer w _ r _))
      (λ e. (refl, refl, refl, refl))

-- A history that is returned ok is of the requested work and the observed revision, has no more
-- events than the limit, and every event is of that work; a stale one names the work and its
-- revision and no event; any other carries no data. Each passes the validator of its type.
pub history-HistoryAnswer :
    (w : World) (a : LaunchAuthority) (log : List Call) (r : WorkHistoryRequest)
    → HistoryAnswer r (history w a log r) × Returns history_result_valid (history w a log r)
history-HistoryAnswer w a log r =
    (history_answers w a log r, answer_valid r (history w a log r) (history_answers w a log r))
