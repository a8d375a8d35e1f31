-- ===== src/Core/Reads/Gate.antt =====
-- The launch authority in front of `get`, and the answers of `get`.
use switchstand.Core.Reads.{close_read, get_found, get_work_item, read_result}
use switchstand.Base.{
  List, Option, Result, String, err, if_known, none, ok, refl, some, true, ◌∷◌, ◌≡◌,
}
use switchstand.Core.{
  Call, Handle, LaunchAuthority, Outcome, ProviderWork, Raised, Status, WorkItem, WorkResult, World,
  bare, can_read, make_item, ok_status, other_failure, provider_failure, provider_get, read_answer,
  read_work, stale, state_get, unknown_effect,
}

-- What an answer of `get` carries.
abbrev pub GetClaim : LaunchAuthority → String → WorkResult → Status → Type 0
GetClaim a id x ok_status =
    (can_read a id ≡ true) × ((i : WorkItem) × (x.item ≡ some i) × (i.id ≡ id))
GetClaim a id x stale = ⊥
GetClaim a id x _ = x.item ≡ none

abbrev pub GetAnswer : LaunchAuthority → String → Outcome WorkResult → Type 0
GetAnswer a id (log, ok x) = GetClaim a id x x.status
GetAnswer a id (log, err e) = Unit

answer-GetAnswer :
    (a : LaunchAuthority) (log : List Call) (id : String) (h : Handle)
    (o : Result Raised (Option ProviderWork))
    → can_read a id ≡ true
    → GetAnswer a id (log, read_answer id h o)
unfolding read_answer make_item
answer-GetAnswer a log id h (err e) c = tt
answer-GetAnswer a log id h (ok none) c = refl
answer-GetAnswer a log id h (ok (some work)) c =
    if_known (λ x. GetAnswer a id (log, x)) work.canonical _ _
      (λ e. (c, (make_item id work h, refl, refl))) (λ e. refl)

found-GetAnswer :
    (w : World) (a : LaunchAuthority) (log : List Call) (id : String)
    (h : Result Raised (Option Handle))
    → can_read a id ≡ true
    → GetAnswer a id (get_found w log id h)
unfolding get_found read_work
found-GetAnswer w a log id (err e) c = tt
found-GetAnswer w a log id (ok none) c = refl
found-GetAnswer w a log id (ok (some h)) c =
    if_known (GetAnswer a id) (w.has_provider h.provider) _ _
      (λ p. answer-GetAnswer a (provider_get h.provider h.provider_work_id ∷ log) id h _ c)
      (λ p. refl)

close-GetAnswer :
    (a : LaunchAuthority) (id : String) (o : Outcome WorkResult)
    → GetAnswer a id o
    → GetAnswer a id (close_read bare o)
unfolding read_result
close-GetAnswer a id (log, ok x) c = c
close-GetAnswer a id (log, err unknown_effect) c = refl
close-GetAnswer a id (log, err provider_failure) c = refl
close-GetAnswer a id (log, err other_failure) c = tt

-- A read that is returned ok carries an item with the requested id, which the launch authority
-- lets the caller read; every other answer carries no item, and none is stale.
pub get-GetAnswer :
    (w : World) (a : LaunchAuthority) (log : List Call) (id : String)
    → GetAnswer a id (get_work_item w a log id)
unfolding get_work_item
get-GetAnswer w a log id =
    if_known (GetAnswer a id) (can_read a id) _ _
      (λ e.
        close-GetAnswer a id (get_found w (state_get id ∷ log) id (w.get_handle log id))
          (found-GetAnswer w a _ id _ e))
      (λ e. refl)
