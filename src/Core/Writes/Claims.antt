-- ===== src/Core/Writes/Claims.antt =====
-- What a status of `update` claims about the provider.
use switchstand.Core.Writes.{Body, patch_matches}
use switchstand.Core.{
  provider_append, provider_get, state_lock, Call, Handle, ProviderWork, Raised, Status, WorkItem,
  WorkResult, World, denied, make_item, ok_status, provider_error, provider_failure,
  provider_update, stale, unknown,
}
use switchstand.Core.Writes.Update.{WorkUpdateRequest}
use switchstand.Base.{
  ◌≢◌, string_eq, Bool, List, Option, Result, [], err, false, if◌then◌else◌, none, ok, some, suc,
  true, ℕ, ◌∷◌, ◌≡◌, ◌⊎◌,
}

abbrev pub is_update : Call → Bool
is_update (provider_update provider gid p) = true
is_update _ = false

-- the updates that were sent
unfoldable pub updates : List Call → ℕ
updates [] = 0
updates (c ∷ cs) = let rest = updates cs in if is_update c then suc rest else rest

abbrev pub is_provider_call : Call → Bool
is_provider_call (provider_get provider gid) = true
is_provider_call (provider_update provider gid p) = true
is_provider_call (provider_append provider gid text) = true
is_provider_call _ = false

-- the calls to providers of a work's item, the latest first
unfoldable pub provider_calls : List Call → List Call
provider_calls [] = []
provider_calls (c ∷ cs) =
    let rest = provider_calls cs in if is_provider_call c then c ∷ rest else rest

-- The calls of an `update`: the lock, the read, the update and the readback.
module _ (r : WorkUpdateRequest) (log : List Call) (h : Handle) where
  abbrev pub locked_calls : List Call
  locked_calls = state_lock r.work_id ∷ log

  abbrev pub read_calls : List Call
  read_calls = provider_get h.provider h.provider_work_id ∷ locked_calls

  abbrev pub sent_calls : List Call
  sent_calls = provider_update h.provider h.provider_work_id r.patch ∷ read_calls

  abbrev pub shown_calls : List Call
  shown_calls = provider_get h.provider h.provider_work_id ∷ sent_calls

-- no update among the calls since `log`
abbrev pub IsUnsent : List Call → List Call → Type 0
IsUnsent log calls = updates calls ≡ updates (provider_calls log)

-- The provider of the locked work rejected the update that was sent to it after the read.
pub record IsRejected (w : World) (r : WorkUpdateRequest) (log : List Call) : Type 0 where
  pub handle : Handle
  pub held : w.lock log r.work_id ≡ ok (some handle)
  pub rejected :
      w.update_work (read_calls r log handle) handle.provider handle.provider_work_id r.patch
      ≡ err provider_failure

abbrev pub IsNotApplied : World → WorkUpdateRequest → List Call → List Call → Type 0
IsNotApplied w r log calls = IsUnsent log calls ⊎ IsRejected w r log

-- The provider of the locked work took the update, and its answer to the read that came next is
-- canonical work that shows the whole patch, which is the item.
pub record IsShown (w : World) (r : WorkUpdateRequest) (log calls : List Call)
    (item : Option WorkItem) : Type 0 where
  pub handle : Handle
  pub held : w.lock log r.work_id ≡ ok (some handle)
  pub taken :
      w.update_work (read_calls r log handle) handle.provider handle.provider_work_id r.patch
      ≡ ok tt
  pub work : ProviderWork
  pub read :
      w.get_work (sent_calls r log handle) handle.provider handle.provider_work_id ≡ ok (some work)
  pub canonical : work.canonical ≡ true
  pub shows : patch_matches r.patch work ≡ true
  pub same_item : item ≡ some (make_item r.work_id work handle)
  pub made : calls ≡ provider_calls (shown_calls r log handle)

-- The item is canonical work of the locked work's provider, of another revision than the observed.
pub record IsStale (w : World) (r : WorkUpdateRequest) (log : List Call) (item : Option WorkItem)
    : Type 0 where
  pub handle : Handle
  pub held : w.lock log r.work_id ≡ ok (some handle)
  pub work : ProviderWork
  pub read :
      w.get_work (locked_calls r log handle) handle.provider handle.provider_work_id
      ≡ ok (some work)
  pub canonical : work.canonical ≡ true
  pub same_item : item ≡ some (make_item r.work_id work handle)
  pub other : work.revision ≢ r.observed_revision

-- What each status claims, where `calls` are the calls to providers after those of `log`.
abbrev pub Claim :
    World → WorkUpdateRequest → List Call → List Call → Status → Option WorkItem → Type 0
Claim w r log calls ok_status item = IsShown w r log calls item
Claim w r log calls stale item = IsStale w r log item × IsUnsent log calls
Claim w r log calls denied item = (item ≡ none) × IsUnsent log calls
Claim w r log calls unknown item = item ≡ none
Claim w r log calls provider_error item = (item ≡ none) × IsNotApplied w r log calls

-- A returned result stands by its claim; one that a provider failure ends was not applied.
abbrev pub ResultClaim :
    World → WorkUpdateRequest → List Call → List Call → Bool → Result Raised WorkResult → Type 0
ResultClaim w r log calls applied (ok res) = Claim w r log calls res.status res.item
ResultClaim w r log calls applied (err provider_failure) =
    (applied ≡ true) ⊎ IsNotApplied w r log calls
ResultClaim w r log calls applied (err e) = Unit

abbrev pub BodyClaim : World → WorkUpdateRequest → List Call → Body WorkResult → Type 0
BodyClaim w r log b = ResultClaim w r log (provider_calls b.log) b.maybe_applied b.result
