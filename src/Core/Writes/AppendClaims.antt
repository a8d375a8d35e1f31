-- ===== src/Core/Writes/AppendClaims.antt =====
-- What a status of `append` claims about the provider.
use switchstand.Core.Writes.{Body}
use switchstand.Core.{
  Call, Handle, ProviderSourceStory, Raised, Status, World, denied, ok_status, provider_append,
  provider_error, provider_failure, stale, unknown,
}
use switchstand.Core.Writes.Append.{AppendResult, WorkAppendRequest}
use switchstand.Base.{
  option_eq, string_eq, Bool, List, Option, Result, String, [], err, false, if◌then◌else◌, none, ok,
  some, suc, true, ℕ, ◌==◌, ◌∷◌, ◌≡◌, ◌⊎◌,
}

abbrev pub is_append : Call → Bool
is_append (provider_append provider gid text) = true
is_append _ = false

-- the appends that were sent
unfoldable pub appends : List Call → ℕ
appends [] = 0
appends (c ∷ cs) = let rest = appends cs in if is_append c then suc rest else rest

-- The provider gave the id of a new story, and that story was read back with the text.
pub record IsAppended (w : World) (r : WorkAppendRequest) (task story : Option String)
    : Type 0 where
  pub before : List Call
  pub reread : List Call
  pub handle : Handle
  pub gid : String
  pub found : ProviderSourceStory
  pub appended :
      w.append_story before handle.provider handle.provider_work_id r.text ≡ ok (some gid)
  pub read : w.get_story reread handle.provider handle.provider_work_id gid ≡ ok (some found)
  pub same_story : found.story_gid ≡ gid
  pub same_task : found.task_gid ≡ handle.provider_work_id
  pub same_text : (found.text == some r.text) ≡ true
  pub task_named : task ≡ some handle.provider_work_id
  pub story_named : story ≡ some gid

-- No append was sent since there were `sent`, or the provider rejected the one that was.
abbrev pub IsUnsent : World → WorkAppendRequest → ℕ → ℕ → Type 0
IsUnsent w r sent now =
    (now ≡ sent)
    ⊎ ((before : List Call) × (h : Handle) × (w.append_story before h.provider h.provider_work_id
            r.text
          ≡ err provider_failure))

-- What each status claims.
abbrev pub AppendClaim :
    World → WorkAppendRequest → ℕ → ℕ → Status → Option String → Option String → Type 0
AppendClaim w r sent now ok_status task story = IsAppended w r task story
AppendClaim w r sent now stale task story = ⊥
AppendClaim w r sent now denied task story = (task ≡ none) × (story ≡ none) × (now ≡ sent)
AppendClaim w r sent now unknown task story = (task ≡ none) × (story ≡ none)
AppendClaim w r sent now provider_error task story =
    (task ≡ none) × (story ≡ none) × IsUnsent w r sent now

abbrev pub ResultAppendClaim :
    World → WorkAppendRequest → ℕ → ℕ → Bool → Result Raised AppendResult → Type 0
ResultAppendClaim w r sent now applied (ok x) =
    AppendClaim w r sent now x.status x.task_gid x.story_gid
ResultAppendClaim w r sent now applied (err provider_failure) =
    (applied ≡ true) ⊎ IsUnsent w r sent now
ResultAppendClaim w r sent now applied (err e) = Unit

abbrev pub BodyAppendClaim : World → WorkAppendRequest → ℕ → Body AppendResult → Type 0
BodyAppendClaim w r sent b = ResultAppendClaim w r sent (appends b.log) b.maybe_applied b.result
