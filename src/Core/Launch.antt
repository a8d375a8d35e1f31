-- ===== src/Core/Launch.antt =====
-- `Controller.bind_work` and `provision_launch`. An exception of these two is a reason of its own.
pub mod Authority
use switchstand.Base.{
  string_eq, Bool, List, Option, Result, String, [], all, err, false, if◌then◌else◌, leb, length,
  nat_beq, none, not, ok, some, to_set, ◌∷◌,
}
use switchstand.Core.{
  Call, Handle, LaunchAuthority, ProviderWork, Raised, World, authority_bounded, provider_get,
  state_bind,
}

pub data LaunchError : Type 0 where
  too_many_references references_not_distinct not_canonical unknown_provider : LaunchError
  raised : Raised → LaunchError
  invalid_authority : LaunchError

abbrev pub Launched {ℓ} : Type ℓ → Type ℓ
Launched A = List Call × Result LaunchError A

-- what `state.bind` gave
abbrev pub bound : Result Raised Handle → Result LaunchError Handle
bound (ok h) = ok h
bound (err e) = err (raised e)

-- work that is there and canonical
abbrev pub is_canonical : Option ProviderWork → Bool
is_canonical none = false
is_canonical (some work) = work.canonical

-- `bind_work` over the answer of the provider
unfoldable pub bind_read :
    World → List Call → String → String → Result Raised (Option ProviderWork) → Launched Handle
bind_read w log provider gid (err e) = (log, err (raised e))
bind_read w log provider gid (ok work) =
    if is_canonical work
    then (state_bind provider gid ∷ log, bound (w.bind log provider gid))
    else (log, err not_canonical)

-- `Controller.bind_work`
unfoldable pub bind_work : World → List Call → String → String → Launched Handle
bind_work w log provider gid =
    if w.has_provider provider
    then bind_read w (provider_get provider gid ∷ log) provider gid (w.get_work log provider gid)
    else (log, err unknown_provider)

abbrev pub cons_outcome {ℓ} :
    {A : Type ℓ} → List Call → Result Raised A → Launched (List A) → Launched (List A)
cons_outcome log (err e) rest = (log, err (raised e))
cons_outcome log (ok a) (after, ok rest) = (after, ok (a ∷ rest))
cons_outcome log (ok a) (after, err e) = (after, err e)

-- `[await provider.get(...) for ...]`
unfoldable pub read_all :
    World → List Call → String → List String → Launched (List (Option ProviderWork))
read_all w log provider [] = (log, ok [])
read_all w log provider (gid ∷ gids) =
    let called = provider_get provider gid ∷ log in
    cons_outcome called (w.get_work log provider gid) (read_all w called provider gids)

-- `[await state.bind(...) for ...]`
unfoldable pub bind_all : World → List Call → String → List String → Launched (List Handle)
bind_all w log provider [] = (log, ok [])
bind_all w log provider (gid ∷ gids) =
    let called = state_bind provider gid ∷ log in
    cons_outcome called (w.bind log provider gid) (bind_all w called provider gids)

-- `handle.id for handle in handles`
unfoldable pub handle_ids : List Handle → List String
handle_ids [] = []
handle_ids (h ∷ hs) = h.id ∷ handle_ids hs

-- `LaunchAuthority(...)`, whose validator may refuse
unfoldable pub make_authority : List Handle → Result LaunchError LaunchAuthority
make_authority [] = err invalid_authority
make_authority (h ∷ hs) =
    let a : LaunchAuthority = record {
      active_work_id = h.id;
      reference_work_ids = handle_ids hs;
    } in
    if authority_bounded a then ok a else err invalid_authority

abbrev pub authorize : Launched (List Handle) → Launched LaunchAuthority
authorize (log, err e) = (log, err e)
authorize (log, ok hs) = (log, make_authority hs)

-- from `if any(work is None ...)` on
unfoldable pub launch_read :
    World → String → List String → Launched (List (Option ProviderWork)) → Launched LaunchAuthority
launch_read w provider gids (log, err e) = (log, err e)
launch_read w provider gids (log, ok works) =
    if all is_canonical works
    then authorize (bind_all w log provider gids)
    else (log, err not_canonical)

-- `provision_launch`, for a provider that is there
unfoldable pub provision_launch :
    World → List Call → String → String → List String → Launched LaunchAuthority
provision_launch w log provider active references =
    if not (leb (length references) 8)
    then (log, err too_many_references)
    else if not (nat_beq (length (to_set (active ∷ references))) (length (active ∷ references)))
    then (log, err references_not_distinct)
    else launch_read w provider (active ∷ references)
        (read_all w log provider (active ∷ references))
