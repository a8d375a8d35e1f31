-- ===== src/Core/Writes/Once.antt =====
-- An update is sent at most once, whatever the providers answer.
use switchstand.Core.Writes.Claims.{updates}
use switchstand.Core.{
  Call, Handle, LaunchAuthority, Outcome, ProviderWork, Raised, WorkPatch, WorkResult, World,
  other_failure, provider_failure, provider_update, read_work, state_lock, unknown_effect,
}
use switchstand.Core.Writes.{Body, after_update, apply_read, apply_scalar, leave_lock}
use switchstand.Core.Writes.Update.{
  WorkUpdateRequest, ok_item, update_applied, update_entered, update_locked, update_read,
  update_work_item,
}
use switchstand.Base.{
  string_eq, Bool-cases, List, Option, Option-cases, Result, Result-cases, String, arith, err,
  false, inl, inr, none, ok, refl, some, subst, suc, sym, ◌==◌, ◌∷◌, ◌≡◌, ◌≤◌,
}

read-updates :
    (w : World) (log : List Call) (id : String) (h : Handle)
    → updates (read_work w log id h).0 ≡ updates log
unfolding read_work updates
read-updates w log id h = elim (Bool-cases (w.has_provider h.provider)) [
  | inl p ↦ rw (p, read_work) refl
  | inr p ↦ rw (p, read_work) refl
]

pub applied_log :
    (id : String) (h : Handle) (o : Outcome (Option ProviderWork))
    → (update_applied id h o).log ≡ o.0
unfolding update_applied
applied_log id h (log, err unknown_effect) = refl
applied_log id h (log, err provider_failure) = refl
applied_log id h (log, err other_failure) = refl
applied_log id h (log, ok none) = refl
applied_log id h (log, ok (some work)) = refl

scalar-updates :
    (w : World) (log : List Call) (provider gid : String) (p : WorkPatch)
    (u : Result Raised (Unit {0}))
    → updates (after_update w (provider_update provider gid p ∷ log) provider gid p u).0
      ≤ suc (updates log)
unfolding after_update apply_read updates
scalar-updates w log provider gid p (err e) = omega arith
scalar-updates w log provider gid p (ok done) = omega arith

body-updates :
    (w : World) (r : WorkUpdateRequest) (h : Handle) (o : Outcome WorkResult)
    → updates (update_read w r h o).log ≤ suc (updates o.0)
unfolding update_read apply_scalar
body-updates w r h (log, err e) = omega arith
body-updates w r h (log, ok current) = elim (Option-cases (ok_item current)) [
  | inl e ↦ rw (e, update_read) (omega arith)
  | inr (item, e) ↦ elim (Bool-cases (item.revision == r.observed_revision)) [
    | inl c ↦
        rw (e, update_read, c)
          (subst (λ l. updates l ≤ suc (updates log)) (sym (applied_log r.work_id h _))
            (scalar-updates w log h.provider h.provider_work_id r.patch _))
    | inr c ↦ rw (e, update_read, c) (omega arith)
  ]
]

locked-updates :
    (w : World) (log : List Call) (r : WorkUpdateRequest) (h : Option Handle)
    → updates (update_locked w log r h).log ≤ suc (updates log)
unfolding update_locked
locked-updates w log r none = omega arith
locked-updates w log r (some h) =
    omega (arith, body-updates w r h (read_work w log r.work_id h), read-updates w log r.work_id h)

pub leave-updates :
    (w : World) (id : String) (b : Body WorkResult)
    → updates (leave_lock w id b).log ≡ updates b.log
unfolding leave_lock updates
leave-updates w id b = elim (Result-cases (w.unlock b.log id)) [
  | inl (done, e) ↦ rw (e, leave_lock) refl
  | inr (x, e) ↦ rw (e, leave_lock) refl
]

entered-updates :
    (w : World) (r : WorkUpdateRequest) (log : List Call) (l : Result Raised (Option Handle))
    → updates (update_entered w (state_lock r.work_id ∷ log) r l).0 ≤ suc (updates log)
unfolding update_entered updates
entered-updates w r log (err e) = omega arith
entered-updates w r log (ok h) = omega (
  arith,
  leave-updates w r.work_id (update_locked w (state_lock r.work_id ∷ log) r h),
  locked-updates w (state_lock r.work_id ∷ log) r h,
)

-- One call of `update` sends at most one update to a provider, on every path, and none for a work
-- item that is not the active one.
pub update_once :
    (w : World) (a : LaunchAuthority) (log : List Call) (r : WorkUpdateRequest)
    → (updates (update_work_item w a log r).0 ≤ suc (updates log))
      × ((r.work_id == a.active_work_id) ≡ false
          → updates (update_work_item w a log r).0 ≡ updates log)
unfolding update_work_item
update_once w a log r = elim (Bool-cases (r.work_id == a.active_work_id)) [
  | inl e ↦ (
    rw (e, update_work_item) (entered-updates w r log (w.lock log r.work_id)),
    λ other. cc (e, other),
  )
  | inr e ↦ (rw (e, update_work_item) (omega arith), λ other. rw (e, update_work_item) refl)
]
