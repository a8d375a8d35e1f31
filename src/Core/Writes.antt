-- ===== src/Core/Writes.antt =====
-- `apply_scalar` and the lock around the two writes of the controller.
pub mod Update
pub mod Append
pub mod Claims
pub mod AppendClaims
pub mod Effects
pub mod Appends
pub mod Once
pub mod Fence
use switchstand.Base.{
  option_eq, string_eq, Bool, List, Option, Result, String, bool_beq, err, false, if◌then◌else◌,
  none, ok, some, true, ◌&&◌, ◌==◌, ◌∷◌,
}
use switchstand.Core.{
  Call, Outcome, ProviderWork, Raised, Routing, WorkPatch, World, other_failure, provider_get,
  provider_update, state_unlock, unknown_effect,
}

-- a field that the patch sets has its value
abbrev pub set_text : Option String → Option String → Bool
set_text none actual = true
set_text (some v) actual = actual == some v

abbrev pub set_flag : Option Bool → Bool → Bool
set_flag none actual = true
set_flag (some v) actual = bool_beq actual v

-- the routing fields of `matches`
unfoldable pub routing_matches : Routing → Routing → Bool
routing_matches p r =
    set_text p.priority r.priority
    && (set_text p.work_type r.work_type
        && (set_text p.horizon r.horizon
            && (set_text p.review_next_action r.review_next_action
                && (set_text p.stage3_gate r.stage3_gate
                    && (set_text p.lifecycle_state r.lifecycle_state
                        && (set_text p.canonical_root r.canonical_root
                            && (set_text p.owner_key r.owner_key
                                && (set_text p.wait_kind r.wait_kind
                                    && (set_text p.unblock_condition r.unblock_condition
                                        && (set_text p.next_due r.next_due
                                            && (set_text p.next_action_class r.next_action_class
                                                && set_text p.next_action_ref
                                                    r.next_action_ref)))))))))))

-- `matches`
unfoldable pub patch_matches : WorkPatch → ProviderWork → Bool
patch_matches p w =
    set_text p.title (some w.title)
    && (set_text p.notes (some w.notes)
        && (set_flag p.completed w.completed && routing_matches p.routing w.routing))

-- canonical work that shows the patch, from the readback
unfoldable pub converged : WorkPatch → Option ProviderWork → Option ProviderWork
converged p none = none
converged p (some w) = if w.canonical && patch_matches p w then some w else none

-- `except ProviderError` around the readback, where the update was sent or not
unfoldable pub readback :
    Bool → WorkPatch → Result Raised (Option ProviderWork) → Result Raised (Option ProviderWork)
readback sent p (ok w) = ok (converged p w)
readback sent p (err other_failure) = err other_failure
readback true p (err e) = err unknown_effect
readback false p (err e) = err e

-- the end of `apply_scalar`, after the update or without one
unfoldable pub apply_read :
    World → List Call → String → String → WorkPatch → Bool → Outcome (Option ProviderWork)
apply_read w log provider gid p sent =
    (provider_get provider gid ∷ log, readback sent p (w.get_work log provider gid))

unfoldable pub after_update :
    World
    → List Call
    → String
    → String
    → WorkPatch
    → Result Raised (Unit {0})
    → Outcome (Option ProviderWork)
after_update w log provider gid p (err e) = (log, err e)
after_update w log provider gid p (ok done) = apply_read w log provider gid p true

-- `apply_scalar`
unfoldable pub apply_scalar :
    World → List Call → String → String → WorkPatch → Bool → Outcome (Option ProviderWork)
apply_scalar w log provider gid p true =
    after_update w (provider_update provider gid p ∷ log) provider gid p
      (w.update_work log provider gid p)
apply_scalar w log provider gid p false = apply_read w log provider gid p false

-- What the body under the lock leaves: the calls, whether the effect may have been applied, and
-- the result that it returns or the exception that leaves it.
pub record Body {ℓ} (A : Type ℓ) : Type ℓ where
  pub log : List Call
  pub maybe_applied : Bool
  pub result : Result Raised A

-- The exit of the lock: what it raises takes the place of a result and of an exception.
unfoldable pub leave_lock {ℓ} : {A : Type ℓ} → World → String → Body A → Body A
leave_lock w id b = elim (w.unlock b.log id) [
  | ok done ↦ record b { log = state_unlock id ∷ b.log }
  | err e ↦ record b { log = state_unlock id ∷ b.log; result = err e }
]
