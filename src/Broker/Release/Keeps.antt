-- ===== src/Broker/Release/Keeps.antt =====
-- Attaching, reconciling and releasing keep the ledger well formed.
use switchstand.Broker.Ledger.Replace.{SamePlace, replace-WellFormed}
use switchstand.Broker.Pressure.{Reading}
use switchstand.Broker.Release.{
  is_yes, reconcile_reservation, LaunchObservation, Observation, Receipt, Reconciled,
  attach_execution, attach_locked, attached, boot_agrees, claim_execution, is_reserved,
  positive_ttl, receipt_agrees, reconcile_execution, release, released_lease, resolve,
  settle_execution, settle_reservation,
}
use switchstand.Broker.Ledger.{
  BrokerState, Lease, LeaseState, active_lease, active_state, find_lease, has_active_children,
  is_active, is_id, replace_lease,
}
use switchstand.Broker.Ledger.Tree.{WellFormed, active_lease_found, find-id}
use switchstand.Base.{
  ltb, ◌||◌, not, if_both, option_eq, string_eq, Bool-cases, Option-cases, String, ap, arith,
  bind_passed, false, inl, inr, ok, refl, require_passed, some, subst, true, ℕ, ◌&&◌, ◌+◌, ◌==◌,
  ◌∙◌, ◌≡◌,
}

pub attached-SamePlace :
    (l : Lease) (attempt unit : String) (expires : ℕ) (boot : String)
    → SamePlace l (attached l attempt unit expires boot)
unfolding attached
attached-SamePlace l attempt unit expires boot = record {
  lease_id = refl;
  parent = refl;
  own = refl;
  children = refl;
  total = refl;
}

pub released_lease-SamePlace :
    (l : Lease) (state : LeaseState) (observed : ℕ) → SamePlace l (released_lease l state observed)
unfolding released_lease
released_lease-SamePlace l state observed = record {
  lease_id = refl;
  parent = refl;
  own = refl;
  children = refl;
  total = refl;
}

-- A lookup by the id that the lease has.
pub found_self :
    (s : BrokerState) (id : String) (l : Lease)
    → find_lease id s.leases ≡ some l
    → find_lease l.lease_id s.leases ≡ some l
found_self s id l f = ap (λ i. find_lease i s.leases) (find-id id s.leases l f) ∙ f

attach_locked-WellFormed :
    (s t : BrokerState) (id reservation attempt unit : String) (ttl now : ℕ) (boot : String)
    → WellFormed s
    → attach_locked s id reservation attempt unit ttl now boot ≡ ok t
    → WellFormed t
unfolding attach_locked
attach_locked-WellFormed s t id reservation attempt unit ttl now boot w h =
    let (l, looked, h1) = bind_passed (active_lease s id) _ h in
    let (found, active) = active_lease_found s id l looked in
    let (fresh, h2) = require_passed (is_reserved l.state) _ _ t h1 in
    let (matches, h3) = require_passed (l.reservation_id == reservation) _ _ t h2 in
    let new = attached l attempt unit (now + ttl) boot in
    let kept : record s { leases = replace_lease new s.leases } ≡ t = cc h3 in
    subst WellFormed kept (
      replace-WellFormed s w l new (attached-SamePlace l attempt unit (now + ttl) boot)
        (unfold attached in found_self s id l found) active (inl (unfold attached in refl)))

-- A successful attach passed its checks, and then the part under the lock.
pub attach_reaches :
    (s t : BrokerState) (id reservation attempt unit : String) (receipt : Receipt) (ttl : Reading)
    (now : ℕ) (boot : String)
    → attach_execution s id reservation attempt unit receipt ttl now boot ≡ ok t
    → (n : ℕ) × (attach_locked s id reservation attempt unit n now boot ≡ ok t)
unfolding attach_execution
attach_reaches s t id reservation attempt unit receipt ttl now boot h =
    let (ids, h1) = require_passed (is_id attempt && is_id unit) _ _ t h in
    elim (Option-cases (positive_ttl ttl)) [
      | inl e ↦ cc (rw e at h1)
      | inr (n, e) ↦
          let (agrees, h2) =
            require_passed
              (receipt_agrees receipt.attempt_id attempt && receipt_agrees receipt.unit unit) _ _ t
              (rw e at h1) in
          (n, h2)
    ]

-- A successful attach keeps the ledger well formed.
pub attach_execution-WellFormed :
    (s t : BrokerState) (id reservation attempt unit : String) (receipt : Receipt) (ttl : Reading)
    (now : ℕ) (boot : String)
    → WellFormed s
    → attach_execution s id reservation attempt unit receipt ttl now boot ≡ ok t
    → WellFormed t
attach_execution-WellFormed s t id reservation attempt unit receipt ttl now boot w h =
    let (n, locked) = attach_reaches s t id reservation attempt unit receipt ttl now boot h in
    attach_locked-WellFormed s t id reservation attempt unit n now boot w locked

-- So does a claim, which attaches with the reservation's own id.
pub claim_execution-WellFormed :
    (s t : BrokerState) (id : String) (receipt : Receipt) (now : ℕ) (boot : String)
    → WellFormed s
    → claim_execution s id receipt now boot ≡ ok t
    → WellFormed t
unfolding claim_execution
claim_execution-WellFormed s t id receipt now boot w h =
    let (l, looked, h1) = bind_passed (active_lease s id) _ h in
    attach_execution-WellFormed s t id l.reservation_id _ _ receipt _ now boot w h1

release-WellFormed :
    (s : BrokerState) (id : String) (l : Lease) (state : LeaseState) (observed : ℕ)
    → WellFormed s
    → find_lease id s.leases ≡ some l
    → is_active l ≡ true
    → active_state state ≡ false
    → WellFormed (release s id l state observed).0
unfolding release
release-WellFormed s id l state observed w found active idle =
    elim (Bool-cases (has_active_children id s.leases)) [
      | inl e ↦ rw e w
      | inr e ↦ rw e (
          replace-WellFormed s w l (released_lease l state observed)
            (released_lease-SamePlace l state observed)
            (unfold released_lease in found_self s id l found) active
            (inr (
              unfold released_lease in
              (idle, ap (λ i. has_active_children i s.leases) (find-id id s.leases l found) ∙ e))))
    ]

pub resolve_idle :
    (l : Lease) (o : Observation) (release_state state : LeaseState)
    → active_state release_state ≡ false
    → resolve l o release_state ≡ some state
    → active_state state ≡ false
unfolding resolve
resolve_idle l o release_state state idle h = ground arith

settle_execution-WellFormed :
    (s : BrokerState) (id : String) (l : Lease) (o : Observation) (boot : String)
    (release_state : LeaseState)
    → WellFormed s
    → find_lease id s.leases ≡ some l
    → is_active l ≡ true
    → active_state release_state ≡ false
    → WellFormed (settle_execution s id l o boot release_state).0
unfolding settle_execution
settle_execution-WellFormed s id l o boot release_state w found active idle =
    elim (Bool-cases (boot_agrees l o.observed_boot_id boot)) [
      | inr e ↦ rw e w
      | inl e ↦ elim (Option-cases (resolve l o release_state)) [
        | inl none_yet ↦ rw (e, none_yet, settle_execution) w
        | inr (state, resolved) ↦
            rw (e, resolved, settle_execution)
              (release-WellFormed s id l state o.observed_at w found active
                (resolve_idle l o release_state state idle resolved))
      ]
    ]

-- A reconciliation of an execution keeps the ledger well formed, released or not.
pub reconcile_execution-WellFormed :
    (s : BrokerState) (id reservation attempt unit : String) (o : Observation) (boot : String)
    (release_state : LeaseState) (t : BrokerState × Reconciled)
    → WellFormed s
    → active_state release_state ≡ false
    → reconcile_execution s id reservation attempt unit o boot release_state ≡ ok t
    → WellFormed t.0
unfolding reconcile_execution
reconcile_execution-WellFormed s id reservation attempt unit o boot release_state t w idle h =
    let (l, looked, h1) = bind_passed (active_lease s id) _ h in
    let (found, active) = active_lease_found s id l looked in
    let (matches, h2) =
      require_passed
        (l.reservation_id == reservation && (l.attempt_id == some attempt && l.unit == some unit)) _
        _ t h1 in
    let kept : settle_execution s id l o boot release_state ≡ t = cc h2 in
    subst (λ x. WellFormed (x.0)) kept
      (settle_execution-WellFormed s id l o boot release_state w found active idle)

settle_reservation-WellFormed :
    (s : BrokerState) (id : String) (l : Lease) (o : LaunchObservation) (boot : String)
    (release_state : LeaseState)
    → WellFormed s
    → find_lease id s.leases ≡ some l
    → is_active l ≡ true
    → active_state release_state ≡ false
    → WellFormed (settle_reservation s id l o boot release_state).0
unfolding settle_reservation
settle_reservation-WellFormed s id l o boot release_state w found active idle =
    if_both {A = BrokerState × Reconciled} (λ x. WellFormed (x.0)) (not (is_reserved l.state)) _ _ w
      (if_both {A = BrokerState × Reconciled} (λ x. WellFormed (x.0))
        (not (boot_agrees l o.observed_boot_id boot)) _ _ w
        (if_both {A = BrokerState × Reconciled} (λ x. WellFormed (x.0))
          (not (is_yes o.launch_absent)
            || o.require_expiry && ltb o.observed_at (l.reserved_monotonic + o.reservation_ttl))
          _ _ w (release-WellFormed s id l release_state o.observed_at w found active idle)))

-- So does a reconciliation of a reservation.
pub reconcile_reservation-WellFormed :
    (s : BrokerState) (id reservation : String) (o : LaunchObservation) (boot : String)
    (release_state : LeaseState) (t : BrokerState × Reconciled)
    → WellFormed s
    → active_state release_state ≡ false
    → reconcile_reservation s id reservation o boot release_state ≡ ok t
    → WellFormed t.0
unfolding reconcile_reservation
reconcile_reservation-WellFormed s id reservation o boot release_state t w idle h =
    let (l, looked, h1) = bind_passed (active_lease s id) _ h in
    let (found, active) = active_lease_found s id l looked in
    let (matches, h2) = require_passed (l.reservation_id == reservation) _ _ t h1 in
    let kept : settle_reservation s id l o boot release_state ≡ t = cc h2 in
    subst (λ x. WellFormed (x.0)) kept
      (settle_reservation-WellFormed s id l o boot release_state w found active idle)
