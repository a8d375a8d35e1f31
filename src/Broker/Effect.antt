-- ===== src/Broker/Effect.antt =====
-- What one successful operation does to the leases of the ledger.
use switchstand.Broker.Reserve.Replay.{admit-Admitted, pressure_keeps}
use switchstand.Broker.Ledger.Tree.{active_lease_found}
use switchstand.Broker.Reserve.Grants.{IsOutcome, reserve-IsOutcome}
use switchstand.Broker.Reserve.{Host, LeaseRequest, new_lease, pressure, reserve}
use switchstand.Broker.Ledger.Replace.{SamePlace}
use switchstand.Broker.Pressure.{Pressure, Reading}
use switchstand.Broker.Release.{
  claim_execution, LaunchObservation, Observation, Receipt, Reconciled, attach_execution,
  attach_locked, attached, boot_agrees, is_reserved, is_yes, reconcile_execution,
  reconcile_reservation, release, released_lease, resolve, settle_execution, settle_reservation,
}
use switchstand.Broker.Release.Keeps.{
  attach_reaches, attached-SamePlace, found_self, released_lease-SamePlace, resolve_idle,
}
use switchstand.Base.{
  option_eq, string_eq, Bool-cases, List, Option, Option-cases, String, [], arith, bind_passed,
  false, if_both, inl, inr, ltb, none, not, ok, refl, require_passed, some, subst, sym, true, ℕ,
  ◌&&◌, ◌++◌, ◌+◌, ◌==◌, ◌||◌, ◌∙◌, ◌∷◌, ◌≡◌,
}
use switchstand.Broker.Ledger.{
  BrokerState, Lease, LeaseState, Reply, Verdict, abandoned, active_lease, active_state, cancelled,
  completed, execution_active, find_lease, find_reply, granted, has_active_children, is_active,
  refused, replace_lease, reserved,
}

-- The states of a lease move one way: reserved, then attached, then ended.
pub data Advance : LeaseState → LeaseState → Type 0 where
  stays : {a : LeaseState} → Advance a a
  attaches_once : Advance reserved execution_active
  ends : {a b : LeaseState} → active_state a ≡ true → active_state b ≡ false → Advance a b

-- The leases are kept, or gain one under a new id, or one active lease advances in its place.
pub data Effect (ls : List Lease) : List Lease → Type 0 where
  keeps : Effect ls ls
  gains : (n : Lease) → find_lease n.lease_id ls ≡ none → Effect ls (ls ++ n ∷ [])
  moves :
      (l new : Lease)
      → find_lease new.lease_id ls ≡ some l
      → is_active l ≡ true
      → SamePlace l new
      → Advance l.state new.state
      → Effect ls (replace_lease new ls)

-- An operation keeps the root budget and has one effect on the leases.
abbrev pub Acts : BrokerState → BrokerState → Type 0
Acts s t = (t.root ≡ s.root) × Effect s.leases t.leases

Acts-unchanged : (s t : BrokerState) → s ≡ t → Acts s t
Acts-unchanged s t e = subst (Acts s) e (refl, keeps)

reserved_only : (x : LeaseState) → is_reserved x ≡ true → Advance x execution_active
reserved_only reserved h = attaches_once
reserved_only execution_active h = cc
reserved_only completed h = cc
reserved_only cancelled h = cc
reserved_only abandoned h = cc

granted_Effect :
    (host : Host) (s : BrokerState) (r : LeaseRequest) (p : Pressure) (after : List Lease)
    (v : Verdict)
    → IsOutcome host s r p after v
    → Effect s.leases after
granted_Effect host s r p after (refused reason) h = subst (Effect s.leases) (sym h) keeps
granted_Effect host s r p after (granted worker id) h =
    subst (Effect s.leases) (sym h.added) (gains (new_lease host r) (unfold new_lease in h.fresh))

pub reserve-Acts :
    (host : Host) (s : BrokerState) (r : LeaseRequest) (supplied : Option Pressure)
    (t : BrokerState) (reply : Reply)
    → reserve host s r supplied ≡ ok (t, reply)
    → Acts s t
reserve-Acts host s r supplied t reply h =
    elim (Option-cases (find_reply r.request_id s.requests)) [
      | inl e ↦
          let (requests, leases, root) = pressure_keeps host.current supplied s in
          let outcome = reserve-IsOutcome host s r supplied t reply e h in
          let a =
            admit-Admitted host s r (pressure host.current s supplied) (t, reply)
              (unfold reserve in rw (e, reserve) at h) in
          (
            a.same_root ∙ root,
            subst (λ ls. Effect ls t.leases) leases
                (granted_Effect host (pressure host.current s supplied).1 r _ t.leases reply.verdict
                  outcome),
          )
      | inr (prior, e) ↦ Acts-unchanged s t (unfold reserve in ground arith)
    ]

attach_locked-Acts :
    (s t : BrokerState) (id reservation attempt unit : String) (ttl now : ℕ) (boot : String)
    → attach_locked s id reservation attempt unit ttl now boot ≡ ok t
    → Acts s t
unfolding attach_locked
attach_locked-Acts s t id reservation attempt unit ttl now boot h =
    let (l, looked, h1) = bind_passed (active_lease s id) _ h in
    let (found, active) = active_lease_found s id l looked in
    let (fresh, h2) = require_passed (is_reserved l.state) _ _ t h1 in
    let (matches, h3) = require_passed (l.reservation_id == reservation) _ _ t h2 in
    let new = attached l attempt unit (now + ttl) boot in
    let kept : record s { leases = replace_lease new s.leases } ≡ t = cc h3 in
    subst (Acts s) kept (
      refl,
      moves l new (unfold attached in found_self s id l found) active
          (attached-SamePlace l attempt unit (now + ttl) boot)
          (unfold attached in reserved_only l.state fresh),
    )

pub attach_execution-Acts :
    (s t : BrokerState) (id reservation attempt unit : String) (receipt : Receipt) (ttl : Reading)
    (now : ℕ) (boot : String)
    → attach_execution s id reservation attempt unit receipt ttl now boot ≡ ok t
    → Acts s t
attach_execution-Acts s t id reservation attempt unit receipt ttl now boot h =
    let (n, locked) = attach_reaches s t id reservation attempt unit receipt ttl now boot h in
    attach_locked-Acts s t id reservation attempt unit n now boot locked

pub claim_execution-Acts :
    (s t : BrokerState) (id : String) (receipt : Receipt) (now : ℕ) (boot : String)
    → claim_execution s id receipt now boot ≡ ok t
    → Acts s t
unfolding claim_execution
claim_execution-Acts s t id receipt now boot h =
    let (l, looked, h1) = bind_passed (active_lease s id) _ h in
    attach_execution-Acts s t id l.reservation_id _ _ receipt _ now boot h1

release-Acts :
    (s : BrokerState) (id : String) (l : Lease) (state : LeaseState) (observed : ℕ)
    → find_lease id s.leases ≡ some l
    → is_active l ≡ true
    → active_state state ≡ false
    → Acts s (release s id l state observed).0
unfolding release
release-Acts s id l state observed found active idle =
    if_both {A = BrokerState × Reconciled} (λ x. Acts s x.0) (has_active_children id s.leases) _ _
      (refl, keeps)
      (
        refl,
        moves l (released_lease l state observed) (unfold released_lease in found_self s id l found)
            active (released_lease-SamePlace l state observed)
            (unfold released_lease in ends active idle),
      )

settle_execution-Acts :
    (s : BrokerState) (id : String) (l : Lease) (o : Observation) (boot : String)
    (release_state : LeaseState)
    → find_lease id s.leases ≡ some l
    → is_active l ≡ true
    → active_state release_state ≡ false
    → Acts s (settle_execution s id l o boot release_state).0
unfolding settle_execution
settle_execution-Acts s id l o boot release_state found active idle =
    elim (Bool-cases (boot_agrees l o.observed_boot_id boot)) [
      | inr e ↦ rw e (refl, keeps)
      | inl e ↦ elim (Option-cases (resolve l o release_state)) [
        | inl none_yet ↦ rw (e, none_yet, settle_execution) (refl, keeps)
        | inr (state, resolved) ↦
            rw (e, resolved, settle_execution)
              (release-Acts s id l state o.observed_at found active
                (resolve_idle l o release_state state idle resolved))
      ]
    ]

pub reconcile_execution-Acts :
    (s : BrokerState) (id reservation attempt unit : String) (o : Observation) (boot : String)
    (release_state : LeaseState) (t : BrokerState × Reconciled)
    → active_state release_state ≡ false
    → reconcile_execution s id reservation attempt unit o boot release_state ≡ ok t
    → Acts s t.0
unfolding reconcile_execution
reconcile_execution-Acts s id reservation attempt unit o boot release_state t idle h =
    let (l, looked, h1) = bind_passed (active_lease s id) _ h in
    let (found, active) = active_lease_found s id l looked in
    let (matches, h2) =
      require_passed
        (l.reservation_id == reservation && (l.attempt_id == some attempt && l.unit == some unit)) _
        _ t h1 in
    let kept : settle_execution s id l o boot release_state ≡ t = cc h2 in
    subst (λ x. Acts s (x.0)) kept
      (settle_execution-Acts s id l o boot release_state found active idle)

settle_reservation-Acts :
    (s : BrokerState) (id : String) (l : Lease) (o : LaunchObservation) (boot : String)
    (release_state : LeaseState)
    → find_lease id s.leases ≡ some l
    → is_active l ≡ true
    → active_state release_state ≡ false
    → Acts s (settle_reservation s id l o boot release_state).0
unfolding settle_reservation
settle_reservation-Acts s id l o boot release_state found active idle =
    let keep : Acts s s = (refl, keeps) in
    if_both {A = BrokerState × Reconciled} (λ x. Acts s (x.0)) (not (is_reserved l.state)) _ _ keep
      (if_both {A = BrokerState × Reconciled} (λ x. Acts s (x.0))
        (not (boot_agrees l o.observed_boot_id boot)) _ _ keep
        (if_both {A = BrokerState × Reconciled} (λ x. Acts s (x.0))
          (not (is_yes o.launch_absent)
            || o.require_expiry && ltb o.observed_at (l.reserved_monotonic + o.reservation_ttl))
          _ _ keep (release-Acts s id l release_state o.observed_at found active idle)))

pub reconcile_reservation-Acts :
    (s : BrokerState) (id reservation : String) (o : LaunchObservation) (boot : String)
    (release_state : LeaseState) (t : BrokerState × Reconciled)
    → active_state release_state ≡ false
    → reconcile_reservation s id reservation o boot release_state ≡ ok t
    → Acts s t.0
unfolding reconcile_reservation
reconcile_reservation-Acts s id reservation o boot release_state t idle h =
    let (l, looked, h1) = bind_passed (active_lease s id) _ h in
    let (found, active) = active_lease_found s id l looked in
    let (matches, h2) = require_passed (l.reservation_id == reservation) _ _ t h1 in
    let kept : settle_reservation s id l o boot release_state ≡ t = cc h2 in
    subst (λ x. Acts s (x.0)) kept
      (settle_reservation-Acts s id l o boot release_state found active idle)
