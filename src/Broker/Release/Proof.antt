-- ===== src/Broker/Release/Proof.antt =====
-- What a release proves, and that a reservation is attached once.
use switchstand.Broker.Ledger.Replace.{find-replace_self}
use switchstand.Broker.Release.Keeps.{found_self, attach_reaches}
use switchstand.Broker.Ledger.Tree.{find-id, active_lease_found}
use switchstand.Broker.Pressure.{Reading}
use switchstand.Base.{
  ◌+◌, ap, option_eq, subst, require_passed, string_eq, str_iff, ◌==◌, Option-cases, arith,
  bind_passed, ok, some_inj, ◌||◌, if◌then◌else◌, not, Bool, Bool-cases, Option, String, and_parts,
  false, inl, inr, none, refl, some, sym, true, ℕ, ◌&&◌, ◌≡◌, ◌⊎◌,
}
use switchstand.Broker.Ledger.{
  active_lease, BrokerState, Lease, LeaseState, abandoned, find_lease, has_active_children,
  is_active, replace_lease,
}
use switchstand.Broker.Release.{
  attached, is_reserved, attach_locked, attach_execution, boot_agrees, Receipt, Reconciled,
  reconcile_execution, settle_execution, Observation, has_expired, is_no, is_yes, release, released,
  released_lease, resolve,
}

-- The lease a reconciliation is about is active and was attached as that attempt.
pub record IsAttempt (s : BrokerState) (id reservation attempt unit : String) (l : Lease)
    : Type 0 where
  pub found : find_lease id s.leases ≡ some l
  pub active : is_active l ≡ true
  pub same_reservation : l.reservation_id ≡ reservation
  pub same_attempt : l.attempt_id ≡ some attempt
  pub same_unit : l.unit ≡ some unit

-- Why an attempt may be released: it never started and its claim expired, or its unit ended with
-- an empty cgroup, after the claim expired where that is asked for.
pub IsFinished : Lease → Observation → LeaseState → LeaseState → Type 0
IsFinished l o release_state state =
    ((o.execution_started ≡ some false)
      × (has_expired l.claim_expires_monotonic o.observed_at ≡ true)
      × (state ≡ abandoned))
    ⊎ ((o.unit_terminal ≡ some true)
        × (o.cgroup_empty ≡ some true)
        × (o.require_claim_expiry ≡ true
            → has_expired l.claim_expires_monotonic o.observed_at ≡ true)
        × (state ≡ release_state))

-- The boot and the ledger agree to a release, which writes the end of the lease and no more.
pub record IsEnded (s t : BrokerState) (id observed_boot boot : String) (l : Lease)
    (state : LeaseState) (observed : ℕ) : Type 0 where
  pub boot_seen : observed_boot ≡ l.boot_id
  pub boot_now : observed_boot ≡ boot
  pub no_children : has_active_children id s.leases ≡ false
  pub written : t ≡ record s { leases = replace_lease (released_lease l state observed) s.leases }

yes_iff : (o : Option Bool) → is_yes o ≡ true → o ≡ some true
yes_iff (some true) h = refl
yes_iff (some false) h = cc
yes_iff none h = cc

no_iff : (o : Option Bool) → is_no o ≡ true → o ≡ some false
no_iff (some true) h = cc
no_iff (some false) h = refl
no_iff none h = cc

ite_some :
    (b : Bool) (x y : LeaseState) → (if b then some x else none) ≡ some y → (b ≡ true) × (x ≡ y)
ite_some true x y h = (refl, some_inj h)
ite_some false x y h = cc

resolve-IsFinished :
    (l : Lease) (o : Observation) (release_state state : LeaseState)
    → resolve l o release_state ≡ some state
    → IsFinished l o release_state state
unfolding resolve IsFinished
resolve-IsFinished l o release_state state h =
    elim (Bool-cases
      (is_no o.execution_started && has_expired l.claim_expires_monotonic o.observed_at)) [
        | inl e ↦
            let (a, b) = and_parts (is_no o.execution_started) _ e in
            inl (no_iff o.execution_started a, b, sym (cc (rw (e, resolve) at h)))
        | inr e ↦
            let (ended, same) =
              ite_some
                (is_yes o.unit_terminal
                  && (is_yes o.cgroup_empty
                      && (not o.require_claim_expiry
                          || has_expired l.claim_expires_monotonic o.observed_at)))
                release_state state (rw (e, resolve) at h) in
            let (terminal, rest) = and_parts (is_yes o.unit_terminal) _ ended in
            let (empty, expiry) = and_parts (is_yes o.cgroup_empty) _ rest in
            inr (
              yes_iff o.unit_terminal terminal,
              yes_iff o.cgroup_empty empty,
              (λ asked. ground arith),
              sym same,
            )
      ]

-- The meaning of the answer of a reconciliation: a release has its proof, and every other answer
-- leaves the ledger as it is.
pub ExecutionOutcome :
    BrokerState
    → String
    → String
    → String
    → String
    → Observation
    → String
    → LeaseState
    → BrokerState
    → Reconciled
    → Type 0
ExecutionOutcome s id reservation attempt unit o boot release_state t (released state) =
    (l : Lease) × IsAttempt s id reservation attempt unit l
    × IsFinished l o release_state state
    × IsEnded s t id o.observed_boot_id boot l state o.observed_at
ExecutionOutcome s id reservation attempt unit o boot release_state t _ = t ≡ s

settle-Outcome :
    (s : BrokerState) (id reservation attempt unit : String) (l : Lease) (o : Observation)
    (boot : String) (release_state : LeaseState)
    → IsAttempt s id reservation attempt unit l
    → ExecutionOutcome s id reservation attempt unit o boot release_state
        (settle_execution s id l o boot release_state).0
        (settle_execution s id l o boot release_state).1
unfolding settle_execution ExecutionOutcome release
settle-Outcome s id reservation attempt unit l o boot release_state a =
    elim (Bool-cases (boot_agrees l o.observed_boot_id boot)) [
      | inr e ↦ rw (e, settle_execution) refl
      | inl e ↦ elim (Option-cases (resolve l o release_state)) [
        | inl n ↦ rw (e, n, settle_execution) refl
        | inr (state, n) ↦ elim (Bool-cases (has_active_children id s.leases)) [
          | inl c ↦ rw (e, n, settle_execution, release, c) refl
          | inr c ↦
              let (seen, now) = and_parts (o.observed_boot_id == l.boot_id) _ e in
              rw (e, n, settle_execution, release, c)
                (
                  l,
                  a,
                  resolve-IsFinished l o release_state state n,
                  record {
                    boot_seen = (str_iff o.observed_boot_id l.boot_id).0 seen;
                    boot_now = (str_iff o.observed_boot_id boot).0 now;
                    no_children = c;
                    written = refl;
                  },
                )
        ]
      ]
    ]

some_same : (o : Option String) (x : String) → (o == some x) ≡ true → o ≡ some x
some_same none x h = cc
some_same (some y) x h = ap some ((str_iff y x).0 h)

-- A reconciliation releases a lease only if the lease is the named, active attempt, the boot ids
-- agree with the lease and with the running host, the attempt is finished by a positive proof,
-- and no child of it is active; then just that lease is marked ended. With any other answer the
-- ledger is unchanged.
pub reconcile_execution-Outcome :
    (s : BrokerState) (id reservation attempt unit : String) (o : Observation) (boot : String)
    (release_state : LeaseState) (t : BrokerState) (outcome : Reconciled)
    → reconcile_execution s id reservation attempt unit o boot release_state ≡ ok (t, outcome)
    → ExecutionOutcome s id reservation attempt unit o boot release_state t outcome
unfolding reconcile_execution
reconcile_execution-Outcome s id reservation attempt unit o boot release_state t outcome h =
    let (l, looked, h1) = bind_passed (active_lease s id) _ h in
    let (found, active) = active_lease_found s id l looked in
    let (matches, h2) =
      require_passed
        (l.reservation_id == reservation && (l.attempt_id == some attempt && l.unit == some unit)) _
        _ (t, outcome) h1 in
    let (m1, rest) = and_parts (l.reservation_id == reservation) _ matches in
    let (m2, m3) = and_parts (l.attempt_id == some attempt) _ rest in
    let kept : settle_execution s id l o boot release_state ≡ (t, outcome) = cc h2 in
    subst {A = BrokerState × Reconciled}
      (λ x. ExecutionOutcome s id reservation attempt unit o boot release_state x.0 x.1) kept
      (settle-Outcome s id reservation attempt unit l o boot release_state (record {
        found = found;
        active = active;
        same_reservation = (str_iff l.reservation_id reservation).0 m1;
        same_attempt = some_same l.attempt_id attempt m2;
        same_unit = some_same l.unit unit m3;
      }))

-- A successful attach found the lease reserved, and left it attached.
pub attach_marks :
    (s t : BrokerState) (id reservation attempt unit : String) (receipt : Receipt) (ttl : Reading)
    (now : ℕ) (boot : String)
    → attach_execution s id reservation attempt unit receipt ttl now boot ≡ ok t
    → (l : Lease) × (find_lease id s.leases ≡ some l)
      × (is_reserved l.state ≡ true)
      × (n : ℕ) × (find_lease id t.leases ≡ some (attached l attempt unit n boot))
unfolding attach_locked
attach_marks s t id reservation attempt unit receipt ttl now boot h =
    let (n, locked) = attach_reaches s t id reservation attempt unit receipt ttl now boot h in
    let (l, looked, h1) = bind_passed (active_lease s id) _ locked in
    let (found, active) = active_lease_found s id l looked in
    let (fresh, h2) = require_passed (is_reserved l.state) _ _ t h1 in
    let (matches, h3) = require_passed (l.reservation_id == reservation) _ _ t h2 in
    let new = attached l attempt unit (now + n) boot in
    let kept : record s { leases = replace_lease new s.leases } ≡ t = cc h3 in
    let same_id : new.lease_id ≡ id = unfold attached in find-id id s.leases l found in
    let held = find-replace_self s.leases new l (unfold attached in found_self s id l found) in
    (
      l,
      found,
      fresh,
      now + n,
      subst (λ x. find_lease id x.leases ≡ some new) kept
          (subst (λ i. find_lease i (replace_lease new s.leases) ≡ some new) same_id held),
    )
