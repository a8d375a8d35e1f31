-- ===== src/Broker/Release.antt =====
-- `attach_execution`, `claim_execution`, `reconcile_execution`, `reconcile_reservation` and the
-- rejected release paths. The receipt file that an attach writes is not modelled.
pub mod Keeps
pub mod Proof
use switchstand.Broker.Ledger.{
  BrokerError, BrokerState, Lease, LeaseState, abandoned, active_lease, already_claimed,
  execution_active, execution_mismatch, has_active_children, invalid_identifier, is_id,
  receipt_mismatch, release_unproved, replace_lease, reservation_mismatch, reserved,
  ttl_not_positive,
}
use switchstand.Broker.Pressure.{Reading, claim_ttl, finite}
use switchstand.Base.{
  ◌<>◌, option_eq, Bool, Option, Result, String, err, false, if◌then◌else◌, leb, ltb, none, not, ok,
  pos, require, some, string_eq, true, ℕ, ◌&&◌, ◌+◌, ◌==◌, ◌>>=◌, ◌>>◌, ◌||◌,
}

-- the receipt's `attempt_id` and `unit`, where it has them
pub record Receipt : Type 0 where
  pub attempt_id : Option String
  pub unit : Option String

-- `key in receipt and receipt[key] != expected` is refused
abbrev pub receipt_agrees : Option String → String → Bool
receipt_agrees none expected = true
receipt_agrees (some value) expected = value == expected

-- `math.isfinite(ttl) and ttl > 0`, with the time to live
abbrev pub positive_ttl : Reading → Option ℕ
positive_ttl (finite (pos n)) = if ltb 0 n then some n else none
positive_ttl _ = none

abbrev pub is_reserved : LeaseState → Bool
is_reserved reserved = true
is_reserved _ = false

-- the fields that an attach writes to the lease
unfoldable pub attached : Lease → String → String → ℕ → String → Lease
attached l attempt_id unit expires boot_id = record l {
  state = execution_active;
  attempt_id = some attempt_id;
  unit = some unit;
  claim_expires_monotonic = some expires;
  boot_id = boot_id;
}

-- the part of `attach_execution` under the lock, over a ttl that was accepted
unfoldable pub attach_locked :
    BrokerState
    → String
    → String
    → String
    → String
    → ℕ
    → ℕ
    → String
    → Result BrokerError BrokerState
attach_locked s lease_id reservation_id attempt_id unit ttl now boot_id = do
  lease ← active_lease s lease_id
  require (is_reserved lease.state) already_claimed
  require (lease.reservation_id == reservation_id) reservation_mismatch
  ok (record s {
    leases = replace_lease (attached lease attempt_id unit (now + ttl) boot_id) s.leases;
  })

unfoldable pub attach_execution :
    BrokerState
    → String
    → String
    → String
    → String
    → Receipt
    → Reading
    → ℕ
    → String
    → Result BrokerError BrokerState
attach_execution s lease_id reservation_id attempt_id unit receipt ttl now boot_id = do
  require (is_id attempt_id && is_id unit) invalid_identifier
  elim (positive_ttl ttl) [
    | none ↦ err ttl_not_positive
    | some n ↦ do
      require (receipt_agrees receipt.attempt_id attempt_id && receipt_agrees receipt.unit unit)
          receipt_mismatch
      attach_locked s lease_id reservation_id attempt_id unit n now boot_id
  ]

-- `receipt.get(key, default)`
abbrev pub get_or_text : Option String → String → String
get_or_text none default = default
get_or_text (some value) default = value

unfoldable pub claim_execution :
    BrokerState → String → Receipt → ℕ → String → Result BrokerError BrokerState
claim_execution s lease_id receipt now boot_id = do
  lease ← active_lease s lease_id
  attach_execution s lease_id lease.reservation_id
      (get_or_text receipt.attempt_id ("attempt-" <> lease_id))
      (get_or_text receipt.unit ("unknown-" <> lease_id <> ".service")) receipt
      (finite (pos claim_ttl)) now boot_id

-- `{"state": ..., "reason": ...}` of the reconciliations
pub data Reconciled : Type 0 where
  boot_identity runtime_ambiguous active_children execution_attached launch_ambiguous : Reconciled
  released : LeaseState → Reconciled

-- what the caller observed of one attempt
pub record Observation : Type 0 where
  pub observed_boot_id : String
  pub observed_at : ℕ
  pub execution_started : Option Bool
  pub unit_terminal : Option Bool
  pub cgroup_empty : Option Bool
  pub require_claim_expiry : Bool

-- `value is True` and `value is False`
abbrev pub is_yes : Option Bool → Bool
is_yes (some true) = true
is_yes _ = false

abbrev pub is_no : Option Bool → Bool
is_no (some false) = true
is_no _ = false

-- `isinstance(expires, (int, float)) and observed >= expires`
abbrev pub has_expired : Option ℕ → ℕ → Bool
has_expired none observed = false
has_expired (some expires) observed = leb expires observed

-- `resolved_state`
unfoldable pub resolve : Lease → Observation → LeaseState → Option LeaseState
resolve l o release_state =
    if is_no o.execution_started && has_expired l.claim_expires_monotonic o.observed_at
    then some abandoned
    else if is_yes o.unit_terminal
        && (is_yes o.cgroup_empty
            && (not o.require_claim_expiry || has_expired l.claim_expires_monotonic o.observed_at))
    then some release_state
    else none

-- the write that ends a lease
unfoldable pub released_lease : Lease → LeaseState → ℕ → Lease
released_lease l state observed = record l { state = state; reconciled_monotonic = some observed }

-- the common end of both reconciliations: no release over active children
unfoldable pub release : BrokerState → String → Lease → LeaseState → ℕ → BrokerState × Reconciled
release s lease_id l state observed =
    if has_active_children lease_id s.leases then (s, active_children) else (
      record s { leases = replace_lease (released_lease l state observed) s.leases },
      released state,
    )

abbrev pub boot_agrees : Lease → String → String → Bool
boot_agrees l observed_boot boot = observed_boot == l.boot_id && observed_boot == boot

-- the branches of `reconcile_execution` over an attempt whose identity was checked
unfoldable pub settle_execution :
    BrokerState → String → Lease → Observation → String → LeaseState → BrokerState × Reconciled
settle_execution s lease_id l o boot_id release_state =
    if not (boot_agrees l o.observed_boot_id boot_id)
    then (s, boot_identity)
    else elim (resolve l o release_state) [
      | none ↦ (s, runtime_ambiguous)
      | some state ↦ release s lease_id l state o.observed_at
    ]

-- `reconcile_execution`; `release_state` is one of completed and cancelled
unfoldable pub reconcile_execution :
    BrokerState
    → String
    → String
    → String
    → String
    → Observation
    → String
    → LeaseState
    → Result BrokerError (BrokerState × Reconciled)
reconcile_execution s lease_id reservation_id attempt_id unit o boot_id release_state = do
  lease ← active_lease s lease_id
  require
      (lease.reservation_id == reservation_id
        && (lease.attempt_id == some attempt_id && lease.unit == some unit))
      execution_mismatch
  ok (settle_execution s lease_id lease o boot_id release_state)

-- what the caller observed of a launch
pub record LaunchObservation : Type 0 where
  pub observed_boot_id : String
  pub observed_at : ℕ
  pub launch_absent : Option Bool
  pub reservation_ttl : ℕ
  pub require_expiry : Bool

-- the branches of `reconcile_reservation` over a lease whose reservation was checked
unfoldable pub settle_reservation :
    BrokerState
    → String
    → Lease
    → LaunchObservation
    → String
    → LeaseState
    → BrokerState × Reconciled
settle_reservation s lease_id l o boot_id release_state =
    if not (is_reserved l.state)
    then (s, execution_attached)
    else if not (boot_agrees l o.observed_boot_id boot_id)
    then (s, boot_identity)
    else if not (is_yes o.launch_absent)
        || o.require_expiry && ltb o.observed_at (l.reserved_monotonic + o.reservation_ttl)
    then (s, launch_ambiguous)
    else release s lease_id l release_state o.observed_at

unfoldable pub reconcile_reservation :
    BrokerState
    → String
    → String
    → LaunchObservation
    → String
    → LeaseState
    → Result BrokerError (BrokerState × Reconciled)
reconcile_reservation s lease_id reservation_id o boot_id release_state = do
  lease ← active_lease s lease_id
  require (lease.reservation_id == reservation_id) reservation_mismatch
  ok (settle_reservation s lease_id lease o boot_id release_state)

-- `complete`, `cancel` and `finish_execution`
unfoldable pub reject_release : String → Result BrokerError BrokerState
reject_release lease_id = err release_unproved
