-- ===== src/Broker/Reserve.antt =====
-- Admission: `initialize`, `ingest`, `reserve`, `_reserve`, `_pressure` and `_admission_memory`.
pub mod Replay
pub mod Placed
pub mod Keeps
pub mod Grants
use switchstand.Broker.Pressure.{
  Pressure, Refusal, Sample, not_finite, parent_budget, refusal, sample_record, with_activity,
}
use switchstand.Broker.Budget.{
  Budget, RawBudget, WorkerClass, add, class_budget, fits, high_within_max, known_class,
  non_negative,
}
use switchstand.Base.{
  List, Option, Result, String, [], err, forbid, if◌then◌else◌, is_some, none, ok, pos, require,
  some, string_eq, ℕ, ◌&&◌, ◌++◌, ◌+◌, ◌==◌, ◌>>=◌, ◌>>◌, ◌||◌, ◌∷◌,
}
use switchstand.Broker.Ledger.{
  request_invalid, BrokerError, BrokerState, Lease, Reply, active_lease, already_initialized,
  budget_invalid, find_lease, find_reply, granted, identity_mismatch, invalid_identifier,
  is_child_of, is_id, refused, request_collision, reserved, used, worker_exists,
}

pub record LeaseRequest : Type 0 where
  pub request_id : String
  pub parent : String
  pub worker : String
  pub worker_class : WorkerClass
  pub children : Budget

-- the fields of a request before the validators of `LeaseRequest` and `ChildBudget`
pub record RawRequest : Type 0 where
  pub request_id : String
  pub parent : String
  pub worker : String
  pub worker_class : String
  pub children : RawBudget

-- What the host gives to a call: two readings of the clock, the boot id, a fresh reservation id,
-- and `Pressure.current()`, with `none` where it raises.
pub record Host : Type 0 where
  pub now : ℕ
  pub reserved_at : ℕ
  pub boot_id : String
  pub fresh_id : String
  pub current : Option Pressure

unfoldable pub validated : RawRequest → Option WorkerClass → Option Budget → Option LeaseRequest
validated raw (some class) (some children) = some (record {
  request_id = raw.request_id;
  parent = raw.parent;
  worker = raw.worker;
  worker_class = class;
  children = children;
})
validated raw _ _ = none

-- `LeaseRequest.model_validate_json`, from the parsed fields on
unfoldable pub validate_request : RawRequest → Option LeaseRequest
unfolding validated
validate_request raw =
    if is_id raw.request_id && (is_id raw.parent && is_id raw.worker)
    then validated raw (known_class raw.worker_class) (non_negative raw.children)
    else none

-- `initialize`; the ledger is `none` while `state.json` does not exist
unfoldable pub initialize : Budget → Option BrokerState → Result BrokerError BrokerState
initialize budget (some s) = err already_initialized
initialize budget none =
    ok (record { root = budget; leases = []; requests = []; pressure_sample = none })

-- `request.children.budget()`, whose `__post_init__` may raise
abbrev pub child_budget : Budget → Result BrokerError Budget
child_budget b = if high_within_max b then ok b else err budget_invalid

-- a sample that no host gives
abbrev pub broken_sample : Pressure
broken_sample = record {
  memory_total_mib = pos 0;
  memory_available_mib = pos 0;
  swap_total_mib = pos 0;
  swap_used_mib = pos 0;
  memory_psi_avg10 = not_finite;
  swap_activity_pages = none;
  sampled_monotonic = none;
  activity_window_seconds = none;
  pswpin = none;
  pswpout = none;
}

abbrev pub keep_sample : Option Sample → Option Sample → Option Sample
keep_sample none old = old
keep_sample (some new) old = some new

-- `_pressure`: the sample to judge, and the ledger with the raw sample in it
unfoldable pub pressure : Option Pressure → BrokerState → Option Pressure → Pressure × BrokerState
pressure current s (some supplied) = (supplied, s)
pressure none s none = (broken_sample, s)
pressure (some raw) s none = (
  with_activity raw s.pressure_sample,
  record s { pressure_sample = keep_sample (sample_record raw) s.pressure_sample },
)

-- the sum in `_admission_memory`
unfoldable pub reserved_memory : List Lease → ℕ
reserved_memory [] = 0
reserved_memory (l ∷ ls) =
    let rest = reserved_memory ls in
    if is_child_of "root" l then l.total.memory_max_mib + rest else rest

-- `_admission_memory`
unfoldable pub admission_memory : BrokerState → LeaseRequest → Result BrokerError (ℕ × ℕ)
admission_memory s r =
    if r.parent == "root"
    then (do
      children ← child_budget r.children
      ok (reserved_memory s.leases, (add (class_budget r.worker_class) children).memory_max_mib))
    else ok (reserved_memory s.leases, 0)

abbrev pub refuse : LeaseRequest → Refusal → Reply
refuse r reason = record { request_id = r.request_id; parent = r.parent; verdict = refused reason }

-- the limit in `_reserve`
unfoldable pub limit_of : BrokerState → String → Result BrokerError Budget
limit_of s parent =
    if parent == "root" then ok s.root else (do lease ← active_lease s parent; ok lease.children)

unfoldable pub new_lease : Host → LeaseRequest → Lease
new_lease host r = record {
  lease_id = r.worker;
  reservation_id = host.fresh_id;
  request_id = r.request_id;
  parent = r.parent;
  worker_class = r.worker_class;
  own = class_budget r.worker_class;
  children = r.children;
  total = add (class_budget r.worker_class) r.children;
  state = reserved;
  reserved_monotonic = host.reserved_at;
  boot_id = host.boot_id;
  attempt_id = none;
  unit = none;
  claim_expires_monotonic = none;
  reconciled_monotonic = none;
}

-- `_reserve` after its checks: the lease if it fits beside the active children, or a refusal
unfoldable pub place : Host → BrokerState → LeaseRequest → Budget → BrokerState × Reply
place host s r limit =
    if fits (add (used r.parent s.leases) (add (class_budget r.worker_class) r.children)) limit
    then (
      record s { leases = s.leases ++ new_lease host r ∷ [] },
      record {
        request_id = r.request_id;
        parent = r.parent;
        verdict = granted r.worker host.fresh_id;
      },
    )
    else (s, refuse r parent_budget)

-- `_reserve`
unfoldable pub reserve_lease :
    Host → BrokerState → LeaseRequest → Result BrokerError (BrokerState × Reply)
reserve_lease host s r = do
  forbid (r.worker == "root" || is_some (find_lease r.worker s.leases)) worker_exists
  children ← child_budget r.children
  limit ← limit_of s r.parent
  ok (place host s r limit)

-- the branches on `refusal`
unfoldable pub decide :
    Host → BrokerState → LeaseRequest → Option Refusal → Result BrokerError (BrokerState × Reply)
decide host s r (some reason) = ok (s, refuse r reason)
decide host s r none = reserve_lease host s r

-- `state["requests"][request.request_id] = result`, and the write of the ledger
abbrev pub commit : BrokerState × Reply → BrokerState × Reply
commit (s, reply) = (record s { requests = s.requests ++ reply ∷ [] }, reply)

-- `reserve` for a request that has no reply yet
unfoldable pub admit :
    Host
    → BrokerState
    → LeaseRequest
    → Pressure × BrokerState
    → Result BrokerError (BrokerState × Reply)
admit host s r (sample, sampled) = do
  memory ← admission_memory sampled r
  result ← decide host sampled r (refusal sample r.worker_class memory.0 memory.1 host.now)
  ok (commit result)

-- `reserve`; an error leaves the ledger unwritten
unfoldable pub reserve :
    Host → BrokerState → LeaseRequest → Option Pressure → Result BrokerError (BrokerState × Reply)
reserve host s r supplied = elim (find_reply r.request_id s.requests) [
  | some prior ↦ if prior.parent == r.parent then ok (s, prior) else err request_collision
  | none ↦ admit host s r (pressure host.current s supplied)
]

-- `ingest`, over the validated content of the request file
unfoldable pub ingest :
    Host
    → BrokerState
    → String
    → String
    → Option LeaseRequest
    → Option Pressure
    → Result BrokerError (BrokerState × Reply)
ingest host s parent request_id content supplied = do
  require (is_id parent && is_id request_id) invalid_identifier
  elim content [
    | none ↦ err request_invalid
    | some r ↦
        if r.parent == parent && r.request_id == request_id
        then reserve host s r supplied
        else err identity_mismatch
  ]
