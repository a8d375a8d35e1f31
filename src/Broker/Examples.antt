-- ===== src/Broker/Examples.antt =====
-- A host with one lead and one worker below it, through reservation, attach and release.
use switchstand.Broker.Ledger.Tree.{WellFormed}
use switchstand.Broker.Reserve.Grants.{IsOutcome, reserve-IsOutcome}
use switchstand.Broker.Pressure.Admits.{HasRoom, admits-HasRoom}
use switchstand.Broker.Reserve.Replay.{reserve_again}
use switchstand.Broker.Steps.{
  Reachable, Reachable-WellFormed, attaches, initial, next, reserves, settles_execution,
}
use switchstand.Broker.Budget.{
  Budget, add, amount, class_budget, fits, implementation, light, worker_count, zero_budget,
}
use switchstand.Broker.Release.{
  Observation, Receipt, attach_execution, attach_locked, attached, reconcile_execution, release,
  released, released_lease, resolve, settle_execution,
}
use switchstand.Broker.Reserve.{
  Host, LeaseRequest, admission_memory, admit, decide, initialize, limit_of, new_lease, place,
  pressure, reserve, reserve_lease, reserved_memory,
}
use switchstand.Broker.Pressure.{
  Pressure, activity_of, activity_refusal, derive_activity, finite, load_refusal, numbers_valid,
  refusal, required_memory, sample_of, sample_record, sample_refusal, window_refusal, with_activity,
}
use switchstand.Broker.Lifecycle.{Later, Run, at_start, attach_once, later, lease_advances}
use switchstand.Broker.Capacity.{Reachable-granted_total_le, granted_total}
use switchstand.Broker.Ledger.{
  BrokerState, Lease, Reply, active_lease, completed, find_lease, find_reply, granted,
  has_active_children, is_id, replace_lease, reserved, used,
}
use switchstand.Broker.Release.Proof.{ExecutionOutcome, reconcile_execution-Outcome}
use switchstand.Base.{
  String, [], all, any, codes, false, none, ok, pos, refl, some, string_eq, true, ℕ, ◌∷◌, ◌≡◌, ◌≢◌,
  ◌≤◌,
}

abbrev whole_host : Budget
whole_host = record {
  memory_high_mib = 8000;
  memory_max_mib = 12000;
  swap_max_mib = 2000;
  cpu_percent = 800;
  tasks = 1000;
  workers = 4;
  heavy = 1;
}

abbrev calm : Pressure
calm = record {
  memory_total_mib = pos 32768;
  memory_available_mib = pos 24000;
  swap_total_mib = pos 0;
  swap_used_mib = pos 0;
  memory_psi_avg10 = finite (pos 10);
  swap_activity_pages = none;
  sampled_monotonic = some (finite (pos 1000));
  activity_window_seconds = none;
  pswpin = none;
  pswpout = none;
}

abbrev host_at : ℕ → String → Host
host_at now fresh = record {
  now = now;
  reserved_at = now;
  boot_id = "boot-1";
  fresh_id = fresh;
  current = some calm;
}

abbrev lead_request : LeaseRequest
lead_request = record {
  request_id = "req-1";
  parent = "root";
  worker = "lead";
  worker_class = light;
  children = record {
    memory_high_mib = 1500;
    memory_max_mib = 2000;
    swap_max_mib = 300;
    cpu_percent = 200;
    tasks = 200;
    workers = 1;
    heavy = 0;
  };
}

abbrev worker_request : LeaseRequest
worker_request = record {
  request_id = "req-2";
  parent = "lead";
  worker = "worker";
  worker_class = implementation;
  children = zero_budget;
}

abbrev empty_ledger : BrokerState
empty_ledger = record { root = whole_host; leases = []; requests = []; pressure_sample = none }

abbrev lead_lease : Lease
lead_lease = record {
  lease_id = "lead";
  reservation_id = "res-1";
  request_id = "req-1";
  parent = "root";
  worker_class = light;
  own = class_budget light;
  children = lead_request.children;
  total = add (class_budget light) lead_request.children;
  state = reserved;
  reserved_monotonic = 2000;
  boot_id = "boot-1";
  attempt_id = none;
  unit = none;
  claim_expires_monotonic = none;
  reconciled_monotonic = none;
}

abbrev reply_lead : Reply
reply_lead = record { request_id = "req-1"; parent = "root"; verdict = granted "lead" "res-1" }

abbrev ledger_lead : BrokerState
ledger_lead = record {
  root = whole_host;
  leases = lead_lease ∷ [];
  requests = reply_lead ∷ [];
  pressure_sample = none;
}

lead_reserved :
    reserve (host_at 2000 "res-1") empty_ledger lead_request none ≡ ok (ledger_lead, reply_lead)
unfolding reserve admit pressure admission_memory decide reserve_lease place find_reply find_lease
    limit_of refusal numbers_valid sample_refusal activity_of activity_refusal window_refusal
    load_refusal required_memory used fits add class_budget reserved_memory with_activity
    derive_activity sample_record sample_of new_lease active_lease
lead_reserved = refl

abbrev worker_lease : Lease
worker_lease = record {
  lease_id = "worker";
  reservation_id = "res-2";
  request_id = "req-2";
  parent = "lead";
  worker_class = implementation;
  own = class_budget implementation;
  children = zero_budget;
  total = add (class_budget implementation) zero_budget;
  state = reserved;
  reserved_monotonic = 3000;
  boot_id = "boot-1";
  attempt_id = none;
  unit = none;
  claim_expires_monotonic = none;
  reconciled_monotonic = none;
}

abbrev reply_worker : Reply
reply_worker = record { request_id = "req-2"; parent = "lead"; verdict = granted "worker" "res-2" }

abbrev ledger_both : BrokerState
ledger_both = record {
  root = whole_host;
  leases = lead_lease ∷ worker_lease ∷ [];
  requests = reply_lead ∷ reply_worker ∷ [];
  pressure_sample = none;
}

worker_reserved :
    reserve (host_at 3000 "res-2") ledger_lead worker_request none ≡ ok (ledger_both, reply_worker)
unfolding reserve admit pressure admission_memory decide reserve_lease place find_reply find_lease
    limit_of refusal numbers_valid sample_refusal activity_of activity_refusal window_refusal
    load_refusal required_memory used fits add class_budget reserved_memory with_activity
    derive_activity sample_record sample_of new_lease active_lease
worker_reserved = refl

abbrev bound_worker : Lease
bound_worker = attached worker_lease "attempt-1" "worker.service" 9000 "boot-1"

abbrev ledger_bound : BrokerState
ledger_bound = record ledger_both { leases = lead_lease ∷ bound_worker ∷ [] }

abbrev full_receipt : Receipt
full_receipt = record { attempt_id = some "attempt-1"; unit = some "worker.service" }

worker_attached :
    attach_execution ledger_both "worker" "res-2" "attempt-1" "worker.service" full_receipt
      (finite (pos 5000))
      4000
      "boot-1"
    ≡ ok ledger_bound
unfolding attach_execution attach_locked active_lease find_lease replace_lease attached is_id codes
    all
worker_attached = refl

abbrev ended_unit : Observation
ended_unit = record {
  observed_boot_id = "boot-1";
  observed_at = 5000;
  execution_started = some true;
  unit_terminal = some true;
  cgroup_empty = some true;
  require_claim_expiry = false;
}

abbrev ended_worker : Lease
ended_worker = released_lease bound_worker completed 5000

abbrev ledger_ended : BrokerState
ledger_ended = record ledger_both { leases = lead_lease ∷ ended_worker ∷ [] }

worker_released :
    reconcile_execution ledger_bound "worker" "res-2" "attempt-1" "worker.service" ended_unit
      "boot-1" completed
    ≡ ok (ledger_ended, released completed)
unfolding reconcile_execution settle_execution release resolve active_lease find_lease replace_lease
    attached released_lease has_active_children any
worker_released = refl

initialised : initialize whole_host none ≡ ok empty_ledger
unfolding initialize
initialised = refl

both_reached : Reachable whole_host ledger_both
both_reached =
    next
      (next (initial initialised)
        (reserves (host_at 2000 "res-1") lead_request none reply_lead lead_reserved))
      (reserves (host_at 3000 "res-2") worker_request none reply_worker worker_reserved)

to_bound : Run ledger_both ledger_bound
to_bound = later at_start (
    attaches "worker" "res-2" "attempt-1" "worker.service" full_receipt (finite (pos 5000)) 4000
      "boot-1" worker_attached)

to_ended : Run ledger_bound ledger_ended
to_ended = later at_start (
    settles_execution "worker" "res-2" "attempt-1" "worker.service" ended_unit "boot-1" completed
      (released completed) refl worker_released)

worker_found : find_lease "worker" ledger_both.leases ≡ some worker_lease
unfolding find_lease
worker_found = refl

no_reply_yet : find_reply worker_request.request_id ledger_lead.requests ≡ none
unfolding find_reply
no_reply_yet = refl

calm_admits : refusal calm light 0 3024 2000 ≡ none
unfolding refusal numbers_valid sample_refusal activity_of activity_refusal window_refusal
    load_refusal required_memory
calm_admits = refl

Reachable-granted_total_le_example :
    granted_total worker_count ledger_both.leases ≤ amount worker_count whole_host
Reachable-granted_total_le_example = Reachable-granted_total_le worker_count both_reached

Reachable-WellFormed_example : WellFormed ledger_both
Reachable-WellFormed_example = Reachable-WellFormed both_reached

reserve_again_example :
    reserve (host_at 7000 "res-3") ledger_both worker_request (some calm)
    ≡ ok (ledger_both, reply_worker)
reserve_again_example =
    reserve_again (host_at 3000 "res-2") (host_at 7000 "res-3") ledger_lead worker_request none
      (some calm) ledger_both reply_worker worker_reserved

reserve-IsOutcome_example :
    IsOutcome
      (host_at 3000 "res-2")
      (pressure (some calm) ledger_lead none).1
      worker_request
      (pressure (some calm) ledger_lead none).0
      ledger_both.leases
      (granted "worker" "res-2")
reserve-IsOutcome_example =
    reserve-IsOutcome (host_at 3000 "res-2") ledger_lead worker_request none ledger_both
      reply_worker no_reply_yet worker_reserved

admits-HasRoom_example : HasRoom calm light 0 3024 2000
admits-HasRoom_example = admits-HasRoom calm light 0 3024 2000 calm_admits

reconcile_execution-Outcome_example :
    ExecutionOutcome ledger_bound "worker" "res-2" "attempt-1" "worker.service" ended_unit "boot-1"
      completed ledger_ended
      (released completed)
reconcile_execution-Outcome_example =
    reconcile_execution-Outcome ledger_bound "worker" "res-2" "attempt-1" "worker.service"
      ended_unit "boot-1" completed ledger_ended (released completed) worker_released

lease_advances_example :
    (new : Lease) × (find_lease "worker" ledger_bound.leases ≡ some new) × Later worker_lease new
lease_advances_example =
    lease_advances ledger_both ledger_bound "worker" worker_lease to_bound worker_found

-- the room of the ended worker goes to another
abbrev next_request : LeaseRequest
next_request = record worker_request { request_id = "req-3"; worker = "worker-2" }

abbrev reply_next : Reply
reply_next = record { request_id = "req-3"; parent = "lead"; verdict = granted "worker-2" "res-3" }

abbrev next_lease : Lease
next_lease = record worker_lease {
  lease_id = "worker-2";
  reservation_id = "res-3";
  request_id = "req-3";
  reserved_monotonic = 6000;
}

abbrev ledger_next : BrokerState
ledger_next = record ledger_ended {
  leases = lead_lease ∷ ended_worker ∷ next_lease ∷ [];
  requests = reply_lead ∷ reply_worker ∷ reply_next ∷ [];
}

next_reserved :
    reserve (host_at 6000 "res-3") ledger_ended next_request none ≡ ok (ledger_next, reply_next)
unfolding reserve admit pressure admission_memory decide reserve_lease place find_reply find_lease
    limit_of refusal numbers_valid sample_refusal activity_of activity_refusal window_refusal
    load_refusal required_memory used fits add class_budget reserved_memory with_activity
    derive_activity sample_record sample_of new_lease active_lease attached released_lease
next_reserved = refl

attach_once_example :
    attach_execution ledger_ended "worker" "res-2" "attempt-2" "worker.service" full_receipt
      (finite (pos 5000))
      6000
      "boot-1"
    ≢ ok ledger_bound
attach_once_example =
    attach_once ledger_both ledger_bound ledger_ended ledger_bound "worker" "res-2" "res-2"
      "attempt-1" "attempt-2" "worker.service" "worker.service" full_receipt full_receipt
      (finite (pos 5000)) (finite (pos 5000)) 4000 6000 "boot-1" "boot-1" worker_attached to_ended
