-- ===== src/Broker/Steps.antt =====
-- The broker's life as a sequence of successful operations, each under the file lock.
use switchstand.Broker.Reserve.Keeps.{reserve-WellFormed}
use switchstand.Broker.Pressure.{Pressure, Reading}
use switchstand.Broker.Budget.{Budget, Dimension, amount, high_mib}
use switchstand.Broker.Reserve.{Host, LeaseRequest, initialize, reserve}
use switchstand.Base.{
  Option, String, [], arith, false, none, ok, refl, string_eq, subst, ℕ, ◌≡◌, ◌≤◌,
}
use switchstand.Broker.Ledger.Tree.{WellFormed, spent}
use switchstand.Broker.Ledger.{BrokerState, LeaseState, Reply, active_state, find_lease, used}
use switchstand.Broker.Release.{
  claim_execution, LaunchObservation, Observation, Receipt, Reconciled, attach_execution,
  reconcile_execution, reconcile_reservation,
}
use switchstand.Broker.Release.Keeps.{
  claim_execution-WellFormed, attach_execution-WellFormed, reconcile_execution-WellFormed,
  reconcile_reservation-WellFormed,
}

-- One successful operation; one that raises leaves the ledger as it was.
pub data Step (s t : BrokerState) : Type 0 where
  reserves :
      (host : Host) (r : LeaseRequest) (supplied : Option Pressure) (reply : Reply)
      → reserve host s r supplied ≡ ok (t, reply)
      → Step s t
  attaches :
      (id reservation attempt unit : String) (receipt : Receipt) (ttl : Reading) (now : ℕ)
      (boot : String)
      → attach_execution s id reservation attempt unit receipt ttl now boot ≡ ok t
      → Step s t
  claims :
      (id : String) (receipt : Receipt) (now : ℕ) (boot : String)
      → claim_execution s id receipt now boot ≡ ok t
      → Step s t
  settles_execution :
      (id reservation attempt unit : String) (o : Observation) (boot : String)
      (release_state : LeaseState) (outcome : Reconciled)
      → active_state release_state ≡ false
      → reconcile_execution s id reservation attempt unit o boot release_state ≡ ok (t, outcome)
      → Step s t
  settles_reservation :
      (id reservation : String) (o : LaunchObservation) (boot : String) (release_state : LeaseState)
      (outcome : Reconciled)
      → active_state release_state ≡ false
      → reconcile_reservation s id reservation o boot release_state ≡ ok (t, outcome)
      → Step s t

-- The ledgers that a broker reaches after its initialisation.
pub data Reachable (budget : Budget) : BrokerState → Type 0 where
  initial : {s : BrokerState} → initialize budget none ≡ ok s → Reachable budget s
  next : {s t : BrokerState} → Reachable budget s → Step s t → Reachable budget t

pub Step-WellFormed : (s t : BrokerState) → Step s t → WellFormed s → WellFormed t
Step-WellFormed s t (reserves host r supplied reply h) w =
    reserve-WellFormed host s r supplied (t, reply) w h
Step-WellFormed s t (attaches id reservation attempt unit receipt ttl now boot h) w =
    attach_execution-WellFormed s t id reservation attempt unit receipt ttl now boot w h
Step-WellFormed s t (claims id receipt now boot h) w =
    claim_execution-WellFormed s t id receipt now boot w h
Step-WellFormed s t (settles_execution id reservation attempt unit o boot state outcome idle h) w =
    reconcile_execution-WellFormed s id reservation attempt unit o boot state (t, outcome) w idle h
Step-WellFormed s t (settles_reservation id reservation o boot state outcome idle h) w =
    reconcile_reservation-WellFormed s id reservation o boot state (t, outcome) w idle h

spent_nothing : (d : Dimension) (b : Budget) → spent d "root" [] ≤ amount d b
unfolding used
spent_nothing high_mib b = omega arith
spent_nothing _ b = omega arith

initialize-WellFormed :
    (budget : Budget) (s : BrokerState) → initialize budget none ≡ ok s → WellFormed s
unfolding initialize
initialize-WellFormed budget s h =
    let start : BrokerState = record {
      root = budget;
      leases = [];
      requests = [];
      pressure_sample = none;
    } in
    let same : start ≡ s = cc h in
    subst WellFormed same (record {
      root_fits = λ d. spent_nothing d budget;
      leases_fit = tt;
      parents = tt;
      found = tt;
      totals = tt;
      unrooted = unfold find_lease in refl;
    })

-- Every ledger that the operations reach from an initialised one is well formed: the active
-- children of the root and of each active lease fit its limit in every dimension, an active lease
-- hangs under the root or an active lease, and ids name one lease.
pub Reachable-WellFormed : {budget : Budget} {s : BrokerState} → Reachable budget s → WellFormed s
Reachable-WellFormed {budget} {s} (initial h) = initialize-WellFormed budget s h
Reachable-WellFormed (next {s} {t} r st) = Step-WellFormed s t st (Reachable-WellFormed r)
