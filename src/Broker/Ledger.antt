-- ===== src/Broker/Ledger.antt =====
-- The broker's ledger (`state.json`): leases in the order of their admission, the replies to
-- requests, and the last pressure sample.
pub mod Tree
pub mod Replace
use switchstand.Broker.Pressure.{Refusal, Sample}
use switchstand.Base.{
  Bool, List, Option, Result, String, [], all, any, codes, err, false, if◌then◌else◌, leb, length,
  nat_beq, none, ok, some, string_eq, true, ℕ, ◌&&◌, ◌==◌, ◌||◌, ◌∷◌,
}
use switchstand.Broker.Budget.{Budget, WorkerClass, add, zero_budget}

pub data LeaseState : Type 0 where
  reserved execution_active completed cancelled abandoned : LeaseState

-- `state in ACTIVE`
abbrev pub active_state : LeaseState → Bool
active_state reserved = true
active_state execution_active = true
active_state _ = false

pub record Lease : Type 0 where
  pub lease_id : String
  pub reservation_id : String
  pub request_id : String
  pub parent : String
  pub worker_class : WorkerClass
  pub own : Budget
  pub children : Budget
  pub total : Budget
  pub state : LeaseState
  pub reserved_monotonic : ℕ
  pub boot_id : String
  pub attempt_id : Option String
  pub unit : Option String
  pub claim_expires_monotonic : Option ℕ
  pub reconciled_monotonic : Option ℕ

pub data Verdict : Type 0 where
  refused : Refusal → Verdict
  granted : String → String → Verdict

-- the answer to a request: refused with a reason, or reserved with the lease and reservation ids
pub record Reply : Type 0 where
  pub request_id : String
  pub parent : String
  pub verdict : Verdict

pub record BrokerState : Type 0 where
  pub root : Budget
  pub leases : List Lease
  pub requests : List Reply
  pub pressure_sample : Option Sample

pub data BrokerError : Type 0 where
  invalid_identifier identity_mismatch request_collision worker_exists : BrokerError
  lease_inactive budget_invalid already_initialized ttl_not_positive request_invalid : BrokerError
  receipt_mismatch already_claimed reservation_mismatch execution_mismatch : BrokerError
  release_unproved : BrokerError

-- `[A-Za-z0-9]`
abbrev pub is_alphanumeric : ℕ → Bool
is_alphanumeric c =
    leb b'A' c && leb c b'Z' || (leb b'a' c && leb c b'z' || leb b'0' c && leb c b'9')

-- `[A-Za-z0-9_.-]`
abbrev pub is_id_char : ℕ → Bool
is_id_char c = is_alphanumeric c || (nat_beq c b'_' || (nat_beq c b'.' || nat_beq c b'-'))

abbrev pub id_codes : List ℕ → Bool
id_codes [] = false
id_codes (c ∷ cs) = is_alphanumeric c && (all is_id_char cs && leb (length cs) 79)

-- `ID.fullmatch`
unfoldable pub is_id : String → Bool
unfolding codes all
is_id s = id_codes (codes s)

-- `state["leases"].get(lease_id)`
unfoldable pub find_lease : String → List Lease → Option Lease
find_lease id [] = none
find_lease id (l ∷ ls) = if l.lease_id == id then some l else find_lease id ls

-- `state["requests"].get(request_id)`
unfoldable pub find_reply : String → List Reply → Option Reply
find_reply id [] = none
find_reply id (r ∷ rs) = if r.request_id == id then some r else find_reply id rs

-- The lease object of the ledger, which is a dict, is changed in place.
unfoldable pub replace_lease : Lease → List Lease → List Lease
replace_lease new [] = []
replace_lease new (l ∷ ls) = (if l.lease_id == new.lease_id then new else l) ∷ replace_lease new ls

abbrev pub is_active : Lease → Bool
is_active l = active_state l.state

-- `_active_lease`
unfoldable pub active_lease : BrokerState → String → Result BrokerError Lease
active_lease s id = elim (find_lease id s.leases) [
  | none ↦ err lease_inactive
  | some l ↦ if is_active l then ok l else err lease_inactive
]

-- `item["state"] in ACTIVE and item["parent"] == parent`
abbrev pub is_child_of : String → Lease → Bool
is_child_of parent l = is_active l && l.parent == parent

-- the loop that adds the totals of the active children
unfoldable pub used : String → List Lease → Budget
used parent [] = zero_budget
used parent (l ∷ ls) =
    let rest = used parent ls in if is_child_of parent l then add l.total rest else rest

-- `any(item["state"] in ACTIVE and item["parent"] == lease_id ...)`
unfoldable pub has_active_children : String → List Lease → Bool
has_active_children parent ls = any (is_child_of parent) ls
