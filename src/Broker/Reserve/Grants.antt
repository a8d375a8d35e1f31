-- ===== src/Broker/Reserve/Grants.antt =====
-- What a first reservation of a request does to the ledger, refused or granted.
use switchstand.Broker.Pressure.{Pressure, Refusal, refusal}
use switchstand.Broker.Pressure.Admits.{HasRoom, admits-HasRoom}
use switchstand.Broker.Budget.{Budget, add, class_budget, fits}
use switchstand.Broker.Reserve.{
  Host, LeaseRequest, admission_memory, admit, child_budget, commit, decide, limit_of, new_lease,
  place, pressure, refuse, reserve, reserve_lease, reserved_memory,
}
use switchstand.Broker.Ledger.{
  BrokerState, Lease, Reply, Verdict, find_lease, find_reply, granted, refused, used,
}
use switchstand.Base.{
  Bool-cases, List, Option, String, [], arith, bind_passed, forbid_passed, if◌then◌else◌, inl, inr,
  is_some, none, ok, refl, some, string_eq, subst, sym, true, ℕ, ◌++◌, ◌==◌, ◌||◌, ◌∷◌, ◌≡◌,
}

-- the memory that a candidate under the root adds to the host; below a lease it adds none
abbrev pub candidate_memory : LeaseRequest → ℕ
candidate_memory r =
    if r.parent == "root" then (add (class_budget r.worker_class) r.children).memory_max_mib else 0

-- What a grant means: the worker is new, the host has room for it, its budget fits beside the
-- active children of its parent, and exactly its lease was added.
pub record IsGranted (host : Host) (s : BrokerState) (r : LeaseRequest) (p : Pressure)
    (after : List Lease) (worker id : String) : Type 0 where
  pub same_worker : worker ≡ r.worker
  pub same_id : id ≡ host.fresh_id
  pub fresh : find_lease r.worker s.leases ≡ none
  pub room : HasRoom p r.worker_class (reserved_memory s.leases) (candidate_memory r) host.now
  pub limit : Budget
  pub limited : limit_of s r.parent ≡ ok limit
  pub within :
      fits (add (used r.parent s.leases) (add (class_budget r.worker_class) r.children)) limit
      ≡ true
  pub added : after ≡ s.leases ++ new_lease host r ∷ []

-- a refusal changes no lease
abbrev pub IsOutcome : Host → BrokerState → LeaseRequest → Pressure → List Lease → Verdict → Type 0
IsOutcome host s r p after (refused reason) = after ≡ s.leases
IsOutcome host s r p after (granted worker id) = IsGranted host s r p after worker id

admission_amounts :
    (s : BrokerState) (r : LeaseRequest) (m : ℕ × ℕ)
    → admission_memory s r ≡ ok m
    → m ≡ (reserved_memory s.leases, candidate_memory r)
unfolding admission_memory
admission_amounts s r m h = elim (Bool-cases (r.parent == "root")) [
  | inl e ↦
      let (b, valid, h1) =
        bind_passed (child_budget r.children) _ (rw (e, admission_memory) at h) in
      let same : r.children ≡ b = ground arith in rw (e, same) (sym (cc h1))
  | inr e ↦ let h1 = rw (e, admission_memory) at h in rw e (sym (cc h1))
]

place-IsOutcome :
    (host : Host) (s : BrokerState) (r : LeaseRequest) (p : Pressure) (limit : Budget)
    → find_lease r.worker s.leases ≡ none
    → limit_of s r.parent ≡ ok limit
    → HasRoom p r.worker_class (reserved_memory s.leases) (candidate_memory r) host.now
    → IsOutcome host s r p (place host s r limit).0.leases (place host s r limit).1.verdict
unfolding place
place-IsOutcome host s r p limit fresh limited room =
    elim (Bool-cases
      (fits (add (used r.parent s.leases) (add (class_budget r.worker_class) r.children)) limit)) [
        | inl e ↦ rw e (record {
          same_worker = refl;
          same_id = refl;
          fresh = fresh;
          room = room;
          limit = limit;
          limited = limited;
          within = e;
          added = refl;
        })
        | inr e ↦ rw e refl
      ]

decide-IsOutcome :
    (host : Host) (s : BrokerState) (r : LeaseRequest) (p : Pressure) (o : Option Refusal)
    (t : BrokerState × Reply)
    → decide host s r o ≡ ok t
    → (o ≡ none → HasRoom p r.worker_class (reserved_memory s.leases) (candidate_memory r) host.now)
    → IsOutcome host s r p t.0.leases t.1.verdict
unfolding decide reserve_lease
decide-IsOutcome host s r p (some reason) t h room =
    let same : ◌≡◌ {A = BrokerState × Reply} (s, refuse r reason) t = cc h in
    subst {A = BrokerState × Reply} (λ x. IsOutcome host s r p x.0.leases x.1.verdict) same refl
decide-IsOutcome host s r p none t h room =
    let (free, h1) =
      forbid_passed (r.worker == "root" || is_some (find_lease r.worker s.leases)) _ _ t h in
    let (children, valid, h2) = bind_passed (child_budget r.children) _ h1 in
    let (limit, limited, h3) = bind_passed (limit_of s r.parent) _ h2 in
    let fresh : find_lease r.worker s.leases ≡ none = ground arith in
    let same : place host s r limit ≡ t = cc h3 in
    subst (λ x. IsOutcome host s r p x.0.leases x.1.verdict) same
      (place-IsOutcome host s r p limit fresh limited (room refl))

admit-IsOutcome :
    (host : Host) (s : BrokerState) (r : LeaseRequest) (sampled : Pressure × BrokerState)
    (t : BrokerState × Reply)
    → admit host s r sampled ≡ ok t
    → IsOutcome host sampled.1 r sampled.0 t.0.leases t.1.verdict
unfolding admit
admit-IsOutcome host s r (sample, sampled) t h =
    let (memory, m, h1) = bind_passed (admission_memory sampled r) _ h in
    let (result, decided, h2) =
      bind_passed (decide host sampled r (refusal sample r.worker_class memory.0 memory.1 host.now))
        _ h1 in
    let amounts = admission_amounts sampled r memory m in
    let room : refusal sample r.worker_class memory.0 memory.1 host.now ≡ none
        → HasRoom sample r.worker_class (reserved_memory sampled.leases) (candidate_memory r)
            host.now =
      λ e.
        subst (λ x. HasRoom sample r.worker_class x.0 x.1 host.now) amounts
          (admits-HasRoom sample r.worker_class memory.0 memory.1 host.now e) in
    let same : commit result ≡ t = cc h2 in
    subst (λ x. IsOutcome host sampled r sample x.0.leases x.1.verdict) same
      (decide-IsOutcome host sampled r sample _ result decided room)

-- A request that has no reply yet is refused with no lease changed, or is granted: then the
-- worker is new, the sample shows the room that the policy asks for, the whole budget fits
-- beside the active children of the parent, and the ledger gains exactly the new lease.
pub reserve-IsOutcome :
    (host : Host) (s : BrokerState) (r : LeaseRequest) (supplied : Option Pressure)
    (t : BrokerState) (reply : Reply)
    → find_reply r.request_id s.requests ≡ none
    → reserve host s r supplied ≡ ok (t, reply)
    → IsOutcome host
        (pressure host.current s supplied).1
        r
        (pressure host.current s supplied).0
        t.leases
        reply.verdict
unfolding reserve
reserve-IsOutcome host s r supplied t reply e h =
    admit-IsOutcome host s r (pressure host.current s supplied) (t, reply) (rw (e, reserve) at h)
