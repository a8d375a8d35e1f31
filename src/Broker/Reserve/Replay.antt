-- ===== src/Broker/Reserve/Replay.antt =====
-- Requests that are sent again.
use switchstand.Broker.Ledger.{BrokerState, Reply, find_lease, find_reply, used}
use switchstand.Broker.Budget.{Budget, add, class_budget, fits}
use switchstand.Broker.Reserve.{
  Host, LeaseRequest, admission_memory, admit, child_budget, commit, decide, limit_of, place,
  pressure, refuse, reserve, reserve_lease,
}
use switchstand.Broker.Pressure.{Pressure, Refusal, refusal}
use switchstand.Base.{
  Bool-cases, List, Option, Option-cases, String, [], ap, arith, beq_refl, bind_passed,
  forbid_passed, if_both, inl, inr, is_some, none, ok, refl, some, string_eq, subst, ◌++◌, ◌==◌,
  ◌||◌, ◌∷◌, ◌≡◌,
}

find_reply-append :
    (id : String) (rs : List Reply) (r : Reply)
    → find_reply id rs ≡ none
    → r.request_id ≡ id
    → find_reply id (rs ++ r ∷ []) ≡ some r
unfolding find_reply
find_reply-append id [] r h e = rw (e, beq_refl id)
find_reply-append id (q ∷ rs) r h e = ground (arith, find_reply-append id rs r)

-- A reply that the decision gives carries the request's ids, and no reply is recorded yet.
pub record Answers (s : BrokerState) (r : LeaseRequest) (t : BrokerState × Reply) : Type 0 where
  pub same_id : t.1.request_id ≡ r.request_id
  pub same_parent : t.1.parent ≡ r.parent
  pub recorded : t.0.requests ≡ s.requests
  pub same_root : t.0.root ≡ s.root

place-Answers :
    (host : Host) (s : BrokerState) (r : LeaseRequest) (limit : Budget)
    → Answers s r (place host s r limit)
unfolding place
place-Answers host s r limit =
    if_both {A = BrokerState × Reply} (Answers s r)
      (fits (add (used r.parent s.leases) (add (class_budget r.worker_class) r.children)) limit) _ _
      (record { same_id = refl; same_parent = refl; recorded = refl; same_root = refl })
      (record { same_id = refl; same_parent = refl; recorded = refl; same_root = refl })

decide-Answers :
    (host : Host) (s : BrokerState) (r : LeaseRequest) (o : Option Refusal)
    (t : BrokerState × Reply)
    → decide host s r o ≡ ok t
    → Answers s r t
unfolding decide reserve_lease
decide-Answers host s r (some reason) t h =
    let same : ◌≡◌ {A = BrokerState × Reply} (s, refuse r reason) t = cc h in
    subst {A = BrokerState × Reply} (Answers s r) same
      (record { same_id = refl; same_parent = refl; recorded = refl; same_root = refl })
decide-Answers host s r none t h =
    let (free, h1) =
      forbid_passed (r.worker == "root" || is_some (find_lease r.worker s.leases)) _ _ t h in
    let (children, valid, h2) = bind_passed (child_budget r.children) _ h1 in
    let (limit, limited, h3) = bind_passed (limit_of s r.parent) _ h2 in
    let same : place host s r limit ≡ t = cc h3 in
    subst (Answers s r) same (place-Answers host s r limit)

-- What an admission writes.
pub record Admitted (s : BrokerState) (r : LeaseRequest) (t : BrokerState × Reply) : Type 0 where
  pub same_id : t.1.request_id ≡ r.request_id
  pub same_parent : t.1.parent ≡ r.parent
  pub recorded : t.0.requests ≡ s.requests ++ t.1 ∷ []
  pub same_root : t.0.root ≡ s.root

commit-Admitted :
    (s : BrokerState) (r : LeaseRequest) (x : BrokerState × Reply)
    → Answers s r x
    → Admitted s r (commit x)
commit-Admitted s r x a = record {
  same_id = a.same_id;
  same_parent = a.same_parent;
  recorded = ap (λ rs. rs ++ x.1 ∷ []) a.recorded;
  same_root = a.same_root;
}

pub admit-Admitted :
    (host : Host) (s : BrokerState) (r : LeaseRequest) (sampled : Pressure × BrokerState)
    (t : BrokerState × Reply)
    → admit host s r sampled ≡ ok t
    → Admitted sampled.1 r t
unfolding admit
admit-Admitted host s r (sample, sampled) t h =
    let (memory, m, h1) = bind_passed (admission_memory sampled r) _ h in
    let (result, decided, h2) =
      bind_passed (decide host sampled r (refusal sample r.worker_class memory.0 memory.1 host.now))
        _ h1 in
    let same : commit result ≡ t = cc h2 in
    subst (Admitted sampled r) same
      (commit-Admitted sampled r result (decide-Answers host sampled r _ result decided))

-- The pressure sample touches neither the replies nor the leases nor the root.
pub pressure_keeps :
    (current supplied : Option Pressure) (s : BrokerState)
    → ((pressure current s supplied).1.requests ≡ s.requests)
      × ((pressure current s supplied).1.leases ≡ s.leases)
      × ((pressure current s supplied).1.root ≡ s.root)
unfolding pressure
pressure_keeps current (some p) s = (refl, refl, refl)
pressure_keeps none none s = (refl, refl, refl)
pressure_keeps (some raw) none s = (refl, refl, refl)

-- A reservation that returned is returned again, whatever the host and the sample are by then,
-- and the ledger is left as it is.
pub reserve_again :
    (host host' : Host) (s : BrokerState) (r : LeaseRequest) (supplied supplied' : Option Pressure)
    (t : BrokerState) (reply : Reply)
    → reserve host s r supplied ≡ ok (t, reply)
    → reserve host' t r supplied' ≡ ok (t, reply)
unfolding reserve
reserve_again host host' s r supplied supplied' t reply h =
    elim (Option-cases (find_reply r.request_id s.requests)) [
      | inl e ↦
          let a =
            admit-Admitted host s r (pressure host.current s supplied) (t, reply)
              (rw (e, reserve) at h) in
          let kept = (pressure_keeps host.current supplied s).0 in
          let found : find_reply r.request_id t.requests ≡ some reply =
            rw (a.recorded, kept) (find_reply-append r.request_id s.requests reply e a.same_id) in
          rw (reserve, found, a.same_parent, beq_refl r.parent)
      | inr (prior, e) ↦ elim (Bool-cases (prior.parent == r.parent)) [
        | inl same ↦
            let kept : ◌≡◌ {A = BrokerState × Reply} (s, prior) (t, reply) =
              cc (rw (e, reserve, same) at h) in
            ground arith
        | inr other ↦ cc (rw (e, reserve, other) at h)
      ]
    ]
