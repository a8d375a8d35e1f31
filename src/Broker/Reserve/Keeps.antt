-- ===== src/Broker/Reserve/Keeps.antt =====
-- Admission keeps the ledger well formed.
use switchstand.Broker.Reserve.Placed.{Placed, placed-WellFormed}
use switchstand.Broker.Budget.{
  Budget, Dimension, add, amount, amount-add, amount-le_of_fits, class_budget, fits,
}
use switchstand.Broker.Ledger.{
  BrokerState, Lease, Reply, active_lease, find_lease, find_reply, is_active, used,
}
use switchstand.Broker.Ledger.Tree.{WellFormed, WellFormed-reframe, active_lease_found, spent}
use switchstand.Broker.Pressure.{Pressure, Refusal, refusal}
use switchstand.Broker.Reserve.{
  Host, LeaseRequest, admission_memory, admit, child_budget, commit, decide, limit_of, new_lease,
  place, pressure, refuse, reserve, reserve_lease,
}
use switchstand.Base.{
  Bool, Bool-cases, Option, Option-cases, String, ap, arith, bind_passed, false, forbid_passed, inl,
  inr, is_some, none, ok, refl, some, some_inj, str_iff, string_eq, subst, sym, true, ◌+◌, ◌==◌,
  ◌||◌, ◌∙◌, ◌≡◌, ◌≢◌, ◌≤◌, ◌⊎◌,
}

-- The limit is the root's, or that of an active lease.
limit_cases :
    (s : BrokerState) (parent : String) (limit : Budget)
    → limit_of s parent ≡ ok limit
    → ((parent ≡ "root") × (limit ≡ s.root))
      ⊎ ((p : Lease) × (find_lease parent s.leases ≡ some p)
          × (is_active p ≡ true)
          × (limit ≡ p.children))
unfolding limit_of
limit_cases s parent limit h = elim (Bool-cases (parent == "root")) [
  | inl e ↦ inl ((str_iff parent "root").0 e, cc (rw e at h))
  | inr e ↦
      let (p, looked, same) = bind_passed (active_lease s parent) _ (rw e at h) in
      let (found, active) = active_lease_found s parent p looked in inr (p, found, active, cc same)
]

unrooted_ne :
    (s : BrokerState) (w : WellFormed s) (p : Lease) (parent : String)
    → find_lease parent s.leases ≡ some p
    → parent ≢ "root"
unrooted_ne s w p parent found e =
    cc (w.unrooted, subst (λ id. find_lease id s.leases ≡ some p) e found)

fits_room :
    (d : Dimension) (a b limit : Budget)
    → fits (add a b) limit ≡ true
    → amount d a + amount d b ≤ amount d limit
fits_room d a b limit h = omega (arith, amount-add d a b, amount-le_of_fits d (add a b) limit h)

make_Placed :
    (host : Host) (s : BrokerState) (r : LeaseRequest) (limit : Budget)
    → WellFormed s
    → find_lease r.worker s.leases ≡ none
    → (r.worker == "root") ≡ false
    → limit_of s r.parent ≡ ok limit
    → fits (add (used r.parent s.leases) (add (class_budget r.worker_class) r.children)) limit
      ≡ true
    → Placed s (new_lease host r)
unfolding new_lease
make_Placed host s r limit w fresh not_root limited fit =
    elim (limit_cases s r.parent limit limited) [
      | inl (root, same) ↦ record {
        fresh = fresh;
        not_root = not_root;
        active = refl;
        total = refl;
        parent = inr (inl root);
        under_root = λ e d.
            subst
              (λ b.
                spent d "root" s.leases + amount d (add (class_budget r.worker_class) r.children)
                ≤ amount d b)
              same
              (subst
                (λ q.
                  spent d q s.leases + amount d (add (class_budget r.worker_class) r.children)
                  ≤ amount d limit)
                root (fits_room d (used r.parent s.leases) _ limit fit));
        under_lease = λ p found d. absurd (unrooted_ne s w p r.parent found root);
        parent_known = inl root;
      }
      | inr (p, found, active, same) ↦ record {
        fresh = fresh;
        not_root = not_root;
        active = refl;
        total = refl;
        parent = inr (inr (p, found, active));
        under_root = λ e d. absurd (unrooted_ne s w p r.parent found e);
        under_lease = λ q found' d.
            subst
              (λ b.
                spent d r.parent s.leases + amount d (add (class_budget r.worker_class) r.children)
                ≤ amount d b)
              (same ∙ ap (λ l. l.children) (some_inj (sym found ∙ found')))
              (fits_room d (used r.parent s.leases) _ limit fit);
        parent_known = inr (p, found);
      }
    ]

place-WellFormed :
    (host : Host) (s : BrokerState) (r : LeaseRequest) (limit : Budget)
    → WellFormed s
    → find_lease r.worker s.leases ≡ none
    → (r.worker == "root") ≡ false
    → limit_of s r.parent ≡ ok limit
    → WellFormed (place host s r limit).0
unfolding place
place-WellFormed host s r limit w fresh not_root limited =
    elim (Bool-cases
      (fits (add (used r.parent s.leases) (add (class_budget r.worker_class) r.children)) limit)) [
        | inl e ↦ rw e (
            placed-WellFormed s w (new_lease host r)
              (make_Placed host s r limit w fresh not_root limited e))
        | inr e ↦ rw e w
      ]

worker_free : (b : Bool) (o : Option Lease) → (b || is_some o) ≡ false → (b ≡ false) × (o ≡ none)
worker_free b o h = ground arith

reserve_lease-WellFormed :
    (host : Host) (s : BrokerState) (r : LeaseRequest) (t : BrokerState × Reply)
    → WellFormed s
    → reserve_lease host s r ≡ ok t
    → WellFormed t.0
unfolding reserve_lease
reserve_lease-WellFormed host s r t w h =
    let (free, h1) =
      forbid_passed (r.worker == "root" || is_some (find_lease r.worker s.leases)) _ _ t h in
    let (children, valid, h2) = bind_passed (child_budget r.children) _ h1 in
    let (limit, limited, h3) = bind_passed (limit_of s r.parent) _ h2 in
    let (not_root, fresh) = worker_free (r.worker == "root") (find_lease r.worker s.leases) free in
    let same : place host s r limit ≡ t = cc h3 in
    subst (λ x. WellFormed (x.0)) same (place-WellFormed host s r limit w fresh not_root limited)

decide-WellFormed :
    (host : Host) (s : BrokerState) (r : LeaseRequest) (o : Option Refusal)
    (t : BrokerState × Reply)
    → WellFormed s
    → decide host s r o ≡ ok t
    → WellFormed t.0
unfolding decide
decide-WellFormed host s r none t w h = reserve_lease-WellFormed host s r t w h
decide-WellFormed host s r (some reason) t w h =
    let same : (s, refuse r reason) ≡ t = cc h in subst (λ x. WellFormed (x.0)) same w

pressure-WellFormed :
    (current supplied : Option Pressure) (s : BrokerState)
    → WellFormed s
    → WellFormed (pressure current s supplied).1
unfolding pressure
pressure-WellFormed current (some p) s w = w
pressure-WellFormed none none s w = w
pressure-WellFormed (some raw) none s w = WellFormed-reframe s s.requests _ w

admit-WellFormed :
    (host : Host) (s : BrokerState) (r : LeaseRequest) (sampled : Pressure × BrokerState)
    (t : BrokerState × Reply)
    → WellFormed sampled.1
    → admit host s r sampled ≡ ok t
    → WellFormed t.0
unfolding admit
admit-WellFormed host s r (sample, sampled) t w h =
    let (memory, m, h1) = bind_passed (admission_memory sampled r) _ h in
    let (result, decided, h2) =
      bind_passed (decide host sampled r (refusal sample r.worker_class memory.0 memory.1 host.now))
        _ h1 in
    let kept = decide-WellFormed host sampled r _ result w decided in
    let same : commit result ≡ t = cc h2 in
    subst (λ x. WellFormed (x.0)) same (WellFormed-reframe result.0 _ result.0.pressure_sample kept)

-- A reservation, refused or granted, keeps the ledger well formed, whatever the pressure sample.
pub reserve-WellFormed :
    (host : Host) (s : BrokerState) (r : LeaseRequest) (supplied : Option Pressure)
    (t : BrokerState × Reply)
    → WellFormed s
    → reserve host s r supplied ≡ ok t
    → WellFormed t.0
unfolding reserve
reserve-WellFormed host s r supplied t w h =
    elim (Option-cases (find_reply r.request_id s.requests)) [
      | inl e ↦
          admit-WellFormed host s r (pressure host.current s supplied) t
            (pressure-WellFormed host.current supplied s w) (rw (e, reserve) at h)
      | inr (prior, e) ↦ elim (Bool-cases (prior.parent == r.parent)) [
        | inl same ↦
            let kept : ◌≡◌ {A = BrokerState × Reply} (s, prior) t =
              cc (rw (e, reserve, same) at h) in
            subst {A = BrokerState × Reply} (λ x. WellFormed (x.0)) kept w
        | inr other ↦ cc (rw (e, reserve, other) at h)
      ]
    ]
