-- ===== src/Broker/Reserve/Placed.antt =====
-- A lease that is put beside the others keeps the ledger well formed.
use switchstand.Broker.Budget.{Dimension, amount}
use switchstand.Broker.Ledger.{BrokerState, Lease, find_lease, is_active, is_child_of}
use switchstand.Base.{
  All-mono, Bool-cases, [], and_parts, arith, false, inl, inr, none, some, str_iff, string_eq, true,
  ◌++◌, ◌+◌, ◌==◌, ◌∷◌, ◌≡◌, ◌≤◌, ◌⊎◌,
}
use switchstand.Broker.Ledger.Tree.{
  All-snoc, All-zip, HasParent, IsFound, IsTotal, LeaseFits, WellFormed, find-append_ne,
  find-append_new, find-append_old, share, spent, spent-append, spent_of_none,
}

-- Facts on the lease that `reserve_lease` adds.
pub record Placed (s : BrokerState) (n : Lease) : Type 0 where
  pub fresh : find_lease n.lease_id s.leases ≡ none
  pub not_root : (n.lease_id == "root") ≡ false
  pub active : is_active n ≡ true
  pub total : IsTotal n
  pub parent : HasParent s.leases n
  pub under_root :
      n.parent ≡ "root"
      → (d : Dimension) → spent d "root" s.leases + amount d n.total ≤ amount d s.root
  pub under_lease :
      (p : Lease)
      → find_lease n.parent s.leases ≡ some p
      → (d : Dimension) → spent d n.parent s.leases + amount d n.total ≤ amount d p.children
  pub parent_known : (n.parent ≡ "root") ⊎ ((p : Lease) × (find_lease n.parent s.leases ≡ some p))

module _ (s : BrokerState) (w : WellFormed s) (n : Lease) (placed : Placed s n) where
  share_root : (d : Dimension) → spent d "root" s.leases + share d "root" n ≤ amount d s.root
  share_root d = elim (Bool-cases (is_child_of "root" n)) [
    | inl e ↦
        rw e (placed.under_root ((str_iff n.parent "root").0 (and_parts (is_active n) _ e).1) d)
    | inr e ↦ rw e (omega (arith, w.root_fits d))
  ]

  share_lease :
      (l : Lease)
      → find_lease l.lease_id s.leases ≡ some l
      → (d : Dimension) → spent d l.lease_id s.leases ≤ amount d l.children
      → spent d l.lease_id s.leases + share d l.lease_id n ≤ amount d l.children
  share_lease l found d fit = elim (Bool-cases (is_child_of l.lease_id n)) [
    | inl e ↦
        let same = (str_iff n.parent l.lease_id).0 (and_parts (is_active n) _ e).1 in
        rw e (rw same at (placed.under_lease l (rw same found) d))
    | inr e ↦ rw e (omega (arith, fit))
  ]

  keeps_fit :
      (l : Lease) → LeaseFits s.leases l × IsFound s.leases l → LeaseFits (s.leases ++ n ∷ []) l
  keeps_fit l (inl idle, found) = inl idle
  keeps_fit l (inr fit, found) =
      inr λ d. rw (spent-append d l.lease_id s.leases n) (share_lease l found d (fit d))

  keeps_parent : (l : Lease) → HasParent s.leases l → HasParent (s.leases ++ n ∷ []) l
  keeps_parent l (inl idle) = inl idle
  keeps_parent l (inr (inl root)) = inr (inl root)
  keeps_parent l (inr (inr (p, found, active))) =
      inr (inr (p, find-append_old l.parent s.leases n p found, active))

  -- no lease hangs under an id that the ledger does not have
  no_share : (l : Lease) → HasParent s.leases l → is_child_of n.lease_id l ≡ false
  no_share l (inl idle) = rw idle
  no_share l (inr (inl root)) =
      ground (arith, str_iff l.parent n.lease_id, str_iff n.lease_id "root", placed.not_root)
  no_share l (inr (inr (p, found, active))) =
      ground (arith, str_iff l.parent n.lease_id, placed.fresh)

  new_fits : LeaseFits (s.leases ++ n ∷ []) n
  new_fits = inr λ d. rw (spent-append d n.lease_id s.leases n) (
      rw (no_share n placed.parent)
        (omega (arith, spent_of_none d n.lease_id s.leases (All-mono no_share s.leases w.parents))))

  pub placed-WellFormed : WellFormed (record s { leases = s.leases ++ n ∷ [] })
  placed-WellFormed = record {
    root_fits = λ d. rw (spent-append d "root" s.leases n) (share_root d);
    leases_fit =
        All-snoc (LeaseFits (s.leases ++ n ∷ [])) s.leases n
          (All-mono keeps_fit s.leases
            (All-zip (LeaseFits s.leases) (IsFound s.leases) s.leases w.leases_fit w.found))
          new_fits;
    parents =
        All-snoc (HasParent (s.leases ++ n ∷ [])) s.leases n
          (All-mono keeps_parent s.leases w.parents) (keeps_parent n placed.parent);
    found =
        All-snoc (IsFound (s.leases ++ n ∷ [])) s.leases n
          (All-mono (λ l f. find-append_old l.lease_id s.leases n l f) s.leases w.found)
          (find-append_new s.leases n placed.fresh);
    totals = All-snoc IsTotal s.leases n w.totals placed.total;
    unrooted = find-append_ne "root" s.leases n w.unrooted placed.not_root;
  }
