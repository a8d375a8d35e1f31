-- ===== src/Broker/Ledger/Replace.antt =====
-- How replacing a lease acts on lookups, sums and the invariant.
use switchstand.Broker.Ledger.{
  is_child_of, has_active_children, is_active, BrokerState, Lease, find_lease, replace_lease,
}
use switchstand.Broker.Ledger.Tree.{
  IsTotal, IsFound, All-zip, All-find, HasParent, LeaseFits, WellFormed, share, spent, spent-cons,
}
use switchstand.Base.{
  ap₂, subst, ◌∙◌, if◌then◌else◌, sym, some_inj, ℕ, All-mono, ◌⊎◌, Bool, any, ap, string_eq, All,
  Bool-cases, List, String, [], arith, beq_refl, false, inl, inr, none, refl, some, str_iff, true,
  ◌==◌, ◌∷◌, ◌≡◌, ◌≤◌,
}
use switchstand.Broker.Budget.{add, amount, Budget, Dimension}

-- The new lease has the id, parent and budgets of the old one.
pub record SamePlace (l new : Lease) : Type 0 where
  pub lease_id : new.lease_id ≡ l.lease_id
  pub parent : new.parent ≡ l.parent
  pub own : new.own ≡ l.own
  pub children : new.children ≡ l.children
  pub total : new.total ≡ l.total

-- A lookup after a replacement.
pub find-replace_ne :
    (id : String) (ls : List Lease) (new : Lease)
    → (new.lease_id == id) ≡ false
    → find_lease id (replace_lease new ls) ≡ find_lease id ls
unfolding find_lease replace_lease
find-replace_ne id [] new h = refl
find-replace_ne id (m ∷ ls) new h =
    ground (arith, find-replace_ne id ls new, str_iff m.lease_id new.lease_id)

pub find-replace_self :
    (ls : List Lease) (new l : Lease)
    → find_lease new.lease_id ls ≡ some l
    → find_lease new.lease_id (replace_lease new ls) ≡ some new
unfolding find_lease replace_lease
find-replace_self [] new l h = cc
find-replace_self (m ∷ ls) new l h =
    ground (arith, find-replace_self ls new l, beq_refl new.lease_id)

pub find-replace_none :
    (id : String) (ls : List Lease) (new : Lease)
    → find_lease id ls ≡ none
    → find_lease id (replace_lease new ls) ≡ none
unfolding find_lease replace_lease
find-replace_none id [] new h = refl
find-replace_none id (m ∷ ls) new h =
    ground (arith, find-replace_none id ls new, str_iff m.lease_id new.lease_id)

-- What holds of the new lease and of the leases with another id holds of all after a replacement.
pub All-replace {κ} :
    (P Q : Lease → Type κ) (new : Lease) (ls : List Lease)
    → ((m : Lease) → (m.lease_id == new.lease_id) ≡ false → P m → Q m)
    → Q new
    → All P ls
    → All Q (replace_lease new ls)
unfolding replace_lease
All-replace P Q new [] f q a = tt
All-replace P Q new (m ∷ ls) f q a = elim (Bool-cases (m.lease_id == new.lease_id)) [
  | inl e ↦ rw e (q, All-replace P Q new ls f q a.1)
  | inr e ↦ rw e (f m e a.0, All-replace P Q new ls f q a.1)
]

-- A replacement that takes no larger share leaves no larger sum.
pub spent-replace-le :
    (d : Dimension) (p : String) (new l : Lease) (ls : List Lease)
    → share d p new ≤ share d p l
    → All (λ m. (m.lease_id == new.lease_id) ≡ true → m ≡ l) ls
    → spent d p (replace_lease new ls) ≤ spent d p ls
unfolding replace_lease
spent-replace-le d p new l [] h a = omega arith
spent-replace-le d p new l (m ∷ ls) h a = elim (Bool-cases (m.lease_id == new.lease_id)) [
  | inl e ↦
      let same = ap (share d p) (a.0 e) in
      rw (spent-cons d p m ls, spent-cons d p _ (replace_lease new ls), e)
        (omega (arith, h, same, spent-replace-le d p new l ls h a.1))
  | inr e ↦
      rw (spent-cons d p m ls, spent-cons d p _ (replace_lease new ls), e)
        (omega (arith, spent-replace-le d p new l ls h a.1))
]

pub any-false {ℓ} :
    {A : Type ℓ} (p : A → Bool) (xs : List A) → any p xs ≡ false → All (λ x. p x ≡ false) xs
unfolding any
any-false p [] h = tt
any-false p (x ∷ xs) h = (ground arith, any-false p xs (ground arith))

module _ (s : BrokerState) (w : WellFormed s) (l new : Lease) (same : SamePlace l new)
    (held : find_lease new.lease_id s.leases ≡ some l) (busy : is_active l ≡ true)
    (ended : (is_active new ≡ true)
      ⊎ ((is_active new ≡ false) × (has_active_children new.lease_id s.leases ≡ false))) where
  only : All (λ m. (m.lease_id == new.lease_id) ≡ true → m ≡ l) s.leases
  only =
      All-mono
        (λ m f e. some_inj (sym f ∙ ap (λ id. find_lease id s.leases) ((str_iff _ _).0 e) ∙ held))
        s.leases w.found

  share_le : (d : Dimension) (p : String) → share d p new ≤ share d p l
  share_le d p = elim ended [
    | inl active ↦ rw (active, busy, same.parent) (ap_le (amount d) (l.parent == p) same.total)
    | inr (idle, none_left) ↦ rw idle (omega arith)
  ]
    where
      ap_le :
          (f : Budget → ℕ) (b : Bool) {x y : Budget}
          → x ≡ y
          → (if b then f x else 0) ≤ (if b then f y else 0)
      ap_le f b e = rw e (omega arith)

  spent_le :
      (d : Dimension) (p : String) → spent d p (replace_lease new s.leases) ≤ spent d p s.leases
  spent_le d p = spent-replace-le d p new l s.leases (share_le d p) only

  fits_after :
      (m : Lease)
      → (m.lease_id == new.lease_id) ≡ false
      → LeaseFits s.leases m
      → LeaseFits (replace_lease new s.leases) m
  fits_after m e (inl idle) = inl idle
  fits_after m e (inr fit) = inr λ d. omega (arith, fit d, spent_le d m.lease_id)

  fits_new : LeaseFits s.leases l → LeaseFits (replace_lease new s.leases) new
  fits_new (inl idle) = cc (busy, idle)
  fits_new (inr fit) = inr λ d.
      omega (
        arith,
        rw (← same.lease_id) at (fit d),
        spent_le d new.lease_id,
        ap (amount d) same.children,
      )

  parent_after :
      (q : String) (p : Lease)
      → find_lease q s.leases ≡ some p
      → is_active p ≡ true
      → (is_active new ≡ true) ⊎ ((new.lease_id == q) ≡ false)
      → (p' : Lease) × (find_lease q (replace_lease new s.leases) ≡ some p') × (is_active p' ≡ true)
  parent_after q p f a keep = elim (Bool-cases (new.lease_id == q)) [
    | inr e ↦ (p, find-replace_ne q s.leases new e ∙ f, a)
    | inl e ↦ elim keep [
      | inl active ↦ (
        new,
        subst (λ id. find_lease id (replace_lease new s.leases) ≡ some new)
            ((str_iff new.lease_id q).0 e) (find-replace_self s.leases new l held),
        active,
      )
      | inr ne ↦ cc (e, ne)
    ]
  ]

  parent_kept :
      (m : Lease)
      → HasParent s.leases m
      → (is_active new ≡ true) ⊎ (is_child_of new.lease_id m ≡ false)
      → HasParent (replace_lease new s.leases) m
  parent_kept m (inl idle) keep = inl idle
  parent_kept m (inr (inl root)) keep = inr (inl root)
  parent_kept m (inr (inr (p, f, a))) keep = elim (Bool-cases (is_active m)) [
    | inr idle ↦ inl idle
    | inl active ↦ inr (
        inr (
          parent_after m.parent p f a
            (ground (arith, keep, str_iff m.parent new.lease_id, str_iff new.lease_id m.parent))))
  ]

  no_children : All (λ m. (is_active new ≡ true) ⊎ (is_child_of new.lease_id m ≡ false)) s.leases
  unfolding has_active_children
  no_children = elim ended [
    | inl active ↦ All-mono (λ m f. inl active) s.leases w.found
    | inr (idle, none_left) ↦
        All-mono (λ m e. inr e) s.leases (any-false (is_child_of new.lease_id) s.leases none_left)
  ]

  new_parent : HasParent (replace_lease new s.leases) new
  new_parent = elim ended [
    | inr (idle, none_left) ↦ inl idle
    | inl active ↦
        moved
          (parent_kept l (All-find (HasParent s.leases) _ s.leases l w.parents held) (inl active))
  ]
    where
      moved : HasParent (replace_lease new s.leases) l → HasParent (replace_lease new s.leases) new
      moved (inl idle) = cc (busy, idle)
      moved (inr (inl root)) = inr (inl (same.parent ∙ root))
      moved (inr (inr (p, f, a))) =
          inr (inr (p, ap (λ id. find_lease id (replace_lease new s.leases)) same.parent ∙ f, a))

  -- The ledger stays well formed when a lease is replaced by an active lease in the same place, or
  -- by an inactive one that leaves no active child.
  pub replace-WellFormed : WellFormed (record s { leases = replace_lease new s.leases })
  replace-WellFormed = record {
    root_fits = λ d. omega (arith, w.root_fits d, spent_le d "root");
    leases_fit =
        All-replace (LeaseFits s.leases) (LeaseFits (replace_lease new s.leases)) new s.leases
          fits_after (fits_new (All-find (LeaseFits s.leases) _ s.leases l w.leases_fit held))
          w.leases_fit;
    parents =
        All-replace
          (λ m.
            HasParent s.leases m × ((is_active new ≡ true) ⊎ (is_child_of new.lease_id m ≡ false)))
          (HasParent (replace_lease new s.leases)) new s.leases (λ m e h. parent_kept m h.0 h.1)
          new_parent (All-zip (HasParent s.leases) _ s.leases w.parents no_children);
    found =
        All-replace (IsFound s.leases) (IsFound (replace_lease new s.leases)) new s.leases
          (λ m e f.
            find-replace_ne m.lease_id s.leases new
              (ground (arith, e, str_iff m.lease_id new.lease_id, str_iff new.lease_id m.lease_id))
            ∙ f)
          (find-replace_self s.leases new l held) w.found;
    totals =
        All-replace IsTotal IsTotal new s.leases (λ m e t. t)
          (same.total
            ∙ All-find IsTotal _ s.leases l w.totals held
            ∙ ap₂ add (sym same.own) (sym same.children))
          w.totals;
    unrooted = find-replace_none "root" s.leases new w.unrooted;
  }
