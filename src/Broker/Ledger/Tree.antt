-- ===== src/Broker/Ledger/Tree.antt =====
-- The ledger as a tree of budgets: what holds of it between two operations, and how appending and
-- replacing a lease act on its lookups and sums.
use switchstand.Broker.Pressure.{Sample}
use switchstand.Broker.Budget.{Dimension, add, amount, amount-add, high_mib}
use switchstand.Broker.Ledger.{
  Reply, active_lease, BrokerState, Lease, find_lease, is_active, is_child_of, used,
}
use switchstand.Base.{
  ap, ◌∙◌, Option-cases, Option, ok, some_inj, All, Bool-cases, List, String, [], arith, beq_refl,
  false, if◌then◌else◌, inl, inr, none, refl, some, str_iff, string_eq, subst, true, ℕ, ◌++◌, ◌+◌,
  ◌==◌, ◌∷◌, ◌≡◌, ◌≤◌, ◌⊎◌,
}

-- one dimension of what the active children of a parent use
abbrev pub spent : Dimension → String → List Lease → ℕ
spent d parent ls = amount d (used parent ls)

abbrev pub share : Dimension → String → Lease → ℕ
share d parent l = if is_child_of parent l then amount d l.total else 0

-- An active lease leaves its children within its child budget.
abbrev pub LeaseFits : List Lease → Lease → Type 0
LeaseFits ls l =
    (is_active l ≡ false) ⊎ ((d : Dimension) → spent d l.lease_id ls ≤ amount d l.children)

-- An active lease hangs under the root or under an active lease.
abbrev pub HasParent : List Lease → Lease → Type 0
HasParent ls l =
    (is_active l ≡ false)
    ⊎ (l.parent ≡ "root")
    ⊎ ((p : Lease) × (find_lease l.parent ls ≡ some p) × (is_active p ≡ true))

abbrev pub IsFound : List Lease → Lease → Type 0
IsFound ls l = find_lease l.lease_id ls ≡ some l

abbrev pub IsTotal : Lease → Type 0
IsTotal l = l.total ≡ add l.own l.children

pub record WellFormed (s : BrokerState) : Type 0 where
  pub root_fits : (d : Dimension) → spent d "root" s.leases ≤ amount d s.root
  pub leases_fit : All (LeaseFits s.leases) s.leases
  pub parents : All (HasParent s.leases) s.leases
  pub found : All (IsFound s.leases) s.leases
  pub totals : All IsTotal s.leases
  pub unrooted : find_lease "root" s.leases ≡ none

pub spent-cons :
    (d : Dimension) (p : String) (l : Lease) (ls : List Lease)
    → spent d p (l ∷ ls) ≡ share d p l + spent d p ls
unfolding used
spent-cons d p l ls = elim (Bool-cases (is_child_of p l)) [
  | inl e ↦ rw e (amount-add d l.total (used p ls))
  | inr e ↦ rw e (omega arith)
]

spent-nil : (d : Dimension) (p : String) → spent d p [] ≡ 0
unfolding used
spent-nil high_mib p = refl
spent-nil _ p = refl

pub spent-append :
    (d : Dimension) (p : String) (ls : List Lease) (n : Lease)
    → spent d p (ls ++ n ∷ []) ≡ spent d p ls + share d p n
spent-append d p [] n = omega (arith, spent-cons d p n [], spent-nil d p)
spent-append d p (l ∷ ls) n =
    omega (arith, spent-cons d p l (ls ++ n ∷ []), spent-cons d p l ls, spent-append d p ls n)

pub find-append_old :
    (id : String) (ls : List Lease) (n l : Lease)
    → find_lease id ls ≡ some l
    → find_lease id (ls ++ n ∷ []) ≡ some l
unfolding find_lease
find-append_old id [] n l h = cc
find-append_old id (m ∷ ls) n l h = ground (arith, find-append_old id ls n l)

pub find-append_new :
    (ls : List Lease) (n : Lease)
    → find_lease n.lease_id ls ≡ none
    → find_lease n.lease_id (ls ++ n ∷ []) ≡ some n
unfolding find_lease
find-append_new [] n h = rw (beq_refl n.lease_id)
find-append_new (m ∷ ls) n h = ground (arith, find-append_new ls n)

pub find-append_ne :
    (id : String) (ls : List Lease) (n : Lease)
    → find_lease id ls ≡ none
    → (n.lease_id == id) ≡ false
    → find_lease id (ls ++ n ∷ []) ≡ none
unfolding find_lease
find-append_ne id [] n h e = rw e
find-append_ne id (m ∷ ls) n h e = ground (arith, find-append_ne id ls n)

pub find-id :
    (id : String) (ls : List Lease) (l : Lease) → find_lease id ls ≡ some l → l.lease_id ≡ id
unfolding find_lease
find-id id [] l h = cc
find-id id (m ∷ ls) l h = ground (arith, find-id id ls l, str_iff m.lease_id id)

pub All-find {κ} :
    (P : Lease → Type κ) (id : String) (ls : List Lease) (l : Lease)
    → All P ls
    → find_lease id ls ≡ some l
    → P l
unfolding find_lease
All-find P id [] l a h = cc
All-find P id (m ∷ ls) l a h = elim (Bool-cases (m.lease_id == id)) [
  | inl e ↦ subst P (some_inj (rw e at h)) a.0
  | inr e ↦ All-find P id ls l a.1 (rw e at h)
]

pub All-snoc {ℓ κ} :
    {A : Type ℓ} (P : A → Type κ) (xs : List A) (x : A) → All P xs → P x → All P (xs ++ x ∷ [])
All-snoc P [] x h p = (p, tt)
All-snoc P (y ∷ xs) x h p = (h.0, All-snoc P xs x h.1 p)

-- Both facts about each element.
pub All-zip {ℓ κ μ} :
    {A : Type ℓ} (P : A → Type κ) (Q : A → Type μ) (xs : List A)
    → All P xs
    → All Q xs
    → All (λ x. P x × Q x) xs
All-zip P Q [] h k = tt
All-zip P Q (x ∷ xs) h k = ((h.0, k.0), All-zip P Q xs h.1 k.1)

pub spent_of_none :
    (d : Dimension) (p : String) (ls : List Lease)
    → All (λ l. is_child_of p l ≡ false) ls
    → spent d p ls ≡ 0
spent_of_none d p [] a = spent-nil d p
spent_of_none d p (l ∷ ls) a = rw spent-cons (rw (a.0) (omega (arith, spent_of_none d p ls a.1)))

-- What a lookup of an active lease gives.
pub active_lease_found :
    (s : BrokerState) (id : String) (l : Lease)
    → active_lease s id ≡ ok l
    → (find_lease id s.leases ≡ some l) × (is_active l ≡ true)
unfolding active_lease
active_lease_found s id l h = elim (Option-cases (find_lease id s.leases)) [
  | inl e ↦ cc (rw (e, active_lease) at h)
  | inr (m, e) ↦ elim (Bool-cases (is_active m)) [
    | inl a ↦
        let same : m ≡ l = cc (rw (e, active_lease, a) at h) in
        (e ∙ ap some same, subst (λ x. is_active x ≡ true) same a)
    | inr a ↦ cc (rw (e, active_lease, a) at h)
  ]
]

-- The replies and the pressure sample do not matter.
pub WellFormed-reframe :
    (s : BrokerState) (requests : List Reply) (sample : Option Sample)
    → WellFormed s
    → WellFormed (record s { requests = requests; pressure_sample = sample })
WellFormed-reframe s requests sample w = record {
  root_fits = w.root_fits;
  leases_fit = w.leases_fit;
  parents = w.parents;
  found = w.found;
  totals = w.totals;
  unrooted = w.unrooted;
}
