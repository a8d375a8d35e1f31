-- ===== src/Broker/Capacity.antt =====
-- The whole host: what all active workers were given together, at any depth of the tree.
use switchstand.Broker.Lifecycle.{Reachable-root}
use switchstand.Broker.Steps.{Reachable-WellFormed, Reachable}
use switchstand.Broker.Budget.{Budget, Dimension, amount, amount-add}
use switchstand.Broker.Ledger.{BrokerState, Lease, find_lease, is_active}
use switchstand.Broker.Ledger.Tree.{find-id, spent-cons, share, HasParent, WellFormed, spent}
use switchstand.Base.{
  beq_refl, All, All-mono, Bool-cases, List, String, [], ap, arith, false, if◌then◌else◌, inl, inr,
  refl, some, some_inj, string_eq, subst, sym, true, ℕ, ◌+◌, ◌==◌, ◌∙◌, ◌∷◌, ◌≡◌, ◌≤◌, ◌⊎◌,
}

-- the sum over the active leases
unfoldable pub active_sum : (Lease → ℕ) → List Lease → ℕ
active_sum f [] = 0
active_sum f (l ∷ ls) = let rest = active_sum f ls in if is_active l then f l + rest else rest

-- the own budgets of the active leases, in one dimension
unfoldable pub granted_total : Dimension → List Lease → ℕ
granted_total d ls = active_sum (λ l. amount d l.own) ls

active_sum_mono :
    (f g : Lease → ℕ) (ls : List Lease)
    → All (λ l. (is_active l ≡ false) ⊎ (f l ≤ g l)) ls
    → active_sum f ls ≤ active_sum g ls
unfolding active_sum
active_sum_mono f g [] a = omega arith
active_sum_mono f g (l ∷ ls) a = ground (arith, active_sum_mono f g ls (a.1), a.0)

active_sum-plus :
    (f g h : Lease → ℕ) (ls : List Lease)
    → All (λ l. h l ≡ f l + g l) ls
    → active_sum h ls ≡ active_sum f ls + active_sum g ls
unfolding active_sum
active_sum-plus f g h [] a = refl
active_sum-plus f g h (l ∷ ls) a = ground (arith, active_sum-plus f g h ls (a.1), a.0)

active_sum-found :
    (f : Lease → ℕ) (id : String) (ls : List Lease) (p : Lease)
    → find_lease id ls ≡ some p
    → is_active p ≡ true
    → f p ≤ active_sum f ls
unfolding active_sum find_lease
active_sum-found f id [] p found active = cc
active_sum-found f id (m ∷ ls) p found active = elim (Bool-cases (m.lease_id == id)) [
  | inl e ↦
      let same : m ≡ p = some_inj (rw e at found) in
      subst (λ q. f q ≤ active_sum f (m ∷ ls)) same
        (rw (subst (λ q. is_active q ≡ true) (sym same) active) (omega arith))
  | inr e ↦
      let rest = active_sum-found f id ls p (rw e at found) active in
      elim (Bool-cases (is_active m)) [ inl a ↦ rw a (omega (arith, rest)) | inr a ↦ rw a rest ]
]

every : {P : Lease → Type 0} (ls : List Lease) → ((l : Lease) → P l) → All P ls
every [] f = tt
every (l ∷ ls) f = (f l, every ls f)

own_share :
    (d : Dimension) (all_leases : List Lease) (l : Lease)
    → is_active l ≡ true
    → HasParent all_leases l
    → amount d l.total ≤ share d "root" l + active_sum (λ m. share d m.lease_id l) all_leases
own_share d all_leases l active (inl idle) = cc
own_share d all_leases l active (inr (inl root)) = rw (active, root) (omega arith)
own_share d all_leases l active (inr (inr (p, found, live))) =
    let counted = active_sum-found (λ m. share d m.lease_id l) l.parent all_leases p found live in
    let below : amount d l.total ≤ share d p.lease_id l =
      rw (active, find-id l.parent all_leases p found, beq_refl l.parent) (omega arith) in
    omega (arith, counted, below)

-- Each active lease is counted below the root or below an active lease.
counted_once :
    (d : Dimension) (all_leases ls : List Lease)
    → All (HasParent all_leases) ls
    → active_sum (λ l. amount d l.total) ls
      ≤ spent d "root" ls + active_sum (λ m. spent d m.lease_id ls) all_leases
unfolding active_sum
counted_once d all_leases [] a = omega arith
counted_once d all_leases (l ∷ ls) a =
    let rest = counted_once d all_leases ls a.1 in
    let split =
      active_sum-plus (λ m. share d m.lease_id l) (λ m. spent d m.lease_id ls)
        (λ m. spent d m.lease_id (l ∷ ls)) all_leases
        (every all_leases λ m. spent-cons d m.lease_id l ls) in
    elim (Bool-cases (is_active l)) [
      | inl active ↦ rw active (
          omega (arith, rest, split, spent-cons d "root" l ls, own_share d all_leases l active a.0))
      | inr idle ↦ rw idle (omega (arith, rest, split, spent-cons d "root" l ls))
    ]

-- What the active leases were given together, whatever their depth, fits the root budget in
-- every dimension of a well-formed ledger.
pub granted_total_le :
    (d : Dimension) (s : BrokerState) → WellFormed s → granted_total d s.leases ≤ amount d s.root
unfolding granted_total
granted_total_le d s w =
    let split =
      active_sum-plus (λ l. amount d l.own) (λ l. amount d l.children) (λ l. amount d l.total)
        s.leases
        (All-mono (λ l t. ap (amount d) t ∙ amount-add d l.own l.children) s.leases w.totals) in
    let below =
      active_sum_mono (λ m. spent d m.lease_id s.leases) (λ l. amount d l.children) s.leases
        (All-mono (λ l fit. elim fit [ inl idle ↦ inl idle | inr f ↦ inr (f d) ]) s.leases
          w.leases_fit) in
    omega (arith, split, below, counted_once d s.leases s.leases w.parents, w.root_fits d)

-- Whatever was requested, attached, claimed and released since the broker was initialised, the
-- own budgets of all the active workers of the host together stay within the root budget, in
-- each of its seven dimensions.
pub Reachable-granted_total_le :
    {budget : Budget} {s : BrokerState} (d : Dimension)
    → Reachable budget s
    → granted_total d s.leases ≤ amount d budget
Reachable-granted_total_le {budget} {s} d r =
    subst (λ b. granted_total d s.leases ≤ amount d b) (Reachable-root r)
      (granted_total_le d s (Reachable-WellFormed r))
