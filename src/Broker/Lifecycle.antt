-- ===== src/Broker/Lifecycle.antt =====
-- The life of a lease over any sequence of operations.
use switchstand.Broker.Release.Proof.{attach_marks}
use switchstand.Broker.Pressure.{Reading}
use switchstand.Broker.Release.{attached, attach_execution, is_reserved, Receipt}
use switchstand.Broker.Reserve.{initialize}
use switchstand.Broker.Budget.{Budget}
use switchstand.Broker.Ledger.Tree.{find-append_old}
use switchstand.Base.{
  ◌≢◌, ok, ℕ, string_eq, Bool-cases, List, String, ap, arith, false, inl, inr, refl, some, some_inj,
  str_iff, subst, sym, true, ◌==◌, ◌∙◌, ◌≡◌,
}
use switchstand.Broker.Ledger.{
  abandoned, completed, cancelled, reserved, active_state, execution_active, BrokerState, Lease,
  LeaseState, find_lease, is_active, replace_lease,
}
use switchstand.Broker.Steps.{
  Reachable, Step, attaches, claims, initial, next, reserves, settles_execution,
  settles_reservation,
}
use switchstand.Broker.Effect.{
  claim_execution-Acts, Acts, Advance, Effect, attach_execution-Acts, attaches_once, ends, gains,
  keeps, moves, reconcile_execution-Acts, reconcile_reservation-Acts, reserve-Acts, stays,
}
use switchstand.Broker.Ledger.Replace.{SamePlace, find-replace_ne, find-replace_self}

-- A sequence of successful operations.
pub data Run (s : BrokerState) : BrokerState → Type 0 where
  at_start : Run s s
  later : {t u : BrokerState} → Run s t → Step t u → Run s u

pub Step-Acts : (s t : BrokerState) → Step s t → Acts s t
Step-Acts s t (reserves host r supplied reply h) = reserve-Acts host s r supplied t reply h
Step-Acts s t (attaches id reservation attempt unit receipt ttl now boot h) =
    attach_execution-Acts s t id reservation attempt unit receipt ttl now boot h
Step-Acts s t (claims id receipt now boot h) = claim_execution-Acts s t id receipt now boot h
Step-Acts s t (settles_execution id reservation attempt unit o boot state outcome idle h) =
    reconcile_execution-Acts s id reservation attempt unit o boot state (t, outcome) idle h
Step-Acts s t (settles_reservation id reservation o boot state outcome idle h) =
    reconcile_reservation-Acts s id reservation o boot state (t, outcome) idle h

SamePlace-refl : (l : Lease) → SamePlace l l
SamePlace-refl l = record {
  lease_id = refl;
  parent = refl;
  own = refl;
  children = refl;
  total = refl;
}

SamePlace-trans : (l m n : Lease) → SamePlace l m → SamePlace m n → SamePlace l n
SamePlace-trans l m n a b = record {
  lease_id = b.lease_id ∙ a.lease_id;
  parent = b.parent ∙ a.parent;
  own = b.own ∙ a.own;
  children = b.children ∙ a.children;
  total = b.total ∙ a.total;
}

Advance-trans : (a b c : LeaseState) → Advance a b → Advance b c → Advance a c
Advance-trans a b c stays k = k
Advance-trans a b c attaches_once stays = attaches_once
Advance-trans a b c attaches_once (ends busy idle) = ends refl idle
Advance-trans a b c (ends busy idle) stays = ends busy idle
Advance-trans a b c (ends busy idle) attaches_once = cc
Advance-trans a b c (ends busy idle) (ends busy' idle') = ends busy idle'

-- a later version of a lease: in its place, and in a state that it can have come to
pub record Later (l new : Lease) : Type 0 where
  pub same_place : SamePlace l new
  pub advance : Advance l.state new.state

Effect-advances :
    (ls after : List Lease) (id : String) (l : Lease)
    → Effect ls after
    → find_lease id ls ≡ some l
    → (new : Lease) × (find_lease id after ≡ some new) × Later l new
Effect-advances ls after id l keeps found =
    (l, found, record { same_place = SamePlace-refl l; advance = stays })
Effect-advances ls after id l (gains n fresh) found =
    (l, find-append_old id ls n l found, record { same_place = SamePlace-refl l; advance = stays })
Effect-advances ls after id l (moves m new held busy same advance) found =
    elim (Bool-cases (new.lease_id == id)) [
      | inl e ↦
          let e' = (str_iff new.lease_id id).0 e in
          let is_m : m ≡ l = some_inj (sym held ∙ ap (λ i. find_lease i ls) e' ∙ found) in
          (
            new,
            subst (λ i. find_lease i (replace_lease new ls) ≡ some new) e'
                (find-replace_self ls new m held),
            subst (λ x. Later x new) is_m (record { same_place = same; advance = advance }),
          )
      | inr e ↦ (
        l,
        find-replace_ne id ls new e ∙ found,
        record { same_place = SamePlace-refl l; advance = stays },
      )
    ]

-- A lease of the ledger is never lost: after any sequence of operations its id names a lease of
-- the same parent and budgets, whose state it reached by advancing.
pub lease_advances :
    (s t : BrokerState) (id : String) (l : Lease)
    → Run s t
    → find_lease id s.leases ≡ some l
    → (new : Lease) × (find_lease id t.leases ≡ some new) × Later l new
lease_advances s t id l at_start found =
    (l, found, record { same_place = SamePlace-refl l; advance = stays })
lease_advances s t id l (later {t = u} run st) found =
    let (m, found_m, to_m) = lease_advances s u id l run found in
    let (n, found_n, to_n) = Effect-advances u.leases t.leases id m (Step-Acts u t st).1 found_m in
    (
      n,
      found_n,
      record {
        same_place = SamePlace-trans l m n to_m.same_place to_n.same_place;
        advance = Advance-trans l.state m.state n.state to_m.advance to_n.advance;
      },
    )

Effect-spares :
    (ls after : List Lease) (id : String) (l : Lease)
    → Effect ls after
    → find_lease id ls ≡ some l
    → is_active l ≡ false
    → find_lease id after ≡ some l
Effect-spares ls after id l keeps found idle = found
Effect-spares ls after id l (gains n fresh) found idle = find-append_old id ls n l found
Effect-spares ls after id l (moves m new held busy same advance) found idle =
    elim (Bool-cases (new.lease_id == id)) [
      | inl e ↦
          let e' = (str_iff new.lease_id id).0 e in
          let is_m : m ≡ l = some_inj (sym held ∙ ap (λ i. find_lease i ls) e' ∙ found) in
          cc (subst (λ x. is_active x ≡ true) is_m busy, idle)
      | inr e ↦ find-replace_ne id ls new e ∙ found
    ]

-- A lease that ended is final: no sequence of operations changes it in any field.
ended_final :
    (s t : BrokerState) (id : String) (l : Lease)
    → Run s t
    → find_lease id s.leases ≡ some l
    → is_active l ≡ false
    → find_lease id t.leases ≡ some l
ended_final s t id l at_start found idle = found
ended_final s t id l (later {t = u} run st) found idle =
    Effect-spares u.leases t.leases id l (Step-Acts u t st).1 (ended_final s u id l run found idle)
      idle

not_again : (a b : LeaseState) → Advance a b → a ≡ execution_active → is_reserved b ≡ false
not_again a b stays e = rw e
not_again a b attaches_once e = refl
not_again a b (ends busy idle) e = ended_b b idle
  where
    ended_b : (b : LeaseState) → active_state b ≡ false → is_reserved b ≡ false
    ended_b reserved h = cc
    ended_b execution_active h = cc
    ended_b completed h = refl
    ended_b cancelled h = refl
    ended_b abandoned h = refl

-- A reservation is bound to one attempt: after a successful attach, and whatever operations
-- follow it, no attach of that lease succeeds.
pub attach_once :
    (s t u v : BrokerState) (id reservation reservation' attempt attempt' unit unit' : String)
    (receipt receipt' : Receipt) (ttl ttl' : Reading) (now now' : ℕ) (boot boot' : String)
    → attach_execution s id reservation attempt unit receipt ttl now boot ≡ ok t
    → Run t u
    → attach_execution u id reservation' attempt' unit' receipt' ttl' now' boot' ≢ ok v
attach_once s t u v id reservation reservation' attempt attempt' unit unit' receipt receipt' ttl
      ttl' now now' boot boot' first run second =
    let (l, found, fresh, n, marked) =
      attach_marks s t id reservation attempt unit receipt ttl now boot first in
    let (m, found_m, to_m) = lease_advances t u id (attached l attempt unit n boot) run marked in
    let (k, found_k, fresh_k, n_k, marked_k) =
      attach_marks u v id reservation' attempt' unit' receipt' ttl' now' boot' second in
    let same : m ≡ k = some_inj (sym found_m ∙ found_k) in
    let gone : is_reserved m.state ≡ false =
      not_again (attached l attempt unit n boot).state m.state to_m.advance
        (unfold attached in refl) in
    cc (subst (λ x. is_reserved x.state ≡ false) same gone, fresh_k)

-- No operation changes the root budget that the broker was initialised with.
pub Reachable-root : {budget : Budget} {s : BrokerState} → Reachable budget s → s.root ≡ budget
Reachable-root (initial h) = unfold initialize in ground arith
Reachable-root (next {s} {t} r st) = (Step-Acts s t st).0 ∙ Reachable-root r
