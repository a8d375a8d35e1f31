-- ===== src/Policy/Coherence.antt =====
-- What an accepted semantic write leaves behind, and how acceptance depends on the fields written.
use switchstand.Policy.{
  touches, is_transition, semantic_fields, validate_resultant_state, is_root, validate_waits,
  truthy, is_exact, is_held, is_pair, waits_are, is_text, completion_disagrees, is_lifecycle,
  no_action, WorkState, validate_flags,
}
use switchstand.Base.{
  refl, any, string_eq, elem, List, inr, inl, Bool-cases, forbid_passed, not, ◌&&◌, none, ◌||◌,
  str_iff, arith, false, ok, ◌⊎◌, some, true, Bool, String, ◌≡◌, Option,
}

-- The action of work that may act: exact, none or unknown.
abbrev pub ActionKnown : WorkState → Type 0
ActionKnown s =
    (no_action s ≡ true)
    ⊎ (is_pair "UNKNOWN" s.next_action_class s.next_action_ref ≡ true)
    ⊎ ((is_exact s.next_action_class ≡ true) × (is_exact s.next_action_ref ≡ true))

-- The four coherent dispositions of work.
pub data Disposition (s : WorkState) : Type 0 where
  current :
      s.lifecycle_state ≡ some "CURRENT"
      → waits_are "NONE" "NONE" "NONE" s ≡ true
      → ActionKnown s
      → Disposition s
  held :
      (s.lifecycle_state ≡ some "WAITING") ⊎ (s.lifecycle_state ≡ some "DEFERRED")
      → is_exact s.wait_kind ≡ true
      → is_exact s.unblock_condition ≡ true
      → truthy s.next_due ≡ true
      → no_action s ≡ true
      → Disposition s
  terminal :
      s.lifecycle_state ≡ some "TERMINAL"
      → waits_are "NONE" "NONE" "NONE" s ≡ true
      → no_action s ≡ true
      → Disposition s
  unknown :
      s.lifecycle_state ≡ some "UNKNOWN"
      → truthy s.wait_kind ≡ true
      → truthy s.unblock_condition ≡ true
      → truthy s.next_due ≡ true
      → ActionKnown s
      → Disposition s

pub record IsCoherent (s : WorkState) : Type 0 where
  pub disposition : Disposition s
  pub completion : completion_disagrees s.completed (is_text s.lifecycle_state "TERMINAL") ≡ false

pub is_text-eq : (v : Option String) (t : String) → is_text v t ≡ true → v ≡ some t
is_text-eq none t h = cc
is_text-eq (some s) t h = ground (arith, str_iff s t)

-- The Boolean facts behind an accepted transition.
record Passed (s : WorkState) : Type 0 where
  lifecycle : is_lifecycle s.lifecycle_state ≡ true
  completion : completion_disagrees s.completed (is_text s.lifecycle_state "TERMINAL") ≡ false
  action : ActionKnown s
  inactive : ((is_held s || is_text s.lifecycle_state "TERMINAL") && not (no_action s)) ≡ false
  waits : validate_waits s ≡ ok tt

action_cases :
    (a b c d : Bool)
    → (not (a || b) && not (c && d)) ≡ false
    → (a ≡ true) ⊎ (b ≡ true) ⊎ ((c ≡ true) × (d ≡ true))
action_cases a b c d h = ground arith

validate_flags-Passed :
    (rooted owned : Bool) (s : WorkState)
    → validate_flags true true true rooted owned s ≡ ok tt
    → Passed s
unfolding validate_flags
validate_flags-Passed rooted owned s h =
    let (lifecycle, h1) = forbid_passed (not (is_lifecycle s.lifecycle_state)) _ _ tt h in
    let (root, h2) = forbid_passed (rooted && not (is_root s.canonical_root)) _ _ tt h1 in
    let (owner, h3) = forbid_passed (owned && not (truthy s.owner_key)) _ _ tt h2 in
    let (completion, h4) =
      forbid_passed (completion_disagrees s.completed (is_text s.lifecycle_state "TERMINAL")) _ _ tt
        h3 in
    let (action, h5) =
      forbid_passed
        (not (no_action s || is_pair "UNKNOWN" s.next_action_class s.next_action_ref)
          && not (is_exact s.next_action_class && is_exact s.next_action_ref))
        _ _ tt h4 in
    let (inactive, waits) =
      forbid_passed ((is_held s || is_text s.lifecycle_state "TERMINAL") && not (no_action s)) _ _
        tt h5 in
    record {
      lifecycle = ground (arith, lifecycle);
      completion = completion;
      action =
          action_cases (no_action s) (is_pair "UNKNOWN" s.next_action_class s.next_action_ref)
            (is_exact s.next_action_class) (is_exact s.next_action_ref) action;
      inactive = inactive;
      waits = waits;
    }

Passed-Disposition : (s : WorkState) → Passed s → Disposition s
unfolding validate_waits
Passed-Disposition s p = elim (Bool-cases (is_text s.lifecycle_state "CURRENT")) [
  | inl e ↦ current (is_text-eq s.lifecycle_state "CURRENT" e) (ground (arith, p.waits, e)) p.action
  | inr not_current ↦ elim (Bool-cases (is_held s)) [
    | inl e ↦
        held
          (ground (
            arith,
            is_text-eq s.lifecycle_state "WAITING",
            is_text-eq s.lifecycle_state "DEFERRED",
          ))
          (ground (arith, p.waits)) (ground (arith, p.waits)) (ground (arith, p.waits))
          (ground (arith, p.waits))
    | inr not_held ↦ elim (Bool-cases (is_text s.lifecycle_state "TERMINAL")) [
      | inl e ↦
          terminal (is_text-eq s.lifecycle_state "TERMINAL" e) (ground (arith, p.waits))
            (ground (arith, p.waits))
      | inr not_terminal ↦
          unknown (ground (arith, p.lifecycle, is_text-eq s.lifecycle_state "UNKNOWN"))
            (ground (arith, p.waits)) (ground (arith, p.waits)) (ground (arith, p.waits)) p.action
    ]
  ]
]

-- A write that touches `completed` or `lifecycle_state` is accepted only if the resulting state is
-- coherent: its wait and action fields have the disposition of its lifecycle state, one of CURRENT,
-- WAITING or DEFERRED, TERMINAL and UNKNOWN, and a given `completed` is true for TERMINAL only.
pub validate_resultant_state-IsCoherent :
    (s : WorkState) (affected : List String)
    → is_transition affected ≡ true
    → validate_resultant_state s affected ≡ ok tt
    → IsCoherent s
unfolding validate_resultant_state
validate_resultant_state-IsCoherent s affected t h =
    let flags =
      validate_flags-Passed (elem "canonical_root" affected) (elem "owner_key" affected) s
        (rw t at h) in
    record { disposition = Passed-Disposition s flags; completion = flags.completion }

validate_waits_of_Disposition : (s : WorkState) → Disposition s → validate_waits s ≡ ok tt
unfolding validate_waits
validate_waits_of_Disposition s (current l w a) = rw (l, w)
validate_waits_of_Disposition s (held (inl l) w u d a) = rw (l, w, u, d, a)
validate_waits_of_Disposition s (held (inr l) w u d a) = rw (l, w, u, d, a)
validate_waits_of_Disposition s (terminal l w a) = rw (l, w, a)
validate_waits_of_Disposition s (unknown l w u d a) = rw (l, w, u, d)

-- The parts of the checks that a disposition meets.
Disposition-lifecycle : (s : WorkState) → Disposition s → is_lifecycle s.lifecycle_state ≡ true
Disposition-lifecycle s (current l w a) = rw l
Disposition-lifecycle s (held (inl l) w u d a) = rw l
Disposition-lifecycle s (held (inr l) w u d a) = rw l
Disposition-lifecycle s (terminal l w a) = rw l
Disposition-lifecycle s (unknown l w u d a) = rw l

Disposition-action :
    (s : WorkState)
    → Disposition s
    → (not (no_action s || is_pair "UNKNOWN" s.next_action_class s.next_action_ref)
        && not (is_exact s.next_action_class && is_exact s.next_action_ref))
      ≡ false
Disposition-action s (current l w a) = ground (arith, a)
Disposition-action s (held l w u d a) = rw a
Disposition-action s (terminal l w a) = rw a
Disposition-action s (unknown l w u d a) = ground (arith, a)

Disposition-inactive :
    (s : WorkState)
    → Disposition s
    → ((is_held s || is_text s.lifecycle_state "TERMINAL") && not (no_action s)) ≡ false
Disposition-inactive s (current l w a) = rw l
Disposition-inactive s (held l w u d a) = rw a (ground arith)
Disposition-inactive s (terminal l w a) = rw a (ground arith)
Disposition-inactive s (unknown l w u d a) = rw l

-- A coherent state with a well-formed root and an owner key is accepted, whatever was written.
pub validate_resultant_state_accepts :
    (s : WorkState) (affected : List String)
    → IsCoherent s
    → is_root s.canonical_root ≡ true
    → truthy s.owner_key ≡ true
    → validate_resultant_state s affected ≡ ok tt
unfolding validate_resultant_state validate_flags
validate_resultant_state_accepts s affected c root owner =
    rw (root, owner, c.completion)
      (ground (
        arith,
        validate_waits_of_Disposition s c.disposition,
        Disposition-lifecycle s c.disposition,
        Disposition-action s c.disposition,
        Disposition-inactive s c.disposition,
      ))

validate_flags_identity :
    (s : WorkState)
    → validate_flags true true true true true s ≡ ok tt
    → (is_root s.canonical_root ≡ true) × (truthy s.owner_key ≡ true)
unfolding validate_flags
validate_flags_identity s h =
    let (lifecycle, h1) = forbid_passed (not (is_lifecycle s.lifecycle_state)) _ _ tt h in
    let (root, h2) = forbid_passed (not (is_root s.canonical_root)) _ _ tt h1 in
    let (owner, h3) = forbid_passed (not (truthy s.owner_key)) _ _ tt h2 in
    (ground (arith, root), ground (arith, owner))

-- A write of all semantic fields raises every flag.
pub validate_semantic_fields :
    (s : WorkState)
    → validate_resultant_state s semantic_fields ≡ validate_flags true true true true true s
unfolding validate_resultant_state touches any elem
validate_semantic_fields s = refl

pub semantic_identity :
    (s : WorkState)
    → validate_resultant_state s semantic_fields ≡ ok tt
    → (is_root s.canonical_root ≡ true) × (truthy s.owner_key ≡ true)
semantic_identity s h = validate_flags_identity s (rw validate_semantic_fields at h)

semantic_transition : is_transition semantic_fields ≡ true
unfolding touches any elem
semantic_transition = refl

pub semantic-IsCoherent :
    (s : WorkState) → validate_resultant_state s semantic_fields ≡ ok tt → IsCoherent s
semantic-IsCoherent s h =
    validate_resultant_state-IsCoherent s semantic_fields semantic_transition h

-- A state that is accepted for a write of every semantic field is accepted for a write of any set
-- of fields.
pub validate_resultant_state_mono :
    (s : WorkState) (affected : List String)
    → validate_resultant_state s semantic_fields ≡ ok tt
    → validate_resultant_state s affected ≡ ok tt
validate_resultant_state_mono s affected h =
    let (root, owner) = semantic_identity s h in
    validate_resultant_state_accepts s affected (semantic-IsCoherent s h) root owner
