-- ===== src/Policy/Create.antt =====
-- What a created work item may look like.

use switchstand.Policy.Coherence.{
  current, is_text-eq, semantic-IsCoherent, semantic_identity, unknown, terminal, held, Disposition,
}
use switchstand.Base.{
  elem_here, [], string_eq, ◌∷◌, List, elem, refl, ◌&&◌, ◌⊎◌, then_passed, false, inr,
  require_passed, arith, inl, ◌||◌, Bool-cases, forbid_passed, is_none, some, String, none, ok,
  true, Option, ◌≡◌,
}
use switchstand.Policy.{
  is_text_in, waits_are, is_held, is_sentinel, is_evidence, semantic_fields, is_report, no_action,
  validate_resultant_state, is_exact, is_text, is_work_id, CreateRequest, WorkState, is_agent_owned,
  is_capture, is_root, validate_class, validate_create_state, validate_substantive,
}

-- the disposition of a wait, field by field
abbrev pub Waits : String → String → String → WorkState → Type 0
Waits kind unblock due s =
    (s.wait_kind ≡ some kind) × (s.unblock_condition ≡ some unblock) × (s.next_due ≡ some due)

abbrev pub NoAction : WorkState → Type 0
NoAction s = (s.next_action_class ≡ some "NONE") × (s.next_action_ref ≡ some "NONE")

abbrev pub report_types : List String
report_types =
    "BUG" ∷ "PRODUCT_FEATURE" ∷ "PROCESS" ∷ "PERFORMANCE" ∷ "HUMAN_REVIEW_FEEDBACK"
    ∷ "FORK_MANAGEMENT" ∷ []

-- The classes of accepted creates.
pub data CreateClass (r : CreateRequest) : Type 0 where
  capture :
      r.work_type ≡ some "Task"
      → r.state.lifecycle_state ≡ some "WAITING"
      → r.state.owner_key ≡ some "NONE"
      → Waits "TRIAGE" "ASSIGNMENT_REQUIRED" "UNSCHEDULED" r.state
      → NoAction r.state
      → CreateClass r
  report :
      r.parented ≡ false
      → (kind : String) → r.work_type ≡ some kind
      → elem kind report_types ≡ true
      → r.state.owner_key ≡ some "NONE"
      → r.state.lifecycle_state ≡ some "WAITING"
      → Waits "TRIAGE" "TRIAGE_PICKUP" "UNSCHEDULED" r.state
      → NoAction r.state
      → CreateClass r
  evidence :
      r.parented ≡ true
      → r.work_type ≡ some "Evidence"
      → r.state.owner_key ≡ some "NONE"
      → r.state.lifecycle_state ≡ some "CURRENT"
      → Waits "NONE" "NONE" "NONE" r.state
      → NoAction r.state
      → CreateClass r
  owned_current :
      is_agent_owned r.state.owner_key ≡ true
      → r.state.lifecycle_state ≡ some "CURRENT"
      → Waits "NONE" "NONE" "NONE" r.state
      → is_exact r.state.next_action_class ≡ true
      → is_exact r.state.next_action_ref ≡ true
      → CreateClass r
  owned_held :
      is_agent_owned r.state.owner_key ≡ true
      → (r.state.lifecycle_state ≡ some "WAITING") ⊎ (r.state.lifecycle_state ≡ some "DEFERRED")
      → NoAction r.state
      → is_exact r.state.wait_kind ≡ true
      → is_exact r.state.unblock_condition ≡ true
      → is_exact r.state.next_due ≡ true
      → CreateClass r

waits_are-Waits : (a b c : String) (s : WorkState) → waits_are a b c s ≡ true → Waits a b c s
waits_are-Waits a b c s h = (
  is_text-eq s.wait_kind a (ground (arith, h)),
  is_text-eq s.unblock_condition b (ground (arith, h)),
  is_text-eq s.next_due c (ground (arith, h)),
)

no_action-NoAction : (s : WorkState) → no_action s ≡ true → NoAction s
no_action-NoAction s h = (
  is_text-eq s.next_action_class "NONE" (ground (arith, h)),
  is_text-eq s.next_action_ref "NONE" (ground (arith, h)),
)

NoAction-no_action : (s : WorkState) → NoAction s → no_action s ≡ true
NoAction-no_action s (class, ref) = rw (class, ref) refl

held_cases :
    (s : WorkState)
    → is_held s ≡ true
    → (s.lifecycle_state ≡ some "WAITING") ⊎ (s.lifecycle_state ≡ some "DEFERRED")
held_cases s h = elim (Bool-cases (is_text s.lifecycle_state "WAITING")) [
  | inl e ↦ inl (is_text-eq s.lifecycle_state "WAITING" e)
  | inr e ↦ inr (is_text-eq s.lifecycle_state "DEFERRED" (ground (arith, h, e)))
]

text_in_cases :
    (v : Option String) (texts : List String)
    → is_text_in v texts ≡ true
    → (s : String) × (v ≡ some s) × (elem s texts ≡ true)
unfolding elem
text_in_cases v [] h = cc
text_in_cases v (t ∷ texts) h = elim (Bool-cases (is_text v t)) [
  | inl e ↦ (t, is_text-eq v t e, elem_here t texts)
  | inr e ↦
      let (s, is, later) = text_in_cases v texts (ground (arith, h, e)) in
      (s, is, ground (arith, later))
]

substantive-CreateClass : (r : CreateRequest) → validate_substantive r ≡ ok tt → CreateClass r
unfolding validate_substantive
substantive-CreateClass r h =
    let s = r.state in
    let (typed, h1) =
      forbid_passed (is_none r.work_type || is_text r.work_type "UNKNOWN") _ _ tt h in
    let (actionable, h2) =
      require_passed (is_text s.lifecycle_state "CURRENT" || is_held s) _ _ tt h1 in
    let (owned, h3) = require_passed (is_agent_owned s.owner_key) _ _ tt h2 in
    elim (Bool-cases (is_text s.lifecycle_state "CURRENT")) [
      | inl e ↦
          let (still, h4) = require_passed (waits_are "NONE" "NONE" "NONE" s) _ _ tt (rw e at h3) in
          let acts : (is_exact s.next_action_class && is_exact s.next_action_ref) ≡ true =
            ground (arith, h4) in
          owned_current owned (is_text-eq s.lifecycle_state "CURRENT" e)
            (waits_are-Waits "NONE" "NONE" "NONE" s still) (ground (arith, acts))
            (ground (arith, acts))
      | inr e ↦
          let waits : (no_action s
                && (is_exact s.wait_kind && (is_exact s.unblock_condition && is_exact s.next_due)))
              ≡ true =
            ground (arith, rw e at h3) in
          owned_held owned (held_cases s (ground (arith, actionable, e)))
            (no_action-NoAction s (ground (arith, waits))) (ground (arith, waits))
            (ground (arith, waits)) (ground (arith, waits))
    ]

capture-CreateClass : (r : CreateRequest) → is_capture r ≡ true → CreateClass r
unfolding is_capture
capture-CreateClass r e =
    capture (is_text-eq r.work_type "Task" (ground (arith, e)))
      (is_text-eq r.state.lifecycle_state "WAITING" (ground (arith, e)))
      (is_text-eq r.state.owner_key "NONE" (ground (arith, e)))
      (waits_are-Waits "TRIAGE" "ASSIGNMENT_REQUIRED" "UNSCHEDULED" r.state (ground (arith, e)))
      (no_action-NoAction r.state (ground (arith, e)))

report-CreateClass :
    (r : CreateRequest)
    → is_report r ≡ true
    → (is_text r.state.lifecycle_state "WAITING"
        && (waits_are "TRIAGE" "TRIAGE_PICKUP" "UNSCHEDULED" r.state && no_action r.state))
      ≡ true
    → CreateClass r
unfolding is_report
report-CreateClass r e h =
    let (kind, is, listed) = text_in_cases r.work_type report_types (ground (arith, e)) in
    report (ground (arith, e)) kind is listed
      (is_text-eq r.state.owner_key "NONE" (ground (arith, e)))
      (is_text-eq r.state.lifecycle_state "WAITING" (ground (arith, h)))
      (waits_are-Waits "TRIAGE" "TRIAGE_PICKUP" "UNSCHEDULED" r.state (ground (arith, h)))
      (no_action-NoAction r.state (ground (arith, h)))

evidence-CreateClass :
    (r : CreateRequest)
    → is_evidence r ≡ true
    → (is_text r.state.lifecycle_state "CURRENT"
        && (waits_are "NONE" "NONE" "NONE" r.state && no_action r.state))
      ≡ true
    → CreateClass r
unfolding is_evidence
evidence-CreateClass r e h =
    evidence (ground (arith, e)) (is_text-eq r.work_type "Evidence" (ground (arith, e)))
      (is_text-eq r.state.owner_key "NONE" (ground (arith, e)))
      (is_text-eq r.state.lifecycle_state "CURRENT" (ground (arith, h)))
      (waits_are-Waits "NONE" "NONE" "NONE" r.state (ground (arith, h)))
      (no_action-NoAction r.state (ground (arith, h)))

class-CreateClass : (r : CreateRequest) → validate_class r ≡ ok tt → CreateClass r
unfolding validate_class
class-CreateClass r h = elim (Bool-cases (is_capture r)) [
  | inl e ↦ capture-CreateClass r e
  | inr not_capture ↦ elim (Bool-cases (is_report r)) [
    | inl e ↦ report-CreateClass r e (ground arith)
    | inr not_report ↦ elim (Bool-cases (is_evidence r)) [
      | inl e ↦ evidence-CreateClass r e (ground arith)
      | inr not_evidence ↦ substantive-CreateClass r (ground arith)
    ]
  ]
]

-- What holds of every accepted create.
pub record IsCreatable (r : CreateRequest) : Type 0 where
  pub root : is_work_id r.state.canonical_root ≡ true
  pub disposition : Disposition r.state
  pub create_class : CreateClass r

root_cases :
    (v : Option String)
    → is_root v ≡ true
    → (is_none v || is_sentinel v) ≡ false
    → is_work_id v ≡ true
unfolding is_root
root_cases none h k = cc
root_cases (some s) h k = ground arith

-- A disposition does not depend on `completed`.
Disposition-completed :
    (s : WorkState) → Disposition (record s { completed = none }) → Disposition s
Disposition-completed s (current l w a) = current l w a
Disposition-completed s (held l w u d a) = held l w u d a
Disposition-completed s (terminal l w a) = terminal l w a
Disposition-completed s (unknown l w u d a) = unknown l w u d a

-- Created work has an exact WorkId as root, the coherent disposition of its lifecycle state, and is
-- one of: a capture, which is an ownerless waiting Task that wants an assignment; an ownerless report
-- without a parent, of one of the six report types, that waits for its triage pickup; an ownerless
-- Evidence child that is current without a wait or an action; agent-owned work that is current, with
-- no wait and an exact action; or agent-owned work that waits or is deferred, with an exact wait,
-- unblock condition and due date and no action.
pub validate_create_state-IsCreatable :
    (r : CreateRequest) → validate_create_state r ≡ ok tt → IsCreatable r
unfolding validate_create_state
validate_create_state-IsCreatable r h =
    let s : WorkState = record (r.state) { completed = none } in
    let (valid, h1) = then_passed (validate_resultant_state s semantic_fields) _ h in
    let (exact, classed) =
      forbid_passed (is_none r.state.canonical_root || is_sentinel r.state.canonical_root) _ _ tt
        h1 in
    record {
      root = root_cases r.state.canonical_root (semantic_identity s valid).0 exact;
      disposition = Disposition-completed r.state (semantic-IsCoherent s valid).disposition;
      create_class = class-CreateClass r classed;
    }

owner_of_none : (v : Option String) → is_text v "NONE" ≡ true → is_agent_owned v ≡ true → ⊥
unfolding is_agent_owned is_exact
owner_of_none none h k = cc
owner_of_none (some s) h k = ground arith

class_ownerless :
    (r : CreateRequest)
    → CreateClass r
    → is_text r.state.owner_key "NONE" ≡ true
    → no_action r.state ≡ true
class_ownerless r (capture k l o w a) h = NoAction-no_action r.state a
class_ownerless r (report p k t m o l w a) h = NoAction-no_action r.state a
class_ownerless r (evidence p k o l w a) h = NoAction-no_action r.state a
class_ownerless r (owned_current o l w c a) h = absurd (owner_of_none r.state.owner_key h o)
class_ownerless r (owned_held o l a k u d) h = NoAction-no_action r.state a

-- Work that is created with owner NONE carries no next action.
pub ownerless_create_inert :
    (r : CreateRequest)
    → validate_create_state r ≡ ok tt
    → is_text r.state.owner_key "NONE" ≡ true
    → no_action r.state ≡ true
ownerless_create_inert r h o =
    class_ownerless r (validate_create_state-IsCreatable r h).create_class o
