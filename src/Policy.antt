-- ===== src/Policy.antt =====
-- src/switchstand/tracker/policy.py: the resultant-state policy of semantic writes to canonical
-- work. A set of field names is a list; a `ValueError` is the error with its message's meaning.
pub mod Coherence
pub mod Create
mod Examples
use switchstand.Base.{
  is_none, starts_with, none, ok, bool_beq, forbid, is_canonical_uuid, ◌==◌, some, ◌>>◌, [], not,
  string_eq, elem, false, require, ◌&&◌, ◌||◌, ◌∷◌, Bool, List, Option, Result, String, any,
  if◌then◌else◌,
}

abbrev pub semantic_fields : List String
semantic_fields =
    "completed" ∷ "priority" ∷ "work_type" ∷ "lifecycle_state" ∷ "canonical_root" ∷ "owner_key"
    ∷ "wait_kind" ∷ "unblock_condition" ∷ "next_due" ∷ "next_action_class" ∷ "next_action_ref" ∷ []

-- the keyword arguments of `validate_resultant_state`
pub record WorkState : Type 0 where
  pub lifecycle_state : Option String
  pub canonical_root : Option String
  pub owner_key : Option String
  pub wait_kind : Option String
  pub unblock_condition : Option String
  pub next_due : Option String
  pub next_action_class : Option String
  pub next_action_ref : Option String
  pub completed : Option Bool

pub data PolicyError : Type 0 where
  lifecycle_required root_invalid owner_empty completed_disagrees action_inexact : PolicyError
  action_on_inactive current_waits wait_inexact waiting_acts due_missing : PolicyError
  terminal_waits terminal_acts unknown_silent : PolicyError
  root_inexact report_not_triaged evidence_not_inert work_type_missing not_actionable : PolicyError
  owner_not_agent create_current_waits create_action_missing create_wait_inexact : PolicyError

-- `bool(value)`
abbrev pub truthy : Option String → Bool
truthy none = false
truthy (some s) = not (s == "")

-- `value == text`
abbrev pub is_text : Option String → String → Bool
is_text none text = false
is_text (some s) text = s == text

-- `value in _SENTINELS`
abbrev pub is_sentinel : Option String → Bool
is_sentinel v = is_text v "NONE" || is_text v "UNKNOWN"

-- `_exact`
unfoldable pub is_exact : Option String → Bool
is_exact v = truthy v && not (is_sentinel v)

-- `_root`
unfoldable pub is_root : Option String → Bool
is_root none = false
is_root (some s) = is_sentinel (some s) || is_canonical_uuid s

-- a value that is a canonical WorkId
abbrev pub is_work_id : Option String → Bool
is_work_id none = false
is_work_id (some s) = is_canonical_uuid s

-- `bool(affected & fields)`
unfoldable pub touches : List String → List String → Bool
unfolding any elem
touches affected fields = any (λ f. elem f affected) fields

abbrev pub is_pair : String → Option String → Option String → Bool
is_pair text a b = is_text a text && is_text b text

-- the tuple of `wait_kind`, `unblock_condition` and `next_due` against three texts
abbrev pub waits_are : String → String → String → WorkState → Bool
waits_are a b c s = is_text s.wait_kind a && (is_text s.unblock_condition b && is_text s.next_due c)

abbrev pub no_action : WorkState → Bool
no_action s = is_pair "NONE" s.next_action_class s.next_action_ref

abbrev pub is_held : WorkState → Bool
is_held s = is_text s.lifecycle_state "WAITING" || is_text s.lifecycle_state "DEFERRED"

abbrev pub is_lifecycle : Option String → Bool
is_lifecycle v =
    is_text v "CURRENT"
    || (is_text v "WAITING"
        || (is_text v "DEFERRED" || (is_text v "TERMINAL" || is_text v "UNKNOWN")))

abbrev pub Check : Type 0
Check = Result PolicyError (Unit {0})

-- The tests behind `if not waits: return`.
unfoldable pub validate_waits : WorkState → Check
validate_waits s =
    if is_text s.lifecycle_state "CURRENT"
    then require (waits_are "NONE" "NONE" "NONE" s) current_waits
    else if is_held s
    then (do
      require (is_exact s.wait_kind && is_exact s.unblock_condition) wait_inexact
      require (no_action s) waiting_acts
      require (truthy s.next_due) due_missing)
    else if is_text s.lifecycle_state "TERMINAL"
    then (do
      require (waits_are "NONE" "NONE" "NONE" s) terminal_waits
      require (no_action s) terminal_acts)
    else require (truthy s.wait_kind && (truthy s.unblock_condition && truthy s.next_due))
        unknown_silent

-- `completed is not None and completed != (lifecycle_state == "TERMINAL")`
abbrev pub completion_disagrees : Option Bool → Bool → Bool
completion_disagrees none terminal = false
completion_disagrees (some done) terminal = not (bool_beq done terminal)

abbrev pub is_transition : List String → Bool
is_transition affected = touches affected ("completed" ∷ "lifecycle_state" ∷ [])

abbrev pub is_waits : List String → Bool
is_waits affected =
    is_transition affected || touches affected ("wait_kind" ∷ "unblock_condition" ∷ "next_due" ∷ [])

abbrev pub is_actions : List String → Bool
is_actions affected =
    is_waits affected || touches affected ("next_action_class" ∷ "next_action_ref" ∷ [])

-- The tests in the code's order, over the three flags and the two memberships.
unfoldable pub validate_flags : Bool → Bool → Bool → Bool → Bool → WorkState → Check
validate_flags transition waits actions rooted owned s = do
  forbid ((waits || actions) && not (is_lifecycle s.lifecycle_state)) lifecycle_required
  forbid (rooted && not (is_root s.canonical_root)) root_invalid
  forbid (owned && not (truthy s.owner_key)) owner_empty
  forbid (transition && completion_disagrees s.completed (is_text s.lifecycle_state "TERMINAL"))
      completed_disagrees
  forbid
      (actions
        && (not (no_action s || is_pair "UNKNOWN" s.next_action_class s.next_action_ref)
            && not (is_exact s.next_action_class && is_exact s.next_action_ref)))
      action_inexact
  forbid (actions && ((is_held s || is_text s.lifecycle_state "TERMINAL") && not (no_action s)))
      action_on_inactive
  if waits then validate_waits s else ok tt

unfoldable pub validate_resultant_state : WorkState → List String → Check
validate_resultant_state s affected =
    validate_flags (is_transition affected) (is_waits affected) (is_actions affected)
      (elem "canonical_root" affected) (elem "owner_key" affected) s

-- what `validate_create_state` takes besides the state
pub record CreateRequest : Type 0 where
  pub parented : Bool
  pub work_type : Option String
  pub state : WorkState

abbrev pub is_text_in : Option String → List String → Bool
is_text_in v [] = false
is_text_in v (t ∷ ts) = is_text v t || is_text_in v ts

-- the tuple of an unassigned capture
unfoldable pub is_capture : CreateRequest → Bool
is_capture r =
    is_text r.work_type "Task"
    && (is_text r.state.lifecycle_state "WAITING"
        && (is_text r.state.owner_key "NONE"
            && (waits_are "TRIAGE" "ASSIGNMENT_REQUIRED" "UNSCHEDULED" r.state
                && no_action r.state)))

unfoldable pub is_report : CreateRequest → Bool
is_report r =
    not r.parented
    && (is_text_in r.work_type (
          "BUG" ∷ "PRODUCT_FEATURE" ∷ "PROCESS" ∷ "PERFORMANCE" ∷ "HUMAN_REVIEW_FEEDBACK"
          ∷ "FORK_MANAGEMENT" ∷ [])
        && is_text r.state.owner_key "NONE")

unfoldable pub is_evidence : CreateRequest → Bool
is_evidence r = r.parented && (is_text r.work_type "Evidence" && is_text r.state.owner_key "NONE")

abbrev pub codex_coordinator_name : String
codex_coordinator_name = "Codex Coordinator"

-- the ownership that a substantive create must have
unfoldable pub is_agent_owned : Option String → Bool
is_agent_owned none = false
is_agent_owned (some owner) =
    is_exact (some owner) && (owner == codex_coordinator_name || starts_with owner "agent:")

-- the tests from `if work_type in {None, "UNKNOWN"}` on
unfoldable pub validate_substantive : CreateRequest → Check
validate_substantive r = do
  forbid (is_none r.work_type || is_text r.work_type "UNKNOWN") work_type_missing
  require (is_text r.state.lifecycle_state "CURRENT" || is_held r.state) not_actionable
  require (is_agent_owned r.state.owner_key) owner_not_agent
  if is_text r.state.lifecycle_state "CURRENT"
      then (do
        require (waits_are "NONE" "NONE" "NONE" r.state) create_current_waits
        require (is_exact r.state.next_action_class && is_exact r.state.next_action_ref)
            create_action_missing)
      else require
          (no_action r.state
            && (is_exact r.state.wait_kind
                && (is_exact r.state.unblock_condition && is_exact r.state.next_due)))
          create_wait_inexact

-- the code after the root test, which returns from the first class that fits
unfoldable pub validate_class : CreateRequest → Check
validate_class r =
    if is_capture r
    then ok tt
    else if is_report r
    then require
        (is_text r.state.lifecycle_state "WAITING"
          && (waits_are "TRIAGE" "TRIAGE_PICKUP" "UNSCHEDULED" r.state && no_action r.state))
        report_not_triaged
    else if is_evidence r
    then require
        (is_text r.state.lifecycle_state "CURRENT"
          && (waits_are "NONE" "NONE" "NONE" r.state && no_action r.state))
        evidence_not_inert
    else validate_substantive r

unfoldable pub validate_create_state : CreateRequest → Check
validate_create_state r = do
  validate_resultant_state (record (r.state) { completed = none }) semantic_fields
  forbid (is_none r.state.canonical_root || is_sentinel r.state.canonical_root) root_inexact
  validate_class r
