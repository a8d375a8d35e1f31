-- ===== src/Policy/Examples.antt =====
-- The policy's theorems at concrete states, and a state that each kind of check refuses.
use switchstand.Base.{
  err, ok, refl, [], elem, none, true, String, any, false, is_canonical_uuid, some, ◌∷◌, ◌≡◌,
  Option,
}
use switchstand.Policy.Coherence.{
  validate_resultant_state_accepts, validate_resultant_state-IsCoherent, IsCoherent,
}
use switchstand.Policy.Create.{validate_create_state-IsCreatable, IsCreatable}
use switchstand.Policy.{
  action_on_inactive, is_capture, semantic_fields, is_exact, is_transition, validate_class,
  validate_waits, validate_flags, CreateRequest, WorkState, is_root, touches, validate_create_state,
  validate_resultant_state,
}

abbrev root : Option String
root = some "01234567-89ab-cdef-0123-456789abcdef"

-- owned, current work with an exact next action
abbrev working : WorkState
working = record {
  lifecycle_state = some "CURRENT";
  canonical_root = root;
  owner_key = some "agent:builder";
  wait_kind = some "NONE";
  unblock_condition = some "NONE";
  next_due = some "NONE";
  next_action_class = some "IMPLEMENT";
  next_action_ref = some "step-1";
  completed = some false;
}

abbrev captured : WorkState
captured = record {
  lifecycle_state = some "WAITING";
  canonical_root = root;
  owner_key = some "NONE";
  wait_kind = some "TRIAGE";
  unblock_condition = some "ASSIGNMENT_REQUIRED";
  next_due = some "UNSCHEDULED";
  next_action_class = some "NONE";
  next_action_ref = some "NONE";
  completed = none;
}

abbrev capture_request : CreateRequest
capture_request = record { parented = false; work_type = some "Task"; state = captured }

working_accepted : validate_resultant_state working semantic_fields ≡ ok tt
unfolding validate_resultant_state validate_flags validate_waits is_exact is_root is_canonical_uuid
    touches any elem
working_accepted = refl

touches_lifecycle : is_transition ("lifecycle_state" ∷ []) ≡ true
unfolding touches any elem
touches_lifecycle = refl

write_accepted : validate_resultant_state working ("lifecycle_state" ∷ []) ≡ ok tt
unfolding validate_resultant_state validate_flags validate_waits is_exact is_root is_canonical_uuid
    touches any elem
write_accepted = refl

validate_resultant_state-IsCoherent_example : IsCoherent working
validate_resultant_state-IsCoherent_example =
    validate_resultant_state-IsCoherent working ("lifecycle_state" ∷ []) touches_lifecycle
      write_accepted

working_root : is_root working.canonical_root ≡ true
unfolding is_root is_canonical_uuid
working_root = refl

validate_resultant_state_accepts_example :
    validate_resultant_state working ("owner_key" ∷ "next_due" ∷ []) ≡ ok tt
validate_resultant_state_accepts_example =
    validate_resultant_state_accepts working ("owner_key" ∷ "next_due" ∷ [])
      validate_resultant_state-IsCoherent_example working_root refl

capture_accepted : validate_create_state capture_request ≡ ok tt
unfolding validate_create_state validate_resultant_state validate_flags validate_waits
    validate_class is_capture is_exact is_root is_canonical_uuid touches any elem
capture_accepted = refl

validate_create_state-IsCreatable_example : IsCreatable capture_request
validate_create_state-IsCreatable_example =
    validate_create_state-IsCreatable capture_request capture_accepted

-- Finishing work without clearing its action is refused.
finish_refused :
    validate_resultant_state
      (record working { lifecycle_state = some "TERMINAL"; completed = some true })
      ("completed" ∷ "lifecycle_state" ∷ [])
    ≡ err action_on_inactive
unfolding validate_resultant_state validate_flags validate_waits is_exact is_root is_canonical_uuid
    touches any elem
finish_refused = refl
