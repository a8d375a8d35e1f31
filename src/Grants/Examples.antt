-- ===== src/Grants/Examples.antt =====
-- A transfer of a pull request, a receipt, a classification and a grant of a launch.
use switchstand.Grants.Outcome.{
  FeedbackClassification, GuardOutcome, applied, duplicate, exact_target, no_retry, outcome_ok,
}
use switchstand.Grants.Relations.{HasShape, valid_relation_iff}
use switchstand.Base.{String, [], err, none, ok, refl, some, string_eq, true, ◌↔◌, ◌∷◌, ◌≡◌}
use switchstand.Grants.{
  PullRequestChange, RelationPatch, WorkGrant, active, add_relation, grant_can_write, launch_scope,
  ownership_needs_set, pull_request_relation, set, valid_relation, validate_pr, validate_transfer,
}

abbrev transfer : PullRequestChange
transfer = record {
  repository = "owner/repo";
  number = 7;
  expected_version = some 2;
  recipient_key = some "builder";
  acceptance_delivery_id = some "d1";
  package_ref = "p1";
}

abbrev transfer_patch : RelationPatch
transfer_patch = record {
  kind = pull_request_relation;
  action = set;
  target_work_id = none;
  project_id = none;
  assignee_gid = none;
  project_gid = none;
  section_gid = none;
  pull_request = some transfer;
}

valid_relation_iff_example :
    (valid_relation transfer_patch ≡ ok tt) ↔ HasShape transfer_patch.kind transfer_patch
valid_relation_iff_example = valid_relation_iff transfer_patch

-- an owner without a transfer is refused
owner_without_set :
    valid_relation (record transfer_patch { action = add_relation }) ≡ err ownership_needs_set
unfolding valid_relation validate_pr validate_transfer
owner_without_set = refl

abbrev done_outcome : GuardOutcome String String
done_outcome = record {
  status = outcome_ok;
  effect = applied;
  retry = no_retry;
  receipt = some "receipt";
  blocked_by = none;
}

abbrev duplicate_of : FeedbackClassification
duplicate_of = record {
  source_work_id = "w1";
  classification = duplicate;
  target_work_id = some "w2";
  observed_target_revision = some "r1";
  code_status = none;
  fork_runtime = none;
  critical_path_wait = some 3;
}

classified : exact_target duplicate_of ≡ ok tt
unfolding exact_target
classified = refl

abbrev launch_grant : WorkGrant
launch_grant = record {
  authority = record { active_work_id = "w1"; reference_work_ids = "w2" ∷ [] };
  scope = launch_scope;
  expires_at = 100;
  state = active;
}

writes_active : grant_can_write launch_grant "w1" ≡ true
unfolding grant_can_write
writes_active = refl
