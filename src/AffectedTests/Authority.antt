-- ===== src/AffectedTests/Authority.antt =====
-- `foreground_authority`, `selector_health_clear`, `broad_backstop_required` and
-- `classify_cumulative_stack_top` of src/switchstand/affected_tests.py.
use switchstand.AffectedTests.Paths.{is_direct_test}
use switchstand.AffectedTests.{
  BasisKind, Plan, PlanMode, exact_basis, local_basis, planner_revision, promoted_inputs_v1,
  selected, serial_sensitive_v1,
}
use switchstand.Base.{
  option_eq, Bool, List, Option, String, [], all, any, elem, false, if◌then◌else◌, is_empty,
  is_none, ltb, nat_beq, none, not, some, sorted, string_eq, to_set, true, ℕ, ◌&&◌, ◌++◌, ◌==◌,
  ◌||◌, ◌∷◌,
}
use switchstand.AffectedTests.Planner.{when}

pub data AuthorityMode : Type 0 where
  promote_test_module_only_v1 promote_affected_inputs_v1 full_fallback_authority : AuthorityMode

pub record ForegroundAuthority : Type 0 where
  pub mode : AuthorityMode
  pub reasons : List String

pub record BroadQualityRun : Type 0 where
  pub event : String
  pub head_sha : String
  pub conclusion : String
  pub workflow_blob : Option String

-- `broad_backstop_required`
unfoldable pub broad_backstop_required : String → String → String → Bool
broad_backstop_required event ref_name default_branch =
    event == "schedule" || (event == "push" && ref_name == default_branch)

-- the runs of a workflow's generation
unfoldable pub generation_of : String → List BroadQualityRun → List BroadQualityRun
generation_of blob [] = []
generation_of blob (run ∷ runs) =
    let rest = generation_of blob runs in
    if run.workflow_blob == some blob then run ∷ rest else rest

abbrev pub is_success : BroadQualityRun → Bool
is_success run = run.conclusion == "success"

abbrev pub is_default_success : String → BroadQualityRun → Bool
is_default_success default_sha run =
    run.event == "push" && (run.head_sha == default_sha && is_success run)

-- `selector_health_clear`
unfoldable pub selector_health_clear : Bool → String → String → List BroadQualityRun → Bool
unfolding generation_of any all
selector_health_clear history_complete blob default_sha runs =
    if not history_complete
      || (blob == ""
          || (default_sha == "" || any (λ (run : BroadQualityRun). is_none run.workflow_blob) runs))
    then false
    else any (is_default_success default_sha) (generation_of blob runs)
      && all is_success (generation_of blob runs)

abbrev pub is_selected : PlanMode → Bool
is_selected selected = true
is_selected _ = false

abbrev pub is_exact : BasisKind → Bool
is_exact exact_basis = true
is_exact local_basis = false

-- a changed path that may be promoted
abbrev pub is_promoted : String → Bool
is_promoted path = is_direct_test path || elem path promoted_inputs_v1

-- the reasons against a promotion
unfoldable pub authority_reasons : Plan → Bool → Bool → Bool → List String
unfolding is_direct_test any elem
authority_reasons p subject_verified health_clear stack_top =
    when (not (is_exact p.basis_kind) || not subject_verified) "subject-not-exact-current"
    ++ (when (not (p.planner_revision == planner_revision)) "planner-revision-not-promoted"
        ++ (when (not health_clear) "selector-health-not-clear"
            ++ (when stack_top "cumulative-stack-top-requires-full"
                ++ (when (not (is_selected p.mode) || not (is_empty p.fallback_reasons))
                      "planner-did-not-select-cleanly"
                    ++ (when p.destructive "delete-or-rename"
                        ++ (when
                              (is_empty p.changed_paths
                                || any (λ path. not (is_promoted path)) p.changed_paths)
                              "changed-path-outside-promoted-inputs"
                            ++ (when
                                  (is_empty p.selected_tests
                                    || any (λ path. not (is_direct_test path)) p.selected_tests)
                                  "selected-path-outside-direct-test-modules"
                                ++ (when
                                      (any
                                        (λ path.
                                          is_direct_test path && not (elem path p.selected_tests))
                                        p.changed_paths)
                                      "changed-test-module-not-selected"
                                    ++ when
                                        (any (λ path. elem path serial_sensitive_v1)
                                          (p.changed_paths ++ p.selected_tests))
                                        "serial-sensitive-test-module"))))))))

abbrev pub authority_of : Plan → List String → ForegroundAuthority
authority_of p [] = record {
  mode =
      if all is_direct_test p.changed_paths
      then promote_test_module_only_v1
      else promote_affected_inputs_v1;
  reasons = [];
}
authority_of p (reason ∷ reasons) = record {
  mode = full_fallback_authority;
  reasons = sorted (to_set (reason ∷ reasons));
}

-- `foreground_authority`
unfoldable pub foreground_authority : Plan → Bool → Bool → Bool → ForegroundAuthority
unfolding authority_reasons all is_direct_test sorted to_set
foreground_authority p subject_verified health_clear stack_top =
    authority_of p (authority_reasons p subject_verified health_clear stack_top)

-- `classify_cumulative_stack_top`
unfoldable pub classify_cumulative_stack_top : Option ℕ → Option ℕ → Option Bool
classify_cumulative_stack_top none child_count = none
classify_cumulative_stack_top (some parents) none = none
classify_cumulative_stack_top (some parents) (some children) =
    if ltb 1 parents then none else some (nat_beq parents 1 && nat_beq children 0)
