-- ===== src/SuiteDue/Examples.antt =====
-- Decisions on concrete inputs.
use switchstand.SuiteDue.Within.{IsWithin, not_due-IsWithin}
use switchstand.SuiteDue.{
  FullSuiteInputs, FullSuitePolicy, budget_reasons, counters_of, due, evaluate_baseline,
  evaluate_full_suite_due, full_suite_due, is_commit_sha, not_due, planner_of, selected,
  values_valid, weigh, weigh_ancestry, weigh_baseline, weigh_counted,
}
use switchstand.Base.{[], false, hex_text, pos, refl, some, sorted, string_eq, true, ◌∷◌, ◌≡◌}

abbrev policy : FullSuitePolicy
policy = record {
  max_commits = pos 10;
  max_age_seconds = pos 86400;
  max_changed_production_files = pos 20;
  max_changed_production_lines = pos 500;
  max_selected_tests = pos 100;
  ratio_numerator = 1;
  ratio_denominator = 2;
}

abbrev quiet : FullSuiteInputs
quiet = record {
  landed_sha = "0123456789abcdef0123456789abcdef01234567";
  baseline_sha = some "fedcba9876543210fedcba9876543210fedcba98";
  baseline_completed_at = some (record { instant = 1000000; aware = true });
  evaluated_at = record { instant = 3600000000; aware = true };
  commits_since_baseline = some (pos 3);
  changed_production_files = some (pos 4);
  changed_production_lines = some (pos 50);
  selected_tests = some (pos 40);
  total_tests = some (pos 400);
  ancestry_verified = some true;
  planner_mode = some selected;
  high_risk_fallback = some false;
  planner_policy_changed = some false;
  unresolved_hard_miss = some false;
  current_truth_known = true;
}

-- two budgets exhausted
abbrev busy : FullSuiteInputs
busy = record quiet { commits_since_baseline = some (pos 12); selected_tests = some (pos 200) }

quiet_not_due : (evaluate_full_suite_due quiet policy).status ≡ not_due
unfolding evaluate_full_suite_due values_valid evaluate_baseline weigh_baseline weigh_ancestry
    weigh_counted weigh planner_of counters_of budget_reasons is_commit_sha hex_text due
quiet_not_due = refl

busy_due : evaluate_full_suite_due busy policy ≡ record {
  status = full_suite_due;
  reasons =
      "commit-budget-exhausted" ∷ "selected-test-count-budget-exhausted"
      ∷ "selected-test-ratio-budget-exhausted" ∷ [];
  subject_sha = some "0123456789abcdef0123456789abcdef01234567";
}
unfolding evaluate_full_suite_due values_valid evaluate_baseline weigh_baseline weigh_ancestry
    weigh_counted weigh planner_of counters_of budget_reasons is_commit_sha hex_text due sorted
busy_due = refl

not_due-IsWithin_example : IsWithin quiet policy
not_due-IsWithin_example = not_due-IsWithin quiet policy quiet_not_due
