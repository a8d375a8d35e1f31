-- ===== src/RunBudget/Examples.antt =====
-- Verdicts on concrete runs.
use switchstand.RunBudget.{
  RunBudgetPolicy, RunReport, RunRuntimeState, breach, broad_regression, check_lines, check_policy,
  evaluate_runtime_budget, in_progress, judge, matching, measure, not_aware, progress_running,
  runtime_state, selects, single_line, utc,
}
use switchstand.RunBudget.Verdict.{IsBreach, breach-IsBreach, breach_elapsed}
use switchstand.Base.{[], err, false, ok, pos, refl, some, string_eq, true, ℕ, ◌∷◌, ◌≡◌, ◌≤◌}

abbrev policy : RunBudgetPolicy
policy = record {
  repository = "marcogallotta/switchstand";
  workflow = "quality";
  job = "broad";
  run_class = broad_regression;
  expected_seconds = pos 300;
  warning_seconds = pos 600;
  provisional_future_hard_seconds = pos 900;
  policy_version = "v1";
  policy_source = "docs";
}

abbrev report : RunReport
report = record {
  repository = "marcogallotta/switchstand";
  workflow = "quality";
  job = "broad";
  run_id = pos 7;
  run_attempt = pos 1;
  status = in_progress;
  progress = progress_running;
  started_at = some (record { instant = 1000000; aware = true });
  observed_at = some (record { instant = 701000000; aware = true });
}

abbrev state : RunRuntimeState
state = record {
  repository = "marcogallotta/switchstand";
  workflow = "quality";
  job = "broad";
  run_id = pos 7;
  run_attempt = pos 1;
  status = in_progress;
  progress = progress_running;
  started_at = some 1000000;
  observed_at = some 701000000;
}

report_accepted : runtime_state report ≡ ok state
unfolding runtime_state check_lines single_line utc
report_accepted = refl

naive_refused :
    runtime_state
      (record report { started_at = some (record { instant = 1000000; aware = false }) })
    ≡ err (not_aware "started_at")
unfolding runtime_state check_lines single_line utc
naive_refused = refl

policy_accepted : check_policy policy ≡ ok policy
unfolding check_policy check_lines single_line
policy_accepted = refl

breached : (evaluate_runtime_budget state (policy ∷ [])).status ≡ breach
unfolding evaluate_runtime_budget matching selects judge measure
breached = refl

breach-IsBreach_example : IsBreach state (policy ∷ []) (evaluate_runtime_budget state (policy ∷ []))
breach-IsBreach_example = breach-IsBreach state (policy ∷ []) breached

breach_elapsed_example :
    (n : ℕ) × ((evaluate_runtime_budget state (policy ∷ [])).elapsed_seconds ≡ some n) × (1 ≤ n)
breach_elapsed_example = breach_elapsed policy policy state policy_accepted breached
