-- ===== src/SuiteDue.antt =====
-- src/switchstand/full_suite_due.py: when a broad suite run is due. An integer is a ℤ. A datetime
-- is its instant in microseconds with a flag for a time zone. `max_selected_ratio` is a fraction
-- and its comparison is exact, where the source divides floats.
pub mod Decision
pub mod Within
pub mod Monotone
mod Examples
use switchstand.Base.{
  negsuc, ◌*◌, [], as_natural, false, is_positive, leb, ltb, none, ◌||◌, hex_text, leb_ℤ, not, pos,
  some, sorted, true, ◌&&◌, ◌-◌, ◌∷◌, Bool, List, Option, String, if◌then◌else◌, ℕ, ℤ,
}

pub record Datetime : Type 0 where
  pub instant : ℕ
  pub aware : Bool

pub record FullSuitePolicy : Type 0 where
  pub max_commits : ℤ
  pub max_age_seconds : ℤ
  pub max_changed_production_files : ℤ
  pub max_changed_production_lines : ℤ
  pub max_selected_tests : ℤ
  pub ratio_numerator : ℕ
  pub ratio_denominator : ℕ

pub data PlannerMode : Type 0 where
  selected full_fallback no_plan stale : PlannerMode

pub record FullSuiteInputs : Type 0 where
  pub landed_sha : String
  pub baseline_sha : Option String
  pub baseline_completed_at : Option Datetime
  pub evaluated_at : Datetime
  pub commits_since_baseline : Option ℤ
  pub changed_production_files : Option ℤ
  pub changed_production_lines : Option ℤ
  pub selected_tests : Option ℤ
  pub total_tests : Option ℤ
  pub ancestry_verified : Option Bool
  pub planner_mode : Option PlannerMode
  pub high_risk_fallback : Option Bool
  pub planner_policy_changed : Option Bool
  pub unresolved_hard_miss : Option Bool
  pub current_truth_known : Bool

pub data DueStatus : Type 0 where
  full_suite_due not_due unknown : DueStatus

pub record FullSuiteDecision : Type 0 where
  pub status : DueStatus
  pub reasons : List String
  pub subject_sha : Option String

unfoldable pub is_commit_sha : String → Bool
is_commit_sha = hex_text 40

-- `_due`
unfoldable pub due : FullSuiteInputs → List String → FullSuiteDecision
due i reasons = record {
  status = full_suite_due;
  reasons = sorted reasons;
  subject_sha = some i.landed_sha;
}

abbrev pub undecided : String → FullSuiteDecision
undecided reason = record { status = unknown; reasons = reason ∷ []; subject_sha = none }

unfoldable pub values_valid : FullSuiteInputs → FullSuitePolicy → Bool
values_valid i p =
    is_commit_sha i.landed_sha
    && (is_positive p.max_commits
        && (is_positive p.max_age_seconds
            && (is_positive p.max_changed_production_files
                && (is_positive p.max_changed_production_lines
                    && (is_positive p.max_selected_tests
                        && (ltb 0 p.ratio_numerator
                            && (leb p.ratio_numerator p.ratio_denominator
                                && i.evaluated_at.aware)))))))

pub record Planner : Type 0 where
  pub mode : PlannerMode
  pub high_risk : Bool
  pub policy_changed : Bool
  pub hard_miss : Bool

-- The four planner inputs, if none of them is missing.
unfoldable pub planner_of :
    Option PlannerMode → Option Bool → Option Bool → Option Bool → Option Planner
planner_of (some m) (some h) (some c) (some u) =
    some (record { mode = m; high_risk = h; policy_changed = c; hard_miss = u })
planner_of _ _ _ _ = none

pub record Counters : Type 0 where
  pub commits : ℕ
  pub files : ℕ
  pub lines : ℕ
  pub selected_tests : ℕ
  pub total_tests : ℕ

-- `value is not None and value >= 0`
abbrev pub counter : Option ℤ → Option ℕ
counter none = none
counter (some n) = as_natural n

unfoldable pub checked_counters :
    Option ℕ → Option ℕ → Option ℕ → Option ℕ → Option ℕ → Option Counters
checked_counters (some c) (some f) (some l) (some s) (some t) =
    if ltb 0 t && leb s t
    then some (record { commits = c; files = f; lines = l; selected_tests = s; total_tests = t })
    else none
checked_counters _ _ _ _ _ = none

-- `counters_known` with the values that it speaks of.
unfoldable pub counters_of : FullSuiteInputs → Option Counters
unfolding checked_counters
counters_of i =
    checked_counters (counter i.commits_since_baseline) (counter i.changed_production_files)
      (counter i.changed_production_lines) (counter i.selected_tests) (counter i.total_tests)

abbrev pub is_selected : PlannerMode → Bool
is_selected selected = true
is_selected _ = false

-- `f"planner-{planner_mode.lower().replace('_', '-')}"`
abbrev pub planner_reason : PlannerMode → String
planner_reason selected = "planner-selected"
planner_reason full_fallback = "planner-full-fallback"
planner_reason no_plan = "planner-no-plan"
planner_reason stale = "planner-stale"

-- `if test: reasons.append(reason)`, before the later reasons
abbrev pub when : Bool → String → List String → List String
when true reason rest = reason ∷ rest
when false reason rest = rest

-- `value >= maximum`
abbrev pub reaches : ℕ → ℤ → Bool
reaches n maximum = leb_ℤ maximum (pos n)

-- the reasons that come before the test of the timestamps
unfoldable pub budget_reasons : Planner → Counters → FullSuitePolicy → List String → List String
budget_reasons n c p rest = when (not (is_selected n.mode)) (planner_reason n.mode) (
    when n.high_risk "high-risk-fallback" (
      when n.policy_changed "planner-policy-changed" (
        when n.hard_miss "unresolved-hard-miss" (
          when (reaches c.commits p.max_commits) "commit-budget-exhausted" (
            when (reaches c.files p.max_changed_production_files) "production-file-budget-exhausted"
              (when (reaches c.lines p.max_changed_production_lines)
                "production-line-budget-exhausted"
                (when (reaches c.selected_tests p.max_selected_tests)
                  "selected-test-count-budget-exhausted"
                  (when
                    (leb (p.ratio_numerator * c.total_tests)
                      (c.selected_tests * p.ratio_denominator))
                    "selected-test-ratio-budget-exhausted" rest))))))))

-- `age.total_seconds() >= policy.max_age_seconds`, in microseconds
abbrev pub age_reached : ℕ → ℤ → Bool
age_reached age (pos seconds) = leb (seconds * 1000000) age
age_reached age (negsuc n) = true

-- the end of the evaluation, over the reasons collected
abbrev pub conclude : FullSuiteInputs → List String → FullSuiteDecision
conclude i [] = record { status = not_due; reasons = []; subject_sha = some i.landed_sha }
conclude i (r ∷ rs) = due i (r ∷ rs)

-- from `reasons: list[str] = []` on
unfoldable pub weigh :
    FullSuiteInputs → FullSuitePolicy → ℕ → Planner → Counters → FullSuiteDecision
weigh i p completed n c =
    let age = i.evaluated_at.instant - completed in
    if ltb i.evaluated_at.instant completed
    then undecided "contradictory-timestamps"
    else conclude i
        (budget_reasons n c p (when (age_reached age p.max_age_seconds) "max-age-backstop" []))

-- from `if not counters_known` on
unfoldable pub weigh_counted :
    FullSuiteInputs → FullSuitePolicy → ℕ → Planner → Option Counters → FullSuiteDecision
weigh_counted i p completed n none = undecided "current-inputs-unavailable"
weigh_counted i p completed n (some c) = weigh i p completed n c

-- from the test of the baseline's SHA on, over `ancestry_verified`
unfoldable pub weigh_ancestry :
    FullSuiteInputs
    → FullSuitePolicy
    → String
    → Datetime
    → Planner
    → Option Bool
    → FullSuiteDecision
weigh_ancestry i p sha completed n none = undecided "current-inputs-unavailable"
weigh_ancestry i p sha completed n (some verified) =
    if not (is_commit_sha sha) || not completed.aware
    then undecided "current-inputs-unavailable"
    else if not verified
    then due i ("baseline-not-ancestor" ∷ [])
    else weigh_counted i p completed.instant n (counters_of i)

-- from the test of the planner's inputs on, over a baseline
unfoldable pub weigh_baseline :
    FullSuiteInputs → FullSuitePolicy → String → Datetime → Option Planner → FullSuiteDecision
weigh_baseline i p sha completed none = undecided "current-inputs-unavailable"
weigh_baseline i p sha completed (some n) = weigh_ancestry i p sha completed n i.ancestry_verified

unfoldable pub evaluate_baseline :
    FullSuiteInputs → FullSuitePolicy → Option String → Option Datetime → FullSuiteDecision
evaluate_baseline i p (some sha) (some completed) =
    weigh_baseline i p sha completed (
      planner_of i.planner_mode i.high_risk_fallback i.planner_policy_changed
        i.unresolved_hard_miss)
evaluate_baseline i p _ _ = due i ("trusted-baseline-missing" ∷ [])

unfoldable pub evaluate_full_suite_due : FullSuiteInputs → FullSuitePolicy → FullSuiteDecision
evaluate_full_suite_due i p =
    if not (values_valid i p) || not i.current_truth_known
    then undecided "current-inputs-unavailable"
    else evaluate_baseline i p i.baseline_sha i.baseline_completed_at
