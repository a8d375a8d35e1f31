-- ===== src/SuiteDue/Within.antt =====
-- NOT_DUE is a promise about every budget.
use switchstand.Base.{
  Bool, Bool-cases, List, Option, String, [], ap, arith, false, inl, inr, is_some, leb, ltb, none,
  not, refl, some, string_eq, true, ℕ, ◌*◌, ◌-◌, ◌<◌, ◌||◌, ◌∙◌, ◌∷◌, ◌≡◌, ◌≤◌,
}
use switchstand.SuiteDue.{
  Counters, Datetime, FullSuiteInputs, FullSuitePolicy, Planner, PlannerMode, age_reached,
  budget_reasons, conclude, counters_of, due, evaluate_baseline, evaluate_full_suite_due,
  is_selected, not_due, planner_of, planner_reason, reaches, selected, values_valid, weigh,
  weigh_ancestry, weigh_baseline, weigh_counted, when,
}

-- What NOT_DUE says of the inputs: a trusted baseline, a planner with nothing to report, and
-- counters and an age that stay below each limit.
pub record IsWithin (i : FullSuiteInputs) (p : FullSuitePolicy) : Type 0 where
  pub counters : Counters
  pub completed : Datetime
  pub baseline : is_some i.baseline_sha ≡ true
  pub completion : i.baseline_completed_at ≡ some completed
  pub counted : counters_of i ≡ some counters
  pub ancestry : i.ancestry_verified ≡ some true
  pub mode : i.planner_mode ≡ some selected
  pub high_risk : i.high_risk_fallback ≡ some false
  pub policy_changed : i.planner_policy_changed ≡ some false
  pub hard_miss : i.unresolved_hard_miss ≡ some false
  pub commits : reaches counters.commits p.max_commits ≡ false
  pub files : reaches counters.files p.max_changed_production_files ≡ false
  pub lines : reaches counters.lines p.max_changed_production_lines ≡ false
  pub tests : reaches counters.selected_tests p.max_selected_tests ≡ false
  pub ratio :
      counters.selected_tests * p.ratio_denominator < p.ratio_numerator * counters.total_tests
  pub ordered : completed.instant ≤ i.evaluated_at.instant
  pub age : age_reached (i.evaluated_at.instant - completed.instant) p.max_age_seconds ≡ false

pub when_nil :
    (b : Bool) (r : String) (rest : List String) → when b r rest ≡ [] → (b ≡ false) × (rest ≡ [])
when_nil true r rest h = cc
when_nil false r rest h = (refl, h)

-- No reason at all.
record Quiet (n : Planner) (c : Counters) (p : FullSuitePolicy) (rest : List String) : Type 0 where
  mode : is_selected n.mode ≡ true
  high_risk : n.high_risk ≡ false
  policy_changed : n.policy_changed ≡ false
  hard_miss : n.hard_miss ≡ false
  commits : reaches c.commits p.max_commits ≡ false
  files : reaches c.files p.max_changed_production_files ≡ false
  lines : reaches c.lines p.max_changed_production_lines ≡ false
  tests : reaches c.selected_tests p.max_selected_tests ≡ false
  ratio : leb (p.ratio_numerator * c.total_tests) (c.selected_tests * p.ratio_denominator) ≡ false
  rest_nil : rest ≡ []

budget_reasons-Quiet :
    (n : Planner) (c : Counters) (p : FullSuitePolicy) (rest : List String)
    → budget_reasons n c p rest ≡ []
    → Quiet n c p rest
unfolding budget_reasons
budget_reasons-Quiet n c p rest h =
    let (mode, h1) = when_nil (not (is_selected n.mode)) (planner_reason n.mode) _ h in
    let (high_risk, h2) = when_nil n.high_risk _ _ h1 in
    let (policy_changed, h3) = when_nil n.policy_changed _ _ h2 in
    let (hard_miss, h4) = when_nil n.hard_miss _ _ h3 in
    let (commits, h5) = when_nil (reaches c.commits p.max_commits) _ _ h4 in
    let (files, h6) = when_nil (reaches c.files p.max_changed_production_files) _ _ h5 in
    let (lines, h7) = when_nil (reaches c.lines p.max_changed_production_lines) _ _ h6 in
    let (tests, h8) = when_nil (reaches c.selected_tests p.max_selected_tests) _ _ h7 in
    let (ratio, h9) =
      when_nil (leb (p.ratio_numerator * c.total_tests) (c.selected_tests * p.ratio_denominator)) _
        _ h8 in
    record {
      mode = ground (arith, mode);
      high_risk = high_risk;
      policy_changed = policy_changed;
      hard_miss = hard_miss;
      commits = commits;
      files = files;
      lines = lines;
      tests = tests;
      ratio = ratio;
      rest_nil = h9;
    }

conclude_not_due :
    (i : FullSuiteInputs) (rs : List String) → (conclude i rs).status ≡ not_due → rs ≡ []
unfolding due
conclude_not_due i [] h = refl
conclude_not_due i (r ∷ rs) h = cc

module _ (i : FullSuiteInputs) (p : FullSuitePolicy) where
  weigh_not_due :
      (t : ℕ) (n : Planner) (c : Counters)
      → (weigh i p t n c).status ≡ not_due
      → (t ≤ i.evaluated_at.instant)
        × Quiet n c p (
            when (age_reached (i.evaluated_at.instant - t) p.max_age_seconds) "max-age-backstop" [])
  unfolding weigh
  weigh_not_due t n c h = elim (Bool-cases (ltb i.evaluated_at.instant t)) [
    | inl e ↦ cc (rw e at h)
    | inr e ↦ (ground (arith, e), budget_reasons-Quiet n c p _ (conclude_not_due i _ (rw e at h)))
  ]

  counted_not_due :
      (t : ℕ) (n : Planner) (o : Option Counters)
      → (weigh_counted i p t n o).status ≡ not_due
      → (c : Counters) × (o ≡ some c) × ((weigh i p t n c).status ≡ not_due)
  unfolding weigh_counted
  counted_not_due t n none h = cc
  counted_not_due t n (some c) h = (c, refl, h)

  ancestry_not_due :
      (sha : String) (t : Datetime) (n : Planner) (o : Option Bool)
      → (weigh_ancestry i p sha t n o).status ≡ not_due
      → (o ≡ some true) × ((weigh_counted i p t.instant n (counters_of i)).status ≡ not_due)
  unfolding weigh_ancestry due
  ancestry_not_due sha t n none h = cc
  ancestry_not_due sha t n (some false) h = ground arith
  ancestry_not_due sha t n (some true) h = ground arith

  planner_cases :
      (m : Option PlannerMode) (h c u : Option Bool) (n : Planner)
      → planner_of m h c u ≡ some n
      → (m ≡ some n.mode)
        × (h ≡ some n.high_risk)
        × (c ≡ some n.policy_changed)
        × (u ≡ some n.hard_miss)
  unfolding planner_of
  planner_cases m h c u n e = ground arith

  baseline_not_due :
      (sha : String) (t : Datetime) (o : Option Planner)
      → (weigh_baseline i p sha t o).status ≡ not_due
      → (n : Planner) × (o ≡ some n)
        × ((weigh_ancestry i p sha t n i.ancestry_verified).status ≡ not_due)
  unfolding weigh_baseline
  baseline_not_due sha t none h = cc
  baseline_not_due sha t (some n) h = (n, refl, h)

is_selected-eq : (m : PlannerMode) → is_selected m ≡ true → m ≡ selected
is_selected-eq m h = ground arith

baseline-IsWithin :
    (i : FullSuiteInputs) (p : FullSuitePolicy) (sha : Option String) (t : Option Datetime)
    → i.baseline_sha ≡ sha
    → i.baseline_completed_at ≡ t
    → (evaluate_baseline i p sha t).status ≡ not_due
    → IsWithin i p
unfolding evaluate_baseline due
baseline-IsWithin i p none t es et h = cc
baseline-IsWithin i p (some sha) none es et h = cc
baseline-IsWithin i p (some sha) (some t) es et h =
    let (n, planned, h1) = baseline_not_due i p sha t _ h in
    let (ancestry, h2) = ancestry_not_due i p sha t n i.ancestry_verified h1 in
    let (c, counted, h3) = counted_not_due i p t.instant n (counters_of i) h2 in
    let (ordered, quiet) = weigh_not_due i p t.instant n c h3 in
    let (mode, high_risk, policy_changed, hard_miss) =
      planner_cases i p i.planner_mode i.high_risk_fallback i.planner_policy_changed
        i.unresolved_hard_miss n planned in
    record {
      counters = c;
      completed = t;
      baseline = rw es;
      completion = et;
      counted = counted;
      ancestry = ancestry;
      mode = mode ∙ ap some (is_selected-eq n.mode quiet.mode);
      high_risk = high_risk ∙ ap some quiet.high_risk;
      policy_changed = policy_changed ∙ ap some quiet.policy_changed;
      hard_miss = hard_miss ∙ ap some quiet.hard_miss;
      commits = quiet.commits;
      files = quiet.files;
      lines = quiet.lines;
      tests = quiet.tests;
      ratio = ground (arith, quiet.ratio);
      ordered = ordered;
      age = (when_nil _ _ _ quiet.rest_nil).0;
    }

-- NOT_DUE promises a completed baseline that is an ancestor, a planner that selected and reported
-- no risk, policy change or miss, complete counters, and commits, files, lines, selected tests, the
-- selected share and the age of the baseline each strictly below its limit.
pub not_due-IsWithin :
    (i : FullSuiteInputs) (p : FullSuitePolicy)
    → (evaluate_full_suite_due i p).status ≡ not_due
    → IsWithin i p
unfolding evaluate_full_suite_due
not_due-IsWithin i p h = elim (Bool-cases (not (values_valid i p) || not i.current_truth_known)) [
  | inl e ↦ cc (rw e at h)
  | inr e ↦ baseline-IsWithin i p i.baseline_sha i.baseline_completed_at refl refl (rw e at h)
]
