-- ===== src/SuiteDue/Decision.antt =====
-- The shape of a decision, and what NOT_DUE promises.
use switchstand.SuiteDue.{
  weigh_ancestry, weigh_counted, Counters, Datetime, FullSuiteDecision, FullSuiteInputs,
  FullSuitePolicy, Planner, conclude, counters_of, due, evaluate_baseline, evaluate_full_suite_due,
  full_suite_due, is_commit_sha, not_due, unknown, values_valid, weigh, weigh_baseline,
}
use switchstand.Base.{
  Bool, Ascends, Bool-cases, List, Option, String, [], arith, inl, inr, length, length-sorted, ltb,
  none, not, refl, some, sorted-Ascends, string_eq, true, ℕ, ◌||◌, ◌∷◌, ◌≡◌, ◌≤◌,
}

-- The three shapes of a decision.
pub data Shape (i : FullSuiteInputs) (d : FullSuiteDecision) : Type 0 where
  is_unknown : d.status ≡ unknown → length d.reasons ≡ 1 → d.subject_sha ≡ none → Shape i d
  is_not_due :
      d.status ≡ not_due
      → d.reasons ≡ []
      → d.subject_sha ≡ some i.landed_sha
      → is_commit_sha i.landed_sha ≡ true
      → Shape i d
  is_due :
      d.status ≡ full_suite_due
      → 1 ≤ length d.reasons
      → Ascends d.reasons
      → d.subject_sha ≡ some i.landed_sha
      → is_commit_sha i.landed_sha ≡ true
      → Shape i d

module _ (i : FullSuiteInputs) (landed : is_commit_sha i.landed_sha ≡ true) where
  due-Shape : (r : String) (rs : List String) → Shape i (due i (r ∷ rs))
  unfolding due
  due-Shape r rs =
      is_due refl (omega (arith, length-sorted (r ∷ rs))) (sorted-Ascends (r ∷ rs)) refl landed

  conclude-Shape : (rs : List String) → Shape i (conclude i rs)
  conclude-Shape [] = is_not_due refl refl refl landed
  conclude-Shape (r ∷ rs) = due-Shape r rs

  weigh-Shape :
      (p : FullSuitePolicy) (t : ℕ) (n : Planner) (c : Counters) → Shape i (weigh i p t n c)
  unfolding weigh
  weigh-Shape p t n c = elim (Bool-cases (ltb i.evaluated_at.instant t)) [
    | inl e ↦ rw e (is_unknown refl refl refl)
    | inr e ↦ rw e (conclude-Shape _)
  ]

  weigh_counted-Shape :
      (p : FullSuitePolicy) (t : ℕ) (n : Planner) (o : Option Counters)
      → Shape i (weigh_counted i p t n o)
  unfolding weigh_counted
  weigh_counted-Shape p t n none = is_unknown refl refl refl
  weigh_counted-Shape p t n (some c) = weigh-Shape p t n c

  weigh_ancestry-Shape :
      (p : FullSuitePolicy) (sha : String) (t : Datetime) (n : Planner) (o : Option Bool)
      → Shape i (weigh_ancestry i p sha t n o)
  unfolding weigh_ancestry
  weigh_ancestry-Shape p sha t n none = is_unknown refl refl refl
  weigh_ancestry-Shape p sha t n (some b) =
      elim (Bool-cases (not (is_commit_sha sha) || not t.aware)) [
        | inl bad ↦ rw bad (is_unknown refl refl refl)
        | inr good ↦ elim (Bool-cases b) [
          | inl e ↦ rw (good, e) (weigh_counted-Shape p t.instant n (counters_of i))
          | inr e ↦ rw (good, e) (due-Shape "baseline-not-ancestor" [])
        ]
      ]

  weigh_baseline-Shape :
      (p : FullSuitePolicy) (sha : String) (t : Datetime) (n : Option Planner)
      → Shape i (weigh_baseline i p sha t n)
  unfolding weigh_baseline
  weigh_baseline-Shape p sha t none = is_unknown refl refl refl
  weigh_baseline-Shape p sha t (some n) = weigh_ancestry-Shape p sha t n i.ancestry_verified

  evaluate_baseline-Shape :
      (p : FullSuitePolicy) (sha : Option String) (t : Option Datetime)
      → Shape i (evaluate_baseline i p sha t)
  unfolding evaluate_baseline
  evaluate_baseline-Shape p (some sha) (some t) = weigh_baseline-Shape p sha t _
  evaluate_baseline-Shape p none t = due-Shape "trusted-baseline-missing" []
  evaluate_baseline-Shape p (some sha) none = due-Shape "trusted-baseline-missing" []

-- Every evaluation gives one of three decisions: UNKNOWN with one reason and no subject, NOT_DUE
-- with no reason, or FULL_SUITE_DUE with at least one reason, in order; the last two name the
-- landed commit, which is then a full SHA.
pub evaluate_full_suite_due-Shape :
    (i : FullSuiteInputs) (p : FullSuitePolicy) → Shape i (evaluate_full_suite_due i p)
unfolding evaluate_full_suite_due values_valid
evaluate_full_suite_due-Shape i p =
    elim (Bool-cases (not (values_valid i p) || not i.current_truth_known)) [
      | inl e ↦ rw e (is_unknown refl refl refl)
      | inr e ↦
          rw e
            (evaluate_baseline-Shape i (ground (arith, e)) p i.baseline_sha i.baseline_completed_at)
    ]
