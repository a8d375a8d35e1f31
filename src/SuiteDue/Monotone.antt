-- ===== src/SuiteDue/Monotone.antt =====
-- Work that lands on a due suite does not make it undue.
use switchstand.SuiteDue.{
  planner_of, values_valid, weigh_baseline, counter, evaluate_baseline, evaluate_full_suite_due,
  is_commit_sha, Datetime, counters_of, weigh_ancestry, weigh_counted, Counters, FullSuiteInputs,
  FullSuitePolicy, Planner, budget_reasons, checked_counters, conclude, due, full_suite_due,
  reaches, weigh, when,
}
use switchstand.Base.{
  ◌||◌, inr, inl, Option-cases, ltb, Bool-cases, none, Bool, List, Option, String, [], arith, false,
  is_empty, not, pos, refl, some, true, ℕ, ℤ, ◌&&◌, ◌∷◌, ◌≡◌, ◌≤◌,
}

-- The inputs after more commits.
abbrev pub with_commits : FullSuiteInputs → ℕ → FullSuiteInputs
with_commits i n = record i { commits_since_baseline = some (pos n) }

conclude_more :
    (i j : FullSuiteInputs) (rs rs' : List String)
    → (is_empty rs' ≡ true → is_empty rs ≡ true)
    → (conclude i rs).status ≡ full_suite_due
    → (conclude j rs').status ≡ full_suite_due
unfolding due
conclude_more i j [] rs' f h = cc
conclude_more i j (r ∷ rs) [] f h = cc (f refl)
conclude_more i j (r ∷ rs) (r' ∷ rs') f h = refl

when_empty :
    (b : Bool) (r : String) (rest : List String)
    → is_empty (when b r rest) ≡ (not b && is_empty rest)
when_empty true r rest = refl
when_empty false r rest = refl

reaches_mono : (c c' : ℕ) (m : ℤ) → c ≤ c' → reaches c m ≡ true → reaches c' m ≡ true
reaches_mono c c' m le h = ground arith

reasons_empty :
    (n : Planner) (c : Counters) (p : FullSuitePolicy) (rest : List String) (commits : ℕ)
    → c.commits ≤ commits
    → is_empty (budget_reasons n (record c { commits = commits }) p rest) ≡ true
    → is_empty (budget_reasons n c p rest) ≡ true
unfolding budget_reasons
reasons_empty n c p rest commits le =
    simp when_empty (λ h. ground (arith, h, reaches_mono c.commits commits p.max_commits))

weigh_more :
    (i : FullSuiteInputs) (p : FullSuitePolicy) (t : ℕ) (n : Planner) (c : Counters) (commits : ℕ)
    → c.commits ≤ commits
    → (weigh i p t n c).status ≡ full_suite_due
    → (weigh (with_commits i commits) p t n (record c { commits = commits })).status
      ≡ full_suite_due
unfolding weigh
weigh_more i p t n c commits le h = elim (Bool-cases (ltb i.evaluated_at.instant t)) [
  | inl e ↦ cc (rw e at h)
  | inr e ↦
      rw e (
        conclude_more i (with_commits i commits) _ _ (reasons_empty n c p _ commits le) (rw e at h))
]

checked_more :
    (a b : ℕ) (f l s t : Option ℕ) (c : Counters)
    → checked_counters (some a) f l s t ≡ some c
    → (c.commits ≡ a) × (checked_counters (some b) f l s t ≡ some (record c { commits = b }))
unfolding checked_counters
checked_more a b f l s t c h = ground arith

checked_none :
    (a b : ℕ) (f l s t : Option ℕ)
    → checked_counters (some a) f l s t ≡ none
    → checked_counters (some b) f l s t ≡ none
unfolding checked_counters
checked_none a b f l s t h = ground arith

counters_before :
    (i : FullSuiteInputs) (a : ℕ)
    → i.commits_since_baseline ≡ some (pos a)
    → counters_of i
      ≡ checked_counters
          (some a)
          (counter i.changed_production_files)
          (counter i.changed_production_lines)
          (counter i.selected_tests)
          (counter i.total_tests)
unfolding counters_of
counters_before i a e = simp e

counters_with :
    (i : FullSuiteInputs) (b : ℕ)
    → counters_of (with_commits i b)
      ≡ checked_counters
          (some b)
          (counter i.changed_production_files)
          (counter i.changed_production_lines)
          (counter i.selected_tests)
          (counter i.total_tests)
unfolding counters_of
counters_with i b = refl

module _ (i : FullSuiteInputs) (p : FullSuitePolicy) (a b : ℕ) (le : a ≤ b) where
  counted_more :
      (t : ℕ) (n : Planner) (f l s u : Option ℕ)
      → (weigh_counted i p t n (checked_counters (some a) f l s u)).status ≡ full_suite_due
      → (weigh_counted (with_commits i b) p t n (checked_counters (some b) f l s u)).status
        ≡ full_suite_due
  unfolding weigh_counted
  counted_more t n f l s u h = elim (Option-cases (checked_counters (some a) f l s u)) [
    | inl e ↦ cc (rw (e, weigh_counted) at h)
    | inr (c, e) ↦
        let (same, after) = checked_more a b f l s u c e in
        rw after (weigh_more i p t n c b (omega (arith, same)) (rw e at h))
  ]

  ancestry_more :
      (sha : String) (t : Datetime) (n : Planner) (o : Option Bool)
      → i.commits_since_baseline ≡ some (pos a)
      → (weigh_ancestry i p sha t n o).status ≡ full_suite_due
      → (weigh_ancestry (with_commits i b) p sha t n o).status ≡ full_suite_due
  unfolding weigh_ancestry due
  ancestry_more sha t n none e h = cc
  ancestry_more sha t n (some v) e h = elim (Bool-cases (not (is_commit_sha sha) || not t.aware)) [
    | inl bad ↦ cc (rw bad at h)
    | inr good ↦ elim (Bool-cases v) [
      | inr no_ancestor ↦ rw (good, no_ancestor)
      | inl ancestor ↦
          rw (good, ancestor, counters_with)
            (counted_more t.instant n (counter i.changed_production_files)
              (counter i.changed_production_lines) (counter i.selected_tests)
              (counter i.total_tests) (rw (counters_before i a e) at (rw (good, ancestor) at h)))
    ]
  ]

  baseline_more :
      (sha : Option String) (t : Option Datetime)
      → i.commits_since_baseline ≡ some (pos a)
      → (evaluate_baseline i p sha t).status ≡ full_suite_due
      → (evaluate_baseline (with_commits i b) p sha t).status ≡ full_suite_due
  unfolding evaluate_baseline weigh_baseline due
  baseline_more none t e h = refl
  baseline_more (some sha) none e h = refl
  baseline_more (some sha) (some t) e h =
      elim (Option-cases (
        planner_of i.planner_mode i.high_risk_fallback i.planner_policy_changed
          i.unresolved_hard_miss)) [
            | inl missing ↦ cc (rw (missing, weigh_baseline) at h)
            | inr (n, known) ↦
                rw (known, weigh_baseline)
                  (ancestry_more sha t n i.ancestry_verified e (rw (known, weigh_baseline) at h))
          ]

-- A suite that is due stays due when more commits land and all else is unchanged.
pub due_persists :
    (i : FullSuiteInputs) (p : FullSuitePolicy) (a b : ℕ)
    → i.commits_since_baseline ≡ some (pos a)
    → a ≤ b
    → (evaluate_full_suite_due i p).status ≡ full_suite_due
    → (evaluate_full_suite_due (with_commits i b) p).status ≡ full_suite_due
unfolding evaluate_full_suite_due values_valid
due_persists i p a b e le h =
    elim (Bool-cases (not (values_valid i p) || not i.current_truth_known)) [
      | inl bad ↦ cc (rw bad at h)
      | inr good ↦
          rw good (baseline_more i p a b le i.baseline_sha i.baseline_completed_at e (rw good at h))
    ]
