-- ===== src/RunBudget/Verdict.antt =====
-- What the verdicts of the runtime budget say.
use switchstand.Base.{
  sym, ◌∙◌, ap, leb_ℤ, ◌&&◌, require_passed, then_passed, is_positive, ok, ℤ, Bool-cases, List,
  Option, String, [], arith, inl, inr, none, refl, some, true, ℕ, ◌-◌, ◌/◌, ◌∷◌, ◌≡◌, ◌≤◌,
}
use switchstand.RunBudget.{
  check_lines, check_policy, BudgetResult, RunBudgetPolicy, RunRuntimeState, UnknownReason, breach,
  evaluate_matches, evaluate_runtime_budget, give_up, in_progress, inconsistent, is_settled, judge,
  matching, measure, policy_ambiguous, progress_is_unknown, result_valid, selects, status_unknown,
  unmanaged, warns,
}

give_up_valid : (v : Option String) (r : UnknownReason) → result_valid (give_up v r) ≡ true
unfolding result_valid
give_up_valid v r = refl

measure_valid :
    (p : RunBudgetPolicy) (started observed : Option ℕ)
    → result_valid (measure p started observed) ≡ true
unfolding result_valid measure
measure_valid p none observed = refl
measure_valid p (some s) none = refl
measure_valid p (some s) (some o) = ground arith

judge_valid : (s : RunRuntimeState) (p : RunBudgetPolicy) → result_valid (judge s p) ≡ true
unfolding judge
judge_valid s p = elim (Bool-cases (status_unknown s.status)) [
  | inl a ↦ rw (a, judge) (give_up_valid _ _)
  | inr a ↦ elim (Bool-cases (progress_is_unknown s.progress)) [
    | inl b ↦ rw (a, b, judge) (give_up_valid _ _)
    | inr b ↦ elim (Bool-cases (inconsistent s.status s.progress)) [
      | inl c ↦ rw (a, b, c, judge) (give_up_valid _ _)
      | inr c ↦ elim (Bool-cases (is_settled s.status)) [
        | inl d ↦ rw (a, b, c, d, judge) (unfold result_valid in refl)
        | inr d ↦ rw (a, b, c, d, judge) (measure_valid p s.started_at s.observed_at)
      ]
    ]
  ]
]

-- Every evaluation builds a result that its own constructor accepts: UNKNOWN has a reason, and the
-- other verdicts have none.
pub evaluate_runtime_budget_valid :
    (s : RunRuntimeState) (policies : List RunBudgetPolicy)
    → result_valid (evaluate_runtime_budget s policies) ≡ true
unfolding evaluate_runtime_budget
evaluate_runtime_budget_valid s policies = by_matches (matching s policies)
  where
    by_matches : (ps : List RunBudgetPolicy) → result_valid (evaluate_matches s ps) ≡ true
    by_matches [] = give_up_valid none unmanaged
    by_matches (p ∷ []) = judge_valid s p
    by_matches (p ∷ q ∷ ps) = give_up_valid none policy_ambiguous

-- What a breach rests on.
pub record IsBreach (s : RunRuntimeState) (policies : List RunBudgetPolicy) (r : BudgetResult)
    : Type 0 where
  pub policy : RunBudgetPolicy
  pub started : ℕ
  pub observed : ℕ
  pub only : matching s policies ≡ policy ∷ []
  pub running : s.status ≡ in_progress
  pub started_at : s.started_at ≡ some started
  pub observed_at : s.observed_at ≡ some observed
  pub ordered : started ≤ observed
  pub version : r.policy_version ≡ some policy.policy_version
  pub elapsed : r.elapsed_seconds ≡ some ((observed - started) / 1000000)
  pub warned : warns ((observed - started) / 1000000) policy.warning_seconds ≡ true

measure_breach :
    (p : RunBudgetPolicy) (started observed : Option ℕ)
    → (measure p started observed).status ≡ breach
    → (a : ℕ) × (b : ℕ) × (started ≡ some a)
      × (observed ≡ some b)
      × (a ≤ b)
      × ((measure p started observed).policy_version ≡ some p.policy_version)
      × ((measure p started observed).elapsed_seconds ≡ some ((b - a) / 1000000))
      × (warns ((b - a) / 1000000) p.warning_seconds ≡ true)
unfolding measure
measure_breach p none observed h = cc
measure_breach p (some a) none h = cc
measure_breach p (some a) (some b) h =
    (a, b, refl, refl, ground arith, ground arith, ground arith, ground arith)

judge_breach :
    (s : RunRuntimeState) (p : RunBudgetPolicy)
    → (judge s p).status ≡ breach
    → (s.status ≡ in_progress) × (judge s p ≡ measure p s.started_at s.observed_at)
unfolding judge
judge_breach s p h = ground arith

matches_breach :
    (s : RunRuntimeState) (ps : List RunBudgetPolicy)
    → (evaluate_matches s ps).status ≡ breach
    → (p : RunBudgetPolicy) × (ps ≡ p ∷ []) × ((judge s p).status ≡ breach)
matches_breach s [] h = cc
matches_breach s (p ∷ []) h = (p, refl, h)
matches_breach s (p ∷ q ∷ ps) h = cc

-- BREACH is reported only for a run in progress, under the only policy that selects it, when both
-- times are known and in order and the whole seconds between them reach the warning limit; the
-- result then carries that policy's version and those seconds.
pub breach-IsBreach :
    (s : RunRuntimeState) (policies : List RunBudgetPolicy)
    → (evaluate_runtime_budget s policies).status ≡ breach
    → IsBreach s policies (evaluate_runtime_budget s policies)
unfolding evaluate_runtime_budget
breach-IsBreach s policies h =
    let (p, only, judged) = matches_breach s (matching s policies) h in
    let (running, measured) = judge_breach s p judged in
    let (a, b, started, observed, ordered, version, elapsed, warned) =
      measure_breach p s.started_at s.observed_at (rw measured at judged) in
    record {
      policy = p;
      started = a;
      observed = b;
      only = only;
      running = running;
      started_at = started;
      observed_at = observed;
      ordered = ordered;
      version = rw (only, measured) version;
      elapsed = rw (only, measured) elapsed;
      warned = warned;
    }

-- The same run, observed at another time.
abbrev pub observed_later : RunRuntimeState → ℕ → RunRuntimeState
observed_later s t = record s { observed_at = some t }

matching_later :
    (s : RunRuntimeState) (t : ℕ) (ps : List RunBudgetPolicy)
    → matching (observed_later s t) ps ≡ matching s ps
unfolding matching selects
matching_later s t [] = refl
matching_later s t (p ∷ ps) = rw (matching_later s t ps)

warns_mono : (d e : ℕ) (m : ℤ) → d ≤ e → warns d m ≡ true → warns e m ≡ true
warns_mono d e m le h = ground arith

measure_later :
    (p : RunBudgetPolicy) (o : Option ℕ) (b t : ℕ)
    → b ≤ t
    → (measure p o (some b)).status ≡ breach
    → (measure p o (some t)).status ≡ breach
unfolding measure
measure_later p none b t le h = cc
measure_later p (some a) b t le h =
    let (a', b', ea, eb, ordered, version, elapsed, warned) =
      measure_breach p (some a) (some b) h in
    ground
      (arith, warns_mono ((b - a) / 1000000) ((t - a) / 1000000) p.warning_seconds (omega arith))

judge_later :
    (s : RunRuntimeState) (p : RunBudgetPolicy) (t : ℕ)
    → (judge s p).status ≡ breach
    → judge (observed_later s t) p ≡ measure p s.started_at (some t)
unfolding judge
judge_later s p t h = ground arith

-- A breach stays a breach when the same run is observed at the same or a later time.
pub breach_persists :
    (s : RunRuntimeState) (policies : List RunBudgetPolicy) (b t : ℕ)
    → s.observed_at ≡ some b
    → b ≤ t
    → (evaluate_runtime_budget s policies).status ≡ breach
    → (evaluate_runtime_budget (observed_later s t) policies).status ≡ breach
unfolding evaluate_runtime_budget
breach_persists s policies b t e le h =
    let (p, only, judged) = matches_breach s (matching s policies) h in
    let (running, measured) = judge_breach s p judged in
    rw (matching_later, only, judge_later s p t judged)
      (measure_later p s.started_at b t le (rw (measured, e) at judged))

check_policy_ordered :
    (p q : RunBudgetPolicy)
    → check_policy p ≡ ok q
    → (q ≡ p) × (is_positive p.warning_seconds ≡ true)
unfolding check_policy
check_policy_ordered p q h =
    let (lines, h1) = then_passed (check_lines _) _ h in
    let (seconds, h2) =
      require_passed
        (is_positive p.expected_seconds
          && (leb_ℤ p.expected_seconds p.warning_seconds
              && leb_ℤ p.warning_seconds p.provisional_future_hard_seconds))
        _ _ q h1 in
    (cc (h2), ground (arith, seconds))

matching_one : (s : RunRuntimeState) (q r : RunBudgetPolicy) → matching s (q ∷ []) ≡ r ∷ [] → r ≡ q
unfolding matching
matching_one s q r h = ground arith

warns_positive : (n : ℕ) (m : ℤ) → is_positive m ≡ true → warns n m ≡ true → 1 ≤ n
warns_positive n m h k = ground arith

-- Under a policy that its constructor accepts, a breach has at least one whole second of runtime.
pub breach_elapsed :
    (p q : RunBudgetPolicy) (s : RunRuntimeState)
    → check_policy p ≡ ok q
    → (evaluate_runtime_budget s (q ∷ [])).status ≡ breach
    → (n : ℕ) × ((evaluate_runtime_budget s (q ∷ [])).elapsed_seconds ≡ some n) × (1 ≤ n)
breach_elapsed p q s checked h =
    let b = breach-IsBreach s (q ∷ []) h in
    let (same, positive) = check_policy_ordered p q checked in
    let mine = matching_one s q b.policy b.only in
    (
      (b.observed - b.started) / 1000000,
      b.elapsed,
      warns_positive ((b.observed - b.started) / 1000000) q.warning_seconds
          (ap (λ r. is_positive r.warning_seconds) same ∙ positive)
          (ap (λ r. warns ((b.observed - b.started) / 1000000) r.warning_seconds) (sym mine)
            ∙ b.warned),
    )
