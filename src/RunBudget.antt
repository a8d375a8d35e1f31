-- ===== src/RunBudget.antt =====
-- src/switchstand/ci_runtime_budget.py: advisory budgets of in-progress CI runs. A datetime is its
-- instant in microseconds with a flag for a time zone; a frozen dataclass whose `__post_init__`
-- raises is built by a function into `Result`.
pub mod Verdict
mod Examples
use switchstand.Base.{
  Bool, List, Option, Result, String, [], bool_beq, codes, err, false, if◌then◌else◌, is_positive,
  is_some, leb, leb_ℤ, ltb, nat_beq, none, not, ok, pos, require, some, string_eq, text_len, true,
  ℕ, ℤ, ◌&&◌, ◌-◌, ◌/◌, ◌==◌, ◌>>=◌, ◌>>◌, ◌||◌, ◌∷◌,
}

pub data RunClass : Type 0 where
  foreground_qualification authoritative_quality broad_regression : RunClass

-- `ProviderRunStatus` and `ProviderProgress` have the same members.
pub data ProviderRunStatus : Type 0 where
  requested in_progress completed unknown_status : ProviderRunStatus

pub data ProviderProgress : Type 0 where
  progress_requested progress_running progress_completed progress_unknown : ProviderProgress

pub data BudgetStatus : Type 0 where
  within breach unknown : BudgetStatus

pub data UnknownReason : Type 0 where
  unmanaged policy_ambiguous provider_status_unknown provider_progress_unknown : UnknownReason
  provider_state_inconsistent start_unknown observation_unknown clock_inconsistent : UnknownReason

pub data BudgetError : Type 0 where
  not_single_line : String → BudgetError
  not_aware : String → BudgetError
  seconds_unordered ids_not_positive reason_mismatch elapsed_negative : BudgetError

abbrev has_code : ℕ → List ℕ → Bool
has_code c [] = false
has_code c (d ∷ ds) = nat_beq c d || has_code c ds

-- `_single_line`; 10 and 13 are the line feed and the carriage return
unfoldable pub single_line : String → Bool
unfolding codes text_len
single_line value =
    not (value == "")
    && (leb (text_len value) 200 && not (has_code 10 (codes value) || has_code 13 (codes value)))

-- the loop over the text fields of `__post_init__`
unfoldable pub check_lines : List (String × String) → Result BudgetError (Unit {0})
check_lines [] = ok tt
check_lines ((field, value) ∷ rest) =
    let later = check_lines rest in if single_line value then later else err (not_single_line field)

pub record Datetime : Type 0 where
  pub instant : ℕ
  pub aware : Bool

-- `_utc`: the instant of an aware datetime
unfoldable pub utc : Option Datetime → String → Result BudgetError (Option ℕ)
utc none field = ok none
utc (some t) field = if t.aware then ok (some t.instant) else err (not_aware field)

pub record RunBudgetPolicy : Type 0 where
  pub repository : String
  pub workflow : String
  pub job : String
  pub run_class : RunClass
  pub expected_seconds : ℤ
  pub warning_seconds : ℤ
  pub provisional_future_hard_seconds : ℤ
  pub policy_version : String
  pub policy_source : String

-- `RunBudgetPolicy.__post_init__`
unfoldable pub check_policy : RunBudgetPolicy → Result BudgetError RunBudgetPolicy
check_policy p = do
  check_lines (
      ("repository", p.repository)
      ∷ ("workflow", p.workflow)
      ∷ ("job", p.job)
      ∷ ("policy_version", p.policy_version)
      ∷ ("policy_source", p.policy_source)
      ∷ [])
  require
      (is_positive p.expected_seconds
        && (leb_ℤ p.expected_seconds p.warning_seconds
            && leb_ℤ p.warning_seconds p.provisional_future_hard_seconds))
      seconds_unordered
  ok p

-- the arguments of `RunRuntimeState`
pub record RunReport : Type 0 where
  pub repository : String
  pub workflow : String
  pub job : String
  pub run_id : ℤ
  pub run_attempt : ℤ
  pub status : ProviderRunStatus
  pub progress : ProviderProgress
  pub started_at : Option Datetime
  pub observed_at : Option Datetime

-- `RunRuntimeState` after `__post_init__`, with its times in UTC
pub record RunRuntimeState : Type 0 where
  pub repository : String
  pub workflow : String
  pub job : String
  pub run_id : ℤ
  pub run_attempt : ℤ
  pub status : ProviderRunStatus
  pub progress : ProviderProgress
  pub started_at : Option ℕ
  pub observed_at : Option ℕ

-- `RunRuntimeState.__post_init__`
unfoldable pub runtime_state : RunReport → Result BudgetError RunRuntimeState
runtime_state r = do
  check_lines (("repository", r.repository) ∷ ("workflow", r.workflow) ∷ ("job", r.job) ∷ [])
  require (is_positive r.run_id && is_positive r.run_attempt) ids_not_positive
  started ← utc r.started_at "started_at"
  observed ← utc r.observed_at "observed_at"
  ok (record {
    repository = r.repository;
    workflow = r.workflow;
    job = r.job;
    run_id = r.run_id;
    run_attempt = r.run_attempt;
    status = r.status;
    progress = r.progress;
    started_at = started;
    observed_at = observed;
  })

pub record BudgetResult : Type 0 where
  pub status : BudgetStatus
  pub policy_version : Option String
  pub elapsed_seconds : Option ℕ
  pub reason : Option UnknownReason

-- `BudgetResult.__post_init__`, over an elapsed time that is not negative
abbrev pub is_unknown : BudgetStatus → Bool
is_unknown unknown = true
is_unknown _ = false

unfoldable pub result_valid : BudgetResult → Bool
result_valid r = bool_beq (is_unknown r.status) (is_some r.reason)

-- `policy.selector == state.selector`
unfoldable pub selects : RunRuntimeState → RunBudgetPolicy → Bool
selects s p = p.repository == s.repository && (p.workflow == s.workflow && p.job == s.job)

unfoldable pub matching : RunRuntimeState → List RunBudgetPolicy → List RunBudgetPolicy
matching s [] = []
matching s (p ∷ ps) = let rest = matching s ps in if selects s p then p ∷ rest else rest

abbrev pub give_up : Option String → UnknownReason → BudgetResult
give_up version reason = record {
  status = unknown;
  policy_version = version;
  elapsed_seconds = none;
  reason = some reason;
}

abbrev pub status_unknown : ProviderRunStatus → Bool
status_unknown unknown_status = true
status_unknown _ = false

abbrev pub progress_is_unknown : ProviderProgress → Bool
progress_is_unknown progress_unknown = true
progress_is_unknown _ = false

-- `inconsistent`
abbrev pub inconsistent : ProviderRunStatus → ProviderProgress → Bool
inconsistent requested progress_requested = false
inconsistent requested _ = true
inconsistent completed progress_completed = false
inconsistent completed _ = true
inconsistent _ _ = false

-- `state.status in {REQUESTED, COMPLETED}`
abbrev pub is_settled : ProviderRunStatus → Bool
is_settled requested = true
is_settled completed = true
is_settled _ = false

-- `elapsed >= policy.warning_seconds`
abbrev pub warns : ℕ → ℤ → Bool
warns elapsed limit = leb_ℤ limit (pos elapsed)

-- from `if state.started_at is None` on
unfoldable pub measure : RunBudgetPolicy → Option ℕ → Option ℕ → BudgetResult
measure p none observed = give_up (some p.policy_version) start_unknown
measure p (some started) none = give_up (some p.policy_version) observation_unknown
measure p (some started) (some observed) =
    if ltb observed started
    then give_up (some p.policy_version) clock_inconsistent
    else let elapsed = (observed - started) / 1000000 in
      record {
        status = if warns elapsed p.warning_seconds then breach else within;
        policy_version = some p.policy_version;
        elapsed_seconds = some elapsed;
        reason = none;
      }

-- the evaluation under the one policy that matches
unfoldable pub judge : RunRuntimeState → RunBudgetPolicy → BudgetResult
judge s p =
    if status_unknown s.status
    then give_up (some p.policy_version) provider_status_unknown
    else if progress_is_unknown s.progress
    then give_up (some p.policy_version) provider_progress_unknown
    else if inconsistent s.status s.progress
    then give_up (some p.policy_version) provider_state_inconsistent
    else if is_settled s.status
    then record {
      status = within;
      policy_version = some p.policy_version;
      elapsed_seconds = none;
      reason = none;
    }
    else measure p s.started_at s.observed_at

abbrev pub evaluate_matches : RunRuntimeState → List RunBudgetPolicy → BudgetResult
evaluate_matches s [] = give_up none unmanaged
evaluate_matches s (p ∷ []) = judge s p
evaluate_matches s (p ∷ q ∷ ps) = give_up none policy_ambiguous

unfoldable pub evaluate_runtime_budget : RunRuntimeState → List RunBudgetPolicy → BudgetResult
evaluate_runtime_budget s policies = evaluate_matches s (matching s policies)
