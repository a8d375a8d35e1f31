-- ===== src/Grants/Outcome.antt =====
-- `GuardOutcome`, and `ProtectedFeedbackClassification`.
use switchstand.Base.{
  option_eq, string_eq, Bool, Option, Result, String, bool_beq, false, forbid, is_none, is_some,
  not, require, some, true, ℕ, ◌&&◌, ◌==◌, ◌>>◌, ◌||◌,
}

pub data OutcomeStatus : Type 0 where
  outcome_ok outcome_denied outcome_stale not_applied outcome_unknown confirm_required :
      OutcomeStatus

pub data Effect : Type 0 where
  not_sent applied effect_unknown : Effect

pub data Retry : Type 0 where
  no_retry refresh reconcile : Retry

-- The seven receipts and the blocker are opaque to the validator.
pub record GuardOutcome (Receipt Blocker : Type 0) : Type 0 where
  pub status : OutcomeStatus
  pub effect : Effect
  pub retry : Retry
  pub receipt : Option Receipt
  pub blocked_by : Option Blocker

pub data OutcomeError : Type 0 where
  receipt_missing receipt_unclaimed blocked_not_unsent : OutcomeError

abbrev pub is_outcome_ok : OutcomeStatus → Bool
is_outcome_ok outcome_ok = true
is_outcome_ok _ = false

abbrev pub is_outcome_unknown : OutcomeStatus → Bool
is_outcome_unknown outcome_unknown = true
is_outcome_unknown _ = false

abbrev pub is_applied : Effect → Bool
is_applied applied = true
is_applied _ = false

abbrev pub is_not_sent : Effect → Bool
is_not_sent not_sent = true
is_not_sent _ = false

abbrev pub is_no_retry : Retry → Bool
is_no_retry no_retry = true
is_no_retry _ = false

-- `GuardOutcome.exact_receipt`
unfoldable pub exact_receipt :
    {Receipt Blocker : Type 0} → GuardOutcome Receipt Blocker → Result OutcomeError (Unit {0})
exact_receipt o = do
  forbid (is_applied o.effect && (not (is_outcome_ok o.status) || is_none o.receipt))
      receipt_missing
  forbid (is_some o.receipt && (not (is_applied o.effect) || not (is_outcome_ok o.status)))
      receipt_unclaimed
  forbid
      (is_some o.blocked_by
        && (not (is_outcome_unknown o.status)
            || (not (is_not_sent o.effect) || not (is_no_retry o.retry))))
      blocked_not_unsent

pub data FeedbackClass : Type 0 where
  new_class amend duplicate sub_item related : FeedbackClass

abbrev pub is_new : FeedbackClass → Bool
is_new new_class = true
is_new _ = false

pub record FeedbackClassification : Type 0 where
  pub source_work_id : String
  pub classification : FeedbackClass
  pub target_work_id : Option String
  pub observed_target_revision : Option String
  pub code_status : Option String
  pub fork_runtime : Option ℕ
  pub critical_path_wait : Option ℕ

pub data FeedbackError : Type 0 where
  target_mismatch self_target timings_missing : FeedbackError

-- `ProtectedFeedbackClassification.exact_target`
unfoldable pub exact_target : FeedbackClassification → Result FeedbackError (Unit {0})
exact_target f = do
  require
      (bool_beq (not (is_new f.classification)) (is_some f.target_work_id)
        && bool_beq (not (is_new f.classification)) (is_some f.observed_target_revision))
      target_mismatch
  forbid (f.target_work_id == some f.source_work_id) self_target
  require
      (bool_beq (is_none f.code_status) (is_none f.fork_runtime || is_none f.critical_path_wait))
      timings_missing
