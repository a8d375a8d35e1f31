-- ===== src/Grants/Outcomes.antt =====
-- What outcomes, classifications and grants say of each other's fields.
use switchstand.Core.{LaunchAuthority, can_read}
use switchstand.Grants.{
  GrantState, Scope, WorkGrant, grant_can_read, grant_can_write, launch_scope, workspace_scope,
}
use switchstand.Base.{
  string_eq, Bool-cases, String, arith, beq_refl, false, inl, inr, is_none, is_some, ok, refl, some,
  str_iff, true, ℕ, ◌↔◌, ◌≡◌, ◌≢◌,
}
use switchstand.Grants.Outcome.{
  FeedbackClassification, GuardOutcome, exact_receipt, exact_target, is_applied, is_new,
  is_no_retry, is_not_sent, is_outcome_ok, is_outcome_unknown,
}

-- A receipt stands exactly with an applied effect, which is ok; a blocked request is unknown,
-- was not sent and is not to be retried.
pub record IsExact {Receipt Blocker : Type 0} (o : GuardOutcome Receipt Blocker) : Type 0 where
  pub receipted : is_some o.receipt ≡ is_applied o.effect
  pub applied_ok : is_applied o.effect ≡ true → is_outcome_ok o.status ≡ true
  pub blocked_unsent :
      is_some o.blocked_by ≡ true
      → (is_outcome_unknown o.status ≡ true)
        × (is_not_sent o.effect ≡ true)
        × (is_no_retry o.retry ≡ true)

-- The validator of `GuardOutcome` accepts exactly the outcomes in which a receipt stands if and
-- only if the effect was applied, an applied effect is ok, and a blocked request is unknown,
-- unsent and without a retry.
pub exact_receipt_iff :
    {Receipt Blocker : Type 0} (o : GuardOutcome Receipt Blocker)
    → (exact_receipt o ≡ ok tt) ↔ IsExact o
unfolding exact_receipt
exact_receipt_iff o = (
  λ h. record {
    receipted = ground arith;
    applied_ok = λ e. ground arith;
    blocked_unsent = λ e. (ground arith, ground arith, ground arith);
  },
  λ x.
      let receipted = x.receipted in
      elim (Bool-cases (is_applied o.effect)) [
        | inl e ↦
            let done = x.applied_ok e in
            elim (Bool-cases (is_some o.blocked_by)) [
              | inl b ↦ let (u, n, q) = x.blocked_unsent b in ground arith
              | inr b ↦ ground arith
            ]
        | inr e ↦ elim (Bool-cases (is_some o.blocked_by)) [
          | inl b ↦ let (u, n, q) = x.blocked_unsent b in ground arith
          | inr b ↦ ground arith
        ]
      ],
)

-- A class other than NEW has a target, which is not the source, and its revision; a code status
-- comes with both timings, which come together.
pub record IsClassified (f : FeedbackClassification) : Type 0 where
  pub targeted : is_new f.classification ≡ is_none f.target_work_id
  pub revised : is_some f.observed_target_revision ≡ is_some f.target_work_id
  pub other : f.target_work_id ≢ some f.source_work_id
  pub timed :
      is_some f.code_status ≡ true
      → (is_some f.fork_runtime ≡ true) × (is_some f.critical_path_wait ≡ true)

-- A feedback classification that the validator accepts has a target with its revision exactly
-- when its class is not NEW, never targets itself, and has both timings for a code status.
pub exact_target-IsClassified :
    (f : FeedbackClassification) → exact_target f ≡ ok tt → IsClassified f
unfolding exact_target
exact_target-IsClassified f h = record {
  targeted = ground arith;
  revised = ground arith;
  other = λ e. ground (arith, beq_refl f.source_work_id);
  timed = λ e. (ground arith, ground arith);
}

scope_within :
    (s : Scope) (a : LaunchAuthority) (expires : ℕ) (st : GrantState) (work_id : String)
    → grant_can_write
        (record { authority = a; scope = s; expires_at = expires; state = st })
        work_id
      ≡ true
    → (grant_can_read
          (record { authority = a; scope = s; expires_at = expires; state = st })
          work_id
          true
        ≡ true)
      × (s ≡ launch_scope
          → (work_id ≡ a.active_work_id)
            × (grant_can_read
                  (record { authority = a; scope = s; expires_at = expires; state = st })
                  work_id
                  false
                ≡ true))
unfolding grant_can_write grant_can_read can_read
scope_within workspace_scope a expires st work_id h = (refl, λ e. cc)
scope_within launch_scope a expires st work_id h =
    (rw h refl, λ e. ((str_iff work_id a.active_work_id).0 h, rw h refl))

-- What a grant lets its caller write it lets the caller read as an explicit target, and a grant
-- of a launch writes no work but the active one, which it may read without a target too.
pub write_within_read :
    (g : WorkGrant) (work_id : String)
    → grant_can_write g work_id ≡ true
    → (grant_can_read g work_id true ≡ true)
      × (g.scope ≡ launch_scope
          → (work_id ≡ g.authority.active_work_id) × (grant_can_read g work_id false ≡ true))
write_within_read g work_id h = scope_within g.scope g.authority g.expires_at g.state work_id h
