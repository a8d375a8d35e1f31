-- ===== src/Grants.antt =====
-- src/switchstand/grants.py and PullRequestChange of pull_requests.py: trusted grants and the
-- validators of protected requests and outcomes. A UUID is its text, a time its instant; the
-- bounds that the fields' declarations put on lengths are not modelled.
pub mod Relations
pub mod Outcome
pub mod Outcomes
mod Examples
use switchstand.Base.{
  [], not, bool_beq, is_some, some, string_eq, err, forbid, ltb, require, ◌==◌, ◌∷◌, false,
  if◌then◌else◌, none, true, ◌&&◌, ◌>>◌, ◌||◌, Bool, List, Option, Result, String, ℕ,
}
use switchstand.Core.{LaunchAuthority, can_read}

pub data Scope : Type 0 where
  launch_scope workspace_scope : Scope

pub data GrantState : Type 0 where
  active revoked terminal : GrantState

-- of a grant, what its methods read
pub record WorkGrant : Type 0 where
  pub authority : LaunchAuthority
  pub scope : Scope
  pub expires_at : ℕ
  pub state : GrantState

abbrev pub is_active_state : GrantState → Bool
is_active_state active = true
is_active_state _ = false

-- `WorkGrant.current`, at the instant that the clock gives
unfoldable pub current : WorkGrant → ℕ → Bool
current g now = is_active_state g.state && ltb now g.expires_at

-- `WorkGrant.can_read`
unfoldable pub grant_can_read : WorkGrant → String → Bool → Bool
grant_can_read g work_id explicit_target = elim g.scope [
  | workspace_scope ↦ explicit_target
  | launch_scope ↦ can_read g.authority work_id
]

-- `WorkGrant.can_write`
unfoldable pub grant_can_write : WorkGrant → String → Bool
grant_can_write g work_id = elim g.scope [
  | workspace_scope ↦ true
  | launch_scope ↦ work_id == g.authority.active_work_id
]

pub record PullRequestChange : Type 0 where
  pub repository : String
  pub number : ℕ
  pub expected_version : Option ℕ
  pub recipient_key : Option String
  pub acceptance_delivery_id : Option String
  pub package_ref : String

pub data RelationKind : Type 0 where
  assignee placement parent_relation dependency pull_request_relation : RelationKind

pub data RelationAction : Type 0 where
  set clear add_relation remove move : RelationAction

pub record RelationPatch : Type 0 where
  pub kind : RelationKind
  pub action : RelationAction
  pub target_work_id : Option String
  pub project_id : Option String
  pub assignee_gid : Option String
  pub project_gid : Option String
  pub section_gid : Option String
  pub pull_request : Option PullRequestChange

pub data RelationError : Type 0 where
  pr_identity_only transfer_incomplete ownership_needs_set unrelated_pr : RelationError
  assignee_action assignee_target assignee_fields : RelationError
  project_identity canonical_placement provider_placement : RelationError
  parent_action parent_target parent_fields : RelationError
  dependency_action dependency_fields : RelationError

abbrev pub is_set : RelationAction → Bool
is_set set = true
is_set _ = false

abbrev pub is_set_or_clear : RelationAction → Bool
is_set_or_clear set = true
is_set_or_clear clear = true
is_set_or_clear _ = false

abbrev pub is_add_or_remove : RelationAction → Bool
is_add_or_remove add_relation = true
is_add_or_remove remove = true
is_add_or_remove _ = false

abbrev pub is_remove : RelationAction → Bool
is_remove remove = true
is_remove _ = false

abbrev pub is_add_remove_or_set : RelationAction → Bool
is_add_remove_or_set a = is_add_or_remove a || is_set a

abbrev pub is_add_move_or_remove : RelationAction → Bool
is_add_move_or_remove move = true
is_add_move_or_remove a = is_add_or_remove a

-- `any(value is not None for value in ...)`
abbrev pub any_given : List (Option String) → Bool
any_given [] = false
any_given (v ∷ vs) = is_some v || any_given vs

-- the part on a pull request that was given
unfoldable pub validate_transfer :
    RelationAction → PullRequestChange → Result RelationError (Unit {0})
validate_transfer action t =
    if is_set action
    then require
        (is_some t.expected_version
          && (is_some t.recipient_key && is_some t.acceptance_delivery_id))
        transfer_incomplete
    else forbid (is_some t.recipient_key || is_some t.acceptance_delivery_id) ownership_needs_set

-- the branch on `kind == "pull_request"`
unfoldable pub validate_pr : RelationPatch → Result RelationError (Unit {0})
validate_pr p = elim p.pull_request [
  | none ↦ err pr_identity_only
  | some t ↦
      if not (is_add_remove_or_set p.action)
        || any_given
            (p.target_work_id ∷ p.project_id ∷ p.assignee_gid ∷ p.project_gid ∷ p.section_gid ∷ [])
      then err pr_identity_only
      else validate_transfer p.action t
]

unfoldable pub validate_assignee : RelationPatch → Result RelationError (Unit {0})
validate_assignee p = do
  require (is_set_or_clear p.action) assignee_action
  require (bool_beq (is_set p.action) (is_some p.assignee_gid)) assignee_target
  forbid (any_given (p.target_work_id ∷ p.project_id ∷ p.project_gid ∷ p.section_gid ∷ []))
      assignee_fields

unfoldable pub validate_placement : RelationPatch → Result RelationError (Unit {0})
validate_placement p = do
  forbid (bool_beq (is_some p.project_id) (is_some p.project_gid)) project_identity
  if is_some p.project_id
      then forbid
          (not (is_add_or_remove p.action)
            || any_given (p.target_work_id ∷ p.assignee_gid ∷ p.project_gid ∷ p.section_gid ∷ []))
          canonical_placement
      else forbid
          (not (is_add_move_or_remove p.action)
            || (is_some p.target_work_id
                || (is_some p.assignee_gid || (is_remove p.action && is_some p.section_gid))))
          provider_placement

unfoldable pub validate_parent : RelationPatch → Result RelationError (Unit {0})
validate_parent p = do
  require (is_set_or_clear p.action) parent_action
  require (bool_beq (is_set p.action) (is_some p.target_work_id)) parent_target
  forbid (any_given (p.project_id ∷ p.assignee_gid ∷ p.project_gid ∷ p.section_gid ∷ []))
      parent_fields

unfoldable pub validate_dependency : RelationPatch → Result RelationError (Unit {0})
validate_dependency p = do
  require (is_add_or_remove p.action && is_some p.target_work_id) dependency_action
  forbid (any_given (p.project_id ∷ p.assignee_gid ∷ p.project_gid ∷ p.section_gid ∷ []))
      dependency_fields

-- `RelationPatch.valid_relation`
unfoldable pub valid_relation : RelationPatch → Result RelationError (Unit {0})
valid_relation p = elim p.kind [
  | pull_request_relation ↦ validate_pr p
  | assignee ↦ (do forbid (is_some p.pull_request) unrelated_pr; validate_assignee p)
  | placement ↦ (do forbid (is_some p.pull_request) unrelated_pr; validate_placement p)
  | parent_relation ↦ (do forbid (is_some p.pull_request) unrelated_pr; validate_parent p)
  | dependency ↦ (do forbid (is_some p.pull_request) unrelated_pr; validate_dependency p)
]
