-- ===== src/Grants/Relations.antt =====
-- The relation changes that the validator of `RelationPatch` lets through.
use switchstand.Base.{Option, String, arith, is_some, none, ok, some, true, ◌↔◌, ◌≡◌}
use switchstand.Grants.{
  PullRequestChange, RelationAction, RelationKind, RelationPatch, add_relation, assignee, clear,
  dependency, is_add_move_or_remove, is_add_or_remove, is_remove, parent_relation, placement,
  pull_request_relation, remove, set, valid_relation, validate_assignee, validate_dependency,
  validate_parent, validate_placement, validate_pr, validate_transfer,
}

-- A transfer names the version, the recipient and the acceptance; another change names no owner.
abbrev pub IsOwned : RelationAction → PullRequestChange → Type 0
IsOwned set t =
    (is_some t.expected_version ≡ true)
    × (is_some t.recipient_key ≡ true)
    × (is_some t.acceptance_delivery_id ≡ true)
IsOwned add_relation t = (t.recipient_key ≡ none) × (t.acceptance_delivery_id ≡ none)
IsOwned remove t = (t.recipient_key ≡ none) × (t.acceptance_delivery_id ≡ none)
IsOwned _ t = ⊥

-- A value is given with `set` and not with `clear`; there is no other action.
abbrev pub IsSetOrClear : RelationAction → Option String → Type 0
IsSetOrClear set o = is_some o ≡ true
IsSetOrClear clear o = o ≡ none
IsSetOrClear _ o = ⊥

-- A project of this tracker takes no section; a provider's project may, but not to be left.
abbrev pub IsPlacement : RelationAction → Option String → Option String → Option String → Type 0
IsPlacement action (some project) (some gid) section = ⊥
IsPlacement action (some project) none section = (is_add_or_remove action ≡ true) × (section ≡ none)
IsPlacement action none (some gid) section =
    (is_add_move_or_remove action ≡ true) × (is_remove action ≡ true → section ≡ none)
IsPlacement action none none section = ⊥

-- The fields that each kind of relation has.
abbrev pub HasShape : RelationKind → RelationPatch → Type 0
HasShape assignee p =
    IsSetOrClear p.action p.assignee_gid
    × (p.pull_request ≡ none)
    × (p.target_work_id ≡ none)
    × (p.project_id ≡ none)
    × (p.project_gid ≡ none)
    × (p.section_gid ≡ none)
HasShape placement p =
    IsPlacement p.action p.project_id p.project_gid p.section_gid
    × (p.pull_request ≡ none)
    × (p.target_work_id ≡ none)
    × (p.assignee_gid ≡ none)
HasShape parent_relation p =
    IsSetOrClear p.action p.target_work_id
    × (p.pull_request ≡ none)
    × (p.project_id ≡ none)
    × (p.assignee_gid ≡ none)
    × (p.project_gid ≡ none)
    × (p.section_gid ≡ none)
HasShape dependency p =
    (is_add_or_remove p.action ≡ true)
    × (is_some p.target_work_id ≡ true)
    × (p.pull_request ≡ none)
    × (p.project_id ≡ none)
    × (p.assignee_gid ≡ none)
    × (p.project_gid ≡ none)
    × (p.section_gid ≡ none)
HasShape pull_request_relation p =
    ((t : PullRequestChange) × (p.pull_request ≡ some t) × IsOwned p.action t)
    × (p.target_work_id ≡ none)
    × (p.project_id ≡ none)
    × (p.assignee_gid ≡ none)
    × (p.project_gid ≡ none)
    × (p.section_gid ≡ none)

-- the patch with these fields
abbrev patch_of :
    RelationKind
    → RelationAction
    → Option String
    → Option String
    → Option String
    → Option String
    → Option String
    → Option PullRequestChange
    → RelationPatch
patch_of k a target project someone gid section pr = record {
  kind = k;
  action = a;
  target_work_id = target;
  project_id = project;
  assignee_gid = someone;
  project_gid = gid;
  section_gid = section;
  pull_request = pr;
}

fields-HasShape :
    (k : RelationKind) (a : RelationAction) (target project someone gid section : Option String)
    (pr : Option PullRequestChange)
    → valid_relation (patch_of k a target project someone gid section pr) ≡ ok tt
    → HasShape k (patch_of k a target project someone gid section pr)
unfolding valid_relation validate_assignee validate_placement validate_parent validate_dependency
    validate_pr validate_transfer
fields-HasShape assignee a target project someone gid section pr h = ground arith
fields-HasShape placement a target none someone gid section pr h = ground arith
fields-HasShape placement a target (some x) someone gid section pr h = ground arith
fields-HasShape _ a target project someone gid section none h = ground arith
fields-HasShape _ a target project someone gid section (some t) h = ground arith

shape_passes :
    (k : RelationKind) (a : RelationAction) (target project someone gid section : Option String)
    (pr : Option PullRequestChange)
    → HasShape k (patch_of k a target project someone gid section pr)
    → valid_relation (patch_of k a target project someone gid section pr) ≡ ok tt
unfolding valid_relation validate_assignee validate_placement validate_parent validate_dependency
    validate_pr validate_transfer
shape_passes assignee a target project someone gid section pr h = ground arith
shape_passes placement a target none someone gid section pr h = ground arith
shape_passes placement a target (some x) someone gid section pr h = ground arith
shape_passes _ a target project someone gid section none h = ground arith
shape_passes _ a target project someone gid section (some t) h = ground arith

-- The validator accepts exactly the patches that have the shape of their kind: a pull request
-- relation with its identity alone, owned by a transfer only; an assignee or a parent that is set
-- with a value or cleared without one; a placement in one project; a dependency on a target; and
-- no field of another kind.
pub valid_relation_iff : (p : RelationPatch) → (valid_relation p ≡ ok tt) ↔ HasShape p.kind p
valid_relation_iff p = (
  λ h.
      fields-HasShape p.kind p.action p.target_work_id p.project_id p.assignee_gid p.project_gid
        p.section_gid p.pull_request h,
  λ h.
      shape_passes p.kind p.action p.target_work_id p.project_id p.assignee_gid p.project_gid
        p.section_gid p.pull_request h,
)
