-- ===== src/AffectedTests/Exact.antt =====
-- `_changed`, `plan_exact` and `validate_execution_tree` of src/switchstand/affected_tests.py, over
-- what git answers.
use switchstand.AffectedTests.Planner.{plan, test_files}
use switchstand.AffectedTests.Imports.{ErrorName, Node}
use switchstand.AffectedTests.{
  Plan, PlanMode, exact_basis, full_fallback, no_plan, planner_revision,
}
use switchstand.Base.{
  ◌+◌, length, ◌&&◌, all, is_hex, leb, nat_beq, not, codes, ℕ, Bool, List, Option, Result, String,
  [], elem, false, if◌then◌else◌, is_empty, map, none, some, sorted, starts_with, string_eq, to_set,
  true, ◌++◌, ◌<>◌, ◌==◌, ◌||◌, ◌∷◌,
}

-- what git answers, or none where the call raises: `rev-parse` of a commit, the files of a tree,
-- the fields of the diff of two commits between its zero bytes, and the nodes of a file's text
pub record Git : Type 0 where
  pub rev_parse : String → Option String
  pub tree_files : String → Option (List String)
  pub diff : String → String → Option (List String)
  pub show : String → String → Result ErrorName (List Node)

abbrev pub has_two_names : String → Bool
has_two_names status = starts_with status "R" || starts_with status "C"

abbrev pub removes : String → Bool
removes status = starts_with status "D" || starts_with status "R"

abbrev pub and_path : String → Bool → Option (List String × Bool) → Option (List String × Bool)
and_path path gone none = none
and_path path gone (some (paths, destructive)) = some (path ∷ paths, gone || destructive)

-- `[0-9a-fA-F]`
abbrev pub is_hex_either : ℕ → Bool
is_hex_either c = is_hex c || leb b'A' c && leb c b'F'

abbrev pub lower : ℕ → ℕ
lower c = if leb b'A' c && leb c b'Z' then c + 32 else c

-- `a.lower() == b.lower()` on the code points of ASCII texts
unfoldable pub same_lower : List ℕ → List ℕ → Bool
same_lower [] [] = true
same_lower [] (y ∷ ys) = false
same_lower (x ∷ xs) [] = false
same_lower (x ∷ xs) (y ∷ ys) = nat_beq (lower x) (lower y) && same_lower xs ys

-- `_SHA.fullmatch(value)`
unfoldable pub is_full_sha : String → Bool
unfolding codes all is_hex
is_full_sha value = nat_beq (length (codes value)) 40 && all is_hex_either (codes value)

abbrev pub if_same : String → Option String → Option String
if_same value none = none
if_same value (some resolved) =
    if same_lower (codes resolved) (codes value) then some resolved else none

-- `_exact_sha`
unfoldable pub exact_sha : Git → String → Option String
unfolding is_full_sha same_lower codes
exact_sha git value = if not (is_full_sha value) then none else if_same value (git.rev_parse value)

-- The loop of `_changed`: a status and its one or two names, of which the last counts. No name is an
-- error.
unfoldable pub diff_entries : List String → Option (List String × Bool)
diff_entries [] = some ([], false)
diff_entries (status ∷ []) = if status == "" then some ([], false) else none
diff_entries (status ∷ a ∷ []) =
    if status == "" then some ([], false) else some (a ∷ [], removes status)
diff_entries (status ∷ a ∷ b ∷ values) = elim (status == "") [
  | true ↦ some ([], false)
  | false ↦ elim (has_two_names status) [
    | true ↦ and_path b (removes status) (diff_entries values)
    | false ↦ and_path a (removes status) (diff_entries (b ∷ values))
  ]
]

-- the changed paths, or one of the errors: git's own, and the one of a name that is missing
pub data Changed : Type 0 where
  changed_paths : List String → Bool → Changed
  no_diff no_name : Changed

abbrev pub sort_paths : Option (List String × Bool) → Changed
sort_paths none = no_name
sort_paths (some (paths, destructive)) = changed_paths (sorted (to_set paths)) destructive

-- `_changed`
abbrev pub changed_of : Option (List String) → Changed
changed_of none = no_diff
changed_of (some values) = sort_paths (diff_entries values)

abbrev pub unplanned : PlanMode → String → String → List String → String → Plan
unplanned mode base head tests reason = record {
  mode = mode;
  basis_kind = exact_basis;
  base = base;
  head = head;
  changed_paths = [];
  selected_tests = tests;
  reasons_by_test = [];
  fallback_reasons = reason ∷ [];
  destructive = false;
  planner_revision = planner_revision;
}

-- The plan of a changed tree. Only git's own error is caught: `none` is the other one, raised.
unfoldable pub plan_changed : Git → String → String → List String → Changed → Option Plan
unfolding plan
plan_changed git base head files no_name = none
plan_changed git base head files no_diff =
    some (unplanned full_fallback base head (test_files files) "exact diff unavailable")
plan_changed git base head files (changed_paths changed destructive) = some (
    plan (record {
      basis_kind = exact_basis;
      base = base;
      head = head;
      changed = changed;
      destructive = destructive;
      files = files;
      read = git.show head;
    }))

-- the two commits and the files of the second, which stand or fall together
unfoldable pub exact_basis_of : Git → String → String → Option (String × String × List String)
exact_basis_of git base head = elim (exact_sha git base) [
  | none ↦ none
  | some base_sha ↦ elim (exact_sha git head) [
    | none ↦ none
    | some head_sha ↦ elim (git.tree_files head_sha) [
      | none ↦ none
      | some files ↦ some (base_sha, head_sha, files)
    ]
  ]
]

unfoldable pub plan_basis :
    Git → String → String → Option (String × String × List String) → Option Plan
unfolding plan_changed diff_entries sorted to_set
plan_basis git base head none = some (unplanned no_plan base head [] "exact basis unavailable")
plan_basis git base head (some (base_sha, head_sha, files)) =
    plan_changed git base_sha head_sha files (changed_of (git.diff base_sha head_sha))

-- `plan_exact`
unfoldable pub plan_exact : Git → String → String → Option Plan
unfolding plan_basis exact_basis_of exact_sha
plan_exact git base head = plan_basis git base head (exact_basis_of git base head)

unfoldable pub missing_tests : List String → List String → List String
unfolding elem
missing_tests [] files = []
missing_tests (test ∷ tests) files =
    let rest = missing_tests tests files in if elem test files then rest else test ∷ rest

-- the plan over the files of the tree
unfoldable pub validate_files : Plan → List String → Plan
unfolding missing_tests test_files sorted to_set
validate_files p files = if is_empty (missing_tests p.selected_tests files) then p else record p {
  mode = if is_empty (test_files files) then no_plan else full_fallback;
  selected_tests = test_files files;
  fallback_reasons = sorted (
      to_set (
        p.fallback_reasons
        ++ map (λ path. "selected test absent from execution tree:" <> path)
            (missing_tests p.selected_tests files)));
}

abbrev pub validate_tree : Plan → Option (List String) → Plan
validate_tree p none = record p {
  mode = no_plan;
  selected_tests = [];
  fallback_reasons = p.fallback_reasons ++ "execution tree unavailable" ∷ [];
}
validate_tree p (some files) = validate_files p files

unfoldable pub files_of : Git → Option String → Option (List String)
files_of git none = none
files_of git (some sha) = git.tree_files sha

-- `validate_execution_tree`
unfoldable pub validate_execution_tree : Git → Plan → String → Plan
unfolding validate_files files_of exact_sha
validate_execution_tree git p execution_tree =
    validate_tree p (files_of git (exact_sha git execution_tree))
