-- ===== src/AffectedTests/Examples.antt =====
-- Tests of src/switchstand/affected_tests.py on a small repository, and the instances of the theorems.
use switchstand.AffectedTests.Complete.{imports_changed-ImportsFrom}
use switchstand.AffectedTests.Validated.{validate_execution_tree-elem}
use switchstand.AffectedTests.Reach.{ImportsFrom}
use switchstand.AffectedTests.Promoted.{foreground_authority-IsPromotable, IsPromotable}
use switchstand.AffectedTests.Walk.{Graph, imports_changed}
use switchstand.AffectedTests.Authority.{full_fallback_authority, foreground_authority}
use switchstand.AffectedTests.Exact.{exact_sha, validate_execution_tree, Git}
use switchstand.AffectedTests.{Plan, exact_basis}
use switchstand.Base.{
  err, ◌↔◌, ◌⊎◌, elem, ◌≢◌, List, Result, String, [], false, if◌then◌else◌, map, none, ok, refl,
  some, string_eq, true, ◌==◌, ◌∷◌, ◌≡◌,
}
use switchstand.AffectedTests.Planner.{test_files, read_graph, PlanInput, plan}
use switchstand.AffectedTests.Paths.{
  drop_empty, drop_py, ends_with, fnmatchcase, last_part, lstrip_dots, module_of, split_on,
}
use switchstand.AffectedTests.Imports.{ErrorName, Node, import_from, import_names}

abbrev sources : List String
sources =
    "src/switchstand/a.py" ∷ "src/switchstand/coordinator_worker_state.py" ∷ "tests/test_a.py"
    ∷ "tests/test_c.py" ∷ []

-- test_a imports a, a imports coordinator_worker_state relatively, which imports a
abbrev parsed : String → Result ErrorName (List Node)
parsed path =
    if path == "tests/test_a.py"
    then ok (import_from 0 (some "switchstand") ("a" ∷ []) ∷ [])
    else if path == "src/switchstand/a.py"
    then ok (import_from 1 none ("coordinator_worker_state" ∷ []) ∷ [])
    else if path == "src/switchstand/coordinator_worker_state.py"
    then ok (import_names ("switchstand.a" ∷ []) ∷ [])
    else ok []

abbrev old_sha : String
old_sha = "1111111111111111111111111111111111111111"

abbrev new_sha : String
new_sha = "2222222222222222222222222222222222222222"

abbrev change_state : PlanInput
change_state = record {
  basis_kind = exact_basis;
  base = old_sha;
  head = new_sha;
  changed = "src/switchstand/coordinator_worker_state.py" ∷ [];
  destructive = false;
  files = sources;
  read = parsed;
}

module_names :
    map module_of ("src/switchstand/__init__.py" ∷ "tests/test_a.py" ∷ "src/a/.hidden.py" ∷ [])
    ≡ some "switchstand" ∷ some "tests.test_a" ∷ some "a..hidden" ∷ []
unfolding module_of ends_with lstrip_dots last_part drop_py split_on drop_empty
module_names = refl

patterns :
    map (fnmatchcase "compose.prod.yaml") ("compose*.y*ml" ∷ "compose" ∷ "*.json" ∷ [])
    ≡ true ∷ false ∷ false ∷ []
unfolding fnmatchcase
patterns = refl

-- The imports are not read when a direct test alone changed, even if nothing parses.
direct_change :
    (plan (record change_state {
      changed = "tests/test_a.py" ∷ [];
      read = λ path. err "SyntaxError";
    })).selected_tests
    ≡ "tests/test_a.py" ∷ []
unfolding plan
direct_change = refl

abbrev git : Git
git = record {
  rev_parse = λ v. some v;
  tree_files = λ sha. some sources;
  diff = λ a b. some ("M" ∷ "src/switchstand/coordinator_worker_state.py" ∷ "" ∷ []);
  show = λ sha. parsed;
}

abbrev state_plan : Plan
state_plan = plan change_state

abbrev graph : Graph
graph = (read_graph change_state).0

imports_changed-ImportsFrom_example :
    (hits : List String) × (imports_changed graph
        ("switchstand.coordinator_worker_state" ∷ [])
        "tests/test_a.py"
      ≡ some hits)
    × ((name : String)
        → (elem name hits ≡ true)
          ↔ ImportsFrom graph ("switchstand.coordinator_worker_state" ∷ []) "tests/test_a.py" name)
imports_changed-ImportsFrom_example =
    imports_changed-ImportsFrom graph ("switchstand.coordinator_worker_state" ∷ [])
      "tests/test_a.py"

foreground_authority-IsPromotable_example :
    ((foreground_authority state_plan true true false).mode ≢ full_fallback_authority)
    ↔ IsPromotable state_plan true true false
foreground_authority-IsPromotable_example =
    foreground_authority-IsPromotable state_plan true true false

runs_a :
    elem "tests/test_a.py" (validate_execution_tree git state_plan new_sha).selected_tests ≡ true
unfolding validate_execution_tree plan elem
runs_a = refl

validate_execution_tree-elem_example :
    (sha : String) × (files : List String) × (exact_sha git new_sha ≡ some sha)
    × (git.tree_files sha ≡ some files)
    × (elem "tests/test_a.py" files ≡ true)
    × ((validate_execution_tree git state_plan new_sha ≡ state_plan)
        ⊎ ((validate_execution_tree git state_plan new_sha).selected_tests ≡ test_files files))
validate_execution_tree-elem_example =
    validate_execution_tree-elem git state_plan new_sha "tests/test_a.py" runs_a
