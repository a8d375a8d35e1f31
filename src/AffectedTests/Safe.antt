-- ===== src/AffectedTests/Safe.antt =====
-- When `_plan` of src/switchstand/affected_tests.py selects tests, and what it does otherwise.
use switchstand.AffectedTests.Whole.{IsWhole}
use switchstand.AffectedTests.Reach.{ImportsFrom}
use switchstand.AffectedTests.Paths.{ends_with, module_of}
use switchstand.AffectedTests.Planner.{
  direct_test_only, PlanInput, changed_modules, has_rule, in_tree, is_covered, matches_any,
  plan_reasons, read_graph, test_files,
}
use switchstand.AffectedTests.{Plan, full_fallback, full_fallback_patterns, no_plan}
use switchstand.Base.{
  String, elem, false, if◌then◌else◌, is_empty, is_none, not, string_eq, true, ◌&&◌, ◌≡◌,
}

-- A path that no pattern sends to the whole suite, and that has a module or a rule of its own.
abbrev pub IsMapped : String → Type 0
IsMapped path =
    (matches_any full_fallback_patterns path ≡ false)
    × ((in_tree path && not (ends_with ".py" path)) ≡ false)
    × ((is_none (module_of path) && not (has_rule path)) ≡ false)

-- What holds of the inputs and the plan when tests are selected.
pub record IsSafe (i : PlanInput) (p : Plan) : Type 0 where
  pub kept : i.destructive ≡ false
  pub whole : direct_test_only i.changed i.destructive ≡ false → IsWhole i (read_graph i).0
  pub mapped : (path : String) → elem path i.changed ≡ true → IsMapped path
  pub only_tests :
      (test : String) → elem test p.selected_tests ≡ true → elem test (test_files i.files) ≡ true
  pub some_test : is_empty p.selected_tests ≡ false
  pub importers :
      (test name : String)
      → direct_test_only i.changed i.destructive ≡ false
      → elem test (test_files i.files) ≡ true
      → ImportsFrom (read_graph i).0 (changed_modules i.changed) test name
      → elem test p.selected_tests ≡ true
  pub changed_tests :
      (path : String)
      → elem path (test_files i.files) ≡ true
      → elem path i.changed ≡ true
      → elem path p.selected_tests ≡ true
  pub covered :
      (path : String)
      → elem path i.changed ≡ true
      → (ends_with ".py" path && in_tree path) ≡ true
      → is_covered (test_files i.files) (plan_reasons i (read_graph i).0) path ≡ true

-- A plan that selects nothing runs every test of the tree, unless there is none, and gives a reason.
pub record IsFallback (i : PlanInput) (p : Plan) : Type 0 where
  pub all_tests : p.selected_tests ≡ test_files i.files
  pub by_mode : p.mode ≡ (if is_empty (test_files i.files) then no_plan else full_fallback)
  pub reason : String
  pub given : elem reason p.fallback_reasons ≡ true
