-- ===== src/AffectedTests/Selected.antt =====
-- What a plan of src/switchstand/affected_tests.py that selects tests promises.
use switchstand.AffectedTests.Complete.{imports_changed-ImportsFrom}
use switchstand.AffectedTests.Walk.{Graph}
use switchstand.AffectedTests.Reach.{ImportsFrom}
use switchstand.AffectedTests.Paths.{ends_with}
use switchstand.AffectedTests.{explicit_rules}
use switchstand.AffectedTests.Planner.{
  PlanInput, changed_modules, hit_reasons, path_reasons, plan_reasons, rule_reasons, rules_of,
  same_name_reasons, select, test_files, test_reasons,
}
use switchstand.AffectedTests.Named.{
  Named, Named-concat_map, Named-left, Named-right, Named-select, OnlyTests, OnlyTests-append,
  OnlyTests-concat_map, OnlyTests-select, nothing,
}
use switchstand.Base.{
  sym, subst, List, Option, String, [], concat_map, elem, if_both, if◌then◌else◌, none, some,
  starts_with, string_eq, true, ◌&&◌, ◌++◌, ◌<>◌, ◌∷◌, ◌≡◌,
}

rule_reasons-OnlyTests :
    (tests : List String) (path : String) (rules : List (Option (List String)))
    → OnlyTests tests (rule_reasons tests path rules)
unfolding elem
rule_reasons-OnlyTests tests path [] = λ t h. cc
rule_reasons-OnlyTests tests path (none ∷ []) = λ t h. cc
rule_reasons-OnlyTests tests path (some named ∷ []) =
    OnlyTests-concat_map tests (λ test. select tests test ("explicit rule:" <> path)) named
      (λ test. OnlyTests-select tests test ("explicit rule:" <> path))
rule_reasons-OnlyTests tests path (none ∷ other ∷ rules) = λ t h. cc
rule_reasons-OnlyTests tests path (some named ∷ other ∷ rules) = λ t h. cc

path_reasons-OnlyTests :
    (tests : List String) (path : String) → OnlyTests tests (path_reasons tests path)
unfolding path_reasons
path_reasons-OnlyTests tests path =
    OnlyTests-append tests
      (if elem path tests then select tests path ("changed test:" <> path) else [])
      (rule_reasons tests path (rules_of explicit_rules path))
      (if_both (OnlyTests tests) (elem path tests) _ _
        (OnlyTests-select tests path ("changed test:" <> path)) (nothing tests))
      (rule_reasons-OnlyTests tests path (rules_of explicit_rules path))

hit_reasons-OnlyTests :
    (tests : List String) (test : String) (names : List String)
    → OnlyTests tests (hit_reasons tests test names)
unfolding hit_reasons
hit_reasons-OnlyTests tests test [] = nothing tests
hit_reasons-OnlyTests tests test (name ∷ names) =
    OnlyTests-append tests (select tests test ("imports changed module:" <> name))
      (hit_reasons tests test names)
      (OnlyTests-select tests test ("imports changed module:" <> name))
      (hit_reasons-OnlyTests tests test names)

test_reasons-OnlyTests :
    (g : Graph) (changed tests : List String) (test : String)
    → OnlyTests tests (test_reasons g changed tests test)
unfolding test_reasons
test_reasons-OnlyTests g changed tests test =
    let (hits, e, iff) = imports_changed-ImportsFrom g changed test in
    rw (e, test_reasons) (hit_reasons-OnlyTests tests test hits)

same_name-OnlyTests :
    (tests : List String) (path : String) → OnlyTests tests (same_name_reasons tests path)
unfolding same_name_reasons
same_name-OnlyTests tests path =
    if_both (OnlyTests tests) (starts_with path "src/switchstand/" && ends_with ".py" path) _ _
      (OnlyTests-select tests _ _) (nothing tests)

pub plan_reasons-OnlyTests :
    (i : PlanInput) (g : Graph) → OnlyTests (test_files i.files) (plan_reasons i g)
unfolding plan_reasons
plan_reasons-OnlyTests i g =
    let tests = test_files i.files in
    let by_path = concat_map (path_reasons tests) i.changed in
    let by_test = concat_map (test_reasons g (changed_modules i.changed) tests) tests in
    let by_name = concat_map (same_name_reasons tests) i.changed in
    OnlyTests-append tests by_path (by_test ++ by_name)
      (OnlyTests-concat_map tests (path_reasons tests) i.changed (path_reasons-OnlyTests tests))
      (OnlyTests-append tests by_test by_name
        (OnlyTests-concat_map tests (test_reasons g (changed_modules i.changed) tests) tests
          (test_reasons-OnlyTests g (changed_modules i.changed) tests))
        (OnlyTests-concat_map tests (same_name_reasons tests) i.changed
          (same_name-OnlyTests tests)))

hit_reasons-Named :
    (tests : List String) (test name : String) (hits : List String)
    → elem test tests ≡ true
    → elem name hits ≡ true
    → Named test (hit_reasons tests test hits)
unfolding hit_reasons elem
hit_reasons-Named tests test name [] m h = cc
hit_reasons-Named tests test name (x ∷ hits) m h =
    Named-left test (select tests test ("imports changed module:" <> x))
      (hit_reasons tests test hits) (Named-select tests test ("imports changed module:" <> x) m)

-- A test that imports a changed module has a reason.
pub imports-Named :
    (i : PlanInput) (g : Graph) (test name : String)
    → elem test (test_files i.files) ≡ true
    → ImportsFrom g (changed_modules i.changed) test name
    → Named test (plan_reasons i g)
unfolding plan_reasons test_reasons
imports-Named i g test name m imports =
    let tests = test_files i.files in
    let changed = changed_modules i.changed in
    let (hits, e, iff) = imports_changed-ImportsFrom g changed test in
    let found : Named test (test_reasons g changed tests test) =
      rw (e, test_reasons) (hit_reasons-Named tests test name hits m ((iff name).1 imports)) in
    Named-right test (concat_map (path_reasons tests) i.changed) _ (
      Named-left test (concat_map (test_reasons g changed tests) tests) _
        (Named-concat_map test test (test_reasons g changed tests) tests m found))

-- A test that is changed has a reason.
changed_one :
    (tests : List String) (path : String)
    → elem path tests ≡ true
    → Named path (if elem path tests then select tests path ("changed test:" <> path) else [])
changed_one tests path m =
    subst (λ b. Named path (if b then select tests path ("changed test:" <> path) else [])) (sym m)
      (Named-select tests path ("changed test:" <> path) m)

pub changed-Named :
    (i : PlanInput) (g : Graph) (path : String)
    → elem path (test_files i.files) ≡ true
    → elem path i.changed ≡ true
    → Named path (plan_reasons i g)
unfolding plan_reasons path_reasons
changed-Named i g path m h =
    let tests = test_files i.files in
    Named-left path (concat_map (path_reasons tests) i.changed) _ (
      Named-concat_map path path (path_reasons tests) i.changed h (
        Named-left path
          (if elem path tests then select tests path ("changed test:" <> path) else [])
          (rule_reasons tests path (rules_of explicit_rules path)) (changed_one tests path m)))
