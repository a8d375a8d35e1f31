-- ===== src/AffectedTests/Planner.antt =====
-- `_plan` of src/switchstand/affected_tests.py.
use switchstand.AffectedTests.Walk.{Graph, imports_changed}
use switchstand.AffectedTests.Imports.{ErrorName, Node, drop_last, imports_in, nodes_imports}
use switchstand.AffectedTests.Paths.{
  drop_py, ends_with, fnmatchcase, is_direct_test, is_test_path, last_part, module_of, path_parts,
  split_on,
}
use switchstand.Base.{
  Bool, List, Option, Result, String, [], all, any, concat_map, elem, err, false, if◌then◌else◌,
  is_empty, is_none, map, none, not, ok, some, sorted, starts_with, string_eq, to_set, true, ◌&&◌,
  ◌++◌, ◌<>◌, ◌==◌, ◌>>=◌, ◌||◌, ◌∷◌,
}
use switchstand.AffectedTests.{
  BasisKind, Plan, Reasons, explicit_rules, full_fallback, full_fallback_patterns, no_plan,
  planner_revision, selected,
}

-- the arguments of `_plan`; `imports` is the parser on the text of a file, by its nodes
pub record PlanInput : Type 0 where
  pub basis_kind : BasisKind
  pub base : String
  pub head : String
  pub changed : List String
  pub destructive : Bool
  pub files : List String
  pub read : String → Result ErrorName (List Node)

unfoldable pub test_files : List String → List String
unfolding is_test_path
test_files [] = []
test_files (path ∷ paths) =
    let rest = test_files paths in if is_test_path path then path ∷ rest else rest

abbrev pub matches_any : List String → String → Bool
matches_any patterns path = any (fnmatchcase path) patterns

abbrev pub has_rule : String → Bool
has_rule path =
    any (λ (rule : String × Option (List String)). fnmatchcase path rule.0) explicit_rules

-- `if test: fallback.append(reason)`
abbrev pub when : Bool → String → List String
when true reason = reason ∷ []
when false reason = []

abbrev pub in_tree : String → Bool
in_tree path = starts_with path "src/" || starts_with path "tests/"

-- the fallback reasons of one changed path
unfoldable pub path_fallback : String → List String
unfolding module_of any fnmatchcase ends_with
path_fallback path =
    when (matches_any full_fallback_patterns path) ("fallback-class:" <> path)
    ++ (if in_tree path && not (ends_with ".py" path)
        then ("unknown behavioral non-Python input:" <> path) ∷ []
        else when (is_none (module_of path) && not (has_rule path))
            ("unmapped changed input:" <> path))

unfoldable pub direct_test_only : List String → Bool → Bool
unfolding all is_direct_test
direct_test_only changed destructive =
    not (is_empty changed) && (not destructive && all is_direct_test changed)

-- The graph so far with the error that ended the loop, if one did.
abbrev pub Read : Type 0
Read = Graph × Option ErrorName

-- the file at a path that has a module name: `modules[name] = path`, then its imports
abbrev pub add_file : String → String → Graph → Result ErrorName (List String) → Read
add_file name path g (ok names) = (
  record { modules = (name, path) ∷ g.modules; dependencies = (path, names) ∷ g.dependencies },
  none,
)
add_file name path g (err raised) = (record g { modules = (name, path) ∷ g.modules }, some raised)

unfoldable pub file_imports : PlanInput → String → Result ErrorName (List String)
unfolding nodes_imports drop_last split_on module_of
file_imports i path = i.read path >>= imports_in (module_of path)

-- the loop goes on unless an error was raised
abbrev pub read_file : PlanInput → String → Option String → Graph → Read
read_file i path none g = (g, none)
read_file i path (some name) g = add_file name path g (file_imports i path)

abbrev pub read_on : Read → (Graph → Read) → Read
read_on (g, some raised) more = (g, some raised)
read_on (g, none) more = more g

unfoldable pub read_files : PlanInput → List String → Graph → Read
unfolding file_imports module_of
read_files i [] g = (g, none)
read_files i (path ∷ paths) g =
    read_on (read_file i path (module_of path) g) (λ g'. read_files i paths g')

abbrev pub empty_graph : Graph
empty_graph = record { modules = []; dependencies = [] }

unfoldable pub read_graph : PlanInput → Read
unfolding read_files direct_test_only
read_graph i =
    if direct_test_only i.changed i.destructive
    then (empty_graph, none)
    else read_files i i.files empty_graph

abbrev pub graph_fallback : Option ErrorName → List String
graph_fallback none = []
graph_fallback (some raised) = ("unreadable dependency graph:" <> raised) ∷ []

-- `select`
unfoldable pub select : List String → String → String → Reasons
unfolding elem
select tests test reason = if elem test tests then (test, reason) ∷ [] else []

unfoldable pub rules_of :
    List (String × Option (List String)) → String → List (Option (List String))
unfolding fnmatchcase
rules_of [] path = []
rules_of ((pattern_text, rule) ∷ rules) path =
    let rest = rules_of rules path in if fnmatchcase path pattern_text then rule ∷ rest else rest

-- the fallback reasons of the rules of a path
unfoldable pub absent_tests : List String → String → List String → List String
unfolding elem
absent_tests tests path [] = []
absent_tests tests path (test ∷ named) =
    when (not (elem test tests)) ("explicit test absent:" <> path <> ":" <> test)
    ++ absent_tests tests path named

abbrev pub rule_fallback : List String → String → List (Option (List String)) → List String
rule_fallback tests path [] = []
rule_fallback tests path (none ∷ []) = ("explicit fallback:" <> path) ∷ []
rule_fallback tests path (some named ∷ []) = absent_tests tests path named
rule_fallback tests path (rule ∷ other ∷ rules) = ("conflicting explicit rules:" <> path) ∷ []

abbrev pub rule_reasons : List String → String → List (Option (List String)) → Reasons
rule_reasons tests path (some named ∷ []) =
    concat_map (λ test. select tests test ("explicit rule:" <> path)) named
rule_reasons tests path _ = []

-- the reasons of a changed path itself
unfoldable pub path_reasons : List String → String → Reasons
unfolding select concat_map rules_of
path_reasons tests path =
    (if elem path tests then select tests path ("changed test:" <> path) else [])
    ++ rule_reasons tests path (rules_of explicit_rules path)

-- `changed_modules`
unfoldable pub changed_modules : List String → List String
unfolding module_of
changed_modules [] = []
changed_modules (path ∷ paths) =
    let rest = changed_modules paths in
    elim (module_of path) [ none ↦ rest | some name ↦ name ∷ rest ]

unfoldable pub hit_reasons : List String → String → List String → Reasons
unfolding select
hit_reasons tests test [] = []
hit_reasons tests test (name ∷ names) =
    select tests test ("imports changed module:" <> name) ++ hit_reasons tests test names

-- the reasons that the search from a test finds
unfoldable pub test_reasons : Graph → List String → List String → String → Reasons
unfolding imports_changed hit_reasons
test_reasons g changed tests test = elim (imports_changed g changed test) [
  | none ↦ []
  | some hits ↦ hit_reasons tests test hits
]

-- the last edge: a test with the name of a changed file
unfoldable pub same_name_reasons : List String → String → Reasons
unfolding select ends_with path_parts last_part drop_py
same_name_reasons tests path =
    if starts_with path "src/switchstand/" && ends_with ".py" path
    then select tests ("tests/test_" <> drop_py (last_part (path_parts path)) <> ".py")
        ("same-name edge:" <> path)
    else []

-- `reasons`, by the loops of `_plan`
unfoldable pub plan_reasons : PlanInput → Graph → Reasons
unfolding path_reasons test_reasons same_name_reasons changed_modules test_files concat_map
plan_reasons i g =
    let tests = test_files i.files in
    concat_map (path_reasons tests) i.changed
    ++ (concat_map (test_reasons g (changed_modules i.changed) tests) tests
        ++ concat_map (same_name_reasons tests) i.changed)

abbrev pub covers : Option String → String → String → Bool
covers none path reason =
    reason == "imports changed module:None" || reason == "explicit rule:" <> path
covers (some name) path reason =
    reason == "imports changed module:" <> name || reason == "explicit rule:" <> path

unfoldable pub is_covered : List String → Reasons → String → Bool
unfolding any elem module_of
is_covered tests reasons path =
    elem path tests || any (λ (r : String × String). covers (module_of path) path r.1) reasons

unfoldable pub uncovered : List String → Reasons → String → List String
unfolding is_covered ends_with
uncovered tests reasons path =
    when (ends_with ".py" path && in_tree path && not (is_covered tests reasons path))
      ("changed Python has no resolved tests:" <> path)

-- `fallback` at the end of the loops
unfoldable pub plan_fallback : PlanInput → Read → List String
unfolding path_fallback uncovered rules_of absent_tests concat_map plan_reasons
plan_fallback i (g, raised) =
    let tests = test_files i.files in
    when i.destructive "deleted or renamed Python/path input"
    ++ (concat_map path_fallback i.changed
        ++ (graph_fallback raised
            ++ (concat_map (λ path. rule_fallback tests path (rules_of explicit_rules path))
                  i.changed
                ++ concat_map (uncovered tests (plan_reasons i g)) i.changed)))

abbrev pub first_of : Reasons → List String
first_of reasons = map (λ (r : String × String). r.0) reasons

abbrev pub or_no_set : List String → List String
or_no_set [] = "no safe selected set" ∷ []
or_no_set (reason ∷ reasons) = reason ∷ reasons

-- the plan of given reasons
unfoldable pub conclude : PlanInput → List String → Reasons → List String → Plan
unfolding sorted to_set
conclude i tests reasons fallback =
    let chosen = sorted (to_set (first_of reasons)) in
    let clean = is_empty fallback && not (is_empty chosen) in
    record {
      mode = if clean then selected else if is_empty tests then no_plan else full_fallback;
      basis_kind = i.basis_kind;
      base = i.base;
      head = i.head;
      changed_paths = i.changed;
      selected_tests = if clean then chosen else tests;
      reasons_by_test = reasons;
      fallback_reasons = if clean then [] else sorted (to_set (or_no_set fallback));
      destructive = i.destructive;
      planner_revision = planner_revision;
    }

-- `_plan`
unfoldable pub plan : PlanInput → Plan
unfolding conclude plan_reasons plan_fallback read_graph test_files
plan i =
    let graph = read_graph i in
    conclude i (test_files i.files) (plan_reasons i graph.0) (plan_fallback i graph)
