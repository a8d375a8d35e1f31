-- ===== src/AffectedTests/Whole.antt =====
-- What the graph of src/switchstand/affected_tests.py holds once every file was read.
use switchstand.AffectedTests.Paths.{module_of}
use switchstand.AffectedTests.Walk.{Graph, lookup}
use switchstand.AffectedTests.Imports.{ErrorName}
use switchstand.AffectedTests.Planner.{
  PlanInput, Read, add_file, direct_test_only, empty_graph, file_imports, read_file, read_files,
  read_graph, read_on,
}
use switchstand.Base.{
  ◌∙◌, string_eq, Bool-cases, List, Option, Result, String, [], ap, beq_refl, elem, err, false, inl,
  inr, none, ok, refl, some, str_iff, subst, sym, true, ◌==◌, ◌∷◌, ◌≡◌,
}

-- Each file with a module name was parsed, and the graph has its imports.
abbrev pub IsWhole : PlanInput → Graph → Type 0
IsWhole i g =
    (path name : String)
    → elem path i.files ≡ true
    → module_of path ≡ some name
    → (names : List String) × (file_imports i path ≡ ok names)
      × (lookup path g.dependencies ≡ some names)

module _ (i : PlanInput) (path : String) (names : List String)
    (parsed : file_imports i path ≡ ok names) where
  -- what is read of other files does not take its imports from the graph
  add_file-kept :
      (other name : String) (g : Graph) (o : Result ErrorName (List String))
      → file_imports i other ≡ o
      → lookup path g.dependencies ≡ some names
      → lookup path (add_file name other g o).0.dependencies ≡ some names
  unfolding lookup
  add_file-kept other name g (err raised) e kept = kept
  add_file-kept other name g (ok read) e kept = elim (Bool-cases (other == path)) [
    | inr b ↦ rw b kept
    | inl b ↦
        let same : file_imports i other ≡ ok names =
          subst (λ x. file_imports i x ≡ ok names) (sym ((str_iff other path).0 b)) parsed in
        let is : read ≡ names = cc (e, same) in rw b (ap some is)
  ]

  read_file-kept :
      (other : String) (name : Option String) (g : Graph)
      → lookup path g.dependencies ≡ some names
      → lookup path (read_file i other name g).0.dependencies ≡ some names
  read_file-kept other none g kept = kept
  read_file-kept other (some name) g kept =
      add_file-kept other name g (file_imports i other) refl kept

  read_on-kept :
      (r : Read) (more : Graph → Read) (g' : Graph)
      → ((g : Graph)
          → more g ≡ (g', none)
          → lookup path g.dependencies ≡ some names
          → lookup path g'.dependencies ≡ some names)
      → read_on r more ≡ (g', none)
      → lookup path r.0.dependencies ≡ some names
      → lookup path g'.dependencies ≡ some names
  read_on-kept (g, some raised) more g' k e kept = cc
  read_on-kept (g, none) more g' k e kept = k g e kept

  read_files-kept :
      (paths : List String) (g g' : Graph)
      → read_files i paths g ≡ (g', none)
      → lookup path g.dependencies ≡ some names
      → lookup path g'.dependencies ≡ some names
  unfolding read_files
  read_files-kept [] g g' e kept =
      subst (λ (x : Graph). lookup path x.dependencies ≡ some names) (ap (λ (r : Read). r.0) e) kept
  read_files-kept (other ∷ paths) g g' e kept =
      read_on-kept (read_file i other (module_of other) g) (λ h. read_files i paths h) g'
        (λ h. read_files-kept paths h g') e (read_file-kept other (module_of other) g kept)

module _ (i : PlanInput) (path name : String) (named : module_of path ≡ some name) where
  -- a file that was read without an error is in the graph
  read_one :
      (paths : List String) (g g' : Graph) (o : Result ErrorName (List String))
      → file_imports i path ≡ o
      → read_on (add_file name path g o) (λ h. read_files i paths h) ≡ (g', none)
      → (names : List String) × (file_imports i path ≡ ok names)
        × (lookup path g'.dependencies ≡ some names)
  unfolding lookup
  read_one paths g g' (err raised) e h = cc
  read_one paths g g' (ok names) e h =
      (names, e, read_files-kept i path names e paths _ g' h (rw (beq_refl path) refl))

  read_on_later :
      (r : Read) (more : Graph → Read) (g' : Graph)
      → ((g : Graph)
          → more g ≡ (g', none)
          → (names : List String) × (file_imports i path ≡ ok names)
            × (lookup path g'.dependencies ≡ some names))
      → read_on r more ≡ (g', none)
      → (names : List String) × (file_imports i path ≡ ok names)
        × (lookup path g'.dependencies ≡ some names)
  read_on_later (g, some raised) more g' k e = cc
  read_on_later (g, none) more g' k e = k g e

  read_files-found :
      (paths : List String) (g g' : Graph)
      → read_files i paths g ≡ (g', none)
      → elem path paths ≡ true
      → (names : List String) × (file_imports i path ≡ ok names)
        × (lookup path g'.dependencies ≡ some names)
  unfolding read_files elem
  read_files-found [] g g' e m = cc
  read_files-found (other ∷ paths) g g' e m = elim (Bool-cases (other == path)) [
    | inl b ↦
        let its : read_on (read_file i path (module_of path) g) (λ h. read_files i paths h)
            ≡ (g', none) =
          subst
            (λ x. read_on (read_file i x (module_of x) g) (λ h. read_files i paths h) ≡ (g', none))
            ((str_iff other path).0 b) e in
        read_one paths g g' (file_imports i path) refl (rw named at its)
    | inr b ↦
        read_on_later (read_file i other (module_of other) g) (λ h. read_files i paths h) g'
          (λ h e1. read_files-found paths h g' e1 (rw b at m)) e
  ]

read-clean : (r : Read) → r.1 ≡ none → r ≡ (r.0, none)
read-clean (g, none) e = refl
read-clean (g, some raised) e = cc

-- If the changed paths are not direct tests alone, and no error was raised, the graph is whole.
pub read_graph-IsWhole :
    (i : PlanInput)
    → direct_test_only i.changed i.destructive ≡ false
    → (read_graph i).1 ≡ none
    → IsWhole i (read_graph i).0
unfolding read_graph
read_graph-IsWhole i other clean path name m named =
    read_files-found i path name named i.files empty_graph (read_graph i).0
      (sym is ∙ read-clean (read_graph i) clean) m
  where
    is : read_graph i ≡ read_files i i.files empty_graph
    is = rw other refl
