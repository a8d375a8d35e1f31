-- ===== src/AffectedTests/Validated.antt =====
-- What `validate_execution_tree` of src/switchstand/affected_tests.py lets pass.
use switchstand.AffectedTests.Planner.{test_files}
use switchstand.AffectedTests.Paths.{is_test_path}
use switchstand.AffectedTests.Exact.{
  exact_sha, Git, files_of, validate_execution_tree, missing_tests, validate_files,
}
use switchstand.AffectedTests.{Plan}
use switchstand.Base.{
  Option-cases, some, string_eq, Bool-cases, List, String, [], elem, inl, inr, is_empty, refl,
  str_iff, subst, true, ◌==◌, ◌∷◌, ◌≡◌, ◌⊎◌,
}

missing_tests-empty :
    (tests files : List String) (t : String)
    → is_empty (missing_tests tests files) ≡ true
    → elem t tests ≡ true
    → elem t files ≡ true
unfolding missing_tests elem
missing_tests-empty [] files t h m = cc
missing_tests-empty (x ∷ tests) files t h m = elim (Bool-cases (elem x files)) [
  | inr b ↦ absurd (cc (rw b at h))
  | inl b ↦ elim (Bool-cases (x == t)) [
    | inl e ↦ subst (λ z. elem z files ≡ true) ((str_iff x t).0 e) b
    | inr e ↦ missing_tests-empty tests files t (rw b at h) (rw e at m)
  ]
]

elem-test_files :
    (files : List String) (t : String) → elem t (test_files files) ≡ true → elem t files ≡ true
unfolding test_files elem
elem-test_files [] t h = cc
elem-test_files (x ∷ files) t h = elim (Bool-cases (x == t)) [
  | inl e ↦ rw e refl
  | inr e ↦ elim (Bool-cases (is_test_path x)) [
    | inl b ↦ rw e (elem-test_files files t (rw (b, elem, e) at h))
    | inr b ↦ rw e (elem-test_files files t (rw b at h))
  ]
]

validate_files-elem :
    (p : Plan) (files : List String) (t : String)
    → elem t (validate_files p files).selected_tests ≡ true
    → (elem t files ≡ true)
      × ((validate_files p files ≡ p)
          ⊎ ((validate_files p files).selected_tests ≡ test_files files))
unfolding validate_files
validate_files-elem p files t h =
    elim (Bool-cases (is_empty (missing_tests p.selected_tests files))) [
      | inl b ↦ (missing_tests-empty p.selected_tests files t b (rw b at h), inl (rw b refl))
      | inr b ↦ (elem-test_files files t (rw b at h), inr (rw b refl))
    ]

-- A plan that was checked against an execution tree runs only tests that the tree has: git resolved
-- the tree and listed it, and the plan is as it was, or selects all the tests of the tree.
pub validate_execution_tree-elem :
    (git : Git) (p : Plan) (execution_tree t : String)
    → elem t (validate_execution_tree git p execution_tree).selected_tests ≡ true
    → (sha : String) × (files : List String) × (exact_sha git execution_tree ≡ some sha)
      × (git.tree_files sha ≡ some files)
      × (elem t files ≡ true)
      × ((validate_execution_tree git p execution_tree ≡ p)
          ⊎ ((validate_execution_tree git p execution_tree).selected_tests ≡ test_files files))
unfolding validate_execution_tree files_of elem
validate_execution_tree-elem git p execution_tree t h =
    elim (Option-cases (exact_sha git execution_tree)) [
      | inl e ↦ absurd (cc (rw e at h))
      | inr (sha, e) ↦ elim (Option-cases (git.tree_files sha)) [
        | inl e' ↦ absurd (cc (rw (e, e') at h))
        | inr (files, e') ↦
            let (held, which) = validate_files-elem p files t (rw (e, e') at h) in
            (sha, files, e, e', held, rw (e, e') which)
      ]
    ]
