-- ===== src/AffectedTests/Foreground.antt =====
-- The planner and the promotion of src/switchstand/affected_tests.py, one after the other.
use switchstand.AffectedTests.Planner.{PlanInput}
use switchstand.Base.{String, some, string_eq, ◌≡◌}
use switchstand.AffectedTests.Exact.{Git, changed_of, changed_paths, exact_sha}

-- What git gave for the plan: two full identities that resolved to themselves, the files of the
-- second, and the paths of their diff.
pub record IsExact (git : Git) (base head : String) (i : PlanInput) : Type 0 where
  pub from : exact_sha git base ≡ some i.base
  pub to : exact_sha git head ≡ some i.head
  pub listed : git.tree_files i.head ≡ some i.files
  pub compared : changed_of (git.diff i.base i.head) ≡ changed_paths i.changed i.destructive
