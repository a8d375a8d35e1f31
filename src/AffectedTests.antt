-- ===== src/AffectedTests.antt =====
-- src/switchstand/affected_tests.py: which tests a change must run. Git, the files and Python's parser
-- are arguments: what they answer, or the name of the error that they raise. A dictionary is a list
-- of its entries, the latest first, and a set is a list; a tuple that the code sorts is sorted.
pub mod Paths
pub mod Imports
pub mod Walk
pub mod Planner
pub mod Authority
pub mod Exact
pub mod Reach
pub mod Ends
pub mod Whole
pub mod Complete
pub mod Named
pub mod Selected
pub mod Safe
pub mod Validated
pub mod Foreground
pub mod Promoted
mod Examples
use switchstand.Base.{Bool, List, Option, String, [], none, some, string_eq, ◌∷◌}

pub data PlanMode : Type 0 where
  selected full_fallback no_plan : PlanMode

pub data BasisKind : Type 0 where
  exact_basis local_basis : BasisKind

-- `reasons_by_test`: a test with a reason, the pairs in no order
abbrev pub Reasons : Type 0
Reasons = List (String × String)

pub record Plan : Type 0 where
  pub mode : PlanMode
  pub basis_kind : BasisKind
  pub base : String
  pub head : String
  pub changed_paths : List String
  pub selected_tests : List String
  pub reasons_by_test : Reasons
  pub fallback_reasons : List String
  pub destructive : Bool
  pub planner_revision : String

abbrev pub planner_revision : String
planner_revision = "affected-tests-v2"

abbrev pub full_fallback_patterns : List String
full_fallback_patterns =
    "pyproject.toml" ∷ "uv.lock" ∷ "alembic.ini" ∷ "alembic/**" ∷ "migrations/**" ∷ "Dockerfile*"
    ∷ "compose*.y*ml" ∷ ".github/workflows/**" ∷ "scripts/check" ∷ "scripts/bootstrap"
    ∷ "scripts/switchstand" ∷ "scripts/switchstand-*" ∷ "tests/conftest.py" ∷ "docs/assets/**" ∷ []

abbrev pub explicit_rules : List (String × Option (List String))
explicit_rules =
    ("scripts/package-size.py", some ("tests/test_package_size.py" ∷ []))
    ∷ (
      "src/switchstand/provider.py",
      some ("tests/test_provider.py" ∷ "tests/test_relations_provider.py" ∷ []),
    )
    ∷ ("src/switchstand/*_runtime.py", none)
    ∷ ("src/switchstand/chatgpt_edge.py", none)
    ∷ ("src/switchstand/mcp.py", none)
    ∷ []

abbrev pub promoted_inputs_v1 : List String
promoted_inputs_v1 = "scripts/package-size.py" ∷ "src/switchstand/coordinator_worker_state.py" ∷ []

abbrev pub serial_sensitive_v1 : List String
serial_sensitive_v1 = "tests/test_chatgpt_edge_process.py" ∷ "tests/test_update_gateway.py" ∷ []
