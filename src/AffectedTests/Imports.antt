-- ===== src/AffectedTests/Imports.antt =====
-- `_imports` of src/switchstand/affected_tests.py, over the nodes that the parser and `ast.walk` give.
use switchstand.AffectedTests.Paths.{join_with, split_on, strip_dots}
use switchstand.Base.{
  List, Option, Result, String, [], err, if◌then◌else◌, is_empty, length, nat_beq, none, ok, some,
  string_eq, suc, zero, ℕ, ◌++◌, ◌+◌, ◌-◌, ◌<>◌, ◌==◌, ◌>>=◌, ◌∷◌,
}

-- the nodes that matter: an import, an import from a module at a level, and a call that imports a
-- module dynamically, by a text if its first argument is one
pub data Node : Type 0 where
  import_names : List String → Node
  import_from : ℕ → Option String → List String → Node
  import_call : Option String → Node

-- the name of the error that reading or parsing raised
abbrev pub ErrorName : Type 0
ErrorName = String

-- `xs[:-1]`
unfoldable pub drop_last : List String → List String
drop_last [] = []
drop_last (x ∷ xs) = let rest = drop_last xs in if is_empty xs then [] else x ∷ rest

-- `xs[:n]`
unfoldable pub take : ℕ → List String → List String
take zero xs = []
take (suc n) [] = []
take (suc n) (x ∷ xs) = x ∷ take n xs

-- `package[: max(0, len(package) - node.level + 1)] if node.level else []`
abbrev pub import_prefix : List String → ℕ → List String
import_prefix parents level =
    if nat_beq level 0 then [] else take (length parents + 1 - level) parents

-- `(node.module or "").split(".")`
abbrev pub module_parts : Option String → List String
module_parts none = split_on b'.' ""
module_parts (some name) = split_on b'.' name

-- `target`
unfoldable pub import_target : List String → ℕ → Option String → String
unfolding take split_on join_with strip_dots
import_target parents level name =
    strip_dots (join_with "." (import_prefix parents level ++ module_parts name))

-- `f"{target}.{alias.name}"` for each alias that is not a star
unfoldable pub target_names : String → List String → List String
target_names target [] = []
target_names target (alias ∷ aliases) =
    let rest = target_names target aliases in
    if alias == "*" then rest else (target <> "." <> alias) ∷ rest

unfoldable pub from_names : String → List String → List String
unfolding target_names
from_names target aliases = if target == "" then [] else target ∷ target_names target aliases

-- what one node adds to `found`
unfoldable pub node_imports : List String → Node → Result ErrorName (List String)
unfolding import_target from_names
node_imports parents (import_names names) = ok names
node_imports parents (import_from level name aliases) =
    ok (from_names (import_target parents level name) aliases)
node_imports parents (import_call none) = err "ValueError"
node_imports parents (import_call (some name)) = ok (name ∷ [])

-- the loop over the nodes
unfoldable pub nodes_imports : List String → List Node → Result ErrorName (List String)
unfolding node_imports
nodes_imports parents [] = ok []
nodes_imports parents (node ∷ nodes) = do
  found ← node_imports parents node
  more ← nodes_imports parents nodes
  ok (found ++ more)

-- `_imports`
abbrev pub imports_in : Option String → List Node → Result ErrorName (List String)
imports_in none nodes = ok []
imports_in (some name) nodes = nodes_imports (drop_last (split_on b'.' name)) nodes
