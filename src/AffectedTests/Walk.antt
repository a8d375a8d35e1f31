-- ===== src/AffectedTests/Walk.antt =====
-- The dependency graph of src/switchstand/affected_tests.py and the search in `_plan` from one test.
use switchstand.Base.{
  string_eq, List, Option, String, [], elem, false, if◌then◌else◌, length, none, some, suc, true,
  zero, ℕ, ◌++◌, ◌+◌, ◌==◌, ◌∷◌,
}

-- `modules` and `dependencies`: the module names of the files, and the names that a file imports
pub record Graph : Type 0 where
  pub modules : List (String × String)
  pub dependencies : List (String × List String)

unfoldable pub lookup {ℓ} : {A : Type ℓ} → String → List (String × A) → Option A
lookup key [] = none
lookup key ((k, v) ∷ rest) = if k == key then some v else lookup key rest

abbrev pub or_empty : Option (List String) → List String
or_empty none = []
or_empty (some names) = names

-- `dependencies.get(current, set())`
unfoldable pub names_of : Graph → String → List String
unfolding lookup
names_of g path = or_empty (lookup path g.dependencies)

-- `if dependency in modules: pending.append(...)`
abbrev pub push_path : Option String → List String → List String
push_path none pending = pending
push_path (some path) pending = path ∷ pending

-- the pushes for the names of a file; the last one is popped first
unfoldable pub push_all : Graph → List String → List String → List String
unfolding lookup
push_all g [] pending = pending
push_all g (name ∷ names) pending = push_all g names (push_path (lookup name g.modules) pending)

-- the names that select the test
unfoldable pub changed_names : List String → List String → List String
unfolding elem
changed_names changed [] = []
changed_names changed (name ∷ names) =
    let rest = changed_names changed names in if elem name changed then name ∷ rest else rest

abbrev pub add_hits : List String → Option (List String) → Option (List String)
add_hits now none = none
add_hits now (some later) = some (now ++ later)

-- The loop `while pending`: it gives the changed modules that the files it saw import. The fuel bounds
-- the rounds; `none` is no answer of the program.
unfoldable pub walk : Graph → List String → ℕ → List String → List String → Option (List String)
unfolding names_of push_all changed_names elem
walk g changed zero pending seen = none
walk g changed (suc fuel) [] seen = some []
walk g changed (suc fuel) (current ∷ pending) seen = elim (elem current seen) [
  | true ↦ walk g changed fuel pending seen
  | false ↦
      add_hits (changed_names changed (names_of g current))
        (walk g changed fuel (push_all g (names_of g current) pending) (current ∷ seen))
]

-- the names that all files import
unfoldable pub graph_size : List (String × List String) → ℕ
graph_size [] = 0
graph_size ((path, names) ∷ rest) = length names + graph_size rest

-- the rounds that are enough
abbrev pub walk_fuel : Graph → ℕ
walk_fuel g = graph_size g.dependencies + 2

-- the search from a test
unfoldable pub imports_changed : Graph → List String → String → Option (List String)
unfolding walk graph_size
imports_changed g changed test = walk g changed (walk_fuel g) (test ∷ []) []
