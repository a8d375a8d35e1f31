-- ===== src/AffectedTests/Paths.antt =====
-- The paths and module names of src/switchstand/affected_tests.py: `fnmatch.fnmatchcase` on patterns
-- of literals and `*`, the parts of a `PurePosixPath`, `_module` and `_DIRECT_TEST_MODULE`.
use switchstand.Base.{
  nat_eq, Bool, List, Option, String, [], codes, elem, false, if◌then◌else◌, is_empty, leb, nat_beq,
  none, not, some, starts_with, string_eq, text_len, true, ℕ, ◌&&◌, ◌<>◌, ◌==◌, ◌||◌, ◌∷◌,
}
use Prim.Native.Char.{Char, code}

-- `fnmatch.fnmatchcase` for patterns without `?` and `[`: a star stands for any text
unfoldable pub glob : List ℕ → List ℕ → Bool
glob [] [] = true
glob [] (c ∷ cs) = false
glob (p ∷ ps) [] = nat_beq p b'*' && glob ps []
glob (p ∷ ps) (c ∷ cs) = elim (nat_beq p b'*') [
  | true ↦ elim (glob ps (c ∷ cs)) [ true ↦ true | false ↦ glob (p ∷ ps) cs ]
  | false ↦ nat_beq p c && glob ps cs
]

unfoldable pub fnmatchcase : String → String → Bool
unfolding codes glob
fnmatchcase path pattern_text = glob (codes pattern_text) (codes path)

-- `s.endswith(suffix)`
unfoldable pub ends_with : String → String → Bool
ends_with suffix String.[] = suffix == String.[]
ends_with suffix (String.◌∷◌ c s) = suffix == String.◌∷◌ c s || ends_with suffix s

-- `s[len(prefix):]`
unfoldable pub drop_text : List ℕ → String → String
drop_text [] s = s
drop_text (p ∷ ps) String.[] = String.[]
drop_text (p ∷ ps) (String.◌∷◌ c s) = drop_text ps s

-- `s.lstrip(".")`
unfoldable pub lstrip_dots : String → String
lstrip_dots String.[] = String.[]
lstrip_dots (String.◌∷◌ c s) =
    let rest = lstrip_dots s in if nat_beq (code c) b'.' then rest else String.◌∷◌ c s

-- `s.rstrip(".")`
unfoldable pub rstrip_dots : String → String
rstrip_dots String.[] = String.[]
rstrip_dots (String.◌∷◌ c s) = last_dot c (rstrip_dots s)
  where
    last_dot : Char → String → String
    last_dot c String.[] = if nat_beq (code c) b'.' then String.[] else String.◌∷◌ c String.[]
    last_dot c (String.◌∷◌ d s) = String.◌∷◌ c (String.◌∷◌ d s)

-- `s.strip(".")`
unfoldable pub strip_dots : String → String
unfolding lstrip_dots rstrip_dots
strip_dots s = rstrip_dots (lstrip_dots s)

-- the first part gets one more character
abbrev pub grow_part : Char → List String → List String
grow_part c [] = String.◌∷◌ c String.[] ∷ []
grow_part c (part ∷ parts) = String.◌∷◌ c part ∷ parts

-- `s.split(mark)` at a single character
unfoldable pub split_on : ℕ → String → List String
split_on mark String.[] = String.[] ∷ []
split_on mark (String.◌∷◌ c s) =
    let parts = split_on mark s in
    if nat_beq (code c) mark then String.[] ∷ parts else grow_part c parts

-- `mark.join(parts)`
unfoldable pub join_with : String → List String → String
join_with mark [] = ""
join_with mark (part ∷ parts) =
    let rest = join_with mark parts in if is_empty parts then part else part <> mark <> rest

unfoldable pub drop_empty : List String → List String
drop_empty [] = []
drop_empty (part ∷ parts) =
    let rest = drop_empty parts in if part == "" || part == "." then rest else part ∷ rest

-- `PurePosixPath(path).parts`
unfoldable pub path_parts : String → List String
unfolding split_on drop_empty
path_parts path =
    if starts_with path "/"
    then "/" ∷ drop_empty (split_on b'/' path)
    else drop_empty (split_on b'/' path)

unfoldable pub last_part : List String → String
last_part [] = ""
last_part (part ∷ parts) = let rest = last_part parts in if is_empty parts then part else rest

-- `PurePosixPath(path).suffix == ".py"`, by the name without its leading dots
unfoldable pub is_python : List String → Bool
unfolding ends_with lstrip_dots last_part
is_python parts = ends_with ".py" (lstrip_dots (last_part parts))

-- `s[:-3]`
unfoldable pub drop_py : String → String
drop_py String.[] = String.[]
drop_py (String.◌∷◌ c s) =
    let rest = drop_py s in if String.◌∷◌ c s == ".py" then String.[] else String.◌∷◌ c rest

-- `with_suffix("").parts` of the parts of a Python file
unfoldable pub without_suffix : List String → List String
unfolding drop_py
without_suffix [] = []
without_suffix (part ∷ parts) =
    let rest = without_suffix parts in if is_empty parts then drop_py part ∷ [] else part ∷ rest

abbrev pub drop_src : List String → List String
drop_src [] = []
drop_src (part ∷ parts) = if part == "src" then parts else part ∷ parts

-- without a last `__init__`
unfoldable pub drop_init : List String → List String
drop_init [] = []
drop_init (part ∷ parts) =
    let rest = drop_init parts in if is_empty parts && part == "__init__" then [] else part ∷ rest

abbrev pub in_source : List String → Bool
in_source [] = false
in_source (part ∷ parts) = part == "src" || part == "tests"

abbrev pub module_of_parts : List String → Option String
module_of_parts parts =
    if is_python parts && in_source parts
    then some (join_with "." (drop_init (drop_src (without_suffix parts))))
    else none

-- `_module`
unfoldable pub module_of : String → Option String
unfolding path_parts is_python without_suffix drop_init join_with
module_of path = module_of_parts (path_parts path)

-- `[^/]+\.py\Z`
abbrev pub is_test_name : String → Bool
is_test_name name = ends_with ".py" name && (leb 4 (text_len name) && not (elem b'/' (codes name)))

-- `_DIRECT_TEST_MODULE(path) is not None`
unfoldable pub is_direct_test : String → Bool
unfolding drop_text ends_with text_len codes elem
is_direct_test path =
    starts_with path "tests/test_" && is_test_name (drop_text (codes "tests/test_") path)

-- `path.startswith("tests/test_") and path.endswith(".py")`
unfoldable pub is_test_path : String → Bool
unfolding ends_with
is_test_path path = starts_with path "tests/test_" && ends_with ".py" path
