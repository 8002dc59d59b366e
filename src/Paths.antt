-- ===== src/Paths.antt =====
-- paths.rs and boundary.rs (crates/zbrain/src): paths as the standard library reads them, their
-- normal form, and the tests that keep a path inside its root.
pub mod Pieces
pub mod Safe
use Prim.Native.Char.{code}
use zbrain.Prelude.{
  ℕ, String, Bool, true, false, not, ◌&&◌, ◌||◌, Option, none, some, List, [], ◌∷◌, ◌++◌, ◌==◌, leb,
  eqb, if◌then◌else◌, but_last, is_empty, Result, ok, err, map,
}

-- `std::path::Component`, on Unix
pub data Component : Type 0 where
  root_dir cur_dir parent_dir : Component
  normal : String → Component

-- A `Path` or `PathBuf` by its components, by which Rust compares paths.
abbrev pub FilePath : Type 0
FilePath = List Component

unfoldable pub component_eq : Component → Component → Bool
component_eq root_dir root_dir = true
component_eq cur_dir cur_dir = true
component_eq parent_dir parent_dir = true
component_eq (normal s) (normal t) = s == t
component_eq _ _ = false

unfoldable pub path_eq : FilePath → FilePath → Bool
unfolding component_eq
path_eq [] [] = true
path_eq (x ∷ xs) (y ∷ ys) = component_eq x y && path_eq xs ys
path_eq _ _ = false

-- The pieces between slashes.
cons_first : List String → (String → String) → List String
cons_first [] f = f "" ∷ []
cons_first (s ∷ rest) f = f s ∷ rest

unfoldable pub split_slash : String → List String
unfolding cons_first
split_slash String.[] = "" ∷ []
split_slash (String.◌∷◌ c s) =
    let rest = split_slash s in
    if eqb (code c) b'/' then "" ∷ rest else cons_first rest (λ first. String.◌∷◌ c first)

-- Behind the first piece, empty pieces and `.` are passed over.
unfoldable pub later_components : List String → FilePath
later_components [] = []
later_components (s ∷ rest) =
    let others = later_components rest in
    if s == "" || s == "."
    then others
    else if s == ".."
    then parent_dir ∷ others
    else normal s ∷ others

unfoldable pub first_components : List String → FilePath
unfolding later_components
first_components [] = []
first_components (s ∷ []) = if s == "." then cur_dir ∷ [] else later_components (s ∷ [])
first_components (s ∷ t ∷ rest) =
    if s == ""
    then root_dir ∷ later_components (t ∷ rest)
    else if s == "."
    then cur_dir ∷ later_components (t ∷ rest)
    else later_components (s ∷ t ∷ rest)

-- `Path::components`
unfoldable pub components : String → FilePath
unfolding split_slash first_components
components path = first_components (split_slash path)

abbrev pub is_absolute : FilePath → Bool
is_absolute (root_dir ∷ p) = true
is_absolute _ = false

-- `PathBuf::pop`
unfoldable pub pop : FilePath → FilePath
pop (root_dir ∷ []) = root_dir ∷ []
pop p = but_last p

-- The loop of `normalize`; `push` of the root begins anew.
unfoldable pub normalize_from : FilePath → FilePath → FilePath
unfolding pop
normalize_from out [] = out
normalize_from out (parent_dir ∷ p) = normalize_from (pop out) p
normalize_from out (cur_dir ∷ p) = normalize_from out p
normalize_from out (root_dir ∷ p) = normalize_from (root_dir ∷ []) p
normalize_from out (normal s ∷ p) = normalize_from (out ++ normal s ∷ []) p

unfoldable pub normalize : FilePath → FilePath
unfolding normalize_from
normalize = normalize_from []

-- `base.join(path)`
abbrev pub join : FilePath → FilePath → FilePath
join base path = if is_absolute path then path else base ++ path

unfoldable pub absolute_under : FilePath → FilePath → FilePath
unfolding normalize
absolute_under base path = if is_absolute path then normalize path else normalize (join base path)

-- `target.strip_prefix(root)`
unfoldable pub strip_root : FilePath → FilePath → Option FilePath
unfolding component_eq
strip_root [] target = some target
strip_root (x ∷ xs) [] = none
strip_root (x ∷ xs) (y ∷ ys) = if component_eq x y then strip_root xs ys else none

unfoldable pub path_within : FilePath → FilePath → Bool
unfolding strip_root path_eq
path_within root target = elim (strip_root root target) [
  | none ↦ false
  | some rel ↦ not (is_empty rel) || path_eq target root
]

-- `Path::file_name`
unfoldable pub file_name : FilePath → Option String
file_name [] = none
file_name (normal s ∷ []) = some s
file_name (x ∷ []) = none
file_name (x ∷ y ∷ p) = file_name (y ∷ p)

is_workspace_char : ℕ → Bool
is_workspace_char c = leb b'a' c && leb c b'z' || leb b'0' c && leb c b'9' || eqb c b'-'

all_workspace_chars : String → Bool
unfolding is_workspace_char
all_workspace_chars String.[] = true
all_workspace_chars (String.◌∷◌ c s) = is_workspace_char (code c) && all_workspace_chars s

unfoldable pub is_safe_workspace_name : String → Bool
unfolding all_workspace_chars components file_name
is_safe_workspace_name name =
    if name == "" || not (name == elim (file_name (components name)) [ none ↦ "" | some s ↦ s ])
    then false
    else all_workspace_chars name

pub data PathError : Type 0 where
  empty_path : PathError
  unsafe_path : String → PathError

abbrev pub is_traversal : Component → Bool
is_traversal (normal s) = false
is_traversal cur_dir = false
is_traversal _ = true

abbrev pub any_traversal : FilePath → Bool
any_traversal [] = false
any_traversal (c ∷ p) = is_traversal c || any_traversal p

-- `clean.starts_with("../")`
abbrev pub starts_with_parent : FilePath → Bool
starts_with_parent (parent_dir ∷ p) = true
starts_with_parent _ = false

unfoldable pub safe_relative_path : String → Result PathError FilePath
safe_relative_path path =
    let native = components path in
    let clean = normalize native in
    if path == ""
    then err empty_path
    else if is_absolute native
        || not (path_eq clean native)
        || path_eq clean (cur_dir ∷ [])
        || path_eq clean (parent_dir ∷ [])
        || starts_with_parent clean
    then err (unsafe_path path)
    else if any_traversal clean
    then err (unsafe_path path)
    else ok clean
