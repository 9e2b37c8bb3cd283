-- ===== src/Tools/Path.antt =====
-- Paths inside a workspace: `safePath` of cli/tools/executor.go, with what it uses of Go's
-- `path/filepath` on a system whose separator is '/'. An absolute path is cleaned to the list of its
-- names. The working directory is a parameter, `none` where it is unknown.
use xclaw.Prelude.{
  ℕ, Bool, true, false, ◌||◌, List, [], ◌∷◌, ◌++◌, Option, none, some, String, str_eq, has_prefix,
  ◌<>◌, if◌then◌else◌,
}
use xclaw.Prelude.Parse.{split, join}
use xclaw.Prelude.Result.{Result, ok, err, ◌>>=◌}
pub mod Inside
mod Tests

-- The names of a directory's path without the last; the root has no parent but itself.
abbrev pub parent : List String → List String
parent [] = []
parent (n ∷ []) = []
parent (n ∷ k ∷ names) = n ∷ parent (k ∷ names)

-- filepath.Clean goes from left to right: "" and "." are dropped, ".." goes to the parent.
unfoldable pub walk : List String → List String → List String
walk dir [] = dir
walk dir (part ∷ parts) =
    let here = walk dir parts in
    let up = walk (parent dir) parts in
    let down = walk (dir ++ part ∷ []) parts in
    if str_eq part "" || str_eq part "." then here else if str_eq part ".." then up else down

-- The names of a cleaned absolute path.
abbrev pub clean_from : List String → String → List String
clean_from dir path = walk dir (split 47 path)

abbrev pub absolute : List String → String
absolute names = "/" <> join "/" names

-- filepath.Abs
unfoldable pub abs_names : Option String → String → Result String (List String)
unfolding walk
abs_names cwd path =
    if has_prefix path "/"
    then ok (clean_from [] path)
    else elim cwd [ none ↦ err "getwd" | some dir ↦ ok (clean_from (clean_from [] dir) path) ]

-- What filepath.Rel goes through: the names left of the base and of the target.
unfoldable pub past_common : List String → List String → List String × List String
past_common [] target = ([], target)
past_common (b ∷ base) [] = (b ∷ base, [])
past_common (b ∷ base) (t ∷ target) =
    let further = past_common base target in if str_eq b t then further else (b ∷ base, t ∷ target)

abbrev pub ups : List String → List String
ups [] = []
ups (b ∷ base) = ".." ∷ ups base

abbrev pub or_dot : List String → String
or_dot [] = "."
or_dot (n ∷ names) = join "/" (n ∷ names)

-- filepath.Rel on cleaned absolute paths.
unfoldable pub rel : List String → List String → String
unfolding past_common
rel base target = let (left, rest) = past_common base target in or_dot (ups left ++ rest)

-- The part of safePath behind the workspace's own path.
unfoldable pub within : String → List String → Result String String
unfolding walk rel
within target base =
    let names = clean_from base target in
    if has_prefix (rel base names) ".." then err "path escapes workspace" else ok (absolute names)

-- safePath gives a cleaned absolute path.
unfoldable pub safe_path : Option String → String → String → Result String String
unfolding abs_names within
safe_path cwd root target =
    if str_eq root ""
    then err "workspace root is empty"
    else abs_names cwd root >>= within (if str_eq target "" then "." else target)
