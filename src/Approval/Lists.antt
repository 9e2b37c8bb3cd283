-- ===== src/Approval/Lists.antt =====
-- The helpers on strings and lists of strings in cli/approval/manager.go.
use xclaw.Prelude.{
  Bool, false, ◌||◌, List, [], ◌∷◌, ◌++◌, String, str_eq, trim_space, if◌then◌else◌,
}

-- The loop over `values` returns at the first that is not blank.
unfoldable pub first_non_empty : List String → String
first_non_empty [] = ""
first_non_empty (v ∷ values) =
    let t = trim_space v in let rest = first_non_empty values in if str_eq t "" then rest else t

-- The keys of the set `seen`.
unfoldable pub is_seen : List String → String → Bool
is_seen [] v = false
is_seen (s ∷ seen) v = str_eq s v || is_seen seen v

-- The loop of normalizeStringList: what it appends to `out`, with the set `seen` so far.
unfoldable pub normalize_from : List String → List String → List String
normalize_from [] seen = []
normalize_from (v ∷ values) seen =
    let t = trim_space v in
    let skip = normalize_from values seen in
    let keep = t ∷ normalize_from values (t ∷ seen) in
    if str_eq t "" then skip else if is_seen seen t then skip else keep

unfoldable pub normalize_string_list : List String → List String
unfolding normalize_from is_seen
normalize_string_list values = normalize_from values []

unfoldable pub contains_trimmed : List String → String → Bool
contains_trimmed [] value = false
contains_trimmed (v ∷ list) value = str_eq (trim_space v) value || contains_trimmed list value

unfoldable pub contains : List String → String → Bool
unfolding contains_trimmed
contains list value = contains_trimmed list (trim_space value)

unfoldable pub append_unique : List String → String → List String
append_unique list value = if contains list value then list else list ++ value ∷ []
