-- ===== src/Tools/Path/Tests.antt =====
-- Runs of `safePath` of cli/tools/executor.go.
use xclaw.Prelude.{◌≡◌, refl, none, some}
use xclaw.Prelude.Parse.{split, put_first, join}
use xclaw.Prelude.Result.{ok, err}
use xclaw.Tools.Path.{safe_path, within, walk, abs_names, past_common, rel}

inside : safe_path none "/w/a" "b/./c/../d" ≡ ok "/w/a/b/d"
unfolding safe_path within abs_names rel past_common walk split put_first join
inside = refl

escapes : safe_path (some "/home") "w" "../x" ≡ err "path escapes workspace"
unfolding safe_path within abs_names rel past_common walk split put_first join
escapes = refl

-- A name that begins with two dots is taken for a way out.
dotted_name : safe_path none "/w" "..hidden" ≡ err "path escapes workspace"
unfolding safe_path within abs_names rel past_common walk split put_first join
dotted_name = refl
