-- ===== src/Tools/Writes.antt =====
-- What `writeFile` of cli/tools/executor.go does to the outside.
use xclaw.Prelude.{
  ◌≡◌, refl, true, ◌⊎◌, inl, inr, List, ◌++◌, All, Option, none, some, String, Bool-cases,
}
use xclaw.Prelude.Dict.{Dict}
use xclaw.Prelude.Result.{Result, ok, err}
use xclaw.Tools.Path.{absolute, abs_names, safe_path}
use xclaw.Tools.Path.Inside.{IsName, safe_path-inside}
use xclaw.Tools.World.{Outside}
use xclaw.Tools.Result.{param_of}
use xclaw.Tools.Executor.{
  Executor, can_write_workspace, dir_of, and_then, then_ok, store_file, checked, write_file,
}

-- The path is that of the workspace, with names of entries behind it.
abbrev pub InWorkspace : Option String → String → String → Type 0
InWorkspace cwd workspace path =
    (base rest : List String) × (abs_names cwd workspace ≡ ok base)
    × (path ≡ absolute (base ++ rest))
    × All IsName rest

module _ {W : Type 0} (out : Outside W) (workspace target content : String) where
  -- From `w`, the directory of the target's path in the workspace was made, and perhaps the file
  -- written.
  abbrev pub Stored : W → W → Type 0
  Stored w w' =
      (path : String) × (safe_path (out.getwd w) workspace target ≡ ok path)
      × InWorkspace (out.getwd w) workspace path
      × ((w' ≡ (out.mkdir_all (dir_of path) w).1)
          ⊎ (w' ≡ (out.write_file path content (out.mkdir_all (dir_of path) w).1).1))

  then_ok-world : (o : Option String × W) → (then_ok out "ok" o).1 ≡ o.1
  then_ok-world (none, w) = refl
  then_ok-world (some error, w) = refl

  and_then-world :
      (path : String) (o : Option String × W)
      → ((and_then out (λ w'. then_ok out "ok" (out.write_file path content w')) o).1 ≡ o.1)
        ⊎ ((and_then out (λ w'. then_ok out "ok" (out.write_file path content w')) o).1
            ≡ (out.write_file path content o.1).1)
  and_then-world path (none, w) = inr (then_ok-world (out.write_file path content w))
  and_then-world path (some error, w) = inl refl

  store_file-Stored :
      (w : W) (r : Result String String)
      → safe_path (out.getwd w) workspace target ≡ r
      → ((store_file out content r w).1 ≡ w) ⊎ Stored w (store_file out content r w).1
  store_file-Stored w (err error) h = inl refl
  store_file-Stored w (ok path) h = inr (
    path,
    h,
    safe_path-inside (out.getwd w) workspace target path h,
    and_then-world path (out.mkdir_all (dir_of path) w),
  )

  -- After the checks: nothing, or what `Stored` says.
  checked-Stored :
      (o : Option String × W)
      → let o' =
          checked out
            (λ w'. store_file out content (safe_path (out.getwd w') workspace target) w')
            o in
        (o'.1 ≡ o.1) ⊎ ((o.0 ≡ none) × Stored o.1 o'.1)
  checked-Stored (some report, w) = inl refl
  checked-Stored (none, w) =
      elim (store_file-Stored w (safe_path (out.getwd w) workspace target) refl) [
        | inl same ↦ inl same
        | inr stored ↦ inr (refl, stored)
      ]

-- write_file leaves the outside as it is, or as the checks of the workspace leave it, unless the
-- sandbox gives write access and the checks do not block; then it makes the directory of the path that
-- the parameter `path` stands for, which lies in the workspace, and writes at most that one file.
pub write_file_effect :
    {W : Type 0} (out : Outside W) (e : Executor) (workspace : String) (params : Dict String)
    (w : W)
    → let checks = out.validate workspace w in
      let w' = (write_file out e workspace params w).1 in
      (w' ≡ w)
      ⊎ (w' ≡ checks.1)
      ⊎ ((can_write_workspace e ≡ true)
          × (checks.0 ≡ none)
          × Stored out workspace (param_of params "path") (param_of params "content") checks.1 w')
unfolding write_file
write_file_effect out e workspace params w = elim (Bool-cases (can_write_workspace e)) [
  | inr no_access ↦ inl (rw no_access refl)
  | inl access ↦
      elim (checked-Stored out workspace (param_of params "path") (param_of params "content")
        (out.validate workspace w)) [
          | inl same ↦ inr (inl (rw access same))
          | inr (free, stored) ↦ inr (inr (access, free, rw access stored))
        ]
]
