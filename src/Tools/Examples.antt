-- ===== src/Tools/Examples.antt =====
-- The tools of cli/tools/executor.go on concrete calls, and their theorems there.
use xclaw.Prelude.{
  ◌≡◌, refl, Bool, true, ◌⊎◌, List, [], ◌∷◌, All, Option, none, some, String, contains_text,
  trim_space,
}
use xclaw.Prelude.Dict
use xclaw.Prelude.Dict.{Dict}
use xclaw.Prelude.Parse.{split, put_first, join}
use xclaw.Prelude.Result.{err}
use xclaw.Approval.Manager.{new_manager}
use xclaw.Approval.Runs.{observe, run_all}
use xclaw.Tools.Path.{safe_path, within, walk, abs_names, past_common, rel}
use xclaw.Tools.World.{Outside}
use xclaw.Tools.Result.{ToolCall, param_of}
use xclaw.Tools.Executor.{Executor, new_executor, can_write_workspace, write_file}
use xclaw.Tools.Run.{eval_input, is_allowed, run}
use xclaw.Tools.Guard.{Unchanged, Passed, run_guarded}
use xclaw.Tools.Writes.{Stored, write_file_effect}
use xclaw.Tools.Schemas.{name_set, list_schemas, list_schemas-allowed}

-- The paths and contents that were written, the last first.
abbrev Log : Type 0
Log = List (String × String)

-- An outside where writing files is all that works.
abbrev only_files : Outside Log
only_files = record {
  getwd = λ w. none;
  read_dir = λ path w. err "no directory";
  read_file = λ path w. err "no file";
  mkdir_all = λ path w. (none, w);
  write_file = λ path content w. (none, (path, content) ∷ w);
  append_file = λ path text w. (some "no file", w);
  remove_all = λ path w. w;
  validate = λ workspace w. (none, w);
  ripgrep = λ query path w. ("", some "no rg");
  exec = λ is_main workspace command args w. (err "no command", w);
  cron_store = none;
  mcp = none;
  api_key = "";
  request_image = λ payload key w. (none, w);
  decode_base64 = λ text. none;
  object_json = λ fields. "{}";
  subagent_json = λ sub. "{}";
  subagents_json = λ subs. "[]";
  jobs_json = λ jobs. "[]";
  timestamp = λ t. "";
}

abbrev occurs : String → String → Option Bool
occurs pattern text = some (contains_text text pattern)

abbrev writing : Dict String
writing = ("path", "notes/a.txt") ∷ ("content", "hello") ∷ []

abbrev write_call : ToolCall
write_call = record { name = "write_file"; params = writing; auto_approve = true }

abbrev agent : Executor
agent = new_executor "rw" (some (run_all occurs (observe 3 ∷ []) new_manager))

file_is_written : (write_file only_files agent "/w" writing []).1 ≡ ("/w/notes/a.txt", "hello") ∷ []
unfolding write_file safe_path within walk abs_names past_common rel split put_first join param_of
    Dict.lookup
file_is_written = refl

run_guarded_example :
    Unchanged {W = Log} agent []
      (run only_files (λ i. i) occurs true "/w" ("write_file" ∷ []) write_call agent [])
    ⊎ ((is_allowed ("write_file" ∷ []) write_call.name ≡ true)
        × Passed occurs 1
            (eval_input "/w" write_call)
            (run_all occurs (observe 3 ∷ []) new_manager))
run_guarded_example =
    run_guarded only_files occurs (λ i. i) true "/w" ("write_file" ∷ []) write_call agent []
      (observe 3 ∷ []) refl

write_file_effect_example :
    ((write_file only_files agent "/w" writing []).1 ≡ [])
    ⊎ ((write_file only_files agent "/w" writing []).1 ≡ [])
    ⊎ ((can_write_workspace agent ≡ true)
        × (◌≡◌ {A = Option String} none none)
        × Stored only_files "/w" "notes/a.txt"
            (param_of writing "content")
            []
            (write_file only_files agent "/w" writing []).1)
unfolding param_of Dict.lookup
write_file_effect_example = write_file_effect only_files agent "/w" writing []

list_schemas-allowed_example :
    All
      (λ s. is_allowed (" read_file " ∷ "" ∷ []) s.name ≡ true)
      (list_schemas only_files (" read_file " ∷ "" ∷ []) [])
unfolding name_set trim_space
list_schemas-allowed_example =
    list_schemas-allowed only_files (" read_file " ∷ "" ∷ []) "read_file" [] [] refl
