-- ===== src/Tools/Executor.antt =====
-- The executor of the tools (cli/tools/executor.go): its state, the tools on files and commands, and
-- the subagents. Each takes the state of the outside and returns the one that it leaves; `now i` is
-- the reading number `i` of the clock in a call.
use xclaw.Prelude.{
  Bool, true, false, ◌||◌, not, List, [], ◌∷◌, Option, none, some, String, str_eq, trim_space, ◌<>◌,
  if◌then◌else◌,
}
use xclaw.Prelude.Dict.{Dict}
use xclaw.Prelude.Parse.{split, join, fields}
use xclaw.Prelude.Result.{Result, ok, err, ◌>>=◌}
use xclaw.Approval.Lists.{is_seen}
use xclaw.Approval.Manager.{Manager}
use xclaw.Tools.Path.{safe_path}
use xclaw.Tools.World.{Outside, SubagentInfo}
use xclaw.Tools.Result.{
  ToolResult, finish, param_of, trimmed_param, or_else, cut, one_of, risk_read, risk_write,
}

-- `access` is the sandbox's access to the workspace; without an approver the risk alone decides.
pub record Executor : Type 0 where
  pub access : String
  pub approver : Option Manager
  pub cron_agent_id : String
  pub subagents : Dict SubagentInfo

abbrev pub new_executor : String → Option Manager → Executor
new_executor access approver = record {
  access = access;
  approver = approver;
  cron_agent_id = "";
  subagents = [];
}

abbrev pub set_cron_agent : String → Executor → Executor
set_cron_agent agent_id e = record e { cron_agent_id = trim_space agent_id }

abbrev pub can_read_workspace : Executor → Bool
can_read_workspace e = str_eq e.access "ro" || str_eq e.access "rw"

abbrev pub can_write_workspace : Executor → Bool
can_write_workspace e = str_eq e.access "rw"

-- if !ok { return error }
abbrev pub require : Bool → String → Result String Unit
require true message = ok tt
require false message = err message

abbrev no_read_access : String
no_read_access = "sandbox workspace access is none"

abbrev entry_name : String × Bool → String
entry_name (name, is_dir) = if is_dir then name <> "/" else name

abbrev entry_names : List (String × Bool) → List String
entry_names [] = []
entry_names (entry ∷ entries) = entry_name entry ∷ entry_names entries

-- strings.Fields of the trimmed arguments.
unfoldable pub split_args : String → List String
split_args raw = if str_eq raw "" then [] else fields raw

abbrev pub default_subagent_tools : List String
default_subagent_tools = "list_dir" ∷ "read_file" ∷ "search_text" ∷ []

abbrev subagent_tools : List String
subagent_tools =
    "list_dir" ∷ "read_file" ∷ "search_text" ∷ "write_file" ∷ "exec_cmd" ∷ "image_generate" ∷ []

-- The loop of parseSubagentTools: what it appends, with the set `seen` so far.
unfoldable pub chosen_tools : List String → List String → List String
chosen_tools [] seen = []
chosen_tools (p ∷ parts) seen =
    let k = trim_space p in
    let skip = chosen_tools parts seen in
    let keep = k ∷ chosen_tools parts (k ∷ seen) in
    if not (one_of subagent_tools k) then skip else if is_seen seen k then skip else keep

abbrev or_default_tools : List String → List String
or_default_tools [] = default_subagent_tools
or_default_tools (t ∷ tools) = t ∷ tools

unfoldable pub parse_subagent_tools : String → List String
unfolding chosen_tools
parse_subagent_tools raw =
    if str_eq (trim_space raw) ""
    then default_subagent_tools
    else or_default_tools (chosen_tools (split 44 raw) [])

-- The parent's directory of a path that `safePath` gave: the text before its last '/', or "/".
abbrev pub dir_of : String → String
dir_of path =
    let before = join "/" (front (split 47 path)) in if str_eq before "" then "/" else before
  where
    front : List String → List String
    front [] = []
    front (p ∷ []) = []
    front (p ∷ q ∷ parts) = p ∷ front (q ∷ parts)

module _ {W : Type 0} (out : Outside W) where
  unfoldable pub list_dir : Executor → String → Dict String → W → ToolResult
  list_dir e workspace params w = finish "list_dir" risk_read (
      require (can_read_workspace e) no_read_access >>= λ _.
      safe_path (out.getwd w) workspace (param_of params "path") >>= λ abs.
      out.read_dir abs w >>= λ entries. ok (join "\n" (entry_names entries)))

  unfoldable pub read_file : Executor → String → Dict String → W → ToolResult
  read_file e workspace params w = finish "read_file" risk_read (
      require (can_read_workspace e) no_read_access >>= λ _.
      safe_path (out.getwd w) workspace (param_of params "path") >>= λ abs.
      out.read_file abs w >>= λ content. ok (cut 12000 "\n...<truncated>" content))

  -- An error, or nothing more to say.
  abbrev pub then_ok : String → Option String × W → Result String String × W
  then_ok output (none, w) = (ok output, w)
  then_ok output (some error, w) = (err error, w)

  abbrev pub and_then :
      (W → Result String String × W) → Option String × W → Result String String × W
  and_then next (none, w) = next w
  and_then next (some error, w) = (err error, w)

  -- os.MkdirAll and os.WriteFile
  abbrev pub store_file : String → Result String String → W → Result String String × W
  store_file content (err error) w = (err error, w)
  store_file content (ok abs) w =
      and_then (λ w'. then_ok "ok" (out.write_file abs content w')) (out.mkdir_all (dir_of abs) w)

  abbrev pub checked : (W → Result String String × W) → Option String × W → Result String String × W
  checked next (none, w) = next w
  checked next (some report, w) = (err ("harness validation failed:\n" <> report), w)

  unfoldable pub write_file : Executor → String → Dict String → W → ToolResult × W
  write_file e workspace params w =
      let (result, w') =
        (if can_write_workspace e
          then checked
              (λ w'.
                store_file (param_of params "content")
                  (safe_path (out.getwd w') workspace (param_of params "path")) w')
              (out.validate workspace w)
          else (err "sandbox workspace access is not rw", w)) in
      (finish "write_file" risk_write result, w')

  -- An error of the command counts only if it printed nothing.
  abbrev searched : String × Option String → Result String String
  searched (output, none) = ok (cut 12000 "\n...<truncated>" output)
  searched (output, some error) =
      if str_eq output "" then err error else ok (cut 12000 "\n...<truncated>" output)

  unfoldable pub search_text : Executor → String → Dict String → W → ToolResult
  search_text e workspace params w =
      let query = trimmed_param params "query" in
      finish "search_text" risk_read (
        require (can_read_workspace e) no_read_access >>= λ _.
        require (not (str_eq query "")) "query is empty" >>= λ _.
        safe_path (out.getwd w) workspace (or_else (param_of params "path") ".") >>= λ abs.
        searched (out.ripgrep query abs w))

  -- Standard output, and behind it standard error where it says something.
  abbrev pub joined_output : String × String → String
  joined_output (stdout, stderr) =
      let output = trim_space stdout in
      let line_end = if str_eq output "" then "" else "\n" in
      if str_eq (trim_space stderr) "" then output else output <> line_end <> stderr

  abbrev said : Result String (String × String) × W → Result String String × W
  said (ok texts, w) = (ok (joined_output texts), w)
  said (err error, w) = (err error, w)

  unfoldable pub exec_command : Bool → String → Dict String → W → Result String String × W
  unfolding split_args
  exec_command is_main workspace params w = said (
      out.exec is_main workspace (trimmed_param params "command")
        (split_args (trimmed_param params "args")) w)
