-- ===== src/Tools/Subagents.antt =====
-- The subagents of the executor (cli/tools/executor.go): `spawnSubagent`, `delegateToSubagent`,
-- `listSubagents` and `terminateSubagent`. A workspace is an absolute path here. Delegating reads the
-- map of the subagents before the task and writes it after, so it is two steps.
use xclaw.Prelude.{
  ℕ, false, not, List, [], ◌∷◌, Option, none, some, String, str_eq, show_decimal, ◌<>◌, ltb,
  if◌then◌else◌,
}
use xclaw.Prelude.Dict
use xclaw.Prelude.Dict.{Dict, values}
use xclaw.Prelude.Result.{Result, ok, err}
use xclaw.Approval.Lists.{first_non_empty}
use xclaw.Tools.Path.{clean_from, absolute}
use xclaw.Tools.World.{Outside, SubagentInfo}
use xclaw.Tools.Result.{
  ToolResult, finish, param_of, trimmed_param, or_else, trim_text, risk_read, risk_write, risk_exec,
}
use xclaw.Tools.Executor.{Executor, parse_subagent_tools, exec_command}

-- filepath.Join on an absolute path.
abbrev pub join_path : String → String → String
join_path dir path = absolute (clean_from (clean_from [] dir) path)

-- The id that a call names, under one of two keys.
abbrev pub named_id : Dict String → String → String
named_id params other = or_else (trimmed_param params "id") (trimmed_param params other)

abbrev store_subagent : SubagentInfo → Executor → Executor
store_subagent sub e = record e { subagents = Dict.insert sub.id sub e.subagents }

unfoldable pub insert_oldest : SubagentInfo → List SubagentInfo → List SubagentInfo
insert_oldest s [] = s ∷ []
insert_oldest s (q ∷ items) =
    let further = q ∷ insert_oldest s items in
    if ltb q.created_at s.created_at then further else s ∷ q ∷ items

-- sort.Slice by Before on the creation times.
unfoldable pub oldest_first : List SubagentInfo → List SubagentInfo
oldest_first [] = []
oldest_first (s ∷ items) = insert_oldest s (oldest_first items)

module _ {W : Type 0} (out : Outside W) (now : ℕ → ℕ) where
  abbrev new_subagent : String → Dict String → SubagentInfo
  new_subagent workspace params =
      let id = "sub_" <> show_decimal (now 2) in
      record {
        id = id;
        role =
            first_non_empty
              (param_of params "role" ∷ param_of params "description" ∷ "通用子智能体" ∷ []);
        workspace = join_path workspace (".subagents/" <> id);
        tools = parse_subagent_tools (param_of params "tools");
        status = "idle";
        last_task = "";
        last_result = "";
        created_at = now 3;
        updated_at = now 4;
      }

  abbrev spawned : SubagentInfo → Executor → Option String × W → ToolResult × Executor × W
  spawned sub e (some error, w) = (finish "spawn_subagent" risk_write (err error), e, w)
  spawned sub e (none, w) =
      (finish "spawn_subagent" risk_write (ok (out.subagent_json sub)), store_subagent sub e, w)

  unfoldable pub spawn_subagent : String → Dict String → Executor → W → ToolResult × Executor × W
  spawn_subagent workspace params e w =
      let sub = new_subagent workspace params in spawned sub e (out.mkdir_all sub.workspace w)

  -- The first step: the subagent that the call names.
  unfoldable pub delegate_target : Dict String → Executor → Result String SubagentInfo
  delegate_target params e =
      let id = named_id params "subagent_id" in
      if str_eq id ""
      then err "id is required"
      else elim (Dict.lookup id e.subagents) [ none ↦ err "subagent not found" | some sub ↦ ok sub ]

  abbrev task_of : Dict String → String
  task_of params =
      or_else (or_else (trimmed_param params "task") (trimmed_param params "prompt")) "执行委托任务"

  abbrev recorded : Option String × W → Result String String × W
  recorded (none, w) = (ok "task recorded", w)
  recorded (some error, w) = (err error, w)

  -- The command of the task runs in the subagent's workspace; a task without one is logged there.
  unfoldable pub perform_task : Dict String → SubagentInfo → W → Result String String × W
  perform_task params sub w =
      let cmd = trimmed_param params "command" in
      if not (str_eq cmd "")
      then exec_command out false sub.workspace
          (("command", cmd) ∷ ("args", param_of params "args") ∷ []) w
      else recorded (
          out.append_file (join_path sub.workspace "task.log")
            ("[" <> out.timestamp (now 2) <> "] " <> task_of params <> "\n") w)

  abbrev completed : Dict String → SubagentInfo → String → SubagentInfo
  completed params sub text = record sub {
    status = "completed";
    last_task = task_of params;
    last_result = trim_text text 1800;
    updated_at = now 3;
  }

  -- The second step writes the subagent that the first has read.
  unfoldable pub delegate_done :
      String → Dict String → SubagentInfo → Result String String → Executor → ToolResult × Executor
  delegate_done workspace params sub (err error) e =
      (finish "delegate_to_subagent" risk_exec (err error), e)
  delegate_done workspace params sub (ok text) e =
      let sub' = completed params sub text in
      (
        finish "delegate_to_subagent" risk_exec (
            ok (
              out.object_json (
                ("id", sub'.id)
                ∷ ("status", sub'.status)
                ∷ ("task", sub'.last_task)
                ∷ ("result", sub'.last_result)
                ∷ ("workspace", sub'.workspace)
                ∷ ("parent_work", workspace)
                ∷ []))),
        store_subagent sub' e,
      )

  abbrev delegated :
      String
      → Dict String
      → Executor
      → SubagentInfo
      → Result String String × W
      → ToolResult × Executor × W
  delegated workspace params e sub (result, w) =
      let (reply, e') = delegate_done workspace params sub result e in (reply, e', w)

  -- Both steps, where no other call comes in between.
  unfoldable pub delegate_to_subagent :
      String → Dict String → Executor → W → ToolResult × Executor × W
  unfolding delegate_target perform_task delegate_done
  delegate_to_subagent workspace params e w = elim (delegate_target params e) [
    | err error ↦ (finish "delegate_to_subagent" risk_exec (err error), e, w)
    | ok sub ↦ delegated workspace params e sub (perform_task params sub w)
  ]

  unfoldable pub list_subagents : Executor → ToolResult
  unfolding oldest_first insert_oldest
  list_subagents e =
      finish "list_subagents" risk_read
        (ok (out.subagents_json (oldest_first (values e.subagents))))

  unfoldable pub terminate_subagent : Dict String → Executor → W → ToolResult × Executor × W
  terminate_subagent params e w =
      let id = named_id params "subagent_id" in
      if str_eq id ""
      then (finish "terminate_subagent" risk_write (err "id is required"), e, w)
      else elim (Dict.lookup id e.subagents) [
        | none ↦ (finish "terminate_subagent" risk_write (err "subagent not found"), e, w)
        | some sub ↦ (
          finish "terminate_subagent" risk_write
              (ok (out.object_json (("id", id) ∷ ("status", "terminated") ∷ []))),
          record e { subagents = Dict.erase id e.subagents },
          out.remove_all sub.workspace w,
        )
      ]
