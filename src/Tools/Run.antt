-- ===== src/Tools/Run.antt =====
-- `Run` of cli/tools/executor.go: who may call which tool, and the call itself; and `ListSchemas`.
use xclaw.Prelude.{
  ℕ, Bool, true, false, ◌&&◌, ◌||◌, not, List, [], ◌∷◌, Option, none, some, String, str_eq,
  has_prefix, trim_space, ◌<>◌, if◌then◌else◌,
}
use xclaw.Prelude.Dict.{Dict}
use xclaw.Prelude.Result.{Result, ok, err}
use xclaw.Approval.Lists.{first_non_empty}
use xclaw.Approval.Rule.{EvalInput}
use xclaw.Approval.Manager.{Manager, EvalResult, evaluate}
use xclaw.Tools.World.{Outside, ToolInfo}
use xclaw.Tools.Result.{
  ToolCall, ToolResult, empty_result, finish, risk_of, risk_read, risk_write, risk_exec,
}
use xclaw.Tools.Executor.{Executor, list_dir, read_file, write_file, search_text, exec_command}
use xclaw.Tools.Subagents.{spawn_subagent, delegate_to_subagent, list_subagents, terminate_subagent}
use xclaw.Tools.CronTools.{add_cron_job, list_cron_jobs, remove_cron_job, update_cron_job}
use xclaw.Tools.Image.{image_generate}

-- The set of the allowed names: each is trimmed, the call's is not.
unfoldable pub is_allowed : List String → String → Bool
is_allowed [] name = false
is_allowed (a ∷ allowed) name = str_eq (trim_space a) name || is_allowed allowed name

abbrev held : String → String → EvalResult → ToolResult
held name risk decision = record (empty_result name risk) {
  requires_approval = true;
  approval_request = decision.request_id;
  approval_rule_id = decision.rule_id;
  error = first_non_empty (decision.message ∷ "approval required by policy" ∷ []);
}

abbrev pub eval_input : String → ToolCall → EvalInput
eval_input workspace call = record {
  tool = call.name;
  risk = risk_of call.name;
  params = call.params;
  workspace = workspace;
}

-- What the approver's decision makes of a call: `none` lets it through.
abbrev pub decided : String → String → EvalResult → Option ToolResult
decided name risk decision =
    if decision.requires_approval then some (held name risk decision) else none

abbrev by_risk : ToolCall → String → Option ToolResult
by_risk call risk =
    if (str_eq risk risk_write || str_eq risk risk_exec) && not call.auto_approve
    then some (record (empty_result call.name risk) {
      requires_approval = true;
      error = "approval required for high-risk tool";
    })
    else none

module _ (regexp_match : String → String → Option Bool) (now : ℕ → ℕ) where
  -- The test of a call that is allowed. The approver's mutex makes it one step.
  unfoldable pub ask_approval :
      String → ToolCall → Option Manager → Option ToolResult × Option Manager
  ask_approval workspace call none = (by_risk call (risk_of call.name), none)
  ask_approval workspace call (some m) =
      let (decision, m') = evaluate regexp_match (now 0) (now 1) (eval_input workspace call) m in
      (decided call.name (risk_of call.name) decision, some m')

module _ {W : Type 0} (out : Outside W) (now : ℕ → ℕ) where
  abbrev told : Result String (ToolInfo × String) × W → Result String String × W
  told (err error, w) = (err error, w)
  told (ok (tool, output), w) = (
    ok (if str_eq tool.server_name "" then output else "[" <> tool.server_name <> "] " <> output),
    w,
  )

  unfoldable pub call_external_tool : String → Dict String → W → Result String String × W
  call_external_tool name params w = elim out.mcp [
    | none ↦ (err "mcp manager not configured", w)
    | some mcp ↦ told (mcp.call_tool name params w)
  ]

  abbrev pub kept : Executor → ToolResult × W → ToolResult × Executor × W
  kept e (result, w) = (result, e, w)

  abbrev pub finished :
      String → String → Executor → Result String String × W → ToolResult × Executor × W
  finished name risk e (result, w) = (finish name risk result, e, w)

  -- The call itself.
  unfoldable pub dispatch :
      Bool → String → ToolCall → String → Executor → W → ToolResult × Executor × W
  unfolding call_external_tool
  dispatch is_main workspace call risk e w =
      let name = call.name in
      let params = call.params in
      if str_eq name "list_dir"
      then (list_dir out e workspace params w, e, w)
      else if str_eq name "read_file"
      then (read_file out e workspace params w, e, w)
      else if str_eq name "write_file"
      then kept e (write_file out e workspace params w)
      else if str_eq name "search_text"
      then (search_text out e workspace params w, e, w)
      else if str_eq name "exec_cmd"
      then finished "exec_cmd" risk_exec e (exec_command out is_main workspace params w)
      else if str_eq name "spawn_subagent"
      then spawn_subagent out now workspace params e w
      else if str_eq name "delegate_to_subagent"
      then delegate_to_subagent out now workspace params e w
      else if str_eq name "list_subagents"
      then (list_subagents out now e, e, w)
      else if str_eq name "terminate_subagent"
      then terminate_subagent out now params e w
      else if str_eq name "image_generate"
      then finished "image_generate" risk_write e (image_generate out now workspace params w)
      else if str_eq name "add_cron_job"
      then finished "add_cron_job" risk_write e (add_cron_job out now e params w)
      else if str_eq name "list_cron_jobs"
      then (finish "list_cron_jobs" risk_read (list_cron_jobs out now e params w), e, w)
      else if str_eq name "remove_cron_job"
      then finished "remove_cron_job" risk_write e (remove_cron_job out now params w)
      else if str_eq name "update_cron_job"
      then finished "update_cron_job" risk_write e (update_cron_job out now e params w)
      else if has_prefix name "mcp:"
      then finished name risk e (call_external_tool name params w)
      else (finish name risk (err "unknown tool"), e, w)

  -- A call that was answered goes no further.
  unfoldable pub unless_held :
      Bool
      → String
      → ToolCall
      → W
      → Executor
      → Option ToolResult × Option Manager
      → ToolResult × Executor × W
  unfolding dispatch
  unless_held is_main workspace call w e (some result, approver) =
      (result, record e { approver = approver }, w)
  unless_held is_main workspace call w e (none, approver) =
      dispatch is_main workspace call (risk_of call.name) (record e { approver = approver }) w

  unfoldable pub run :
      (String → String → Option Bool)
      → Bool
      → String
      → List String
      → ToolCall
      → Executor
      → W
      → ToolResult × Executor × W
  unfolding unless_held ask_approval
  run regexp_match is_main workspace allowed call e w =
      if not (is_allowed allowed call.name)
      then (finish call.name "" (err "tool not allowed for this agent"), e, w)
      else unless_held is_main workspace call w e
          (ask_approval regexp_match now workspace call e.approver)
