-- ===== src/Tools/Schemas.antt =====
-- The tools that an agent is told of: `ListSchemas` of cli/tools/executor.go. The names of an external
-- tool's parameters are read from its schema by the `ToolInfo`.
use xclaw.Prelude.{
  ◌≡◌, Bool, true, inl, inr, List, [], ◌∷◌, ◌++◌, All, All-append, none, some, String, arith,
  Bool-cases, str_eq, trim_space, ◌<>◌, if◌then◌else◌,
}
use xclaw.Approval.Lists.{first_non_empty, is_seen}
use xclaw.Tools.World.{Outside, ToolInfo}
use xclaw.Tools.Result.{risk_read, risk_write, risk_exec}
use xclaw.Tools.Run.{is_allowed}

pub record ToolSchema : Type 0 where
  pub name : String
  pub description : String
  pub params : List String
  pub risk : String

abbrev schema : String → String → List String → String → ToolSchema
schema name description params risk = record {
  name = name;
  description = description;
  params = params;
  risk = risk;
}

abbrev pub base_schemas : List ToolSchema
base_schemas =
    schema "list_dir" "列出目录内容" ("path" ∷ []) risk_read
    ∷ schema "read_file" "读取文件" ("path" ∷ []) risk_read
    ∷ schema "write_file" "写入文件" ("path" ∷ "content" ∷ []) risk_write
    ∷ schema "search_text" "文本搜索" ("query" ∷ "path" ∷ []) risk_read
    ∷ schema "exec_cmd" "执行命令" ("command" ∷ "args" ∷ "approval_request_id" ∷ []) risk_exec
    ∷ schema "spawn_subagent" "创建临时子智能体" ("role" ∷ "description" ∷ "tools" ∷ []) risk_write
    ∷ schema "delegate_to_subagent" "委托任务给子智能体" ("id" ∷ "task" ∷ "command" ∷ "args" ∷ []) risk_exec
    ∷ schema "list_subagents" "列出当前子智能体" [] risk_read
    ∷ schema "terminate_subagent" "终止并清理子智能体" ("id" ∷ []) risk_write
    ∷ schema "image_generate" "生成图片" ("prompt" ∷ "size" ∷ "style" ∷ "model" ∷ []) risk_write
    ∷ schema "add_cron_job" "添加定时任务"
        ("name" ∷ "schedule" ∷ "payload" ∷ "schedule_type" ∷ "job_type" ∷ "execution_mode"
          ∷ "priority" ∷ "retry_limit" ∷ [])
        risk_write
    ∷ schema "list_cron_jobs" "列出定时任务" ("agent_id" ∷ "enabled_only" ∷ []) risk_read
    ∷ schema "remove_cron_job" "移除定时任务" ("id" ∷ []) risk_write
    ∷ schema "update_cron_job" "更新定时任务"
        ("id" ∷ "name" ∷ "schedule" ∷ "payload" ∷ "enabled" ∷ "priority" ∷ "retry_limit" ∷ [])
        risk_write
    ∷ []

-- The set of the allowed names that are not blank.
unfoldable pub name_set : List String → List String
name_set [] = []
name_set (item ∷ allowed) =
    let name = trim_space item in
    let rest = name_set allowed in if str_eq name "" then rest else name ∷ rest

-- An empty set lets every name through.
abbrev passes : List String → String → Bool
passes [] name = true
passes (n ∷ names) name = is_seen (n ∷ names) name

unfoldable pub chosen : List String → List ToolSchema → List ToolSchema
chosen names [] = []
chosen names (s ∷ schemas) =
    let rest = chosen names schemas in if passes names s.name then s ∷ rest else rest

abbrev external_schema : ToolInfo → ToolSchema
external_schema item =
    schema item.full_name
      (first_non_empty (item.description ∷ ("MCP tool from " <> item.server_name) ∷ []))
      item.param_names item.risk

abbrev external_schemas : List ToolInfo → List ToolSchema
external_schemas [] = []
external_schemas (item ∷ items) = external_schema item ∷ external_schemas items

module _ {W : Type 0} (out : Outside W) where
  abbrev external : W → List ToolSchema
  external w = elim out.mcp [ none ↦ [] | some mcp ↦ external_schemas (mcp.list_tools w) ]

  unfoldable pub list_schemas : List String → W → List ToolSchema
  unfolding name_set chosen
  list_schemas allowed w =
      let names = name_set allowed in chosen names base_schemas ++ chosen names (external w)

in_set-is_allowed :
    (allowed : List String) (name : String)
    → is_seen (name_set allowed) name ≡ true
    → is_allowed allowed name ≡ true
unfolding name_set is_allowed is_seen
in_set-is_allowed [] name h = cc
in_set-is_allowed (a ∷ allowed) name h = ground (arith, in_set-is_allowed allowed name)

-- A name that a set with members lets through is in it.
passes-is_seen :
    (n : String) (names : List String) (name : String)
    → passes (n ∷ names) name ≡ true
    → is_seen (n ∷ names) name ≡ true
passes-is_seen n names name h = h

chosen-allowed :
    (allowed : List String) (n : String) (names : List String) (schemas : List ToolSchema)
    → name_set allowed ≡ n ∷ names
    → All (λ s. is_allowed allowed s.name ≡ true) (chosen (n ∷ names) schemas)
unfolding chosen
chosen-allowed allowed n names [] e = tt
chosen-allowed allowed n names (s ∷ schemas) e = elim (Bool-cases (is_seen (n ∷ names) s.name)) [
  | inl h ↦
      rw h (in_set-is_allowed allowed s.name (rw e h), chosen-allowed allowed n names schemas e)
  | inr h ↦ rw h (chosen-allowed allowed n names schemas e)
]

-- An agent whose list of tools names one at least is told only of tools that Run lets it call.
pub list_schemas-allowed :
    {W : Type 0} (out : Outside W) (allowed : List String) (n : String) (names : List String)
    (w : W)
    → name_set allowed ≡ n ∷ names
    → All (λ s. is_allowed allowed s.name ≡ true) (list_schemas out allowed w)
unfolding list_schemas
list_schemas-allowed out allowed n names w e = rw e (
    All-append (λ s. is_allowed allowed s.name ≡ true) (chosen (n ∷ names) base_schemas)
      (chosen (n ∷ names) (external out w)) (chosen-allowed allowed n names base_schemas e)
      (chosen-allowed allowed n names (external out w) e))
