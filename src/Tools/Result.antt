-- ===== src/Tools/Result.antt =====
-- Calls of tools and their results (cli/tools/executor.go). The zero value of a risk is "".
use Prim.Native.String.{len, slice}
use xclaw.Prelude.{
  ℕ, Bool, false, ◌||◌, List, [], ◌∷◌, none, some, String, str_eq, has_prefix, to_lower,
  contains_text, trim_space, ◌<>◌, leb, ltb, if◌then◌else◌,
}
use xclaw.Prelude.Dict
use xclaw.Prelude.Dict.{Dict}
use xclaw.Prelude.Result.{Result, ok, err}

abbrev pub risk_read : String
risk_read = "read"

abbrev pub risk_write : String
risk_write = "write"

abbrev pub risk_exec : String
risk_exec = "exec"

pub record ToolCall : Type 0 where
  pub name : String
  pub params : Dict String
  pub auto_approve : Bool

pub record ToolResult : Type 0 where
  pub name : String
  pub risk : String
  pub requires_approval : Bool
  pub approval_request : String
  pub approval_rule_id : String
  pub output : String
  pub error : String

abbrev pub empty_result : String → String → ToolResult
empty_result name risk = record {
  name = name;
  risk = risk;
  requires_approval = false;
  approval_request = "";
  approval_rule_id = "";
  output = "";
  error = "";
}

-- The result of a tool that gave an output or an error.
abbrev pub finish : String → String → Result String String → ToolResult
finish name risk (ok output) = record (empty_result name risk) { output = output }
finish name risk (err error) = record (empty_result name risk) { error = error }

-- params[key]: "" where the key is missing.
unfoldable pub param_of : Dict String → String → String
param_of params key = elim (Dict.lookup key params) [ none ↦ "" | some v ↦ v ]

abbrev pub trimmed_param : Dict String → String → String
trimmed_param params key = trim_space (param_of params key)

abbrev pub or_else : String → String → String
or_else s d = if str_eq s "" then d else s

abbrev pub one_of : List String → String → Bool
one_of [] name = false
one_of (n ∷ names) name = str_eq n name || one_of names name

unfoldable pub classify : String → String
classify name =
    if one_of ("list_dir" ∷ "read_file" ∷ "search_text" ∷ "list_subagents" ∷ "list_cron_jobs" ∷ [])
      name
    then risk_read
    else if one_of ("exec_cmd" ∷ "delegate_to_subagent" ∷ []) name
    then risk_exec
    else risk_write

abbrev contains_any : List String → String → Bool
contains_any [] text = false
contains_any (p ∷ parts) text = contains_text text p || contains_any parts text

unfoldable pub classify_external : String → String
classify_external name =
    let lower = to_lower (trim_space name) in
    if contains_any (":read" ∷ ":list" ∷ ":get" ∷ ":search" ∷ []) lower
    then risk_read
    else if contains_any (":write" ∷ ":create" ∷ ":update" ∷ ":delete" ∷ ":install" ∷ []) lower
    then risk_write
    else risk_exec

-- The risk that Run gives a call.
unfoldable pub risk_of : String → String
unfolding classify classify_external
risk_of name = if has_prefix name "mcp:" then classify_external name else classify name

-- text[:n] + mark for a text of more than n bytes; a character that stands across the cut is not divided.
abbrev pub cut : ℕ → String → String → String
cut n mark text = if ltb n (len text) then slice text 0 n <> mark else text

unfoldable pub trim_text : String → ℕ → String
trim_text s limit = let t = trim_space s in if leb limit 0 then t else cut limit " ..." t
