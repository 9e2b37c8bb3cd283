-- ===== src/Approval/Rule.antt =====
-- Rules, and when a rule matches a tool call: `Rule`, `EvalInput`, `normalizeRule`, `matchRule` and
-- what these call in cli/approval/manager.go. `regexp` is the parameter `regexp_match`: `none` is a
-- pattern that does not compile.
use xclaw.Prelude.{
  ℕ, ◌+◌, ◌*◌, Bool, true, false, ◌&&◌, ◌||◌, not, List, [], ◌∷◌, Option, none, some, String,
  str_eq, has_prefix, contains_text, to_lower, trim_space, show_decimal, ◌<>◌, ltb, ◌==◌,
  if◌then◌else◌,
}
use xclaw.Prelude.Dict
use xclaw.Prelude.Dict.{Dict}
use xclaw.Approval.Lists.{first_non_empty, normalize_string_list, contains}

abbrev pub strategy_single : String
strategy_single = "single"

abbrev pub strategy_all : String
strategy_all = "all"

abbrev pub strategy_any : String
strategy_any = "any"

-- `impact_min` and `expires_in_sec` are Go `int`s that are only compared with 0 and with a score or
-- a floor: 0 stands for every value that is not positive.
pub record Rule : Type 0 where
  pub id : String
  pub name : String
  pub enabled : Bool
  pub tools : List String
  pub risks : List String
  pub path_prefixes : List String
  pub command_patterns : List String
  pub impact_min : ℕ
  pub strategy : String
  pub approvers : List String
  pub expires_in_sec : ℕ
  pub reason : String

pub record EvalInput : Type 0 where
  pub tool : String
  pub risk : String
  pub params : Dict String
  pub workspace : String

-- in.Params[key]: "" where the key is missing.
unfoldable pub param : EvalInput → String → String
param input key = elim (Dict.lookup key input.params) [ none ↦ "" | some v ↦ v ]

unfoldable pub normalize_strategy : String → String
normalize_strategy s =
    let t = trim_space s in
    if str_eq t strategy_all
    then strategy_all
    else if str_eq t strategy_any
    then strategy_any
    else strategy_single

unfoldable pub or_default : String → String → String
or_default s d = if str_eq s "" then d else s

-- `nano` is the clock's reading, which names a rule that has no id.
unfoldable pub normalize_rule : ℕ → Rule → Rule
unfolding or_default
normalize_rule nano rule =
    let id = or_default (trim_space rule.id) ("rule_" <> show_decimal nano) in
    record rule {
      id = id;
      name = or_default (trim_space rule.name) id;
      tools = normalize_string_list rule.tools;
      risks = normalize_string_list rule.risks;
      path_prefixes = normalize_string_list rule.path_prefixes;
      command_patterns = normalize_string_list rule.command_patterns;
      approvers = normalize_string_list rule.approvers;
      strategy = normalize_strategy rule.strategy;
      expires_in_sec = if rule.expires_in_sec == 0 then 24 * 3600 else rule.expires_in_sec;
    }

unfoldable pub default_reason : Rule → EvalInput → String
default_reason rule input =
    if str_eq rule.name ""
    then "审批策略命中: tool=" <> input.tool <> " risk=" <> input.risk
    else "审批策略命中: " <> rule.name

abbrev path_value : EvalInput → String
path_value input =
    first_non_empty (param input "path" ∷ param input "target" ∷ param input "file" ∷ [])

abbrev command_value : EvalInput → String
command_value input = first_non_empty (param input "command" ∷ param input "cmd" ∷ [])

abbrev score_if : Bool → ℕ → ℕ
score_if b n = if b then n else 0

unfoldable pub impact_score : EvalInput → ℕ
impact_score input =
    let path = path_value input in
    let cmd = to_lower (command_value input) in
    score_if (str_eq (trim_space input.risk) "exec") 6
    + score_if (str_eq (trim_space input.risk) "write") 4
    + score_if (has_prefix path "/etc" || has_prefix path "/usr") 6
    + score_if (contains_text cmd "rm" || contains_text cmd "chmod" || contains_text cmd "chown") 5

-- The loop over the prefixes; a blank one is skipped.
unfoldable pub any_prefix : String → List String → Bool
any_prefix path [] = false
any_prefix path (p ∷ prefixes) =
    let prefix = trim_space p in
    let rest = any_prefix path prefixes in
    if str_eq prefix "" then rest else if has_prefix path prefix then true else rest

abbrev is_empty {ℓ} : {A : Type ℓ} → List A → Bool
is_empty [] = true
is_empty (x ∷ xs) = false

module _ (regexp_match : String → String → Option Bool) where
  -- The loop over the patterns; one that does not compile is skipped.
  unfoldable pub any_pattern : String → List String → Bool
  any_pattern cmd [] = false
  any_pattern cmd (p ∷ patterns) =
      let rest = any_pattern cmd patterns in
      elim (regexp_match p cmd) [ none ↦ rest | some found ↦ if found then true else rest ]

  abbrev paths_pass : Rule → EvalInput → Bool
  paths_pass rule input =
      is_empty rule.path_prefixes
      || (not (str_eq (path_value input) "") && any_prefix (path_value input) rule.path_prefixes)

  abbrev commands_pass : Rule → EvalInput → Bool
  commands_pass rule input =
      is_empty rule.command_patterns
      || (not (str_eq (command_value input) "")
          && any_pattern (command_value input) rule.command_patterns)

  -- The tests of matchRule on a normalized rule, in the order of its early returns.
  unfoldable pub match_normalized : Rule → EvalInput → Bool
  match_normalized rule input =
      if not rule.enabled
      then false
      else if not (is_empty rule.tools) && not (contains rule.tools (trim_space input.tool))
      then false
      else if not (is_empty rule.risks) && not (contains rule.risks (trim_space input.risk))
      then false
      else if not (paths_pass rule input)
      then false
      else if not (commands_pass rule input)
      then false
      else if ltb 0 rule.impact_min && ltb (impact_score input) rule.impact_min
      then false
      else true

  unfoldable pub match_rule : ℕ → Rule → EvalInput → Bool
  unfolding match_normalized
  match_rule nano rule input = match_normalized (normalize_rule nano rule) input
