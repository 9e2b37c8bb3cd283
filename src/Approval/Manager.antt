-- ===== src/Approval/Manager.antt =====
-- The operations of `Manager` in cli/approval/manager.go, each as a function of the readings of the
-- clock that it takes. A mutex guards each whole operation, so a state has one operation at a time.
use xclaw.Prelude.{
  ℕ, suc, ◌*◌, ◌^◌, Bool, true, false, not, List, [], ◌∷◌, Option, none, some, String, str_eq,
  trim_space, show_decimal, ◌<>◌, ltb, if◌then◌else◌,
}
use xclaw.Prelude.Dict
use xclaw.Prelude.Dict.{Dict}
use xclaw.Approval.Lists.{first_non_empty, normalize_string_list, append_unique}
use xclaw.Approval.Rule.{
  Rule, EvalInput, param, normalize_rule, normalize_strategy, match_rule, default_reason,
  strategy_single,
}
use xclaw.Approval.Request.{
  Request, pending, approved, rejected, expired, is_pending, add_duration, approval_satisfied,
  expire,
}

pub record Manager : Type 0 where
  pub rules : List Rule
  pub requests : Dict Request

pub record EvalResult : Type 0 where
  pub requires_approval : Bool
  pub request_id : String
  pub rule_id : String
  pub message : String

abbrev pub no_approval_needed : EvalResult
no_approval_needed = record {
  requires_approval = false;
  request_id = "";
  rule_id = "";
  message = "";
}

abbrev pub default_rule : String → String → String → String → Rule
default_rule id name risk reason = record {
  id = id;
  name = name;
  enabled = true;
  tools = [];
  risks = risk ∷ [];
  path_prefixes = [];
  command_patterns = [];
  impact_min = 0;
  strategy = strategy_single;
  approvers = [];
  expires_in_sec = 24 * 3600;
  reason = reason;
}

abbrev pub new_manager : Manager
new_manager = record {
  rules =
      default_rule "rule-risk-write" "写操作需要审批" "write" "写入会修改工作区内容"
      ∷ default_rule "rule-risk-exec" "命令执行需要审批" "exec" "命令执行存在系统影响风险"
      ∷ [];
  requests = [];
}

-- The rules with their index; `nano i` is the clock at the round `i`.
unfoldable pub normalize_rules : (ℕ → ℕ) → ℕ → List Rule → List Rule
normalize_rules nano i [] = []
normalize_rules nano i (rule ∷ rules) =
    normalize_rule (nano i) rule ∷ normalize_rules nano (suc i) rules

unfoldable pub set_rules : (ℕ → ℕ) → List Rule → Manager → Manager
unfolding normalize_rules
set_rules nano rules m = record m { rules = normalize_rules nano 0 rules }

unfoldable pub expire_requests : ℕ → Manager → Manager
expire_requests now m = record m { requests = Dict.map_values (expire now) m.requests }

answer : Request → String → EvalResult
answer req message = record {
  requires_approval = true;
  request_id = req.id;
  rule_id = req.rule_id;
  message = message;
}

-- Evaluate on a call that names an approval request.
unfoldable pub evaluate_named : String → Option Request → EvalResult
unfolding answer
evaluate_named id none = record {
  requires_approval = true;
  request_id = id;
  rule_id = "";
  message = "approval request not found";
}
evaluate_named id (some req) = elim req.status [
  | approved ↦ no_approval_needed
  | expired ↦ answer req "approval request expired"
  | rejected ↦ answer req "approval request rejected"
  | _ ↦ answer req "approval request pending"
]

abbrev pub new_id : ℕ → String
new_id nano = "apr_" <> show_decimal nano

-- The request that a matching rule opens; `nano` is the clock's reading that names it.
unfoldable pub new_request : ℕ → ℕ → Rule → EvalInput → Request
new_request now nano rule input = record {
  id = new_id nano;
  rule_id = rule.id;
  tool = trim_space input.tool;
  risk = trim_space input.risk;
  params = input.params;
  reason = first_non_empty (rule.reason ∷ default_reason rule input ∷ []);
  strategy = normalize_strategy rule.strategy;
  approvers = normalize_string_list rule.approvers;
  approved_by = [];
  rejected_by = [];
  status = pending;
  created_at = now;
  expires_at =
      add_duration now
        ((if ltb 900 rule.expires_in_sec then rule.expires_in_sec else 900) * 10 ^ 9);
  completed_at = none;
}

unfoldable pub open_request : ℕ → ℕ → Option Rule → EvalInput → Manager → EvalResult × Manager
open_request now nano none input m = (no_approval_needed, m)
open_request now nano (some rule) input m =
    let req = new_request now nano rule input in
    (
      record {
        requires_approval = true;
        request_id = req.id;
        rule_id = rule.id;
        message = req.reason;
      },
      record m { requests = Dict.insert req.id req m.requests },
    )

module _ (regexp_match : String → String → Option Bool) where
  -- The loop over the rules stops at the first that matches.
  unfoldable pub find_rule : ℕ → List Rule → EvalInput → Option Rule
  find_rule nano [] input = none
  find_rule nano (rule ∷ rules) input =
      let rest = find_rule nano rules input in
      if match_rule regexp_match nano rule input then some rule else rest

  unfoldable pub evaluate : ℕ → ℕ → EvalInput → Manager → EvalResult × Manager
  evaluate now nano input m =
      let m' = expire_requests now m in
      let id = trim_space (param input "approval_request_id") in
      if str_eq id ""
      then open_request now nano (find_rule nano m'.rules input) input m'
      else (evaluate_named id (Dict.lookup id m'.requests), m')

pub data ManagerError : Type 0 where
  id_required request_not_found : ManagerError

pub data Reply : Type 0 where
  ok : Request → Reply
  err : ManagerError → Reply

unfoldable pub actor_name : String → String
actor_name actor = let a = trim_space actor in if str_eq a "" then "anonymous" else a

-- What Approve does to the request that it finds.
unfoldable pub approve_request : ℕ → String → Request → Request
approve_request now actor req =
    let voted = record req { approved_by = append_unique req.approved_by actor } in
    if not (is_pending req.status)
    then req
    else if approval_satisfied voted
    then record voted { status = approved; completed_at = some now }
    else voted

unfoldable pub reject_request : ℕ → String → Request → Request
reject_request now actor req = record req {
  rejected_by = append_unique req.rejected_by actor;
  status = rejected;
  completed_at = some now;
}

-- The frame that Approve and Reject share: checks, expiry at `now`, look-up, write-back.
unfoldable pub update_request :
    (String → Request → Request) → ℕ → String → String → Manager → Reply × Manager
update_request change now raw_id raw_actor m =
    let id = trim_space raw_id in
    let m' = expire_requests now m in
    if str_eq id "" then (err id_required, m) else elim (Dict.lookup id m'.requests) [
      | none ↦ (err request_not_found, m')
      | some req ↦
          let req' = change (actor_name raw_actor) req in
          (ok req', record m' { requests = Dict.insert id req' m'.requests })
    ]

-- `now` is the clock at the expiry, `later` the reading that a decision is stamped with.
unfoldable pub approve : ℕ → ℕ → String → String → Manager → Reply × Manager
unfolding update_request
approve now later = update_request (approve_request later) now

unfoldable pub reject : ℕ → ℕ → String → String → Manager → Reply × Manager
unfolding update_request
reject now later = update_request (reject_request later) now
