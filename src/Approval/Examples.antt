-- ===== src/Approval/Examples.antt =====
-- Runs of the approval manager on concrete calls, and its theorems there.
use xclaw.Prelude.{
  ◌≡◌, refl, Bool, true, false, ◌⊎◌, ◌↔◌, List, [], ◌∷◌, Option, none, some, String, str_eq,
  if◌then◌else◌, arith, eq_iff, trim_space, contains_text, show_decimal,
}
use xclaw.Prelude.Dict
use xclaw.Approval.Rule.{
  EvalInput, match_rule, impact_score, normalize_strategy, normalize_rule, Rule, param,
}
use xclaw.Approval.Lists.{contains, append_unique, normalize_string_list, first_non_empty}
use xclaw.Approval.Request.{Request, rejected, expired, expire, add_duration, votes_suffice}
use xclaw.Approval.Manager.{
  Manager, ok, new_manager, evaluate, approve, find_rule, new_request, default_rule, open_request,
  expire_requests, approve_request, actor_name,
}
use xclaw.Approval.Runs.{
  Operation, evaluate_call, approve_by, observe, run, run_all, run_all-Keeps, rejected_final,
}
use xclaw.Approval.Lifecycle.{Moves}
use xclaw.Approval.Consistency.{AllConsistent, run_all-AllConsistent}
use xclaw.Approval.Gate.{
  passes_only-Granted, evaluate_allows_iff, Allowed, Granted, named_request, NoRuleMatches,
  new_manager-AllConsistent,
}
use xclaw.Approval.Persist.{PersistedState, persisted, snapshot, load}
use xclaw.Approval.Persist.Keys.{run_all-IsStored, new_manager-IsStored}
use xclaw.Approval.Persist.RoundTrip.{load-snapshot, or_old}
use xclaw.Approval.Decisions.{approve_overdue, held_then_released}

-- A stand-in for `regexp`: a pattern matches where it occurs.
abbrev occurs : String → String → Option Bool
occurs pattern text = some (contains_text text pattern)

abbrev write_call : EvalInput
write_call = record {
  tool = "write_file";
  risk = "write";
  params = ("path", "a.txt") ∷ [];
  workspace = "/w";
}

abbrev read_call : EvalInput
read_call = record { tool = "read_file"; risk = "read"; params = []; workspace = "/w" }

abbrev naming_call : EvalInput
naming_call = record write_call { params = ("approval_request_id", " apr_7 ") ∷ [] }

abbrev held : Manager
held = (evaluate occurs 5 7 write_call new_manager).1

write_is_held : (evaluate occurs 5 7 write_call new_manager).0.message ≡ "写入会修改工作区内容"
unfolding evaluate open_request expire_requests find_rule match_rule normalize_rule
    normalize_string_list first_non_empty contains impact_score param trim_space Dict.lookup
    new_request
write_is_held = refl

abbrev write_rule : Rule
write_rule = default_rule "rule-risk-write" "写操作需要审批" "write" "写入会修改工作区内容"

write_rule_found : find_rule occurs 7 new_manager.rules write_call ≡ some write_rule
unfolding find_rule match_rule normalize_rule normalize_string_list contains impact_score trim_space
    first_non_empty param Dict.lookup
write_rule_found = refl

held_then_released_example :
    ((evaluate occurs 5 7 write_call new_manager).0.requires_approval ≡ true)
    × ((evaluate occurs 30 31 naming_call (approve 20 21 "apr_7" "ann" held).1).0.requires_approval
        ≡ false)
unfolding param Dict.lookup trim_space show_decimal normalize_strategy new_request add_duration
held_then_released_example =
    held_then_released occurs new_manager write_call naming_call write_rule "apr_7" "ann" 5 7 20 21
      30 31 refl write_rule_found (λ p. ground (arith, eq_iff "single" "all", p)) refl (omega arith)
      refl

abbrev asked : Request
asked = new_request 5 7 write_rule write_call

abbrev only_asked : Manager
only_asked = record { rules = []; requests = ("apr_7", asked) ∷ [] }

abbrev refused : Request
refused = record asked { rejected_by = "bob" ∷ []; status = rejected; completed_at = some 9 }

abbrev only_refused : Manager
only_refused = record { rules = []; requests = ("apr_7", refused) ∷ [] }

abbrev visit : List Operation
visit = approve_by 20 21 "apr_7" "ann" ∷ observe 30 ∷ evaluate_call 31 32 naming_call ∷ []

passes_only-Granted_example :
    ((r : Request) × (Dict.lookup
          (named_request naming_call)
          (run_all occurs
            (evaluate_call 5 7 write_call ∷ approve_by 20 21 "apr_7" "ann" ∷ [])
            new_manager).requests
        ≡ some r)
      × Granted r)
    ⊎ ((named_request naming_call ≡ "")
        × NoRuleMatches occurs 31 naming_call
            (run_all occurs
              (evaluate_call 5 7 write_call ∷ approve_by 20 21 "apr_7" "ann" ∷ [])
              new_manager).rules)
unfolding run_all run
passes_only-Granted_example =
    passes_only-Granted occurs (evaluate_call 5 7 write_call ∷ approve_by 20 21 "apr_7" "ann" ∷ [])
      30 31 naming_call held_then_released_example.1

evaluate_allows_iff_example :
    ((evaluate occurs 5 7 read_call new_manager).0.requires_approval ≡ false)
    ↔ Allowed occurs 7 read_call new_manager
evaluate_allows_iff_example = evaluate_allows_iff occurs 5 7 read_call new_manager

run_all-Keeps_example :
    (r : Request) × (Dict.lookup "apr_7" (run_all occurs visit only_asked).requests ≡ some r)
    × Moves asked r
unfolding Dict.lookup run show_decimal expire_requests approve expire new_request approve_request
    actor_name trim_space Dict.insert Dict.map_values append_unique contains votes_suffice
    normalize_strategy add_duration
run_all-Keeps_example =
    run_all-Keeps occurs visit only_asked (tt, (tt, (refl, tt))) "apr_7" asked refl

rejected_final_example :
    (r : Request) × (Dict.lookup "apr_7" (run_all occurs visit only_refused).requests ≡ some r)
    × (r.status ≡ rejected)
unfolding Dict.lookup run show_decimal expire_requests approve expire new_request approve_request
    actor_name trim_space Dict.insert Dict.map_values append_unique contains votes_suffice
    normalize_strategy add_duration
rejected_final_example =
    rejected_final occurs visit only_refused "apr_7" refused (tt, (tt, (refl, tt))) refl refl

-- A request is opened, approved under its id, and named.
abbrev whole_visit : List Operation
whole_visit = evaluate_call 5 7 write_call ∷ visit

run_all-AllConsistent_example : AllConsistent (run_all occurs whole_visit new_manager)
run_all-AllConsistent_example =
    run_all-AllConsistent occurs whole_visit new_manager new_manager-AllConsistent

approve_overdue_example :
    ((approve 1000000000000000 1000000000000001 " apr_7" "ann" only_asked).0
      ≡ ok (record asked { status = expired; completed_at = some 1000000000000000 }))
    × (Dict.lookup
          (trim_space " apr_7")
          (approve 1000000000000000 1000000000000001 " apr_7" "ann" only_asked).1.requests
        ≡ some (record asked { status = expired; completed_at = some 1000000000000000 }))
unfolding Dict.lookup new_request add_duration trim_space
approve_overdue_example =
    approve_overdue 1000000000000000 1000000000000001 " apr_7" "ann" only_asked asked
      (λ p. ground (arith, eq_iff "apr_7" "", p)) refl refl (omega arith) (omega arith)

-- A stand-in for `json` that knows one text.
abbrev kept_text : String
kept_text = "{\"rules\":[],\"requests\":[]}"

abbrev one_state : PersistedState → String → Option PersistedState
one_state state text = if str_eq text kept_text then some state else none

abbrev waiting : Manager
waiting = run_all occurs (evaluate_call 5 7 write_call ∷ []) new_manager

load-snapshot_example :
    load (one_state (persisted (expire_requests 20 waiting))) (λ i. i) 30 kept_text only_refused ≡ (
      false,
      expire_requests 30
          (record (expire_requests 20 waiting) { rules = or_old waiting.rules only_refused.rules }),
    )
unfolding trim_space snapshot
load-snapshot_example =
    load-snapshot (λ state. some kept_text) (one_state (persisted (expire_requests 20 waiting)))
      waiting only_refused (λ i. i) 20 30 kept_text
      (run_all-IsStored occurs (evaluate_call 5 7 write_call ∷ []) new_manager new_manager-IsStored)
      refl refl (λ written. refl)
