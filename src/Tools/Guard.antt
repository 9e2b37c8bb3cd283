-- ===== src/Tools/Guard.antt =====
-- What stands between a tool's call and its effect: `Run` of cli/tools/executor.go before the approval
-- manager of cli/approval/manager.go.
use xclaw.Prelude.{
  ℕ, ◌≡◌, refl, sym, Bool, true, ◌⊎◌, inl, inr, List, Option, some, String, Bool-cases,
}
use mathlib.Core.Path.{subst}
use xclaw.Prelude.Dict
use xclaw.Approval.Rule.{EvalInput}
use xclaw.Approval.Request.{Request}
use xclaw.Approval.Manager.{Manager, evaluate, new_manager}
use xclaw.Approval.Runs.{Operation, run_all}
use xclaw.Approval.Gate.{Granted, NoRuleMatches, named_request, passes_only-Granted}
use xclaw.Tools.World.{Outside}
use xclaw.Tools.Result.{ToolCall, ToolResult}
use xclaw.Tools.Executor.{Executor}
use xclaw.Tools.Run.{eval_input, is_allowed, ask_approval, unless_held, run}

-- Neither the outside nor the subagents have changed.
abbrev pub Unchanged : {W : Type 0} → Executor → W → ToolResult × Executor × W → Type 0
Unchanged e w (result, e', w') = (e'.subagents ≡ e.subagents) × (w' ≡ w)

-- The call names a request that got enough votes, or it names none and no rule matches it.
abbrev pub Passed : (String → String → Option Bool) → ℕ → EvalInput → Manager → Type 0
Passed regexp_match nano input m =
    ((r : Request) × (Dict.lookup (named_request input) m.requests ≡ some r) × Granted r)
    ⊎ ((named_request input ≡ "") × NoRuleMatches regexp_match nano input m.rules)

module _ {W : Type 0} (out : Outside W) (regexp_match : String → String → Option Bool) (now : ℕ → ℕ)
    (is_main : Bool) (workspace : String) (call : ToolCall) (e : Executor) (w : W) where
  held_or_Passed :
      (ops : List Operation)
      → Unchanged e w (
          unless_held out now is_main workspace call w e (
            ask_approval regexp_match now workspace call
              (some (run_all regexp_match ops new_manager))))
        ⊎ Passed regexp_match
            (now 1)
            (eval_input workspace call)
            (run_all regexp_match ops new_manager)
  unfolding ask_approval unless_held
  held_or_Passed ops =
      let input = eval_input workspace call in
      let m = run_all regexp_match ops new_manager in
      elim (Bool-cases (evaluate regexp_match (now 0) (now 1) input m).0.requires_approval) [
        | inl held ↦ inl (rw held (refl, refl))
        | inr free ↦ inr (passes_only-Granted regexp_match ops (now 0) (now 1) input free)
      ]

-- The executor's approver is what any operations by any callers have made of a new manager. Then a
-- call of a tool changes nothing outside and no subagent, unless the tool is one of the agent's, and
-- either the call names a stored request that got enough votes, or it names none and no rule matches
-- it at the tool's risk.
pub run_guarded :
    {W : Type 0} (out : Outside W) (regexp_match : String → String → Option Bool) (now : ℕ → ℕ)
    (is_main : Bool) (workspace : String) (allowed : List String) (call : ToolCall) (e : Executor)
    (w : W) (ops : List Operation)
    → e.approver ≡ some (run_all regexp_match ops new_manager)
    → Unchanged e w (run out now regexp_match is_main workspace allowed call e w)
      ⊎ ((is_allowed allowed call.name ≡ true)
          × Passed regexp_match
              (now 1)
              (eval_input workspace call)
              (run_all regexp_match ops new_manager))
unfolding run
run_guarded out regexp_match now is_main workspace allowed call e w ops has =
    elim (Bool-cases (is_allowed allowed call.name)) [
      | inr strange ↦ inl (rw strange (refl, refl))
      | inl listed ↦
          elim (subst
            (λ approver.
              Unchanged e w (
                unless_held out now is_main workspace call w e
                  (ask_approval regexp_match now workspace call approver))
              ⊎ Passed regexp_match (now 1) (eval_input workspace call)
                  (run_all regexp_match ops new_manager))
            (sym has) (held_or_Passed out regexp_match now is_main workspace call e w ops)) [
              | inl same ↦ inl (rw listed same)
              | inr passed ↦ inr (listed, passed)
            ]
    ]
