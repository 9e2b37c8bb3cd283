-- ===== src/Approval/Runs.antt =====
-- Runs of the approval manager: any sequence of operations by any callers.
use xclaw.Prelude.{
  ℕ, ◌≡◌, Bool, inl, inr, List, [], ◌∷◌, Option, none, some, String, arith, Bool-cases, str_eq,
  trim_space,
}
use xclaw.Prelude.Dict
use xclaw.Prelude.Dict.{Dict, lookup-insert, lookup-map_values}
use xclaw.Approval.Rule.{Rule, EvalInput, param}
use xclaw.Approval.Request.{Request, RequestStatus, rejected, expire}
use xclaw.Approval.Manager.{
  Manager, set_rules, expire_requests, evaluate, new_id, approve_request, reject_request, approve,
  reject,
}
use xclaw.Approval.Lifecycle.{
  CanMove, Moves-refl, Moves-trans, Keeps, expire-Moves, approve-Moves, reject-Moves, lookup-expire,
  lookup-expire_none, expire-Keeps, update-Keeps, open-lookup,
}

-- A reading of the clock by each operation, and who performs it. `observe` stands for ListRequests
-- and Snapshot, which change the state by expiry alone.
pub data Operation : Type 0 where
  evaluate_call : (now nano : ℕ) → EvalInput → Operation
  approve_by reject_by : (now later : ℕ) → (id actor : String) → Operation
  replace_rules : (nano : ℕ → ℕ) → List Rule → Operation
  observe : (now : ℕ) → Operation

module _ (regexp_match : String → String → Option Bool) where
  unfoldable pub run : Operation → Manager → Manager
  run (evaluate_call now nano input) m = (evaluate regexp_match now nano input m).1
  run (approve_by now later id actor) m = (approve now later id actor m).1
  run (reject_by now later id actor) m = (reject now later id actor m).1
  run (replace_rules nano rules) m = set_rules nano rules m
  run (observe now) m = expire_requests now m

-- The id that an operation may open a request under is not in use. (Ids are clock readings.)
abbrev pub IsFresh : Operation → Manager → Type 0
IsFresh (evaluate_call now nano input) m = Dict.lookup (new_id nano) m.requests ≡ none
IsFresh _ m = Unit

module _ (regexp_match : String → String → Option Bool) where
  pub evaluate-Keeps :
      (now nano : ℕ) (input : EvalInput) (m : Manager)
      → Dict.lookup (new_id nano) m.requests ≡ none
      → Keeps m (evaluate regexp_match now nano input m).1
  unfolding evaluate
  evaluate-Keeps now nano input m fresh k r h =
      elim (Bool-cases (str_eq (trim_space (param input "approval_request_id")) "")) [
        | inl e ↦ (
          expire now r,
          rw e (
              open-lookup now nano _ input (expire_requests now m) k
                (lookup-expire_none now m (new_id nano) fresh) (lookup-expire now m k h)),
          expire-Moves now r,
        )
        | inr e ↦ (expire now r, rw e (lookup-expire now m k h), expire-Moves now r)
      ]

  -- Every operation keeps every request: what was asked never changes, and the status only moves as
  -- `CanMove` says, if no request is opened under an id that is in use.
  pub run-Keeps : (op : Operation) (m : Manager) → IsFresh op m → Keeps m (run regexp_match op m)
  unfolding run approve reject
  run-Keeps (evaluate_call now nano input) m fresh = evaluate-Keeps now nano input m fresh
  run-Keeps (approve_by now later id actor) m _ =
      update-Keeps (approve_request later) now id actor m (λ a r. approve-Moves now later a r)
  run-Keeps (reject_by now later id actor) m _ =
      update-Keeps (reject_request later) now id actor m (λ a r. reject-Moves now later a r)
  run-Keeps (replace_rules nano rules) m _ = unfold set_rules in λ k r h. (r, h, Moves-refl r)
  run-Keeps (observe now) m _ = expire-Keeps now m

  unfoldable pub run_all : List Operation → Manager → Manager
  run_all [] m = m
  run_all (op ∷ ops) m = run_all ops (run regexp_match op m)

  abbrev pub AllFresh : List Operation → Manager → Type 0
  AllFresh [] m = Unit
  AllFresh (op ∷ ops) m = IsFresh op m × AllFresh ops (run regexp_match op m)

from_rejected : (s t : RequestStatus) → s ≡ rejected → CanMove s t → t ≡ rejected
from_rejected s t e p = ground arith

module _ (regexp_match : String → String → Option Bool) where
  -- Over any sequence of operations by any callers, each request that was there is still there, has
  -- been asked to do the same, and its status has moved as `CanMove` says.
  pub run_all-Keeps :
      (ops : List Operation) (m : Manager)
      → AllFresh regexp_match ops m
      → Keeps m (run_all regexp_match ops m)
  unfolding run_all
  run_all-Keeps [] m fresh k r h = (r, h, Moves-refl r)
  run_all-Keeps (op ∷ ops) m fresh k r h =
      let (r', h', p) = run-Keeps regexp_match op m fresh.0 k r h in
      let (r'', h'', q) = run_all-Keeps ops (run regexp_match op m) fresh.1 k r' h' in
      (r'', h'', Moves-trans p q)

  -- A rejected request stays rejected, whatever is done after.
  pub rejected_final :
      (ops : List Operation) (m : Manager) (k : String) (r : Request)
      → AllFresh regexp_match ops m
      → Dict.lookup k m.requests ≡ some r
      → r.status ≡ rejected
      → (r' : Request) × (Dict.lookup k (run_all regexp_match ops m).requests ≡ some r')
        × (r'.status ≡ rejected)
  rejected_final ops m k r fresh h e =
      let (r', h', p) = run_all-Keeps ops m fresh k r h in
      (r', h', from_rejected r.status r'.status e p.status)
