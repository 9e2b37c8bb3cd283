-- ===== src/Approval/Consistency.antt =====
-- The invariant of the approval manager: a request's status agrees with its votes and its stamps.
use xclaw.Prelude.{
  ℕ, ◌≡◌, ◌≢◌, ◌∙◌, refl, sym, Bool, true, false, inl, inr, List, [], ◌∷◌, Option, none, some,
  String, arith, Bool-cases, Option-cases, str_eq, trim_space,
}
use xclaw.Prelude.Dict
use xclaw.Prelude.Dict.{Dict, map_option, lookup-insert, lookup-map_values}
use mathlib.Core.Path.{subst}
use xclaw.Prelude.{some_inj}
use xclaw.Approval.Lists.{contains}
use xclaw.Approval.Votes.{Distinct, append_unique-Distinct}
use xclaw.Approval.Rule.{Rule, EvalInput, param}
use xclaw.Approval.Request.{
  Request, RequestStatus, pending, approved, other, approval_satisfied, votes_suffice, expire,
}
use xclaw.Approval.Manager.{
  Manager, set_rules, expire_requests, evaluate, open_request, new_request, actor_name,
  approve_request, reject_request, update_request, approve, reject,
}
use xclaw.Approval.Runs.{
  Operation, evaluate_call, approve_by, reject_by, replace_rules, observe, run, run_all,
}

abbrev Agrees : RequestStatus → Request → Type 0
Agrees pending r = (approval_satisfied r ≡ false) × (r.completed_at ≡ none)
Agrees approved r = (approval_satisfied r ≡ true) × (r.completed_at ≢ none)
Agrees (other s) r = ⊥
Agrees _ r = r.completed_at ≢ none

-- A pending request has too few votes, an approved one has enough, and exactly the decided ones are
-- stamped. Nobody is counted twice.
pub record IsConsistent (r : Request) : Type 0 where
  pub agrees : Agrees r.status r
  pub distinct : Distinct r.approved_by

expire-IsConsistent : (now : ℕ) (r : Request) → IsConsistent r → IsConsistent (expire now r)
unfolding expire
expire-IsConsistent now r c = ground arith

approve-IsConsistent :
    (later : ℕ) (actor : String) (r : Request)
    → IsConsistent r
    → IsConsistent (approve_request later actor r)
unfolding approve_request
approve-IsConsistent later actor r c = ground (arith, append_unique-Distinct r.approved_by actor)

reject-IsConsistent :
    (later : ℕ) (actor : String) (r : Request)
    → IsConsistent r
    → IsConsistent (reject_request later actor r)
unfolding reject_request
reject-IsConsistent later actor r c = ground arith

-- No vote is never enough.
no_votes :
    (strategy : String) (approvers : List String) → votes_suffice strategy approvers [] ≡ false
unfolding votes_suffice contains
no_votes strategy [] = ground arith
no_votes strategy (a ∷ approvers) = ground arith

new-IsConsistent :
    (now nano : ℕ) (rule : Rule) (input : EvalInput)
    → IsConsistent (new_request now nano rule input)
unfolding new_request
new-IsConsistent now nano rule input = record { agrees = (no_votes _ _, refl); distinct = tt }

-- Every request that is stored is consistent.
pub record AllConsistent (m : Manager) : Type 0 where
  pub stored : (k : String) (r : Request) → Dict.lookup k m.requests ≡ some r → IsConsistent r

expire-AllConsistent :
    (now : ℕ) (m : Manager) → AllConsistent m → AllConsistent (expire_requests now m)
unfolding expire_requests
expire-AllConsistent now m c = record {
  stored = λ k r h.
      from (Dict.lookup k m.requests) (c.stored k) r
        (sym (lookup-map_values (expire now) k m.requests) ∙ h);
}
  where
    from :
        (o : Option Request)
        → ((r : Request) → o ≡ some r → IsConsistent r)
        → (r : Request) → map_option (expire now) o ≡ some r
        → IsConsistent r
    from none c r h = cc
    from (some q) c r h = subst IsConsistent (some_inj h) (expire-IsConsistent now q (c q refl))

insert-AllConsistent :
    (m : Manager) (id : String) (req : Request)
    → AllConsistent m
    → IsConsistent req
    → AllConsistent (record m { requests = Dict.insert id req m.requests })
insert-AllConsistent m id req c cr = record {
  stored = λ k r h. elim (Bool-cases (str_eq id k)) [
    | inl e ↦ subst IsConsistent (some_inj (rw (lookup-insert id k req m.requests, e) at h)) cr
    | inr e ↦ c.stored k r (rw (lookup-insert id k req m.requests, e) at h)
  ];
}

update-AllConsistent :
    (change : String → Request → Request) (now : ℕ) (id actor : String) (m : Manager)
    → ((a : String) (r : Request) → IsConsistent r → IsConsistent (change a r))
    → AllConsistent m
    → AllConsistent (update_request change now id actor m).1
unfolding update_request
update-AllConsistent change now id actor m keep c = elim (Bool-cases (str_eq (trim_space id) "")) [
  | inl e ↦ rw e c
  | inr e ↦
      rw e (elim (Option-cases (Dict.lookup (trim_space id) (expire_requests now m).requests)) [
        | inl missing ↦ rw missing (expire-AllConsistent now m c)
        | inr (req, found) ↦ rw found (
            insert-AllConsistent (expire_requests now m) (trim_space id)
              (change (actor_name actor) req) (expire-AllConsistent now m c)
              (keep (actor_name actor) req
                ((expire-AllConsistent now m c).stored (trim_space id) req found)))
      ])
]

open-AllConsistent :
    (now nano : ℕ) (rule : Option Rule) (input : EvalInput) (m : Manager)
    → AllConsistent m
    → AllConsistent (open_request now nano rule input m).1
unfolding open_request
open-AllConsistent now nano none input m c = c
open-AllConsistent now nano (some rule) input m c =
    insert-AllConsistent m _ _ c (new-IsConsistent now nano rule input)

module _ (regexp_match : String → String → Option Bool) where
  evaluate-AllConsistent :
      (now nano : ℕ) (input : EvalInput) (m : Manager)
      → AllConsistent m
      → AllConsistent (evaluate regexp_match now nano input m).1
  unfolding evaluate
  evaluate-AllConsistent now nano input m c =
      elim (Bool-cases (str_eq (trim_space (param input "approval_request_id")) "")) [
        | inl e ↦ rw e (
            open-AllConsistent now nano _ input (expire_requests now m)
              (expire-AllConsistent now m c))
        | inr e ↦ rw e (expire-AllConsistent now m c)
      ]

  -- Every operation keeps every stored request consistent, also one that opens a request under an id
  -- in use.
  pub run-AllConsistent :
      (op : Operation) (m : Manager) → AllConsistent m → AllConsistent (run regexp_match op m)
  unfolding run approve reject
  run-AllConsistent (evaluate_call now nano input) m c = evaluate-AllConsistent now nano input m c
  run-AllConsistent (approve_by now later id actor) m c =
      update-AllConsistent (approve_request later) now id actor m
        (λ a r. approve-IsConsistent later a r) c
  run-AllConsistent (reject_by now later id actor) m c =
      update-AllConsistent (reject_request later) now id actor m
        (λ a r. reject-IsConsistent later a r) c
  run-AllConsistent (replace_rules nano rules) m c =
      unfold set_rules in record { stored = c.stored }
  run-AllConsistent (observe now) m c = expire-AllConsistent now m c

  -- Any sequence of calls of Evaluate, Approve, Reject and SetRules and of reads of the requests (not
  -- Load) keeps every stored request consistent: a pending one has too few votes, an approved one has
  -- enough, exactly the decided ones are stamped, and nobody is counted twice.
  pub run_all-AllConsistent :
      (ops : List Operation) (m : Manager)
      → AllConsistent m
      → AllConsistent (run_all regexp_match ops m)
  unfolding run_all
  run_all-AllConsistent [] m c = c
  run_all-AllConsistent (op ∷ ops) m c =
      run_all-AllConsistent ops (run regexp_match op m) (run-AllConsistent op m c)
