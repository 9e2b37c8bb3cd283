-- ===== src/Approval/Gate.antt =====
-- What the approval manager lets through.
use xclaw.Prelude.{
  ℕ, ◌≤◌, ◌≡◌, ◌≢◌, refl, Bool, true, false, ◌⊎◌, ◌↔◌, inl, inr, List, [], ◌∷◌, length, All, Option,
  none, some, String, arith, Bool-cases, str_eq, eq_iff, trim_space,
}
use xclaw.Prelude.Dict
use xclaw.Prelude.Dict.{lookup-insert, lookup-map_values}
use xclaw.Approval.Votes.{Distinct, Enough, votes_suffice_sound}
use xclaw.Approval.Rule.{Rule, EvalInput, param, match_rule}
use xclaw.Approval.Request.{Request, approved, approval_satisfied, expire}
use xclaw.Approval.Manager.{
  Manager, new_manager, expire_requests, evaluate, evaluate_named, open_request, find_rule,
}
use xclaw.Approval.Runs.{Operation, run_all}
use xclaw.Approval.Consistency.{AllConsistent, IsConsistent, run_all-AllConsistent}

abbrev pub named_request : EvalInput → String
named_request input = trim_space (param input "approval_request_id")

abbrev pub IsApproved : Option Request → Type 0
IsApproved none = ⊥
IsApproved (some r) = r.status ≡ approved

named_allows :
    (id : String) (o : Option Request)
    → (evaluate_named id o).requires_approval ≡ false
    → IsApproved o
unfolding evaluate_named
named_allows id none h = cc
named_allows id (some r) h = ground arith

expire-IsApproved :
    (now : ℕ) (o : Option Request) → IsApproved (Dict.map_option (expire now) o) → IsApproved o
unfolding expire
expire-IsApproved now none h = h
expire-IsApproved now (some r) h = ground arith

allows_named :
    (id : String) (o : Option Request)
    → IsApproved o
    → (evaluate_named id o).requires_approval ≡ false
unfolding evaluate_named
allows_named id none h = absurd h
allows_named id (some r) h = ground arith

IsApproved-expire :
    (now : ℕ) (o : Option Request) → IsApproved o → IsApproved (Dict.map_option (expire now) o)
unfolding expire
IsApproved-expire now none h = h
IsApproved-expire now (some r) h = ground arith

none_opens :
    (now nano : ℕ) (o : Option Rule) (input : EvalInput) (m : Manager)
    → o ≡ none
    → (open_request now nano o input m).0.requires_approval ≡ false
unfolding open_request
none_opens now nano o input m h = rw (h, open_request)

module _ (regexp_match : String → String → Option Bool) where
  abbrev pub NoRuleMatches : ℕ → EvalInput → List Rule → Type 0
  NoRuleMatches nano input = All (λ rule. match_rule regexp_match nano rule input ≡ false)

  find_rule-none :
      (nano : ℕ) (rules : List Rule) (input : EvalInput)
      → find_rule regexp_match nano rules input ≡ none
      → NoRuleMatches nano input rules
  unfolding find_rule
  find_rule-none nano [] input h = tt
  find_rule-none nano (rule ∷ rules) input h = ground (arith, find_rule-none nano rules input)

  no_rule_found :
      (nano : ℕ) (rules : List Rule) (input : EvalInput)
      → NoRuleMatches nano input rules
      → find_rule regexp_match nano rules input ≡ none
  unfolding find_rule
  no_rule_found nano [] input h = refl
  no_rule_found nano (rule ∷ rules) input h = ground (arith, no_rule_found nano rules input)

  open_allows :
      (now nano : ℕ) (o : Option Rule) (input : EvalInput) (m : Manager)
      → (open_request now nano o input m).0.requires_approval ≡ false
      → o ≡ none
  unfolding open_request
  open_allows now nano none input m h = refl
  open_allows now nano (some rule) input m h = cc

  -- What lets a call through.
  abbrev pub Allowed : ℕ → EvalInput → Manager → Type 0
  Allowed nano input m =
      ((named_request input ≢ "") × IsApproved (Dict.lookup (named_request input) m.requests))
      ⊎ ((named_request input ≡ "") × NoRuleMatches nano input m.rules)

  -- Exactly this: the call names a request that is approved, or it names none and no rule matches.
  pub evaluate_allows_iff :
      (now nano : ℕ) (input : EvalInput) (m : Manager)
      → ((evaluate regexp_match now nano input m).0.requires_approval ≡ false)
        ↔ Allowed nano input m
  unfolding evaluate expire_requests
  evaluate_allows_iff now nano input m = elim (Bool-cases (str_eq (named_request input) "")) [
    | inl e ↦ (
      λ h. inr (
        (eq_iff _ _).0 e,
        find_rule-none nano m.rules input (open_allows now nano _ input _ (rw e at h)),
      ),
      elim [
        | inl a ↦ absurd (a.0 ((eq_iff _ _).0 e))
        | inr a ↦ rw e (none_opens now nano _ input _ (no_rule_found nano m.rules input a.1))
      ],
    )
    | inr e ↦ (
      λ h. inl (
        not_named e,
        expire-IsApproved now _ (rw lookup-map_values at (named_allows _ _ (rw e at h))),
      ),
      elim [
        | inl a ↦
            rw (e, lookup-map_values)
              (allows_named (named_request input) _ (IsApproved-expire now _ a.1))
        | inr a ↦ absurd (not_named e a.0)
      ],
    )
  ]
    where
      not_named : str_eq (named_request input) "" ≡ false → named_request input ≢ ""
      not_named e p = ground (arith, eq_iff (named_request input) "")

-- What stands behind an approved request.
pub record Granted (r : Request) : Type 0 where
  pub status : r.status ≡ approved
  pub votes : 1 ≤ length r.approved_by
  pub distinct : Distinct r.approved_by
  pub enough : Enough r.strategy r.approvers r.approved_by

enough_votes : (r : Request) → IsConsistent r → r.status ≡ approved → approval_satisfied r ≡ true
enough_votes r c e = ground arith

consistent-Granted : (r : Request) → IsConsistent r → r.status ≡ approved → Granted r
consistent-Granted r c e =
    let (votes, enough) =
      votes_suffice_sound r.strategy r.approvers r.approved_by (enough_votes r c e) in
    record { status = e; votes = votes; distinct = c.distinct; enough = enough }

found-Granted :
    (m : Manager) (k : String) (o : Option Request)
    → AllConsistent m
    → Dict.lookup k m.requests ≡ o
    → IsApproved o
    → (r : Request) × (Dict.lookup k m.requests ≡ some r) × Granted r
found-Granted m k none c h a = absurd a
found-Granted m k (some r) c h a = (r, h, consistent-Granted r (c.stored k r h) a)

pub new_manager-AllConsistent : AllConsistent new_manager
new_manager-AllConsistent = record { stored = λ k r h. absurd (unfold Dict.lookup in cc) }

module _ (regexp_match : String → String → Option Bool) where
  -- From a new manager, after any operations by any callers, a call passes only if no rule matches it
  -- or it names a stored request that got enough votes of different people: one at least, under
  -- the strategy "all" every listed approver's, or two where none is listed.
  pub passes_only-Granted :
      (ops : List Operation) (now nano : ℕ) (input : EvalInput)
      → let m = run_all regexp_match ops new_manager in
        (evaluate regexp_match now nano input m).0.requires_approval ≡ false
        → ((r : Request) × (Dict.lookup (named_request input) m.requests ≡ some r) × Granted r)
          ⊎ ((named_request input ≡ "") × NoRuleMatches regexp_match nano input m.rules)
  passes_only-Granted ops now nano input h =
      let m = run_all regexp_match ops new_manager in
      elim ((evaluate_allows_iff regexp_match now nano input m).0 h) [
        | inl a ↦ inl (
            found-Granted m (named_request input) _
              (run_all-AllConsistent regexp_match ops new_manager new_manager-AllConsistent) refl
              a.1)
        | inr a ↦ inr a
      ]
