-- ===== src/Approval/Decisions.antt =====
-- Approving and rejecting a request, and the way of a call from being held to being let through.
use xclaw.Prelude.{
  ℕ, ◌≤◌, ◌<◌, ◌≡◌, ◌≢◌, ◌∙◌, refl, ap, Bool, true, false, ◌⊎◌, inl, inr, [], Option, some, String,
  arith, Bool-cases, str_eq, eq_iff, eq_refl, trim_space,
}
use text.Mathlib.TextLemmas.{append-eq-nil_iff}
use xclaw.Prelude.Dict
use xclaw.Prelude.Dict.{lookup-insert, lookup-map_values}
use xclaw.Approval.Lists.{append_unique, contains}
use xclaw.Approval.Rule.{
  Rule, EvalInput, normalize_strategy, strategy_all, strategy_any, strategy_single,
}
use xclaw.Approval.Request.{Request, pending, approved, expired, votes_suffice, expire}
use xclaw.Approval.Manager.{
  Manager, ok, expire_requests, evaluate, open_request, find_rule, new_request, actor_name,
  approve_request, update_request, approve, new_id,
}
use xclaw.Approval.Lifecycle.{lookup-expire, new_request-id}
use xclaw.Approval.Gate.{named_request, evaluate_allows_iff}

-- A request that `id` names is changed and written back, and it is what the caller gets.
update_found :
    (change : String → Request → Request) (now : ℕ) (id actor : String) (m : Manager) (r : Request)
    → trim_space id ≢ ""
    → Dict.lookup (trim_space id) m.requests ≡ some r
    → let r' = change (actor_name actor) (expire now r) in
      ((update_request change now id actor m).0 ≡ ok r')
      × (Dict.lookup (trim_space id) (update_request change now id actor m).1.requests ≡ some r')
unfolding update_request
update_found change now id actor m r named h = elim (Bool-cases (str_eq (trim_space id) "")) [
  | inl e ↦ absurd (named ((eq_iff _ _).0 e))
  | inr e ↦ rw (e, lookup-expire now m (trim_space id) h) (refl, rw (lookup-insert, eq_refl))
]

overdue_expires :
    (now later : ℕ) (actor : String) (r : Request)
    → r.status ≡ pending
    → r.expires_at ≢ 0
    → r.expires_at < now
    → approve_request later actor (expire now r)
      ≡ record r { status = expired; completed_at = some now }
unfolding approve_request expire
overdue_expires now later actor r p has_deadline due = ground arith

-- A vote that comes after the deadline does not count: the request has expired, for the voter and
-- in the store.
pub approve_overdue :
    (now later : ℕ) (id actor : String) (m : Manager) (r : Request)
    → trim_space id ≢ ""
    → Dict.lookup (trim_space id) m.requests ≡ some r
    → r.status ≡ pending
    → r.expires_at ≢ 0
    → r.expires_at < now
    → let r' = record r { status = expired; completed_at = some now } in
      ((approve now later id actor m).0 ≡ ok r')
      × (Dict.lookup (trim_space id) (approve now later id actor m).1.requests ≡ some r')
unfolding approve
approve_overdue now later id actor m r named h p has_deadline due =
    let found = update_found (approve_request later) now id actor m r named h in
    let expires = overdue_expires now later (actor_name actor) r p has_deadline due in
    (found.0 ∙ ap ok expires, found.1 ∙ ap some expires)

-- One vote is enough unless the strategy is "all".
one_vote_approves :
    (now later : ℕ) (actor : String) (r : Request)
    → r.status ≡ pending
    → r.approved_by ≡ []
    → now ≤ r.expires_at
    → normalize_strategy r.strategy ≢ strategy_all
    → (approve_request later actor (expire now r)).status ≡ approved
unfolding approve_request expire append_unique contains votes_suffice
one_vote_approves now later actor r p none_yet in_time not_all =
    ground (arith, eq_iff (normalize_strategy r.strategy) strategy_all)

normalize_strategy-cases :
    (s : String)
    → (normalize_strategy s ≡ strategy_all)
      ⊎ (normalize_strategy s ≡ strategy_any)
      ⊎ (normalize_strategy s ≡ strategy_single)
unfolding normalize_strategy
normalize_strategy-cases s = ground arith

-- Normalizing a strategy again changes nothing.
pub normalize_strategy_idem :
    (s : String) → normalize_strategy (normalize_strategy s) ≡ normalize_strategy s
normalize_strategy_idem s = elim (normalize_strategy-cases s) [
  | inl e ↦ rw e (unfold normalize_strategy trim_space in refl)
  | inr (inl e) ↦ rw e (unfold normalize_strategy trim_space in refl)
  | inr (inr e) ↦ rw e (unfold normalize_strategy trim_space in refl)
]

new_id-ne-empty : (nano : ℕ) → new_id nano ≢ ""
new_id-ne-empty nano h = absurd (not_apr ((append-eq-nil_iff {p = "apr_"}).0 h).0)
  where
    not_apr : ◌≢◌ {A = String} "apr_" ""
    not_apr = ground (arith, eq_iff "apr_" "")

open_stores :
    (now nano : ℕ) (rule : Rule) (input : EvalInput) (m : Manager)
    → Dict.lookup (new_id nano) (open_request now nano (some rule) input m).1.requests
      ≡ some (new_request now nano rule input)
unfolding open_request
open_stores now nano rule input m = rw (new_request-id now nano rule input, lookup-insert, eq_refl)

-- The request that the manager has just opened is approved by one vote in time.
new_one_vote :
    (now nano now_vote later : ℕ) (actor : String) (rule : Rule) (input : EvalInput)
    → normalize_strategy rule.strategy ≢ strategy_all
    → now_vote ≤ (new_request now nano rule input).expires_at
    → (approve_request later actor (expire now_vote (new_request now nano rule input))).status
      ≡ approved
new_one_vote now nano now_vote later actor rule input one_vote in_time =
    unfold new_request in
    one_vote_approves now_vote later actor (new_request now nano rule input) refl refl in_time
      (rw (normalize_strategy_idem rule.strategy) one_vote)

module _ (regexp_match : String → String → Option Bool) where
  evaluate_held :
      (m : Manager) (held : EvalInput) (rule : Rule) (now nano : ℕ)
      → named_request held ≡ ""
      → find_rule regexp_match nano m.rules held ≡ some rule
      → evaluate regexp_match now nano held m
        ≡ open_request now nano (some rule) held (expire_requests now m)
  unfolding evaluate expire_requests
  evaluate_held m held rule now nano no_name hit =
      rw ((eq_iff (named_request held) "").1 no_name, hit)

  pub held_then_released :
      (m : Manager) (held released : EvalInput) (rule : Rule) (id actor : String)
      (now nano now_vote later now_call nano_call : ℕ)
      → named_request held ≡ ""
      → find_rule regexp_match nano m.rules held ≡ some rule
      → normalize_strategy rule.strategy ≢ strategy_all
      → trim_space id ≡ new_id nano
      → now_vote ≤ (new_request now nano rule held).expires_at
      → named_request released ≡ new_id nano
      → let m₁ = (evaluate regexp_match now nano held m).1 in
        let m₂ = (approve now_vote later id actor m₁).1 in
        ((evaluate regexp_match now nano held m).0.requires_approval ≡ true)
        × ((evaluate regexp_match now_call nano_call released m₂).0.requires_approval ≡ false)
  unfolding Dict.lookup approve
  held_then_released m held released rule id actor now nano now_vote later now_call nano_call
        no_name hit one_vote names in_time named =
      let req = new_request now nano rule held in
      let m₁ = (evaluate regexp_match now nano held m).1 in
      let opened = evaluate_held m held rule now nano no_name hit in
      let stored : Dict.lookup (trim_space id) m₁.requests ≡ some req =
        rw (opened, names) (open_stores now nano rule held (expire_requests now m)) in
      let voted =
        update_found (approve_request later) now_vote id actor m₁ req
          (rw names (new_id-ne-empty nano)) stored in
      let granted =
        new_one_vote now nano now_vote later (actor_name actor) rule held one_vote in_time in
      (
        rw opened (unfold open_request in refl),
        (evaluate_allows_iff regexp_match now_call nano_call released _).1
            (inl (rw named (new_id-ne-empty nano), rw (named, ← names, voted.1) granted)),
      )
