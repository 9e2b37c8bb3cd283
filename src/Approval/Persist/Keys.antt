-- ===== src/Approval/Persist/Keys.antt =====
-- The ids under which the approval manager keeps its requests, and its rules as they are kept
-- (cli/approval/manager.go).
use xclaw.Prelude.{
  ℕ, ◌≡◌, refl, ap, ◌∙◌, Bool, false, inl, inr, List, [], ◌∷◌, Option, none, some, String, arith,
  Bool-cases, Option-cases, str_eq, eq_iff, trim_space, trim_space_idem, trim_space-numbered,
  numbered-not_empty, is_space,
}
use mathlib.Core.Path.{subst}
use xclaw.Prelude.Dict
use xclaw.Prelude.Dict.{Dict, Lacks, map_option, lookup-insert, lookup-map_values, insert-Lacks}
use xclaw.Approval.Lists.{normalize_string_list}
use xclaw.Approval.Rule.{Rule, EvalInput, param, or_default, normalize_rule, normalize_strategy}
use xclaw.Approval.Request.{Request, expire}
use xclaw.Approval.Manager.{
  Manager, normalize_rules, set_rules, expire_requests, evaluate, open_request, new_request, new_id,
  actor_name, approve_request, reject_request, update_request, approve, reject, new_manager,
}
use xclaw.Approval.Lifecycle.{expire-Moves, new_request-id}
use xclaw.Approval.Runs.{
  Operation, evaluate_call, approve_by, reject_by, replace_rules, observe, run, run_all,
}
use xclaw.Approval.Persist.Normal.{normalize_rules_idem}
use xclaw.Approval.Persist.{PersistedState, index_requests, loaded_rules, restore, load}

-- Every request is stored under its own id, which is not blank, and once.
abbrev pub IsKeyed : Dict Request → Type 0
IsKeyed [] = Unit
IsKeyed ((k, r) ∷ m) = (r.id ≡ k) × (str_eq (trim_space k) "" ≡ false) × Lacks k m × IsKeyed m

-- Normalizing the rules again changes none.
abbrev pub IsNormal : List Rule → Type 0
IsNormal rules = (nano : ℕ → ℕ) (i : ℕ) → normalize_rules nano i rules ≡ rules

pub record IsStored (m : Manager) : Type 0 where
  pub keyed : IsKeyed m.requests
  pub normal : IsNormal m.rules

lookup-IsKeyed :
    (k : String) (r : Request) (m : Dict Request) → IsKeyed m → Dict.lookup k m ≡ some r → r.id ≡ k
unfolding Dict.lookup
lookup-IsKeyed k r [] h e = cc
lookup-IsKeyed k r ((j, q) ∷ m) (same, _, _, keyed) e =
    ground (arith, lookup-IsKeyed k r m keyed, eq_iff j k, same)

expire-IsKeyed : (now : ℕ) (m : Dict Request) → IsKeyed m → IsKeyed (Dict.map_values (expire now) m)
unfolding Dict.map_values
expire-IsKeyed now [] h = tt
expire-IsKeyed now ((k, r) ∷ m) (same, named, lacks, keyed) = (
  (expire-Moves now r).same_id ∙ same,
  named,
  lookup-map_values (expire now) k m ∙ ap (map_option (expire now)) lacks,
  expire-IsKeyed now m keyed,
)

insert-IsKeyed :
    (k : String) (r : Request) (m : Dict Request)
    → r.id ≡ k
    → str_eq (trim_space k) "" ≡ false
    → IsKeyed m
    → IsKeyed (Dict.insert k r m)
unfolding Dict.insert
insert-IsKeyed k r [] same named h = (same, named, unfold Dict.lookup in refl, tt)
insert-IsKeyed k r ((j, q) ∷ m) same named (sj, nj, lacks, keyed) = elim (Bool-cases (str_eq j k)) [
  | inl e ↦ rw e (same, named, subst (λ i. Lacks i m) ((eq_iff j k).0 e) lacks, keyed)
  | inr e ↦ rw e (
    sj,
    nj,
    insert-Lacks k j r m (ground (arith, eq_iff j k, eq_iff k j)) lacks,
    insert-IsKeyed k r m same named keyed,
  )
]

index-IsKeyed :
    (stored : List Request) (acc : Dict Request) → IsKeyed acc → IsKeyed (index_requests stored acc)
unfolding index_requests
index-IsKeyed [] acc h = h
index-IsKeyed (r ∷ stored) acc h = elim (Bool-cases (str_eq (trim_space r.id) "")) [
  | inl e ↦ rw e (index-IsKeyed stored acc h)
  | inr e ↦
      rw e (index-IsKeyed stored (Dict.insert r.id r acc) (insert-IsKeyed r.id r acc refl e h))
]

pub expire-IsStored : (now : ℕ) (m : Manager) → IsStored m → IsStored (expire_requests now m)
unfolding expire_requests
expire-IsStored now m s = record {
  keyed = expire-IsKeyed now m.requests s.keyed;
  normal = s.normal;
}

update-IsStored :
    (change : String → Request → Request) (now : ℕ) (id actor : String) (m : Manager)
    → ((a : String) (r : Request) → (change a r).id ≡ r.id)
    → IsStored m
    → IsStored (update_request change now id actor m).1
unfolding update_request
update-IsStored change now id actor m same s = elim (Bool-cases (str_eq (trim_space id) "")) [
  | inl e ↦ rw e s
  | inr e ↦
      let s' = expire-IsStored now m s in
      rw e (elim (Option-cases (Dict.lookup (trim_space id) (expire_requests now m).requests)) [
        | inl missing ↦ rw missing s'
        | inr (req, found) ↦ rw found (record {
          keyed =
              insert-IsKeyed (trim_space id) (change (actor_name actor) req) _
                (same (actor_name actor) req ∙ lookup-IsKeyed _ req _ s'.keyed found)
                (ap (λ t. str_eq t "") (trim_space_idem id) ∙ e) s'.keyed;
          normal = s'.normal;
        })
      ])
]

new_id-not_blank : (nano : ℕ) → str_eq (trim_space (new_id nano)) "" ≡ false
unfolding is_space
new_id-not_blank nano =
    ap (λ t. str_eq t "") (trim_space-numbered "apr_" nano (refl, (refl, (refl, (refl, tt)))))
    ∙ numbered-not_empty "apr_" nano refl

open-IsStored :
    (now nano : ℕ) (rule : Option Rule) (input : EvalInput) (m : Manager)
    → IsStored m
    → IsStored (open_request now nano rule input m).1
unfolding open_request
open-IsStored now nano none input m s = s
open-IsStored now nano (some rule) input m s =
    let req = new_request now nano rule input in
    record {
      keyed =
          insert-IsKeyed req.id req m.requests refl
            (ap (λ i. str_eq (trim_space i) "") (new_request-id now nano rule input)
              ∙ new_id-not_blank nano)
            s.keyed;
      normal = s.normal;
    }

approve_request-id :
    (later : ℕ) (actor : String) (r : Request) → (approve_request later actor r).id ≡ r.id
unfolding approve_request
approve_request-id later actor r = ground arith

reject_request-id :
    (later : ℕ) (actor : String) (r : Request) → (reject_request later actor r).id ≡ r.id
unfolding reject_request
reject_request-id later actor r = refl

module _ (regexp_match : String → String → Option Bool) where
  evaluate-IsStored :
      (now nano : ℕ) (input : EvalInput) (m : Manager)
      → IsStored m
      → IsStored (evaluate regexp_match now nano input m).1
  unfolding evaluate
  evaluate-IsStored now nano input m s =
      let s' = expire-IsStored now m s in
      elim (Bool-cases (str_eq (trim_space (param input "approval_request_id")) "")) [
        | inl e ↦ rw e (open-IsStored now nano _ input (expire_requests now m) s')
        | inr e ↦ rw e s'
      ]

  pub run-IsStored : (op : Operation) (m : Manager) → IsStored m → IsStored (run regexp_match op m)
  unfolding run approve reject set_rules
  run-IsStored (evaluate_call now nano input) m s = evaluate-IsStored now nano input m s
  run-IsStored (approve_by now later id actor) m s =
      update-IsStored (approve_request later) now id actor m (approve_request-id later) s
  run-IsStored (reject_by now later id actor) m s =
      update-IsStored (reject_request later) now id actor m (reject_request-id later) s
  run-IsStored (replace_rules nano rules) m s = record {
    keyed = s.keyed;
    normal = λ nano' i. normalize_rules_idem nano nano' 0 i rules;
  }
  run-IsStored (observe now) m s = expire-IsStored now m s

  pub run_all-IsStored :
      (ops : List Operation) (m : Manager) → IsStored m → IsStored (run_all regexp_match ops m)
  unfolding run_all
  run_all-IsStored [] m s = s
  run_all-IsStored (op ∷ ops) m s =
      run_all-IsStored ops (run regexp_match op m) (run-IsStored op m s)

loaded-IsNormal :
    (nano : ℕ → ℕ) (stored old : List Rule) → IsNormal old → IsNormal (loaded_rules nano stored old)
unfolding loaded_rules
loaded-IsNormal nano [] old h = h
loaded-IsNormal nano (rule ∷ stored) old h = λ nano' i. normalize_rules_idem nano nano' 0 i _

module _ (json_unmarshal : String → Option PersistedState) where
  -- Whatever text is loaded.
  pub load-IsStored :
      (nano : ℕ → ℕ) (now : ℕ) (raw : String) (m : Manager)
      → IsStored m
      → IsStored (load json_unmarshal nano now raw m).1
  unfolding load restore
  load-IsStored nano now raw m s = elim (Bool-cases (str_eq (trim_space raw) "")) [
    | inl e ↦ rw e s
    | inr e ↦ rw e (elim (Option-cases (json_unmarshal (trim_space raw))) [
      | inl bad ↦ rw bad s
      | inr (state, good) ↦ rw good (
          expire-IsStored now _ (record {
            keyed = index-IsKeyed state.stored_requests [] tt;
            normal = loaded-IsNormal nano state.stored_rules m.rules s.normal;
          }))
    ])
  ]

pub new_manager-IsStored : IsStored new_manager
unfolding normalize_rules normalize_rule normalize_strategy normalize_string_list or_default
    trim_space
new_manager-IsStored = record { keyed = tt; normal = λ nano i. refl }
