-- ===== src/Approval/Lifecycle.antt =====
-- What the operations of the approval manager do to a request over its life.
use xclaw.Prelude.{
  ℕ, ◌≡◌, ◌∙◌, refl, inl, inr, Option, none, some, String, arith, Bool-cases, Option-cases, str_eq,
  eq_iff, trim_space,
}
use xclaw.Prelude.Dict
use xclaw.Prelude.Dict.{Dict, lookup-insert, lookup-map_values}
use xclaw.Approval.Rule.{Rule, EvalInput}
use xclaw.Approval.Request.{
  Request, RequestStatus, pending, approved, rejected, expired, other, expire,
}
use xclaw.Approval.Manager.{
  Manager, expire_requests, open_request, new_request, new_id, actor_name, approve_request,
  reject_request, update_request,
}

-- The life of a request: it is decided once, but may be rejected at any time.
abbrev pub CanMove : RequestStatus → RequestStatus → Type 0
CanMove pending (other s) = ⊥
CanMove pending _ = Unit
CanMove _ rejected = Unit
CanMove approved approved = Unit
CanMove expired expired = Unit
CanMove (other s) (other t) = s ≡ t
CanMove _ _ = ⊥

CanMove-refl : (s : RequestStatus) → CanMove s s
CanMove-refl pending = tt
CanMove-refl approved = tt
CanMove-refl rejected = tt
CanMove-refl expired = tt
CanMove-refl (other s) = refl

-- `r` may become `r'`: what was asked stays as it was.
pub record Moves (r r' : Request) : Type 0 where
  pub status : CanMove r.status r'.status
  pub same_id : r'.id ≡ r.id
  pub same_tool : r'.tool ≡ r.tool
  pub same_params : r'.params ≡ r.params
  pub same_strategy : r'.strategy ≡ r.strategy
  pub same_approvers : r'.approvers ≡ r.approvers
  pub same_deadline : r'.expires_at ≡ r.expires_at

pub Moves-refl : (r : Request) → Moves r r
Moves-refl r = record {
  status = CanMove-refl r.status;
  same_id = refl;
  same_tool = refl;
  same_params = refl;
  same_strategy = refl;
  same_approvers = refl;
  same_deadline = refl;
}

pub expire-Moves : (now : ℕ) (r : Request) → Moves r (expire now r)
unfolding expire
expire-Moves now r = ground arith

pub approve-Moves :
    (now later : ℕ) (actor : String) (r : Request)
    → Moves r (approve_request later actor (expire now r))
unfolding expire approve_request
approve-Moves now later actor r = ground arith

pub reject-Moves :
    (now later : ℕ) (actor : String) (r : Request)
    → Moves r (reject_request later actor (expire now r))
unfolding expire reject_request
reject-Moves now later actor r = ground arith

-- Every request that is there stays there, and moves as allowed.
abbrev pub Keeps : Manager → Manager → Type 0
Keeps m m' =
    (k : String) (r : Request)
    → Dict.lookup k m.requests ≡ some r
    → (r' : Request) × (Dict.lookup k m'.requests ≡ some r') × Moves r r'

pub lookup-expire_none :
    (now : ℕ) (m : Manager) (k : String)
    → Dict.lookup k m.requests ≡ none
    → Dict.lookup k (expire_requests now m).requests ≡ none
unfolding expire_requests
lookup-expire_none now m k h = ground (arith, lookup-map_values (expire now) k m.requests)

pub lookup-expire :
    (now : ℕ) (m : Manager) (k : String) {r : Request}
    → Dict.lookup k m.requests ≡ some r
    → Dict.lookup k (expire_requests now m).requests ≡ some (expire now r)
unfolding expire_requests
lookup-expire now m k {r} h = ground (arith, lookup-map_values (expire now) k m.requests)

pub expire-Keeps : (now : ℕ) (m : Manager) → Keeps m (expire_requests now m)
expire-Keeps now m k r h = (expire now r, lookup-expire now m k h, expire-Moves now r)

-- Writing what a request becomes under its key.
insert-Keeps :
    (m : Manager) (now : ℕ) (id : String) (req' : Request)
    → ((r : Request) → Dict.lookup id m.requests ≡ some r → Moves r req')
    → Keeps m (record m { requests = Dict.insert id req' (expire_requests now m).requests })
insert-Keeps m now id req' moves k r h = elim (Bool-cases (str_eq id k)) [
  | inl e ↦ (req', rw (lookup-insert id k req' _, e), moves r (rw ((eq_iff id k).0 e) h))
  | inr e ↦ (
    expire now r,
    rw (lookup-insert id k req' _, e) (lookup-expire now m k h),
    expire-Moves now r,
  )
]

module _ (change : String → Request → Request) (now : ℕ) where
  -- An operation that changes one request keeps them all.
  pub update-Keeps :
      (id actor : String) (m : Manager)
      → ((a : String) (r : Request) → Moves r (change a (expire now r)))
      → Keeps m (update_request change now id actor m).1
  unfolding update_request
  update-Keeps id actor m moves = elim (Bool-cases (str_eq (trim_space id) "")) [
    | inl e ↦ rw e (λ k r h. (r, h, Moves-refl r))
    | inr e ↦
        rw e (elim (Option-cases (Dict.lookup (trim_space id) (expire_requests now m).requests)) [
          | inl missing ↦ rw missing (expire-Keeps now m)
          | inr (req, found) ↦ rw found (
              insert-Keeps m now (trim_space id) (change (actor_name actor) req) λ r h.
                let same : req ≡ expire now r = ground (arith, found, lookup-expire now m _ h) in
                rw same (moves (actor_name actor) r))
        ])
  ]

pub new_request-id :
    (now nano : ℕ) (rule : Rule) (input : EvalInput)
    → (new_request now nano rule input).id ≡ new_id nano
unfolding new_request
new_request-id now nano rule input = refl

pub open-lookup :
    (now nano : ℕ) (rule : Option Rule) (input : EvalInput) (m : Manager) (k : String) {r : Request}
    → Dict.lookup (new_id nano) m.requests ≡ none
    → Dict.lookup k m.requests ≡ some r
    → Dict.lookup k (open_request now nano rule input m).1.requests ≡ some r
unfolding open_request
open-lookup now nano none input m k fresh h = h
open-lookup now nano (some rule) input m k fresh h = ground (
  arith,
  lookup-insert (new_id nano) k (new_request now nano rule input) m.requests,
  eq_iff (new_id nano) k,
  new_request-id now nano rule input,
)

CanMove-trans : (s t u : RequestStatus) → CanMove s t → CanMove t u → CanMove s u
CanMove-trans s t u p q = ground arith

pub Moves-trans : {r s t : Request} → Moves r s → Moves s t → Moves r t
Moves-trans {r} {s} {t} p q = record {
  status = CanMove-trans r.status s.status t.status p.status q.status;
  same_id = q.same_id ∙ p.same_id;
  same_tool = q.same_tool ∙ p.same_tool;
  same_params = q.same_params ∙ p.same_params;
  same_strategy = q.same_strategy ∙ p.same_strategy;
  same_approvers = q.same_approvers ∙ p.same_approvers;
  same_deadline = q.same_deadline ∙ p.same_deadline;
}
