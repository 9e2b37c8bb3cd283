-- ===== src/Approval/Request.antt =====
-- Approval requests: `Request`, `approvalSatisfied` and the step of `expireRequests` on one request
-- in cli/approval/manager.go. A `time.Time` is its distance in nanoseconds from Go's zero time.
use xclaw.Prelude.{
  ℕ, ◌+◌, ◌-◌, ◌%◌, ◌^◌, Bool, true, false, ◌&&◌, not, List, [], ◌∷◌, length, Option, some, String,
  str_eq, leb, ltb, ◌==◌, if◌then◌else◌,
}
use xclaw.Prelude.Dict.{Dict}
use xclaw.Approval.Lists.{contains}
use xclaw.Approval.Rule.{strategy_all, normalize_strategy}

-- `other` is any other string that stored JSON may hold.
pub data RequestStatus : Type 0 where
  pending approved rejected expired : RequestStatus
  other : String → RequestStatus

pub record Request : Type 0 where
  pub id : String
  pub rule_id : String
  pub tool : String
  pub risk : String
  pub params : Dict String
  pub reason : String
  pub strategy : String
  pub approvers : List String
  pub approved_by : List String
  pub rejected_by : List String
  pub status : RequestStatus
  pub created_at : ℕ
  pub expires_at : ℕ
  pub completed_at : Option ℕ

abbrev pub is_pending : RequestStatus → Bool
is_pending pending = true
is_pending _ = false

-- t.Add(d) for a duration that was computed in 64 bits.
unfoldable pub add_duration : ℕ → ℕ → ℕ
add_duration t d = let w = d % 2 ^ 64 in if ltb w (2 ^ 63) then t + w else t - (2 ^ 64 - w)

-- The loop over the approvers.
unfoldable pub all_approved : List String → List String → Bool
all_approved approved_by [] = true
all_approved approved_by (actor ∷ approvers) =
    if not (contains approved_by actor) then false else all_approved approved_by approvers

abbrev all_strategy_satisfied : List String → List String → Bool
all_strategy_satisfied approved_by [] = leb 2 (length approved_by)
all_strategy_satisfied approved_by (actor ∷ approvers) =
    all_approved approved_by (actor ∷ approvers)

-- approvalSatisfied, over the three fields that it reads: strategy, approvers, votes.
unfoldable pub votes_suffice : String → List String → List String → Bool
unfolding all_approved
votes_suffice strategy approvers approved_by =
    if str_eq (normalize_strategy strategy) strategy_all
    then all_strategy_satisfied approved_by approvers
    else leb 1 (length approved_by)

abbrev pub approval_satisfied : Request → Bool
approval_satisfied req = votes_suffice req.strategy req.approvers req.approved_by

abbrev pub is_due : ℕ → Request → Bool
is_due now req = not (req.expires_at == 0) && ltb req.expires_at now

-- One round of the loop of expireRequests.
unfoldable pub expire : ℕ → Request → Request
expire now req =
    if not (is_pending req.status)
    then req
    else if is_due now req
    then record req { status = expired; completed_at = some now }
    else req
