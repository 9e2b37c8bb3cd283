-- ===== src/Approval/Votes.antt =====
-- Votes as lists of names: `contains`, `appendUnique` and `approvalSatisfied` of
-- cli/approval/manager.go.
use xclaw.Prelude.{
  ◌≤◌, ◌≡◌, refl, Bool, true, false, ◌||◌, List, [], ◌∷◌, ◌++◌, length, All, String, arith, str_eq,
  eq_iff, trim_space,
}
use xclaw.Approval.Lists.{contains, append_unique}
use xclaw.Approval.Rule.{normalize_strategy, strategy_all}
use xclaw.Approval.Request.{votes_suffice, all_approved}

-- Nobody is counted twice (names are compared without the blanks around them).
abbrev pub Distinct : List String → Type 0
Distinct [] = Unit
Distinct (v ∷ votes) = (contains votes v ≡ false) × Distinct votes

abbrev same_name : String → String → Bool
same_name v w = str_eq (trim_space v) (trim_space w)

same_name-sym : (v w : String) → same_name v w ≡ false → same_name w v ≡ false
same_name-sym v w h =
    ground (arith, eq_iff (trim_space v) (trim_space w), eq_iff (trim_space w) (trim_space v))

contains-cons :
    (x : String) (votes : List String) (v : String)
    → contains (x ∷ votes) v ≡ (same_name x v || contains votes v)
unfolding contains
contains-cons x votes v = refl

contains-append :
    (votes : List String) (v w : String)
    → contains (votes ++ v ∷ []) w ≡ (contains votes w || same_name v w)
unfolding contains
contains-append [] v w = ground arith
contains-append (x ∷ votes) v w = ground (arith, contains-append votes v w)

append-Distinct :
    (votes : List String) (v : String)
    → contains votes v ≡ false
    → Distinct votes
    → Distinct (votes ++ v ∷ [])
append-Distinct [] v h d = (unfold contains in refl, tt)
append-Distinct (x ∷ votes) v h (hx, d) = (
  ground (arith, contains-cons x votes v, contains-append votes v x, same_name-sym x v),
  append-Distinct votes v (ground (arith, contains-cons x votes v)) d,
)

pub append_unique-Distinct :
    (votes : List String) (v : String) → Distinct votes → Distinct (append_unique votes v)
unfolding append_unique
append_unique-Distinct votes v d = ground (arith, append-Distinct votes v)

-- A vote is on the list after it was cast.
pub append_unique-contains :
    (votes : List String) (v : String) → contains (append_unique votes v) v ≡ true
unfolding append_unique
append_unique-contains votes v =
    ground (arith, contains-append votes v v, eq_iff (trim_space v) (trim_space v))

-- A vote stays on the list when another is cast.
pub append_unique-keeps :
    (votes : List String) (v w : String)
    → contains votes w ≡ true
    → contains (append_unique votes v) w ≡ true
unfolding append_unique
append_unique-keeps votes v w h = ground (arith, contains-append votes v w)

all_approved_sound :
    (approved_by approvers : List String)
    → all_approved approved_by approvers ≡ true
    → All (λ a. contains approved_by a ≡ true) approvers
unfolding all_approved
all_approved_sound approved_by [] h = tt
all_approved_sound approved_by (a ∷ approvers) h =
    ground (arith, all_approved_sound approved_by approvers)

contains-pos : (votes : List String) (v : String) → contains votes v ≡ true → 1 ≤ length votes
unfolding contains
contains-pos [] v h = cc
contains-pos (x ∷ votes) v h = omega arith

-- What enough votes are.
abbrev pub Enough : String → List String → List String → Type 0
Enough strategy [] approved_by = normalize_strategy strategy ≡ strategy_all → 2 ≤ length approved_by
Enough strategy approvers approved_by =
    normalize_strategy strategy ≡ strategy_all → All (λ a. contains approved_by a ≡ true) approvers

pub votes_suffice_sound :
    (strategy : String) (approvers approved_by : List String)
    → votes_suffice strategy approvers approved_by ≡ true
    → (1 ≤ length approved_by) × Enough strategy approvers approved_by
unfolding votes_suffice
votes_suffice_sound strategy [] approved_by h =
    ground (arith, eq_iff (normalize_strategy strategy) strategy_all)
votes_suffice_sound strategy (a ∷ approvers) approved_by h = ground (
  arith,
  eq_iff (normalize_strategy strategy) strategy_all,
  all_approved_sound approved_by (a ∷ approvers),
  contains-pos approved_by a,
)
