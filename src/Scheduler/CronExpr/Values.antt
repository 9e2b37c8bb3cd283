-- ===== src/Scheduler/CronExpr/Values.antt =====
-- The loop of parseField that turns a set into a list, and the bounds of what it keeps.
use xclaw.Prelude.{
  ℕ, zero, suc, ◌+◌, ◌≤◌, ◌<◌, ◌≡◌, refl, Bool, true, false, ◌&&◌, List, [], ◌∷◌, arith, leb,
  Bool-cases, inl, inr,
}
use xclaw.Scheduler.CronExpr.{contains, pick, range_from}

-- The values ascend from `lo` on and stay below `max`.
unfoldable pub ascending : ℕ → ℕ → List ℕ → Bool
ascending lo max [] = true
ascending lo max (v ∷ values) = leb lo v && (leb v max && ascending (v + 1) max values)

-- A field as parseField makes it: values within the bounds in ascending order, one at least.
unfoldable pub is_field : ℕ → ℕ → List ℕ → Bool
unfolding ascending
is_field min max [] = false
is_field min max (v ∷ values) = ascending min max (v ∷ values)

pub ascending_weaken :
    (lo lo' max : ℕ) (values : List ℕ)
    → lo ≤ lo'
    → ascending lo' max values ≡ true
    → ascending lo max values ≡ true
unfolding ascending
ascending_weaken lo lo' max [] below h = refl
ascending_weaken lo lo' max (v ∷ values) below h = ground arith

pub pick-ascending :
    (count i max : ℕ) (values : List ℕ)
    → i + count ≤ max + 1
    → ascending i max (pick count i values) ≡ true
unfolding pick ascending
pick-ascending zero i max values fits = refl
pick-ascending (suc count) i max values fits =
    let rest = pick-ascending count (i + 1) max values (omega arith) in
    let weak = ascending_weaken i (i + 1) max (pick count (i + 1) values) (omega arith) rest in
    ground arith

pub range_from-ascending :
    (count i max : ℕ) → i + count ≤ max + 1 → ascending i max (range_from count i) ≡ true
unfolding range_from ascending
range_from-ascending zero i max fits = refl
range_from-ascending (suc count) i max fits =
    let rest = range_from-ascending count (i + 1) max (omega arith) in ground arith

unfoldable pub is_empty : List ℕ → Bool
is_empty [] = true
is_empty (v ∷ values) = false

-- A member of the set that lies in the loop's range is kept.
pub pick-is_empty :
    (count i v : ℕ) (values : List ℕ)
    → contains values v ≡ true
    → i ≤ v
    → v < i + count
    → is_empty (pick count i values) ≡ false
unfolding pick is_empty
pick-is_empty zero i v values member low high = ground arith
pick-is_empty (suc count) i v values member low high = elim (Bool-cases (contains values i)) [
  | inl here ↦ ground arith
  | inr away ↦ let rest = pick-is_empty count (i + 1) v values member in ground arith
]

pub ascending-is_field :
    (min max : ℕ) (values : List ℕ)
    → is_empty values ≡ false
    → ascending min max values ≡ true
    → is_field min max values ≡ true
unfolding is_empty is_field
ascending-is_field min max [] some_there h = ground arith
ascending-is_field min max (v ∷ values) some_there h = h

pub range_from-is_empty : (count i : ℕ) → 0 < count → is_empty (range_from count i) ≡ false
unfolding range_from is_empty
range_from-is_empty zero i h = ground arith
range_from-is_empty (suc count) i h = refl
