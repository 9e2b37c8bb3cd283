-- ===== src/Scheduler/CronExpr/Steps.antt =====
-- The values that a step selects.
use native.Mathlib.Nat.{mod-eq_of_lt, mod-eq-sub-mod}
use xclaw.Prelude.{
  ℕ, zero, suc, ◌+◌, ◌-◌, ◌%◌, ◌^◌, ◌≤◌, ◌<◌, ◌≡◌, Bool, ◌&&◌, ◌||◌, List, some, String, arith, leb,
  ◌==◌, Bool-cases, inl, inr,
}
use xclaw.Prelude.Int.{pos}
use xclaw.Prelude.Parse.{atoi}
use xclaw.Scheduler.CronExpr.{ok, rounds, stepped, every_step, parse_segment, contains}

-- `v` is one of i, i + n, i + 2n, ... up to `last`.
abbrev pub selected : ℕ → ℕ → ℕ → ℕ → Bool
selected i last n v = leb i v && (leb v last && ((v - i) % n == 0))

selected_next :
    (i last n v : ℕ)
    → 0 < n
    → i ≤ last
    → selected i last n v ≡ ((i == v) || selected (i + n) last n v)
selected_next i last n v step fits = elim (Bool-cases (leb i v)) [
  | inr below ↦ ground arith
  | inl above ↦ elim (Bool-cases (leb (i + n) v)) [
    | inl next ↦
        let e = mod-eq-sub-mod {n = v - i} {m = n} (ground arith) in
        let same : v - i - n ≡ v - (i + n) = omega arith in rw (e, same) (ground arith)
    | inr before ↦ let e = mod-eq_of_lt {n = v - i} {m = n} (ground arith) in rw e (ground arith)
  ]
]

stepped-selected :
    (fuel i last n v : ℕ)
    → 0 < n
    → last < i + fuel
    → last + n < 2 ^ 63
    → i ≤ last + n
    → contains (stepped fuel i last n) v ≡ selected i last n v
unfolding stepped contains
stepped-selected zero i last n v step enough small near = ground arith
stepped-selected (suc fuel) i last n v step enough small near = elim (Bool-cases (leb i last)) [
  | inr over ↦ ground arith
  | inl inside ↦
      let rest = stepped-selected fuel (i + n) last n v step (ground arith) small (ground arith) in
      let wrap = mod-eq_of_lt {n = i + n} {m = 2 ^ 64} (ground arith) in
      let next = selected_next i last n v step (ground arith) in rw (inside, wrap) (ground arith)
]

-- A segment `*/n` selects every n-th value of the field's bounds, from the least one on; n must
-- be positive and stay clear of 2^63, and the bounds span fewer than 128 values.
pub every_segment :
    (min max n : ℕ) (seg rest : String)
    → every_step seg ≡ some rest
    → atoi rest ≡ some (pos n)
    → 0 < n
    → max < min + rounds
    → max + n < 2 ^ 63
    → min ≤ max
    → (values : List ℕ) × (parse_segment min max seg ≡ ok values)
      × ((v : ℕ) → contains values v ≡ selected min max n v)
unfolding parse_segment
every_segment min max n seg rest star number step narrow small fits = (
  stepped rounds min max n,
  rw (parse_segment, star, number) (ground arith),
  λ v. stepped-selected rounds min max n v step narrow small (omega arith),
)
