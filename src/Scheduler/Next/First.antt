-- ===== src/Scheduler/Next/First.antt =====
-- Next finds the first match.
use xclaw.Prelude.{
  ℕ, zero, suc, ◌+◌, ◌*◌, ◌≤◌, ◌<◌, ◌≡◌, refl, ap, ◌∙◌, true, false, arith, Bool-cases, inl, inr,
  leb, leb→le, ◌⊎◌,
}
use xclaw.Scheduler.Calendar.{minute_length}
use xclaw.Scheduler.CronExpr.{CronExpr}
use xclaw.Scheduler.Next.{match_time, scan, next, first_minute, deadline_of, minutes_left}

enough_minutes : (deadline t k : ℕ) → t + k * minute_length ≤ deadline → k < minutes_left deadline t
enough_minutes deadline t k within = omega arith

module _ (c : CronExpr) (deadline : ℕ) where
  -- A match that the loop has found `j` minutes behind `t`.
  abbrev pub IsHit : ℕ → ℕ → ℕ → Type 0
  IsHit t j found =
      (found ≡ t + j * minute_length) × (found ≤ deadline) × (match_time c found ≡ true)

  scan_here : (fuel t : ℕ) → t ≤ deadline → match_time c t ≡ true → scan (suc fuel) c deadline t ≡ t
  unfolding scan
  scan_here fuel t within hit = ground arith

  scan_on :
      (fuel t : ℕ)
      → t ≤ deadline
      → match_time c t ≡ false
      → scan (suc fuel) c deadline t ≡ scan fuel c deadline (t + minute_length)
  unfolding scan
  scan_on fuel t within miss = ground arith

  scan_over : (fuel t : ℕ) → deadline < t → scan fuel c deadline t ≡ 0
  unfolding scan
  scan_over zero t over = refl
  scan_over (suc fuel) t over = ground arith

  none_left : (t : ℕ) → scan 0 c deadline t ≡ 0
  unfolding scan
  none_left t = refl

  scan_first :
      (fuel t k : ℕ)
      → k < fuel
      → t + k * minute_length ≤ deadline
      → match_time c (t + k * minute_length) ≡ true
      → (j : ℕ) × (j ≤ k) × IsHit t j (scan fuel c deadline t)
  scan_first zero t k enough within hit = ground arith
  scan_first (suc fuel) t zero enough within hit =
      let same : t ≡ t + 0 * minute_length = omega arith in
      let now = ap (match_time c) same ∙ hit in
      rw (scan_here fuel t (omega arith) now) (0, omega arith, (omega arith, omega arith, now))
  scan_first (suc fuel) t (suc k) enough within hit = elim (Bool-cases (match_time c t)) [
    | inl now ↦
        rw (scan_here fuel t (omega arith) now) (0, omega arith, (omega arith, omega arith, now))
    | inr later ↦
        let same : t + minute_length + k * minute_length ≡ t + suc k * minute_length =
          omega arith in
        let (j, low, (found, inside, m)) =
          scan_first fuel (t + minute_length) k (omega arith) (omega arith)
            (ap (match_time c) same ∙ hit) in
        rw (scan_on fuel t (omega arith) later) (suc j, omega arith, (omega arith, inside, m))
  ]

  scan_sound :
      (fuel t : ℕ) → (scan fuel c deadline t ≡ 0) ⊎ ((j : ℕ) × IsHit t j (scan fuel c deadline t))
  scan_sound zero t = inl (none_left t)
  scan_sound (suc fuel) t = elim (Bool-cases (leb t deadline)) [
    | inr over ↦ inl (scan_over (suc fuel) t (ground arith))
    | inl inside ↦ elim (Bool-cases (match_time c t)) [
      | inl now ↦ inr (
          rw (scan_here fuel t (leb→le t deadline inside) now)
            (0, (omega arith, leb→le t deadline inside, now)))
      | inr later ↦
          rw (scan_on fuel t (leb→le t deadline inside) later)
            (elim (scan_sound fuel (t + minute_length)) [
              | inl e ↦ inl e
              | inr (j, (found, inside', m)) ↦ inr (suc j, (omega arith, inside', m))
            ])
    ]
  ]

-- If a whole minute behind `from` matches, and is not past the deadline of five years, then Next gives
-- a whole minute behind `from` that matches and is no later.
pub next_first :
    (c : CronExpr) (from k : ℕ)
    → first_minute from + k * minute_length ≤ deadline_of from
    → match_time c (first_minute from + k * minute_length) ≡ true
    → (j : ℕ) × (j ≤ k) × IsHit c (deadline_of from) (first_minute from) j (next c from)
unfolding next
next_first c from k within hit =
    let t = first_minute from in
    let deadline = deadline_of from in
    scan_first c deadline (minutes_left deadline t) t k (enough_minutes deadline t k within) within
      hit

-- Next gives the zero time, or a whole minute behind its argument that matches, five years on at most.
pub next_sound :
    (c : CronExpr) (from : ℕ)
    → (next c from ≡ 0) ⊎ ((j : ℕ) × IsHit c (deadline_of from) (first_minute from) j (next c from))
unfolding next
next_sound c from =
    let t = first_minute from in
    scan_sound c (deadline_of from) (minutes_left (deadline_of from) t) t
