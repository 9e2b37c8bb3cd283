-- ===== src/Gateway/RateLimiter/Rate.antt =====
-- The limiter's guarantee over any sequence of calls of AllowThreeLevel.
use xclaw.Prelude.{
  ℕ, ◌+◌, ◌-◌, ◌*◌, ◌≤◌, ◌<◌, ◌≡◌, refl, Bool, true, false, List, [], ◌∷◌, Option, none, some,
  String, arith, inl, inr, Bool-cases, str_eq, eq_iff, ltb, not, ◌&&◌,
}
use native.Mathlib.Nat.{add-zero}
use xclaw.Prelude.Dict
use xclaw.Prelude.Dict.{lookup-insert}
use xclaw.Gateway.RateLimiter.{
  TokenBucket, RateLimiter, Subject, token, and_then, allow_three_level, platform_key, tenant_key,
  session_key, check_platform, check_tenant, check_session,
}
use xclaw.Gateway.RateLimiter.Bucket.{Charged-trans, Charged-refl, count}
use xclaw.Gateway.RateLimiter.Account.{Holds, Spends, check_any, check_own}

-- A call of AllowThreeLevel, with its readings of the clock.
pub record Call : Type 0 where
  pub clock : ℕ → ℕ
  pub subject : Subject

-- The readings that a call may take do not go back.
pub record IsMonotone (t : ℕ) (c : Call) : Type 0 where
  pub first : t ≤ c.clock 1
  pub second : c.clock 1 ≤ c.clock 3
  pub third : c.clock 3 ≤ c.clock 5

abbrev pub result : Call → RateLimiter → Option Bool
result c r = (allow_three_level c.clock c.subject r).0

abbrev pub after : Call → RateLimiter → RateLimiter
after c r = (allow_three_level c.clock c.subject r).1

Holds-later :
    {k : String} {t : ℕ} (u : ℕ) {r : RateLimiter} {b : TokenBucket}
    → t ≤ u
    → Holds k t r b
    → Holds k u r b
Holds-later u le h = record { held = h.held; at_most = omega (arith, h.at_most) }

Spends-trans :
    (n : ℕ) (k : String) (t u : ℕ) (r r' : RateLimiter) (b : TokenBucket)
    → Spends n k t r b
    → ((b' : TokenBucket) → Holds k t r b' → Spends 0 k u r' b')
    → Spends n k u r' b
Spends-trans n k t u r r' b (b₁, h₁, c₁) next =
    let (b₂, h₂, c₂) = next b₁ h₁ in (b₂, h₂, rw add-zero at (Charged-trans n 0 b b₁ b₂ c₁ c₂))

-- A further level charges what it charges, and its outcome is the outcome of the call.
and_then_any :
    (n : ℕ) (k : String) (t u : ℕ) (b : TokenBucket) (p : Option Bool × RateLimiter)
    (next : RateLimiter → Option Bool × RateLimiter)
    → t ≤ u
    → Spends n k t p.1 b
    → ((q : RateLimiter) (b' : TokenBucket) → Holds k t q b' → Spends 0 k u (next q).1 b')
    → Spends n k u (and_then p next).1 b
and_then_any n k t u b (some true, r) next le s step =
    Spends-trans n k t u r (next r).1 b s (step r)
and_then_any n k t u b (some false, r) next le (b', h, c) step = (b', Holds-later u le h, c)
and_then_any n k t u b (none, r) next le (b', h, c) step = (b', Holds-later u le h, c)

first_passed :
    (p : Option Bool × RateLimiter) (next : RateLimiter → Option Bool × RateLimiter)
    → (and_then p next).0 ≡ some true
    → p.0 ≡ some true
first_passed (some true, r) next h = refl
first_passed (some false, r) next h = h
first_passed (none, r) next h = h

abbrev pub is_pass : Option Bool → Bool
is_pass (some true) = true
is_pass _ = false

abbrev below_platform : Call → RateLimiter → Option Bool × RateLimiter
below_platform c q = and_then (check_tenant c.clock c.subject q) (check_session c.clock c.subject)

-- The levels below the platform's.
later :
    (c : Call) (k : String)
    → c.clock 1 ≤ c.clock 3
    → c.clock 3 ≤ c.clock 5
    → (q : RateLimiter) (b : TokenBucket) → Holds k (c.clock 1) q b
    → Spends 0 k (c.clock 5) (below_platform c q).1 b
later c k le₁ le₂ q b h =
    and_then_any 0 k (c.clock 3) (c.clock 5) b (check_tenant c.clock c.subject q)
      (check_session c.clock c.subject) le₂
      (check_any (c.clock 2) (c.clock 3) (not (str_eq c.subject.tenant_id ""))
        (tenant_key c.subject) c.subject.tenant_limit k q b h le₁)
      (λ q' b' h'.
        check_any (c.clock 4) (c.clock 5) (not (str_eq c.subject.session_key ""))
          (session_key c.subject) c.subject.session_limit k q' b' h' le₂)

-- A call keeps every account that was open.
call_any :
    (c : Call) (k : String) (r : RateLimiter) (b : TokenBucket) {t : ℕ}
    → IsMonotone t c
    → Holds k t r b
    → Spends 0 k (c.clock 5) (after c r) b
unfolding allow_three_level
call_any c k r b {t} mono h =
    and_then_any 0 k (c.clock 1) (c.clock 5) b (check_platform c.clock c.subject r)
      (below_platform c) (omega (arith, mono.second, mono.third))
      (check_any (c.clock 0) (c.clock 1) true (platform_key c.subject.platform)
        c.subject.platform_limit k r b h mono.first)
      (later c k mono.second mono.third)

-- A call that passes under a platform limit charges the platform's bucket.
call_own :
    (c : Call) (r : RateLimiter) (b : TokenBucket) {t : ℕ}
    → IsMonotone t c
    → Holds (platform_key c.subject.platform) t r b
    → 0 < c.subject.platform_limit
    → result c r ≡ some true
    → Spends 1 (platform_key c.subject.platform) (c.clock 5) (after c r) b
unfolding allow_three_level
call_own c r b {t} mono h pos passed =
    and_then_any 1 (platform_key c.subject.platform) (c.clock 1) (c.clock 5) b
      (check_platform c.clock c.subject r) (below_platform c)
      (omega (arith, mono.second, mono.third))
      (check_own (c.clock 0) (c.clock 1) c.subject.platform_limit (platform_key c.subject.platform)
        r b h mono.first pos
        (first_passed (check_platform c.clock c.subject r) (below_platform c) passed))
      (later c (platform_key c.subject.platform) mono.second mono.third)

-- One after the other.
unfoldable pub run_calls : List Call → RateLimiter → RateLimiter
run_calls [] r = r
run_calls (c ∷ calls) r = run_calls calls (after c r)

abbrev pub counts : String → Call → RateLimiter → Bool
counts platform c r =
    str_eq c.subject.platform platform && ltb 0 c.subject.platform_limit && is_pass (result c r)

-- How many calls for the platform, under a limit of it, went through.
unfoldable pub passed_calls : String → List Call → RateLimiter → ℕ
passed_calls platform [] r = 0
passed_calls platform (c ∷ calls) r =
    count (counts platform c r) + passed_calls platform calls (after c r)

abbrev pub AllMonotone : ℕ → List Call → Type 0
AllMonotone t [] = Unit
AllMonotone t (c ∷ calls) = IsMonotone t c × AllMonotone (c.clock 5) calls

abbrev pub end_time : ℕ → List Call → ℕ
end_time t [] = t
end_time t (c ∷ calls) = end_time (c.clock 5) calls

counted :
    (platform : String) (c : Call) (r : RateLimiter)
    → counts platform c r ≡ true
    → (c.subject.platform ≡ platform) × (0 < c.subject.platform_limit) × (result c r ≡ some true)
counted platform c r e = ground (arith, eq_iff c.subject.platform platform)

call_counts :
    (platform : String) (c : Call) (r : RateLimiter) (b : TokenBucket) {t : ℕ}
    → IsMonotone t c
    → Holds (platform_key platform) t r b
    → Spends (count (counts platform c r)) (platform_key platform) (c.clock 5) (after c r) b
call_counts platform c r b {t} mono h = elim (Bool-cases (counts platform c r)) [
  | inl e ↦ own e
  | inr e ↦ rw e (call_any c (platform_key platform) r b mono h)
]
  where
    own :
        counts platform c r ≡ true
        → Spends (count (counts platform c r)) (platform_key platform) (c.clock 5) (after c r) b
    own e =
        let (same, limited, passed) = counted platform c r e in
        let own_bucket : Holds (platform_key c.subject.platform) t r b = rw same h in
        rw e (rw (← same) (call_own c r b mono own_bucket limited passed))

run_counts :
    (platform : String) (calls : List Call) (r : RateLimiter) (b : TokenBucket) (t : ℕ)
    → AllMonotone t calls
    → Holds (platform_key platform) t r b
    → Spends
        (passed_calls platform calls r)
        (platform_key platform)
        (end_time t calls)
        (run_calls calls r)
        b
unfolding passed_calls run_calls
run_counts platform [] r b t mono h = (b, h, Charged-refl b)
run_counts platform (c ∷ calls) r b t mono h =
    let (b₁, h₁, c₁) = call_counts platform c r b mono.0 h in
    let (b₂, h₂, c₂) = run_counts platform calls (after c r) b₁ (c.clock 5) mono.1 h₁ in
    (b₂, h₂, Charged-trans _ _ b b₁ b₂ c₁ c₂)

gain_mono : (from rate t u : ℕ) → t ≤ u → (t - from) * rate ≤ (u - from) * rate
gain_mono from rate t u h = grind arith

-- Over any calls for any subjects, one after the other, the calls for a platform that pass under a
-- limit of it take no more tokens than its bucket held at first and gained at its rate up to the end.
pub platform_rate :
    (platform : String) (calls : List Call) (r : RateLimiter) (b : TokenBucket) (t : ℕ)
    → AllMonotone t calls
    → Dict.lookup (platform_key platform) r.buckets ≡ some b
    → b.last_refill ≤ t
    → passed_calls platform calls r * token
      ≤ b.tokens + (end_time t calls - b.last_refill) * b.refill_rate
platform_rate platform calls r b t mono held before =
    let (b', h, charged) =
      run_counts platform calls r b t mono (record { held = held; at_most = before }) in
    let gained : (b'.last_refill - b.last_refill) * b.refill_rate
        ≤ (end_time t calls - b.last_refill) * b.refill_rate =
      gain_mono b.last_refill b.refill_rate b'.last_refill (end_time t calls) h.at_most in
    omega (arith, charged.balance, gained)
