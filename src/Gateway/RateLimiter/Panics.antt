-- ===== src/Gateway/RateLimiter/Panics.antt =====
-- When the limiter panics: the shadowed variable in (*rateLimiter).Allow of
-- cli/gateway/rate_limiter.go, and why AllowThreeLevel does not meet it.
use xclaw.Prelude.{
  ℕ, ◌≡◌, ◌≢◌, ◌↔◌, Bool, true, false, ◌&&◌, Option, none, some, String, inl, inr, Bool-cases,
  Option-cases, eq_refl, ltb,
}
use xclaw.Prelude.Dict
use xclaw.Prelude.Dict.{lookup-insert}
use xclaw.Gateway.RateLimiter.{
  RateLimiter, Subject, allow, ensure_bucket, check_level, and_then, check_platform, check_tenant,
  allow_three_level,
}

-- Allow on its own panics exactly for a key that has no bucket; and then it has stored one, so that
-- the next call for the key does not panic.
pub allow_panics_iff :
    (now later : ℕ) (key : String) (r : RateLimiter)
    → (((allow now key r).0 ≡ none) ↔ (Dict.lookup key r.buckets ≡ none))
      × ((allow later key (allow now key r).1).0 ≢ none)
unfolding allow
allow_panics_iff now later key r = elim (Option-cases (Dict.lookup key r.buckets)) [
  | inl missing ↦ (
    (λ _. missing, λ _. rw (missing, allow)),
    rw (missing, allow, lookup-insert, eq_refl) (λ p. cc),
  )
  | inr (b, found) ↦ (
    (λ p. absurd (some_ne_none (rw (found, allow) at p)), λ p. cc (p, found)),
    rw (found, allow, lookup-insert, eq_refl) (λ p. cc),
  )
]
  where
    some_ne_none : {b : Bool} → some b ≡ none → ⊥
    some_ne_none p = cc

ensure_bucket-found :
    (created limit : ℕ) (key : String) (r : RateLimiter)
    → Dict.lookup key (ensure_bucket created key limit limit r).buckets ≢ none
unfolding ensure_bucket
ensure_bucket-found created limit key r = elim (Option-cases (Dict.lookup key r.buckets)) [
  | inl missing ↦ rw (missing, ensure_bucket, lookup-insert, eq_refl) (λ p. cc)
  | inr (b, found) ↦ rw (found, ensure_bucket, found) (λ p. cc)
]

check_level_total :
    (created now : ℕ) (applies : Bool) (key : String) (limit : ℕ) (r : RateLimiter)
    → (check_level created now applies key limit r).0 ≢ none
unfolding check_level
check_level_total created now applies key limit r = elim (Bool-cases (ltb 0 limit && applies)) [
  | inl e ↦ rw e λ p.
      ensure_bucket-found created limit key r
        ((allow_panics_iff now now key (ensure_bucket created key limit limit r)).0.0 p)
  | inr e ↦ rw e (λ p. cc)
]

and_then_total :
    (p : Option Bool × RateLimiter) (next : RateLimiter → Option Bool × RateLimiter)
    → p.0 ≢ none
    → ((q : RateLimiter) → (next q).0 ≢ none)
    → (and_then p next).0 ≢ none
and_then_total (some true, r) next h k = k r
and_then_total (some false, r) next h k = λ p. cc
and_then_total (none, r) next h k = h

-- AllowThreeLevel never panics, since it makes each bucket before it asks for it.
pub three_level_total :
    (clock : ℕ → ℕ) (s : Subject) (r : RateLimiter) → (allow_three_level clock s r).0 ≢ none
unfolding allow_three_level
three_level_total clock s r =
    and_then_total (check_platform clock s r) _ (check_level_total _ _ _ _ _ r) λ q.
      and_then_total (check_tenant clock s q) _ (check_level_total _ _ _ _ _ q)
        λ q'. check_level_total _ _ _ _ _ q'
