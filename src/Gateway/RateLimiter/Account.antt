-- ===== src/Gateway/RateLimiter/Account.antt =====
-- What each step of the limiter does to the account of one key.
use xclaw.Prelude.{
  ℕ, ◌≤◌, ◌<◌, ◌≡◌, Bool, true, false, some, String, arith, inl, inr, Bool-cases, Option-cases,
  some_inj, str_eq, eq_iff, eq_refl, ltb, ◌&&◌,
}
use xclaw.Prelude.Dict
use xclaw.Prelude.Dict.{lookup-insert}
use xclaw.Gateway.RateLimiter.{
  TokenBucket, RateLimiter, bucket_allow, new_token_bucket, allow, ensure_bucket, check_level,
}
use xclaw.Gateway.RateLimiter.Bucket.{
  Charged, Charged-refl, Charged-fewer, count, bucket_allow-Charged,
}

-- The key `k` has the bucket `b`, refilled last at `t` or before.
pub record Holds (k : String) (t : ℕ) (r : RateLimiter) (b : TokenBucket) : Type 0 where
  pub held : Dict.lookup k r.buckets ≡ some b
  pub at_most : b.last_refill ≤ t

-- The bucket of `k` is still there after a step, and let `n` calls through at least.
abbrev pub Spends : ℕ → String → ℕ → RateLimiter → TokenBucket → Type 0
Spends n k t r' b = (b' : TokenBucket) × Holds k t r' b' × Charged n b b'

-- Allow with a bucket at hand charges that bucket and no other.
pub allow_held :
    (now : ℕ) (key : String) (r : RateLimiter) (b : TokenBucket)
    → Dict.lookup key r.buckets ≡ some b
    → allow now key r ≡ (
      some (bucket_allow now b).0,
      record r { buckets = Dict.insert key (bucket_allow now b).1 r.buckets },
    )
unfolding allow
allow_held now key r b h = rw (h, allow)

bucket_allow-last : (now : ℕ) (b : TokenBucket) → (bucket_allow now b).1.last_refill ≡ now
unfolding bucket_allow
bucket_allow-last now b = ground arith

allow_own :
    (now : ℕ) (k : String) (r : RateLimiter) (b : TokenBucket) {t : ℕ}
    → Holds k t r b
    → t ≤ now
    → Spends (count (bucket_allow now b).0) k now (allow now k r).1 b
allow_own now k r b h le = (
  (bucket_allow now b).1,
  record {
    held = rw (allow_held now k r b h.held, lookup-insert, eq_refl);
    at_most = omega (arith, bucket_allow-last now b);
  },
  bucket_allow-Charged now b (omega (arith, h.at_most)),
)

insert_other :
    (k j : String) (b c : TokenBucket) {t : ℕ} (now : ℕ) (r : RateLimiter)
    → str_eq j k ≡ false
    → Holds k t r b
    → t ≤ now
    → Spends 0 k now (record r { buckets = Dict.insert j c r.buckets }) b
insert_other k j b c now r ne h le = (
  b,
  record { held = rw (lookup-insert, ne) h.held; at_most = omega (arith, h.at_most) },
  Charged-refl b,
)

allow_other :
    (now : ℕ) (k j : String) (r : RateLimiter) (b : TokenBucket) {t : ℕ}
    → str_eq j k ≡ false
    → Holds k t r b
    → t ≤ now
    → Spends 0 k now (allow now j r).1 b
unfolding allow
allow_other now k j r b ne h le = elim (Option-cases (Dict.lookup j r.buckets)) [
  | inl missing ↦ rw (missing, allow) (insert_other k j b _ now r ne h le)
  | inr (c, found) ↦ rw (found, allow) (insert_other k j b _ now r ne h le)
]

allow_any :
    (now : ℕ) (k j : String) (r : RateLimiter) (b : TokenBucket) {t : ℕ}
    → Holds k t r b
    → t ≤ now
    → Spends 0 k now (allow now j r).1 b
allow_any now k j r b h le = elim (Bool-cases (str_eq j k)) [
  | inl e ↦
      rw ((eq_iff j k).0 e)
        (let (b', held, charged) = allow_own now k r b h le in (b', held, Charged-fewer charged))
  | inr e ↦ allow_other now k j r b e h le
]

ensure_any :
    (now limit rate : ℕ) (k j : String) (r : RateLimiter) (b : TokenBucket) {t : ℕ}
    → Holds k t r b
    → Holds k t (ensure_bucket now j limit rate r) b
unfolding ensure_bucket
ensure_any now limit rate k j r b h = record {
  held =
      ground
        (arith, lookup-insert j k (new_token_bucket now limit rate) r.buckets, eq_iff j k, h.held);
  at_most = h.at_most;
}

pub check_any :
    (created now : ℕ) (applies : Bool) (key : String) (limit : ℕ) (k : String) (r : RateLimiter)
    (b : TokenBucket) {t : ℕ}
    → Holds k t r b
    → t ≤ now
    → Spends 0 k now (check_level created now applies key limit r).1 b
unfolding check_level
check_any created now applies key limit k r b h le = elim (Bool-cases (ltb 0 limit && applies)) [
  | inl e ↦ rw e (allow_any now k key _ b (ensure_any created limit limit k key r b h) le)
  | inr e ↦ rw e (b, record { held = h.held; at_most = omega (arith, h.at_most) }, Charged-refl b)
]

-- A level that passes under a limit charges its own bucket.
pub check_own :
    (created now limit : ℕ) (k : String) (r : RateLimiter) (b : TokenBucket) {t : ℕ}
    → Holds k t r b
    → t ≤ now
    → 0 < limit
    → (check_level created now true k limit r).0 ≡ some true
    → Spends 1 k now (check_level created now true k limit r).1 b
unfolding check_level
check_own created now limit k r b h le pos passed =
    let on : ltb 0 limit ≡ true = ground arith in
    let held = ensure_any created limit limit k k r b h in
    let let_through : (bucket_allow now b).0 ≡ true =
      some_inj
        (rw (on, allow_held now k (ensure_bucket created k limit limit r) b held.held) at passed) in
    let (b', held', charged) = allow_own now k (ensure_bucket created k limit limit r) b held le in
    rw on (b', held', rw let_through at charged)
