-- ===== src/Gateway/RateLimiter/Bucket.antt =====
-- A bucket's account: what it holds and what it let through come from its capacity and its refill.
use xclaw.Prelude.{ℕ, ◌+◌, ◌-◌, ◌*◌, ◌≤◌, ◌≡◌, refl, Bool, arith, if◌then◌else◌}
use xclaw.Gateway.RateLimiter.{TokenBucket, token, bucket_allow}

-- From `b` to `b'` the bucket let `n` calls through.
pub record Charged (n : ℕ) (b b' : TokenBucket) : Type 0 where
  pub same_max : b'.max_tokens ≡ b.max_tokens
  pub same_rate : b'.refill_rate ≡ b.refill_rate
  pub later : b.last_refill ≤ b'.last_refill
  pub balance : b'.tokens + n * token ≤ b.tokens + (b'.last_refill - b.last_refill) * b.refill_rate

abbrev pub count : Bool → ℕ
count b = if b then 1 else 0

pub bucket_allow-Charged :
    (now : ℕ) (b : TokenBucket)
    → b.last_refill ≤ now
    → Charged (count (bucket_allow now b).0) b (bucket_allow now b).1
unfolding bucket_allow
bucket_allow-Charged now b h = ground arith

pub Charged-trans :
    (n m : ℕ) (a b c : TokenBucket) → Charged n a b → Charged m b c → Charged (n + m) a c
Charged-trans n m a b c p q = record {
  same_max = cc (p.same_max, q.same_max);
  same_rate = cc (p.same_rate, q.same_rate);
  later = omega arith;
  balance = grind arith;
}

-- A bucket never holds more than its capacity.
abbrev pub IsCapped : TokenBucket → Type 0
IsCapped b = b.tokens ≤ b.max_tokens * token

pub bucket_allow-IsCapped : (now : ℕ) (b : TokenBucket) → IsCapped (bucket_allow now b).1
unfolding bucket_allow
bucket_allow-IsCapped now b = ground arith

pub Charged-refl : (b : TokenBucket) → Charged 0 b b
Charged-refl b = record {
  same_max = refl;
  same_rate = refl;
  later = omega arith;
  balance = omega arith;
}

pub Charged-fewer : {n : ℕ} {a b : TokenBucket} → Charged n a b → Charged 0 a b
Charged-fewer p = record {
  same_max = p.same_max;
  same_rate = p.same_rate;
  later = p.later;
  balance = omega (arith, p.balance);
}
