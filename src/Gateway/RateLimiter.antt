-- ===== src/Gateway/RateLimiter.antt =====
-- Token buckets and the three-level limiter (cli/gateway/rate_limiter.go). A token is counted in
-- parts of 1 / (60 * 10^9): a bucket that gains `refill_rate` tokens a minute gains `refill_rate`
-- parts a nanosecond, so the float64 arithmetic of the source is done exactly.
pub mod Bucket
pub mod Account
pub mod Rate
pub mod Panics
mod Examples
use xclaw.Prelude.{
  ℕ, ◌+◌, ◌-◌, ◌*◌, ◌^◌, Bool, true, false, ◌&&◌, not, [], Option, none, some, String, str_eq, ◌<>◌,
  ltb, if◌then◌else◌,
}
use xclaw.Prelude.Dict
use xclaw.Prelude.Dict.{Dict}

abbrev pub token : ℕ
token = 60 * 10 ^ 9

pub record TokenBucket : Type 0 where
  pub tokens : ℕ
  pub max_tokens : ℕ
  pub refill_rate : ℕ
  pub last_refill : ℕ

abbrev pub new_token_bucket : ℕ → ℕ → ℕ → TokenBucket
new_token_bucket now max_tokens refill_rate = record {
  tokens = max_tokens * token;
  max_tokens = max_tokens;
  refill_rate = refill_rate;
  last_refill = now;
}

unfoldable pub capped : ℕ → ℕ → ℕ
capped tokens max_tokens = if ltb (max_tokens * token) tokens then max_tokens * token else tokens

-- (*tokenBucket).Tokens
unfoldable pub current_tokens : ℕ → TokenBucket → ℕ
unfolding capped
current_tokens now b = capped (b.tokens + (now - b.last_refill) * b.refill_rate) b.max_tokens

-- (*tokenBucket).Allow
unfoldable pub bucket_allow : ℕ → TokenBucket → Bool × TokenBucket
unfolding current_tokens
bucket_allow now b =
    let tokens = current_tokens now b in
    if ltb tokens token
    then (false, record b { tokens = tokens; last_refill = now })
    else (true, record b { tokens = tokens - token; last_refill = now })

pub record RateLimitConfig : Type 0 where
  pub max_tokens : ℕ
  pub refill_rate : ℕ

pub record RateLimiter : Type 0 where
  pub buckets : Dict TokenBucket
  pub configs : Dict RateLimitConfig

abbrev pub new_rate_limiter : RateLimiter
new_rate_limiter = record { buckets = []; configs = [] }

abbrev reconfigured : ℕ → ℕ → TokenBucket → TokenBucket
reconfigured max_tokens refill_rate b = record b {
  max_tokens = max_tokens;
  refill_rate = refill_rate;
  tokens = capped b.tokens max_tokens;
}

unfoldable pub configure : String → ℕ → ℕ → RateLimiter → RateLimiter
unfolding capped
configure key max_tokens refill_rate r =
    let configs =
      Dict.insert key (record { max_tokens = max_tokens; refill_rate = refill_rate }) r.configs in
    elim (Dict.lookup key r.buckets) [
      | none ↦ record r { configs = configs }
      | some b ↦ record {
        buckets = Dict.insert key (reconfigured max_tokens refill_rate b) r.buckets;
        configs = configs;
      }
    ]

-- The bucket that a configuration, or its absence, gives a new key.
abbrev configured_bucket : ℕ → Option RateLimitConfig → TokenBucket
configured_bucket now none = new_token_bucket now 60 60
configured_bucket now (some c) = new_token_bucket now c.max_tokens c.refill_rate

-- (*rateLimiter).Allow; `none` is a panic. For a key with no bucket the inner `b, exists :=`
-- declares another `b`: the new bucket is stored, and the call goes through the outer nil pointer.
unfoldable pub allow : ℕ → String → RateLimiter → Option Bool × RateLimiter
allow now key r = elim (Dict.lookup key r.buckets) [
  | none ↦ (
    none,
    record r {
      buckets = Dict.insert key (configured_bucket now (Dict.lookup key r.configs)) r.buckets;
    },
  )
  | some b ↦
      let (passed, b') = bucket_allow now b in
      (some passed, record r { buckets = Dict.insert key b' r.buckets })
]

unfoldable pub ensure_bucket : ℕ → String → ℕ → ℕ → RateLimiter → RateLimiter
ensure_bucket now key max_tokens refill_rate r = elim (Dict.lookup key r.buckets) [
  | none ↦ record r {
    buckets = Dict.insert key (new_token_bucket now max_tokens refill_rate) r.buckets;
  }
  | some b ↦ r
]

-- ensureBucket and Allow under one limit; a limit of 0 (or below) and a blank subject are not
-- checked. `created` and `now` are the two readings of the clock.
unfoldable pub check_level : ℕ → ℕ → Bool → String → ℕ → RateLimiter → Option Bool × RateLimiter
check_level created now applies key limit r =
    if ltb 0 limit && applies
    then allow now key (ensure_bucket created key limit limit r)
    else (some true, r)

-- `return false` at the first level that refuses; a panic ends the call.
abbrev pub and_then :
    Option Bool × RateLimiter
    → (RateLimiter → Option Bool × RateLimiter)
    → Option Bool × RateLimiter
and_then (some true, r) next = next r
and_then (some false, r) next = (some false, r)
and_then (none, r) next = (none, r)

pub record Subject : Type 0 where
  pub platform : String
  pub platform_limit : ℕ
  pub tenant_id : String
  pub tenant_limit : ℕ
  pub session_key : String
  pub session_limit : ℕ

abbrev pub platform_key : String → String
platform_key platform = "platform:" <> platform

abbrev pub tenant_key : Subject → String
tenant_key s = "tenant:" <> s.tenant_id <> ":" <> s.platform

abbrev pub session_key : Subject → String
session_key s = "session:" <> s.session_key

abbrev pub check_platform : (ℕ → ℕ) → Subject → RateLimiter → Option Bool × RateLimiter
check_platform clock s =
    check_level (clock 0) (clock 1) true (platform_key s.platform) s.platform_limit

abbrev pub check_tenant : (ℕ → ℕ) → Subject → RateLimiter → Option Bool × RateLimiter
check_tenant clock s =
    check_level (clock 2) (clock 3) (not (str_eq s.tenant_id "")) (tenant_key s) s.tenant_limit

abbrev pub check_session : (ℕ → ℕ) → Subject → RateLimiter → Option Bool × RateLimiter
check_session clock s =
    check_level (clock 4) (clock 5) (not (str_eq s.session_key "")) (session_key s) s.session_limit

-- `clock i` is the reading `i` of the clock in this call.
unfoldable pub allow_three_level : (ℕ → ℕ) → Subject → RateLimiter → Option Bool × RateLimiter
allow_three_level clock s r =
    and_then (check_platform clock s r)
      λ r₁. and_then (check_tenant clock s r₁) (check_session clock s)

-- now.Sub(b.lastRefill) > maxAge
unfoldable pub cleanup : ℕ → ℕ → RateLimiter → RateLimiter
cleanup now max_age r = record r {
  buckets = Dict.remove_if (λ b. ltb max_age (now - b.last_refill)) r.buckets;
}
