-- ===== src/Gateway/RateLimiter/Examples.antt =====
-- Runs of the limiter on concrete calls, and its theorems there.
use xclaw.Prelude.{ℕ, ◌+◌, ◌-◌, ◌*◌, ◌≤◌, ◌≡◌, ◌≢◌, ◌↔◌, refl, List, [], ◌∷◌, none, arith}
use xclaw.Prelude.Dict
use xclaw.Gateway.RateLimiter.{
  RateLimiter, TokenBucket, Subject, token, new_token_bucket, new_rate_limiter, allow,
  allow_three_level, check_level, ensure_bucket, bucket_allow,
}
use xclaw.Gateway.RateLimiter.Rate.{Call, passed_calls, platform_rate}
use xclaw.Gateway.RateLimiter.Panics.{allow_panics_iff, three_level_total}

abbrev ann : Subject
ann = record {
  platform = "slack";
  platform_limit = 1;
  tenant_id = "";
  tenant_limit = 5;
  session_key = "s1";
  session_limit = 2;
}

abbrev at_time : ℕ → Call
at_time t = record { clock = λ _. t; subject = ann }

abbrev three_calls : List Call
three_calls = at_time 1 ∷ at_time 2 ∷ at_time 60000000003 ∷ []

abbrev full_bucket : TokenBucket
full_bucket = new_token_bucket 0 1 1

abbrev with_bucket : RateLimiter
with_bucket = record new_rate_limiter { buckets = ("platform:slack", full_bucket) ∷ [] }

-- The second call is refused, the third comes after a minute.
two_pass : passed_calls "slack" three_calls with_bucket ≡ 2
unfolding passed_calls allow_three_level check_level ensure_bucket allow bucket_allow Dict.lookup
    Dict.insert
two_pass = refl

platform_rate_example :
    passed_calls "slack" three_calls with_bucket * token
    ≤ full_bucket.tokens + (60000000003 - 0) * 1
unfolding Dict.lookup
platform_rate_example =
    platform_rate "slack" three_calls with_bucket full_bucket 0 (omega arith) refl (omega arith)

allow_panics_iff_example :
    (((allow 1 "k" new_rate_limiter).0 ≡ none) ↔ (Dict.lookup "k" new_rate_limiter.buckets ≡ none))
    × ((allow 2 "k" (allow 1 "k" new_rate_limiter).1).0 ≢ none)
allow_panics_iff_example = allow_panics_iff 1 2 "k" new_rate_limiter

three_level_total_example : (allow_three_level (λ i. i) ann new_rate_limiter).0 ≢ none
three_level_total_example = three_level_total (λ i. i) ann new_rate_limiter
