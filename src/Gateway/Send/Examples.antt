-- ===== src/Gateway/Send/Examples.antt =====
-- A gateway with a console that refuses and two fallback targets, and the theorems on it.
use xclaw.Prelude.{
  ◌≡◌, ◌↔◌, refl, false, [], ◌∷◌, none, some, to_lower, trim_space, ltb, if◌then◌else◌,
}
use xclaw.Prelude.Dict
use xclaw.Prelude.Parse.{split}
use xclaw.Prelude.Result.{ok, err}
use xclaw.Approval.Lists.{first_non_empty}
use xclaw.Gateway.RateLimiter.{
  new_rate_limiter, allow_three_level, check_level, allow, ensure_bucket, bucket_allow,
}
use xclaw.Gateway.Reliability.{new_reliability_manager}
use xclaw.Gateway.Health.{new_provider_health_tracker}
use xclaw.Gateway.Stream.{CapabilityProfile}
use xclaw.Gateway.Segments.{split_by_max_len, apply_degrade_policy}
use xclaw.Gateway.Adapter.{new_content_adapter}
use xclaw.Gateway.Events.{OutboundEvent, Provider, no_result}
use xclaw.Gateway.Targets.{resolve_target, in_quiet_hours}
use xclaw.Gateway.Delivery.{Gateway, Outside, Sent, send_with_retry, degraded, segments_of, unsent}
use xclaw.Gateway.Delivery.GoesOut.{GoesOut, send_with_retry_iff-GoesOut}
use xclaw.Gateway.Send.{SendOutcome, send}
use xclaw.Gateway.Send.Endless.{Leads, send_never_returns}

abbrev caps : CapabilityProfile
caps = record {
  supports_streaming_text = false;
  supports_edit = false;
  supports_buttons = false;
  supports_threads = false;
  supports_typing = false;
  supports_audio = false;
  max_text_len = 100;
  rate_limit_per_minute = 60;
}

abbrev console : Provider
console = record { name = "console"; capabilities = caps }

abbrev down : Outside
down = record {
  provider_send = λ n name event. err "connection refused";
  clock = λ n. n;
  minute_of_day = λ n. 0;
  new_id = λ n prefix. prefix;
  clock_minutes = λ s. none;
  headings = λ s. [];
}

abbrev g : Gateway
g = record {
  reliability = new_reliability_manager;
  adapter = new_content_adapter;
  health = new_provider_health_tracker;
  rate_limiter = new_rate_limiter;
  providers = ("console", console) ∷ [];
  bindings = [];
  config = record {
    default_target = "";
    fallback_targets = "telegram:1" ∷ "slack:2" ∷ [];
    quiet_hours_start = "";
    quiet_hours_end = "";
  };
  last_targets = [];
  dlq = [];
}

abbrev hello : OutboundEvent
hello = record {
  message_id = "m1";
  target = "";
  platform = "";
  chat_id = "";
  thread_id = "";
  reply_to_id = "";
  text_markdown = "hello";
  actions = [];
  attachments = [];
  stream = false;
  phase = "";
  idempotency_key = "k1";
  priority = "normal";
  ttl_seconds = 0;
}

to_telegram : Leads g "main" (trim_space "telegram:1")
unfolding resolve_target trim_space first_non_empty split to_lower
to_telegram event = (_, refl)

to_slack : Leads g "main" (trim_space "slack:2")
unfolding resolve_target trim_space first_non_empty split to_lower
to_slack event = (_, refl)

to_discord : Leads g "main" "discord:3"
unfolding resolve_target trim_space first_non_empty split to_lower
to_discord event = (_, refl)

send_never_returns_example : send down 9 0 "main" "discord:3" hello g ≡ none
unfolding Dict.lookup in_quiet_hours trim_space
send_never_returns_example =
    send_never_returns down "main" "telegram:1" "slack:2" "discord:3" hello g console 9 0
      (λ n name event. (_, refl)) refl (λ minute. refl) refl (refl, refl) refl
      (to_telegram, to_slack, to_discord) refl refl

-- A provider that takes the message at the second attempt.
abbrev flaky : Outside
flaky = record down {
  provider_send =
      λ n name event. if ltb n 15 then err "timeout" else ok (record no_result { status = "sent" });
}

abbrev retried : Sent
retried = elim (send_with_retry flaky "main" console hello 0 g) [
  | none ↦ unsent flaky 0 g
  | some s ↦ s
]

-- It went out, and the error of the first attempt is there.
retried_status : retried.result.status ≡ "sent"
unfolding send_with_retry split_by_max_len trim_space apply_degrade_policy allow_three_level
    check_level allow Dict.lookup ensure_bucket Dict.insert bucket_allow
retried_status = refl

retried_fails : retried.error ≡ some "timeout"
unfolding send_with_retry split_by_max_len trim_space apply_degrade_policy allow_three_level
    check_level allow Dict.lookup ensure_bucket Dict.insert bucket_allow
retried_fails = refl

send_with_retry_iff-GoesOut_example :
    (s : Sent) × (send_with_retry flaky "main" console hello 0 g ≡ some s)
    × ((s.error ≡ none)
        ↔ GoesOut flaky "main" console
            (degraded flaky console hello)
            (segments_of flaky console hello)
            0
            g.rate_limiter)
send_with_retry_iff-GoesOut_example = send_with_retry_iff-GoesOut flaky "main" console hello 0 g

abbrev alone : Gateway
alone = record g {
  config = record {
    default_target = "";
    fallback_targets = [];
    quiet_hours_start = "";
    quiet_hours_end = "";
  };
}

-- A provider that takes every message.
abbrev up : Outside
up = record down { provider_send = λ n name event. ok (record no_result { status = "sent" }) }

abbrev sent_once : SendOutcome
sent_once = elim (send up 1 0 "main" "discord:3" hello g) [
  | none ↦ record { result = no_result; error = none; next = 0; gateway = g }
  | some o ↦ o
]
