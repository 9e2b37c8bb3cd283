-- ===== src/Gateway/Delivery.antt =====
-- Sending a message (cli/gateway/gateway.go): `sendWithRetry`. What happens in a call is
-- numbered, so that each reading of the clock and each answer of a provider has a number; a call takes
-- the number of its first event and returns the next. The context is not cancelled.
pub mod FirstTry
pub mod Refused
pub mod Total
pub mod GoesOut
use Prim.Native.Nat.{max}
use xclaw.Prelude.{
  ℕ, zero, suc, ◌+◌, ◌-◌, ◌/◌, Bool, true, false, List, [], ◌∷◌, Option, none, some, String, ◌<>◌,
  ◌==◌, if◌then◌else◌,
}
use xclaw.Prelude.Dict.{Dict}
use xclaw.Prelude.Result.{Result, ok, err}
use xclaw.Gateway.RateLimiter.{RateLimiter, Subject, allow_three_level}
use xclaw.Gateway.Reliability.{ReliabilityManager}
use xclaw.Gateway.Health.{Tracker, record_success, record_error}
use xclaw.Gateway.Stream.{CapabilityProfile}
use xclaw.Gateway.Events.{OutboundEvent, SendResult, no_result, Binding, Config, DlqItem, Provider}
use xclaw.Gateway.Segments.{apply_degrade_policy, split_by_max_len}
use xclaw.Gateway.Adapter.{ContentAdapter}

pub record Gateway : Type 0 where
  pub reliability : ReliabilityManager
  pub adapter : ContentAdapter
  pub health : Tracker
  pub rate_limiter : RateLimiter
  pub providers : Dict Provider
  pub bindings : Dict Binding
  pub config : Config
  pub last_targets : Dict String
  pub dlq : List DlqItem

-- The outside: the answers of the providers, the clock and the local minute of the day, new ids, the
-- reader of times of the day, and the positions of headings.
pub record Outside : Type 0 where
  pub provider_send : ℕ → String → OutboundEvent → Result String SendResult
  pub clock : ℕ → ℕ
  pub minute_of_day : ℕ → ℕ
  pub new_id : ℕ → String → String
  pub clock_minutes : String → Option ℕ
  pub headings : String → List ℕ

-- A result, an error where there is one, the next event, and what a sending changes of the gateway.
pub record Sent : Type 0 where
  pub result : SendResult
  pub error : Option String
  pub next : ℕ
  pub limiter : RateLimiter
  pub tracker : Tracker

module _ (out : Outside) where
  abbrev pub subject_of : String → CapabilityProfile → OutboundEvent → Subject
  subject_of agent_id caps event = record {
    platform = event.platform;
    platform_limit = caps.rate_limit_per_minute;
    tenant_id = agent_id;
    tenant_limit = max 30 (caps.rate_limit_per_minute / 2);
    session_key = event.platform <> ":" <> event.chat_id <> ":" <> event.thread_id;
    session_limit = max 12 (caps.rate_limit_per_minute / 4);
  }

  -- The six readings of the clock that the limiter makes.
  abbrev pub may_send :
      String → CapabilityProfile → OutboundEvent → Sent → Option Bool × RateLimiter
  may_send agent_id caps event s =
      allow_three_level (λ i. out.clock (i + s.next)) (subject_of agent_id caps event) s.limiter

  -- The limiter was asked and said no: the error is set, and a second passes.
  abbrev pub limited : RateLimiter → Sent → Sent
  limited limiter s = record s {
    error = some "rate limit exceeded";
    next = 6 + s.next;
    limiter = limiter;
  }

  abbrev pub latency_of : Sent → SendResult → ℕ
  latency_of s res =
      if res.latency_ms == 0
      then (out.clock (8 + s.next) - out.clock (6 + s.next)) / 1000000
      else res.latency_ms

  -- The provider took the message at attempt `attempt`. The error of an attempt before stays.
  abbrev pub accepted : Provider → ℕ → RateLimiter → SendResult → Sent → Sent
  accepted p attempt limiter res s =
      let latency = latency_of s res in
      record {
        result = record res { retry_count = attempt - 1; latency_ms = latency };
        error = s.error;
        next = 10 + s.next;
        limiter = limiter;
        tracker = record_success (out.clock (9 + s.next)) p.name latency s.tracker;
      }

  -- The provider refused; after the fifth attempt the tracker is told.
  abbrev pub turned_down : Provider → ℕ → RateLimiter → String → Sent → Sent
  turned_down p attempt limiter message s = record s {
    error = some message;
    next = 10 + s.next;
    limiter = limiter;
    tracker =
        if attempt == 5
        then record_error (out.clock (9 + s.next)) p.name
            ((out.clock (8 + s.next) - out.clock (6 + s.next)) / 1000000) s.tracker
        else s.tracker;
  }

  -- What an attempt leaves, and whether it was the last.
  abbrev pub told_by : Provider → ℕ → RateLimiter → Sent → Result String SendResult → Bool × Sent
  told_by p attempt limiter s (ok res) = (true, accepted p attempt limiter res s)
  told_by p attempt limiter s (err message) = (false, turned_down p attempt limiter message s)

  abbrev pub let_through :
      Provider → OutboundEvent → ℕ → Sent → Option Bool × RateLimiter → Option (Bool × Sent)
  let_through p piece attempt s (none, limiter) = none
  let_through p piece attempt s (some false, limiter) = some (false, limited limiter s)
  let_through p piece attempt s (some true, limiter) =
      some (told_by p attempt limiter s (out.provider_send (7 + s.next) p.name piece))

  -- The body of the loop. `none` is a panic of the limiter, which ends the program.
  unfoldable pub attempt_once : ℕ → String → Provider → OutboundEvent → Sent → Option (Bool × Sent)
  attempt_once attempt agent_id p piece s =
      let_through p piece attempt s (may_send agent_id p.capabilities piece s)

  -- The attempts that are left for a piece, of five.
  unfoldable pub try_piece : ℕ → String → Provider → OutboundEvent → Sent → Option Sent
  unfolding attempt_once
  try_piece zero agent_id p piece s = some s
  try_piece (suc left) agent_id p piece s = elim (attempt_once (5 - left) agent_id p piece s) [
    | none ↦ none
    | some step ↦ elim step.0 [
      | true ↦ some step.1
      | false ↦ try_piece left agent_id p piece step.1
    ]
  ]

  -- The loop over the segments ends at the first that leaves an error.
  unfoldable pub send_segments :
      String → Provider → OutboundEvent → List String → Sent → Option Sent
  unfolding try_piece
  send_segments agent_id p event [] s = some s
  send_segments agent_id p event (seg ∷ segments) s =
      elim (try_piece 5 agent_id p (record event { text_markdown = seg }) s) [
        | none ↦ none
        | some s' ↦ elim s'.error [
          | none ↦ send_segments agent_id p event segments s'
          | some message ↦ some s'
        ]
      ]

  abbrev pub or_blank : List String → List String
  or_blank [] = "" ∷ []
  or_blank (seg ∷ segments) = seg ∷ segments

  abbrev pub degraded : Provider → OutboundEvent → OutboundEvent
  degraded p event = apply_degrade_policy p.capabilities event

  abbrev pub segments_of : Provider → OutboundEvent → List String
  segments_of p event =
      or_blank (split_by_max_len p.capabilities.max_text_len (degraded p event).text_markdown)

  abbrev pub unsent : ℕ → Gateway → Sent
  unsent next g = record {
    result = no_result;
    error = none;
    next = next;
    limiter = g.rate_limiter;
    tracker = g.health;
  }

  unfoldable pub send_with_retry : String → Provider → OutboundEvent → ℕ → Gateway → Option Sent
  unfolding send_segments
  send_with_retry agent_id p event next g =
      send_segments agent_id p (degraded p event) (segments_of p event) (unsent next g)
