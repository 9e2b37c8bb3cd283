-- ===== src/Gateway/Send.antt =====
-- Sending a message (cli/gateway/gateway.go): `Send`, with the fallback targets, and `pushDLQ`. The
-- lane's queue runs the sending of a message; what is saved and logged on the way is not modelled.
-- `Send` calls itself for a fallback target: `fuel` bounds how deep, and `none` is a run that goes
-- deeper, or a panic. An error's text is given without the names that the code adds to it.
pub mod Checks
pub mod Marks
pub mod Verdict
pub mod Endless
pub mod Accounts
mod Examples
use xclaw.Prelude.{
  ℕ, zero, suc, ◌+◌, ◌-◌, Bool, false, ◌&&◌, ◌||◌, not, List, [], ◌∷◌, ◌++◌, length, drop, Option,
  none, some, String, str_eq, to_lower, trim_space, ◌<>◌, if◌then◌else◌,
}
use xclaw.Prelude.Result.{Result, ok, err}
use xclaw.Approval.Lists.{first_non_empty}
use xclaw.Gateway.Reliability.{ReliabilityManager, seen_outbound, mark_outbound}
use xclaw.Gateway.Events.{OutboundEvent, SendResult, no_result, DlqItem, Provider, join_target}
use xclaw.Gateway.Adapter.{adapt_content}
use xclaw.Gateway.Targets.{
  ResolvedTarget, resolve_target, get_provider, set_last_target, in_quiet_hours,
}
use xclaw.Gateway.Delivery.{Gateway, Outside, Sent, send_with_retry}

-- What `Send` answers, the next event, and the gateway after it.
pub record SendOutcome : Type 0 where
  pub result : SendResult
  pub error : Option String
  pub next : ℕ
  pub gateway : Gateway

-- The checks answer, or they find where the message goes and the provider that takes it.
pub data Prepared : Type 0 where
  answer : SendOutcome → Prepared
  deliver : ResolvedTarget → Provider → OutboundEvent → ℕ → Gateway → Prepared

abbrev pub is_blank : String → Bool
is_blank s = str_eq (trim_space s) ""

unfoldable pub named_event : String → OutboundEvent → OutboundEvent
named_event fresh event =
    let id = if is_blank event.message_id then fresh else event.message_id in
    record event {
      message_id = id;
      idempotency_key =
          if is_blank event.idempotency_key && not (is_blank id)
          then "msg:" <> trim_space id
          else event.idempotency_key;
    }

abbrev pub is_urgent : OutboundEvent → Bool
is_urgent event =
    let p = to_lower (trim_space event.priority) in str_eq p "high" || str_eq p "critical"

abbrev pub addressed : ResolvedTarget → OutboundEvent → OutboundEvent
addressed resolved event = record event {
  platform = resolved.platform;
  chat_id = resolved.chat_id;
  thread_id = resolved.thread_id;
}

abbrev status_only : String → SendResult
status_only status = record no_result { status = status }

abbrev pub kept_last : ℕ → List DlqItem → List DlqItem
kept_last n items = drop (length items - n) items

module _ (out : Outside) where
  -- An item for an error: the last 2000 stay.
  unfoldable pub push_dlq : ℕ → String → String → OutboundEvent → Option String → Gateway → Gateway
  push_dlq next agent_id target event none g = g
  push_dlq next agent_id target event (some message) g = record g {
    dlq = kept_last 2000 (
        g.dlq
        ++ (record {
          id = out.new_id next "dlq";
          agent_id = trim_space agent_id;
          target = trim_space target;
          event = event;
          error = message;
          retry_count = 5;
          created_at = out.clock (1 + next);
        }
            ∷ []));
  }

  -- The provider of the platform, or the console; the content is adapted to what it can do. The other
  -- pieces of a long text are dropped.
  abbrev pub with_provider :
      ResolvedTarget → OutboundEvent → ℕ → Gateway → Option Provider → Prepared
  with_provider resolved event next g none =
      answer (record { result = no_result; error = some "no provider"; next = next; gateway = g })
  with_provider resolved event next g (some p) =
      let (adapted, adapter) = adapt_content out.headings event p.capabilities g.adapter in
      deliver resolved p adapted next (record g { adapter = adapter })

  abbrev pub or_console : Gateway → Option Provider → Option Provider
  or_console g none = get_provider "console" g.providers
  or_console g (some p) = some p

  -- Quiet hours hold back what is not urgent.
  abbrev pub on_target : OutboundEvent → ℕ → Gateway → Result String ResolvedTarget → Prepared
  on_target event next g (err message) =
      answer (record { result = no_result; error = some message; next = next; gateway = g })
  on_target event next g (ok resolved) =
      if in_quiet_hours out.clock_minutes (out.minute_of_day next) g.config && not (is_urgent event)
      then answer (record {
        result = status_only "deferred_quiet_hours";
        error = none;
        next = 1 + next;
        gateway = g;
      })
      else with_provider resolved (addressed resolved event) (1 + next) g
          (or_console g (get_provider resolved.platform g.providers))

  abbrev pub unless_seen :
      String → String → OutboundEvent → ℕ → Gateway → Bool × ReliabilityManager → Prepared
  unless_seen agent_id target event next g (seen, reliability) =
      let g' = record g { reliability = reliability } in
      if seen
      then answer (record {
        result = status_only "idempotent_skip";
        error = none;
        next = next;
        gateway = g';
      })
      else on_target event next g' (
          resolve_target g.config g.bindings g.last_targets agent_id
            (first_non_empty (trim_space target ∷ trim_space event.target ∷ [])) event)

  abbrev pub looked_at : ℕ → OutboundEvent → Gateway → Bool × ReliabilityManager
  looked_at next event g =
      if is_blank event.idempotency_key
      then (false, g.reliability)
      else seen_outbound (out.clock next) event.idempotency_key g.reliability

  -- What stands before the sending: the id and the key, the message that was sent before, the target,
  -- the quiet hours and the provider.
  unfoldable pub prepare : ℕ → String → String → OutboundEvent → Gateway → Prepared
  unfolding named_event
  prepare next agent_id target event g =
      let event' = named_event (out.new_id next "gw") event in
      unless_seen agent_id target event' (2 + next) g (looked_at (1 + next) event' g)

  -- A message that went out is marked, and its target is the last.
  abbrev pub marked : String → OutboundEvent → ℕ → Gateway → Gateway
  marked agent_id event next g = record g {
    reliability =
        if is_blank event.idempotency_key
        then g.reliability
        else mark_outbound (out.clock next) event.idempotency_key g.reliability;
    last_targets =
        set_last_target agent_id (join_target event.platform event.chat_id event.thread_id)
          g.last_targets;
  }

  abbrev pub with_sent : Gateway → Sent → Gateway
  with_sent g s = record g { rate_limiter = s.limiter; health = s.tracker }

  -- The fallback targets in order, each sent to by `again`; the first that takes the message answers.
  -- Where none does, the message is kept with the undelivered.
  unfoldable pub fall_back :
      (ℕ → String → OutboundEvent → Gateway → Option SendOutcome)
      → String
      → String
      → OutboundEvent
      → SendResult
      → Option String
      → List String
      → ℕ
      → Gateway
      → Option SendOutcome
  unfolding push_dlq
  fall_back again agent_id raw_target event result error [] next g = some (record {
    result = result;
    error = error;
    next = 2 + next;
    gateway = push_dlq next agent_id raw_target event error g;
  })
  fall_back again agent_id raw_target event result error (target ∷ targets) next g =
      let fb = trim_space target in
      if str_eq fb "" || str_eq fb raw_target
      then fall_back again agent_id raw_target event result error targets next g
      else elim (again next fb (record event { target = fb }) g) [
        | none ↦ none
        | some reply ↦ elim reply.error [
          | none ↦ some reply
          | some message ↦
              fall_back again agent_id raw_target event result error targets reply.next
                reply.gateway
        ]
      ]

  unfoldable pub concluded :
      (ℕ → String → OutboundEvent → Gateway → Option SendOutcome)
      → String
      → ResolvedTarget
      → OutboundEvent
      → Gateway
      → Sent
      → Option String
      → Option SendOutcome
  unfolding fall_back
  concluded again agent_id resolved event g s none = some (record {
    result = s.result;
    error = none;
    next = 1 + s.next;
    gateway = marked agent_id event s.next (with_sent g s);
  })
  concluded again agent_id resolved event g s (some message) =
      fall_back again agent_id resolved.raw_target event s.result (some message)
        g.config.fallback_targets s.next (with_sent g s)

  unfoldable pub delivered :
      (ℕ → String → OutboundEvent → Gateway → Option SendOutcome)
      → String
      → Prepared
      → Option SendOutcome
  unfolding concluded
  delivered again agent_id (answer reply) = some reply
  delivered again agent_id (deliver resolved p event next g) =
      elim (send_with_retry out agent_id p event next g) [
        | none ↦ none
        | some s ↦ concluded again agent_id resolved event g s s.error
      ]

  unfoldable pub send : ℕ → ℕ → String → String → OutboundEvent → Gateway → Option SendOutcome
  unfolding prepare delivered
  send zero next agent_id target event g = none
  send (suc fuel) next agent_id target event g =
      delivered (λ next' fb event' g'. send fuel next' agent_id fb event' g') agent_id
        (prepare next agent_id target event g)
