-- ===== src/Gateway/Inbound.antt =====
-- What comes in (cli/gateway/gateway.go): `ReceiveInbound`. The callbacks and the handler are
-- parameters; `callback` says whether it handled the event. The first reading of the clock looks for
-- the event's id, the second stands in for a time that is missing.
use xclaw.Prelude.{
  ℕ, Bool, true, false, ◌&&◌, ◌||◌, not, List, Option, none, some, String, str_eq, to_lower,
  trim_space, ◌==◌, if◌then◌else◌,
}
use xclaw.Prelude.Dict
use xclaw.Prelude.Dict.{Dict}
use xclaw.Gateway.Reliability.{ReliabilityManager, seen_inbound}
use xclaw.Gateway.Events.{join_target}
use xclaw.Gateway.Targets.{value_at, set_last_target}
use xclaw.Gateway.Delivery.{Gateway}
use xclaw.Gateway.Routes.{InboundEvent, RouteRule, match_route}

abbrev if_set : String → String → Dict String → Dict String
if_set key raw metadata =
    let v = trim_space raw in if str_eq v "" then metadata else Dict.insert key v metadata

abbrev if_true : String → Bool → Dict String → Dict String
if_true key false metadata = metadata
if_true key true metadata = Dict.insert key "true" metadata

abbrev stripped : RouteRule → Dict String → Dict String
stripped rule metadata =
    if rule.action.strip_prefix
    then if_set "route_content_prefix" rule.match.content_prefix
        (Dict.insert "route_strip_prefix" "true" metadata)
    else metadata

-- What the rule writes into the event's metadata, in this order.
unfoldable pub routed_metadata : Option RouteRule → Dict String → Dict String
routed_metadata none metadata = metadata
routed_metadata (some rule) metadata =
    let a = rule.action in
    if_set "route_priority" a.priority (
      if_true "route_create_session" a.create_session (
        stripped rule (
          if_set "target" a.target (
            if_set "target_session" a.target_session
              (if_set "target_agent" a.target_agent metadata)))))

unfoldable pub normal_event : ℕ → InboundEvent → InboundEvent
normal_event now event = record event {
  platform = trim_space (to_lower event.platform);
  event_id = trim_space event.event_id;
  occurred_at = if event.occurred_at == 0 then now else event.occurred_at;
}

abbrev has_callback : Dict String → Bool
has_callback metadata =
    not (str_eq (trim_space (value_at "callback_type" metadata)) "")
    || not (str_eq (trim_space (value_at "callback_action_id" metadata)) "")

abbrev looked_for : ℕ → InboundEvent → ReliabilityManager → Bool × ReliabilityManager
looked_for now event r =
    if str_eq event.platform "" || str_eq event.event_id ""
    then (false, r)
    else seen_inbound now event.platform event.event_id r

abbrev given_to : Option (InboundEvent → Option String) → InboundEvent → Option String
given_to none event = none
given_to (some handle) event = handle event

module _ (regexp_match : String → String → Option Bool) (callback : InboundEvent → Bool)
    (handler : Option (InboundEvent → Option String)) (rules : List RouteRule) where
  abbrev routed_event : InboundEvent → InboundEvent
  routed_event event = record event {
    metadata = routed_metadata (match_route regexp_match rules event) event.metadata;
  }

  abbrev handled : InboundEvent → Option String
  handled event =
      if has_callback event.metadata && callback event then none else given_to handler event

  abbrev unless_repeated :
      InboundEvent → Gateway → Bool × ReliabilityManager → Option String × Gateway
  unless_repeated event g (true, r) = (none, record g { reliability = r })
  unless_repeated event g (false, r) = (
    handled (routed_event event),
    record g {
      reliability = r;
      last_targets =
          set_last_target (value_at "agent_id" event.metadata)
            (join_target event.platform event.chat_id event.thread_id) g.last_targets;
    },
  )

  -- The error of the handler, and the gateway after the event.
  unfoldable pub receive_inbound : ℕ → ℕ → InboundEvent → Gateway → Option String × Gateway
  unfolding routed_metadata normal_event
  receive_inbound looked now raw g =
      let event = normal_event now raw in
      unless_repeated event g (looked_for looked event g.reliability)
