-- ===== src/Gateway/Routes/Examples.antt =====
-- Two rules for two platforms and one for all, and the rule that a message gets.
use xclaw.Prelude.{true, false, [], ◌∷◌, none, String, List}
use xclaw.Prelude.Int.{ℤ, pos}
use xclaw.Gateway.Routes.{InboundEvent, RouteMatch, RouteAction, RouteRule, match_route}
use xclaw.Gateway.Routes.First.{
  RouteChange, upsert, delete, change_routes, Chosen, match_route_highest,
}

abbrev match_platform : String → RouteMatch
match_platform platform = record {
  platform = platform;
  chat_id = "";
  thread_id = "";
  sender_id = "";
  event_type = "";
  content_prefix = "";
  regex = "";
  mention = "";
  metadata = [];
}

abbrev no_action : RouteAction
no_action = record {
  target_agent = "";
  target = "";
  target_session = "";
  strip_prefix = false;
  create_session = false;
  priority = "";
}

abbrev rule_for : String → ℤ → RouteRule
rule_for platform priority = record {
  name = platform;
  priority = priority;
  match = match_platform platform;
  action = no_action;
  enabled = true;
}

abbrev changes : List RouteChange
changes =
    upsert "r1" (rule_for "" (pos 5))
    ∷ upsert "r2" (rule_for "slack" (pos 7))
    ∷ upsert "r3" (rule_for "telegram" (pos 9))
    ∷ delete "telegram"
    ∷ []

abbrev from_slack : InboundEvent
from_slack = record {
  event_id = "e1";
  platform = "slack";
  protocol = "bridge";
  event_type = "message";
  sender_id = "u1";
  sender_name = "Ann";
  chat_id = "c1";
  thread_id = "";
  reply_to_id = "";
  mentions = [];
  text = "hello";
  attachments = [];
  metadata = [];
  occurred_at = 0;
  raw_payload = [];
}

match_route_highest_example :
    Chosen
      (λ e t. none)
      from_slack
      (change_routes changes [])
      (match_route (λ e t. none) (change_routes changes []) from_slack)
match_route_highest_example = match_route_highest (λ e t. none) changes from_slack
