-- ===== src/Gateway/Routes.antt =====
-- The rules for what comes in (cli/gateway/gateway.go, types.go): `UpsertRoute`, `DeleteRoute`,
-- `matchRoute` and `routeMatches`. `regexp_match` is the package `regexp`, `none` where an expression
-- does not compile. The rules are sorted as sort.Slice sorts up to twelve, in place.
pub mod First
mod Examples
use xclaw.Prelude.{
  ℕ, zero, Bool, true, false, ◌&&◌, ◌||◌, not, List, [], ◌∷◌, Option, none, some, String, str_eq,
  has_prefix, to_lower, trim_space, ltb, if◌then◌else◌,
}
use xclaw.Prelude.Dict
use xclaw.Prelude.Dict.{Dict}
use xclaw.Prelude.Int.{ℤ, pos, negsuc}
use xclaw.Prelude.Result.{Result, ok, err}
use xclaw.Gateway.Events.{Attachment}
use xclaw.Gateway.Targets.{value_at}

pub record InboundEvent : Type 0 where
  pub event_id : String
  pub platform : String
  pub protocol : String
  pub event_type : String
  pub sender_id : String
  pub sender_name : String
  pub chat_id : String
  pub thread_id : String
  pub reply_to_id : String
  pub mentions : List String
  pub text : String
  pub attachments : List Attachment
  pub metadata : Dict String
  pub occurred_at : ℕ
  pub raw_payload : List ℕ

pub record RouteMatch : Type 0 where
  pub platform : String
  pub chat_id : String
  pub thread_id : String
  pub sender_id : String
  pub event_type : String
  pub content_prefix : String
  pub regex : String
  pub mention : String
  pub metadata : Dict String

pub record RouteAction : Type 0 where
  pub target_agent : String
  pub target : String
  pub target_session : String
  pub strip_prefix : Bool
  pub create_session : Bool
  pub priority : String

pub record RouteRule : Type 0 where
  pub name : String
  pub priority : ℤ
  pub match : RouteMatch
  pub action : RouteAction
  pub enabled : Bool

abbrev pub higher : ℤ → ℤ → Bool
higher (pos a) (pos b) = ltb b a
higher (pos a) (negsuc b) = true
higher (negsuc a) (pos b) = false
higher (negsuc a) (negsuc b) = ltb a b

-- A condition that is blank holds.
abbrev same_text : String → String → Bool
same_text wanted text = str_eq wanted "" || str_eq wanted text

abbrev mentioned : String → List String → Bool
mentioned wanted [] = false
mentioned wanted (m ∷ mentions) = str_eq (trim_space m) wanted || mentioned wanted mentions

-- A key that the event lacks stands for the empty text.
abbrev metadata_hold : Dict String → Dict String → Bool
metadata_hold [] metadata = true
metadata_hold ((k, want) ∷ wanted) metadata =
    (str_eq (trim_space want) "" || str_eq (value_at k metadata) want)
    && metadata_hold wanted metadata

abbrev found_in : Option Bool → Bool
found_in none = false
found_in (some found) = found

module _ (regexp_match : String → String → Option Bool) where
  unfoldable pub route_matches : RouteMatch → InboundEvent → Bool
  route_matches m event =
      let prefix = trim_space m.content_prefix in
      let mention = trim_space m.mention in
      let regex = trim_space m.regex in
      same_text (trim_space (to_lower m.platform)) (to_lower (trim_space event.platform))
      && same_text (trim_space m.chat_id) (trim_space event.chat_id)
      && same_text (trim_space m.thread_id) (trim_space event.thread_id)
      && same_text (trim_space m.sender_id) (trim_space event.sender_id)
      && same_text (trim_space m.event_type) (trim_space event.event_type)
      && (str_eq prefix "" || has_prefix (trim_space event.text) prefix)
      && (str_eq mention "" || mentioned mention event.mentions)
      && (str_eq regex "" || found_in (regexp_match regex event.text))
      && metadata_hold m.metadata event.metadata

  abbrev pub applies : InboundEvent → RouteRule → Bool
  applies event rule = rule.enabled && route_matches rule.match event

  unfoldable pub match_route : List RouteRule → InboundEvent → Option RouteRule
  match_route [] event = none
  match_route (rule ∷ rules) event =
      let later = match_route rules event in if applies event rule then some rule else later

-- The first rule of the name is replaced, or the new rule comes last.
unfoldable pub put_route : RouteRule → List RouteRule → List RouteRule
put_route route [] = route ∷ []
put_route route (r ∷ rules) =
    let rest = put_route route rules in if str_eq r.name route.name then route ∷ rules else r ∷ rest

unfoldable pub insert_route : RouteRule → List RouteRule → List RouteRule
insert_route r [] = r ∷ []
insert_route r (q ∷ rules) =
    let rest = insert_route r rules in
    if higher q.priority r.priority then q ∷ rest else r ∷ q ∷ rules

unfoldable pub highest_first : List RouteRule → List RouteRule
unfolding insert_route
highest_first [] = []
highest_first (r ∷ rules) = insert_route r (highest_first rules)

abbrev or_hundred : ℤ → ℤ
or_hundred (pos zero) = pos 100
or_hundred p = p

-- `fresh` is the new id of a rule without a name.
unfoldable pub upsert_route : String → RouteRule → List RouteRule → List RouteRule
unfolding put_route highest_first
upsert_route fresh route rules =
    let name = trim_space route.name in
    let m = route.match in
    highest_first (
      put_route
        (record route {
          name = if str_eq name "" then fresh else name;
          priority = or_hundred route.priority;
          match = record m { platform = to_lower (trim_space m.platform) };
        })
        rules)

unfoldable pub without_route : String → List RouteRule → List RouteRule
without_route name [] = []
without_route name (r ∷ rules) =
    let rest = without_route name rules in if str_eq r.name name then rest else r ∷ rest

unfoldable pub delete_route : String → List RouteRule → Result String (List RouteRule)
unfolding without_route
delete_route raw rules =
    let name = trim_space raw in
    if str_eq name "" then err "route name required" else ok (without_route name rules)
