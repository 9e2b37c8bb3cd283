-- ===== src/Gateway/Targets.antt =====
-- Where a message goes, and when (cli/gateway/gateway.go): `resolveTarget`, `getProvider`,
-- `setLastTarget` and `inQuietHours`. A time of the day is read by the parameter `clock_minutes`, in
-- minutes, and so is the local time of a reading of the clock.
use Prim.Native.String.{len, slice}
use xclaw.Prelude.{
  ℕ, Bool, false, ◌&&◌, ◌||◌, List, [], ◌∷◌, Option, none, some, String, str_eq, has_prefix,
  to_lower, trim_space, leb, ltb, ◌==◌, if◌then◌else◌,
}
use xclaw.Prelude.Dict
use xclaw.Prelude.Dict.{Dict}
use xclaw.Prelude.Parse.{split}
use xclaw.Prelude.Result.{Result, ok, err}
use xclaw.Approval.Lists.{first_non_empty}
use xclaw.Gateway.Events.{OutboundEvent, Binding, Config, Provider}

pub record ResolvedTarget : Type 0 where
  pub raw_target : String
  pub platform : String
  pub chat_id : String
  pub thread_id : String

abbrev pub value_at : String → Dict String → String
value_at key m = elim (Dict.lookup key m) [ none ↦ "" | some v ↦ v ]

-- The target that the agent, or anyone, was last in touch with.
abbrev last_target : Dict String → String → String
last_target last_targets agent_id =
    let own = value_at (trim_space agent_id) last_targets in
    if str_eq own "" then value_at "*" last_targets else own

abbrev or_text : String → String → String
or_text s d = if str_eq s "" then d else s

-- The target with its defaults.
unfoldable pub named_target : Config → Dict String → String → String → OutboundEvent → String
named_target cfg last_targets agent_id raw event =
    let target =
      or_text (or_text (or_text (trim_space raw) (trim_space event.target)) cfg.default_target)
        "last" in
    if str_eq target "last" then or_text (last_target last_targets agent_id) target else target

abbrev part_at : List String → String
part_at [] = ""
part_at (p ∷ parts) = trim_space p

-- A target in parts: platform, chat and thread. `none` where it has no platform or no chat.
unfoldable pub target_parts : String → List String → Option ResolvedTarget
target_parts target [] = none
target_parts target (p ∷ []) = none
target_parts target (p ∷ c ∷ parts) =
    let platform = to_lower (trim_space p) in
    let chat_id = trim_space c in
    if str_eq platform "" || str_eq chat_id ""
    then none
    else some (record {
      raw_target = target;
      platform = platform;
      chat_id = chat_id;
      thread_id = part_at parts;
    })

abbrev pub event_target : String → OutboundEvent → ResolvedTarget
event_target target event = record {
  raw_target = target;
  platform = first_non_empty (event.platform ∷ "console" ∷ []);
  chat_id = first_non_empty (event.chat_id ∷ "default" ∷ []);
  thread_id = trim_space event.thread_id;
}

abbrev pub bound_target : String → Option Binding → Result String ResolvedTarget
bound_target target none = err "binding not found"
bound_target target (some b) = ok (record {
  raw_target = target;
  platform = b.platform;
  chat_id = b.chat_id;
  thread_id = b.thread_id;
})

unfoldable pub resolve_target :
    Config
    → Dict Binding
    → Dict String
    → String
    → String
    → OutboundEvent
    → Result String ResolvedTarget
unfolding named_target target_parts
resolve_target cfg bindings last_targets agent_id raw event =
    let target = named_target cfg last_targets agent_id raw event in
    if has_prefix target "binding:"
    then bound_target target (Dict.lookup (trim_space (slice target 8 (len target))) bindings)
    else elim (target_parts target (split 58 target)) [
      | none ↦ ok (event_target target event)
      | some resolved ↦ ok resolved
    ]

-- The webhook provider stands in for a platform without one, the console provider after it.
unfoldable pub get_provider : String → Dict Provider → Option Provider
get_provider raw providers =
    let platform = to_lower (trim_space raw) in
    let console = Dict.lookup "console" providers in
    elim (Dict.lookup platform providers) [
      | some p ↦ some p
      | none ↦
          if str_eq platform "console"
          then console
          else elim (Dict.lookup "webhook" providers) [ some p ↦ some p | none ↦ console ]
    ]

unfoldable pub set_last_target : String → String → Dict String → Dict String
set_last_target agent_id raw last_targets =
    let target = trim_space raw in
    let agent = trim_space agent_id in
    let own = if str_eq agent "" then last_targets else Dict.insert agent target last_targets in
    if str_eq target "" then last_targets else Dict.insert "*" target own

abbrev between : ℕ → Option ℕ → Option ℕ → Bool
between current none _ = false
between current (some start) none = false
between current (some start) (some end) =
    if start == end
    then false
    else if ltb start end
    then leb start current && ltb current end
    else leb start current || ltb current end

unfoldable pub in_quiet_hours : (String → Option ℕ) → ℕ → Config → Bool
in_quiet_hours clock_minutes current cfg =
    let start = trim_space cfg.quiet_hours_start in
    let end = trim_space cfg.quiet_hours_end in
    if str_eq start "" || str_eq end ""
    then false
    else between current (clock_minutes start) (clock_minutes end)
