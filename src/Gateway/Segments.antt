-- ===== src/Gateway/Segments.antt =====
-- What a provider cannot show: `applyDegradePolicy` and `splitByMaxLen` of cli/gateway/gateway.go. A
-- character that stands across a cut is not divided.
use Prim.Native.Char.{code}
use Prim.Native.String.{len, slice}
use xclaw.Prelude.{
  ℕ, zero, suc, ◌+◌, ◌/◌, Bool, true, false, ◌&&◌, not, List, [], ◌∷◌, Option, none, some, String,
  str_eq, trim_space, ◌<>◌, ltb, ◌==◌, if◌then◌else◌,
}
use xclaw.Gateway.Stream.{CapabilityProfile}
use xclaw.Gateway.Events.{Action, OutboundEvent}

abbrev is_nil {ℓ} : {A : Type ℓ} → List A → Bool
is_nil [] = true
is_nil (x ∷ xs) = false

-- The line of an action in the text; one without a name has none.
unfoldable pub action_line : Action → String
action_line action =
    let label = trim_space action.label in
    let name = if str_eq label "" then trim_space action.value else label in
    let url = trim_space action.url in
    if str_eq name ""
    then ""
    else if str_eq url ""
    then "- " <> name <> "\n"
    else "- " <> name <> " (" <> url <> ")\n"

unfoldable pub action_lines : List Action → String
unfolding action_line
action_lines [] = ""
action_lines (action ∷ actions) = action_line action <> action_lines actions

-- The text with the actions in words.
abbrev spoken_actions : OutboundEvent → String
spoken_actions event =
    let text = trim_space event.text_markdown in
    let head = if str_eq text "" then "" else text <> "\n\n" in
    trim_space (head <> "可用操作：\n" <> action_lines event.actions)

unfoldable pub apply_degrade_policy : CapabilityProfile → OutboundEvent → OutboundEvent
unfolding action_lines
apply_degrade_policy caps event =
    let spoken = not caps.supports_buttons && not (is_nil event.actions) in
    record event {
      text_markdown = if spoken then spoken_actions event else event.text_markdown;
      actions = if spoken then [] else event.actions;
      thread_id = if caps.supports_threads then event.thread_id else "";
    }

-- strings.LastIndex(text[:max], "\n"): the last newline before `max`; `at` is the position of the text
-- that is left, and `best` the last newline before that.
unfoldable pub last_newline : ℕ → ℕ → Option ℕ → String → Option ℕ
last_newline max at best String.[] = best
last_newline max at best (String.◌∷◌ c s) =
    let here = if code c == 10 && ltb at max then some at else best in
    last_newline max (at + len (String.◌∷◌ c "")) here s

-- A newline in the first half does not count.
abbrev cut_at : ℕ → Option ℕ → ℕ
cut_at max none = max
cut_at max (some i) = if ltb i (max / 2) then max else i

-- The loop takes a byte at least off the text, so the text's length is enough fuel.
unfoldable pub split_loop : ℕ → ℕ → String → List String
unfolding last_newline
split_loop zero max text = text ∷ []
split_loop (suc fuel) max text =
    let cut = cut_at max (last_newline max 0 none text) in
    let rest = split_loop fuel max (trim_space (slice text cut (len text))) in
    if ltb max (len text)
    then trim_space (slice text 0 cut) ∷ rest
    else if str_eq text ""
    then []
    else text ∷ []

unfoldable pub split_by_max_len : ℕ → String → List String
unfolding split_loop
split_by_max_len max raw =
    let text = trim_space raw in
    if str_eq text "" then [] else if max == 0 then text ∷ [] else split_loop (len text) max text
