-- ===== src/Gateway/Adapter.antt =====
-- Fitting a message to what a platform can show: cli/gateway/content_adapter.go. `headings` is the
-- regular expression for headings: the positions at which it matches, in order. A character that stands
-- across a cut is not divided.
use Prim.Native.Char.{code}
use Prim.Native.String.{len, slice}
use xclaw.Prelude.{
  ℕ, zero, suc, ◌+◌, ◌-◌, Bool, true, false, ◌&&◌, ◌||◌, not, List, [], ◌∷◌, length, Option, none,
  some, String, str_eq, trim_space, show_decimal, ◌<>◌, leb, ltb, ◌==◌, if◌then◌else◌,
}
use xclaw.Prelude.Parse.{split, put_first}
use xclaw.Gateway.Stream.{CapabilityProfile}
use xclaw.Gateway.Events.{Action, OutboundEvent}

pub record ContentAdapter : Type 0 where
  pub max_text_len : ℕ
  pub max_button_len : ℕ

abbrev pub new_content_adapter : ContentAdapter
new_content_adapter = record { max_text_len = 16000; max_button_len = 200 }

pub record ContentFragment : Type 0 where
  pub index : ℕ
  pub content : String
  pub total : ℕ

-- A section joins the last fragment where it fits and may.
unfoldable pub join_last : ℕ → Bool → List String → String → List String
join_last max may [] section = section ∷ []
join_last max may (f ∷ []) section =
    if may && leb (len f + len section) max then (f <> section) ∷ [] else f ∷ section ∷ []
join_last max may (f ∷ g ∷ fragments) section = f ∷ join_last max may (g ∷ fragments) section

-- Whether the text joined the last fragment: there are no more than before.
abbrev fits_last : ℕ → List String → String → Bool
fits_last max [] text = false
fits_last max (f ∷ []) text = leb (len f + len text) max
fits_last max (f ∷ g ∷ fragments) text = fits_last max (g ∷ fragments) text

abbrev several : List String → Option (List String)
several [] = none
several (f ∷ []) = none
several (f ∷ g ∷ fragments) = some (f ∷ g ∷ fragments)

-- The loop over the headings behind the first; `start` is where the section begins.
unfoldable pub sections_loop : ℕ → String → ℕ → List String → List ℕ → Option (List String)
unfolding join_last
sections_loop max text start fragments [] =
    let remaining = slice text start (len text) in
    if not (ltb start (len text))
    then several fragments
    else if fits_last max fragments remaining || leb (len remaining) max
    then several (join_last max true fragments remaining)
    else none
sections_loop max text start fragments (end ∷ ends) =
    let section = slice text start end in
    let next = sections_loop max text end (join_last max (ltb 0 start) fragments section) ends in
    if ltb max (len section) then none else next

unfoldable pub split_by_sections : ℕ → String → List ℕ → Option (List String)
unfolding sections_loop
split_by_sections max text [] = none
split_by_sections max text (first ∷ []) = none
split_by_sections max text (first ∷ second ∷ ends) = sections_loop max text 0 [] (second ∷ ends)

-- strings.Split at a blank line.
unfoldable pub split_paragraphs : String → List String
unfolding put_first
split_paragraphs String.[] = "" ∷ []
split_paragraphs (String.◌∷◌ c String.[]) = String.◌∷◌ c "" ∷ []
split_paragraphs (String.◌∷◌ c (String.◌∷◌ d s)) =
    let behind = split_paragraphs s in
    let rest = split_paragraphs (String.◌∷◌ d s) in
    if code c == 10 && code d == 10 then "" ∷ behind else put_first c rest

-- The loop over the pieces of a text; `current` is the fragment that is being made.
unfoldable pub group : String → ℕ → List String → String → List String
group sep max [] current = if str_eq current "" then [] else current ∷ []
group sep max (p ∷ pieces) current =
    let apart = group sep max pieces p in
    let joined = group sep max pieces (current <> sep <> p) in
    if str_eq current ""
    then apart
    else if ltb max (len current + len sep + len p)
    then current ∷ apart
    else joined

unfoldable pub split_by_paragraphs : ℕ → String → Option (List String)
unfolding group split_paragraphs
split_by_paragraphs max text = several (group "\n\n" max (split_paragraphs text) "")

unfoldable pub split_by_lines : ℕ → String → Option (List String)
unfolding group
split_by_lines max text = several (group "\n" max (split 10 text) "")

-- The loop moves by `max`, a byte at least, so the text's length is enough fuel.
unfoldable pub hard_loop : ℕ → ℕ → String → List String
hard_loop zero max text = []
hard_loop (suc fuel) max text =
    let rest = hard_loop fuel max (slice text max (len text)) in
    if str_eq text "" then [] else slice text 0 max ∷ rest

unfoldable pub split_hard : ℕ → String → List String
unfolding hard_loop
split_hard max text = hard_loop (len text) max text

abbrev or_split : Option (List String) → List String → List String
or_split none fragments = fragments
or_split (some fragments) _ = fragments

abbrev or_option : Option (List String) → Option (List String) → Option (List String)
or_option none o = o
or_option (some fragments) o = some fragments

unfoldable pub numbered : ℕ → ℕ → List String → List ContentFragment
numbered i total [] = []
numbered i total (f ∷ fragments) =
    record { index = i; content = f; total = total } ∷ numbered (suc i) total fragments

unfoldable pub adapt_actions : ContentAdapter → List Action → CapabilityProfile → List Action
adapt_actions a [] cap = []
adapt_actions a (act ∷ actions) cap =
    let label =
      if ltb a.max_button_len (len act.label)
      then slice act.label 0 (a.max_button_len - 3) <> "..."
      else act.label in
    let rest = adapt_actions a actions cap in
    if not cap.supports_buttons
    then []
    else record { label = label; value = act.value; url = act.url } ∷ rest

abbrev first_content : List ContentFragment → String
first_content [] = ""
first_content (f ∷ fragments) = f.content

module _ (headings : String → List ℕ) where
  unfoldable pub fragment : ContentAdapter → String → List ContentFragment
  unfolding split_by_sections split_by_paragraphs split_by_lines split_hard numbered
  fragment a raw =
      let text = trim_space raw in
      let max = a.max_text_len in
      let fragments =
        or_split
          (or_option (split_by_sections max text (headings text))
            (or_option (split_by_paragraphs max text) (split_by_lines max text)))
          (split_hard max text) in
      if str_eq text "" || leb (len text) max
      then numbered 0 1 (text ∷ [])
      else numbered 0 (length fragments) fragments

  -- A platform's bound stays the adapter's for the calls that follow.
  unfoldable pub adapt :
      String
      → List Action
      → CapabilityProfile
      → ContentAdapter
      → (String × List Action × List ContentFragment) × ContentAdapter
  unfolding fragment adapt_actions
  adapt text actions cap a =
      let a' = record a {
        max_text_len = if ltb 0 cap.max_text_len then cap.max_text_len else a.max_text_len;
      } in
      let fragments = fragment a' text in
      let n = length fragments in
      let note = if ltb 1 n then "\n\n[共 " <> show_decimal n <> " 片段，当前第 1 片段]" else "" in
      ((first_content fragments <> note, adapt_actions a' actions cap, fragments), a')

  -- AdaptContent of the gateway, which keeps the text with the note.
  unfoldable pub adapt_content :
      OutboundEvent → CapabilityProfile → ContentAdapter → OutboundEvent × ContentAdapter
  unfolding adapt
  adapt_content event cap a =
      let (adapted, a') = adapt event.text_markdown event.actions cap a in
      (record event { text_markdown = adapted.0; actions = adapted.1 }, a')
