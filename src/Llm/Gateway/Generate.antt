-- ===== src/Llm/Gateway/Generate.antt =====
-- Generate of the gateway to the language models, with the cache and the summary of a long prompt
-- (`Generate`, `compressPrompt` and `summarizePrompt` of cli/llm/gateway.go). The events of a run, the
-- readings of the clock and the requests, have numbers: an operation takes the number of its first
-- event and returns the next. A summary is made by Generate, which may make one again: `fuel` bounds
-- how often, and `none` is a run that needs more.
use Prim.Native.String.{len}
use xclaw.Prelude.{
  ℕ, zero, suc, ◌/◌, ◌-◌, ◌||◌, not, List, [], ◌∷◌, length, Option, none, some, String, str_eq,
  ◌<>◌, leb, ltb, if◌then◌else◌,
}
use xclaw.Prelude.Parse.{join}
use xclaw.Prelude.Dict.{Dict}
use xclaw.Llm.Gateway.{LocalGateway, ProviderConfig, count_tokens, route, get_cached, put_cached}
use xclaw.Llm.Gateway.Prompt.{lines, middle_lines, summary_prompt, with_summary, compact, is_long}
use xclaw.Llm.Gateway.Ask.{Outside, Reply, ok, err, ask}

-- What is computed, the next event, and the gateway that is left.
abbrev pub Outcome : Type 0 → Type 0
Outcome A = A × ℕ × LocalGateway

-- Whether summarizePrompt asks for a summary, whom it asks, and of what.
unfoldable pub wants_summary : Dict ProviderConfig → List String → Option (String × List String)
wants_summary [] ls = none
wants_summary ((provider, cfg) ∷ providers) ls =
    let middle = middle_lines ls in
    if leb (length ls - 80) 120 || (str_eq provider "" || ltb (count_tokens (join "\n" middle)) 200)
    then none
    else some (provider, middle)

-- The compressed prompt, by what the request for a summary gave.
abbrev pub compressed : String → Reply → String
compressed prompt (err e) = compact (lines prompt)
compressed prompt (ok summary) =
    let whole = with_summary (lines prompt) summary in
    if ltb (count_tokens whole) (count_tokens prompt / 2) then whole else compact (lines prompt)

abbrev pub after_summary : String → Option (Outcome Reply) → Option (Outcome String)
after_summary prompt none = none
after_summary prompt (some (reply, event, g)) = some (compressed prompt reply, event, g)

-- compressPrompt; `summarize` is Generate of the model "mini", by the provider and the prompt.
unfoldable pub compress_prompt :
    (String → String → Option (Outcome Reply)) → String → ℕ → LocalGateway → Option (Outcome String)
unfolding wants_summary
compress_prompt summarize prompt event g =
    let ls = lines prompt in
    if not (is_long prompt) then some (prompt, event, g) else elim (wants_summary g.providers ls) [
      | none ↦ some (compact ls, event, g)
      | some (p, middle) ↦ after_summary prompt (summarize p (summary_prompt middle))
    ]

module _ (out : Outside) where
  unfoldable pub cache_key : String → String → String → String
  cache_key provider model prompt =
      let text = provider <> "|" <> model <> "|" <> prompt in out.sha1_hex text (len text)

  -- A reply is stored unless it is an error.
  unfoldable pub stored : ℕ → String → Reply → LocalGateway → Outcome Reply
  stored event key (err e) g = (err e, event, g)
  stored event key (ok text) g =
      (ok text, suc (suc event), put_cached (out.clock event) (out.clock (suc event)) key text g)

  abbrev pub reply_at : ℕ → LocalGateway → String → String → String → Reply
  reply_at event g provider model prompt = ask out event g.providers provider model prompt

  -- Generate behind the look-up in the cache.
  unfoldable pub looked_up :
      String → String → String → ℕ → Option String × LocalGateway → Outcome Reply
  unfolding stored
  looked_up provider model prompt event (some text, g) = (ok text, event, g)
  looked_up provider model prompt event (none, g) =
      stored (suc event) (cache_key provider model prompt) (reply_at event g provider model prompt)
        g

  -- Generate behind the compression: the cache first, and the provider if need be.
  unfoldable pub answer : String → String → String → ℕ → LocalGateway → Outcome Reply
  unfolding looked_up
  answer provider model prompt event g =
      looked_up provider model prompt (suc event)
        (get_cached (out.clock event) (cache_key provider model prompt) g)

  abbrev routed : String → String → Option (Outcome String) → Option (Outcome Reply)
  routed provider model none = none
  routed provider model (some (prompt, event, g)) =
      some (answer provider (route g model prompt) prompt event g)

  unfoldable pub generate : ℕ → String → String → String → ℕ → LocalGateway → Option (Outcome Reply)
  unfolding compress_prompt answer
  generate zero provider model prompt event g = none
  generate (suc fuel) provider model prompt event g =
      routed provider model
        (compress_prompt (λ p text. generate fuel p "mini" text event g) prompt event g)
