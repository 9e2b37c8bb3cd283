-- ===== src/Llm/Gateway/Origin.antt =====
-- Where the answers of Generate come from, over a run (cli/llm/gateway.go).
use xclaw.Prelude.{
  ℕ, zero, suc, ◌≤◌, ◌≡◌, refl, sym, inl, inr, List, [], ◌∷◌, Option, none, some, String, arith,
  Bool-cases, Option-cases, some_inj,
}
use mathlib.Core.Path.{subst}
use xclaw.Prelude.Dict
use xclaw.Prelude.Dict.{
  Dict, HasNoRepeat, keep_unless, lookup-insert, lookup-erase, lookup-remove_if, insert-HasNoRepeat,
  remove_if-HasNoRepeat, erase-HasNoRepeat,
}
use xclaw.Llm.Gateway.{LocalGateway, ProviderConfig, CachedResponse, route}
use xclaw.Llm.Gateway.Ask.{Outside, Reply, ok}
use xclaw.Llm.Gateway.Generate.{
  Outcome, cache_key, compress_prompt, after_summary, wants_summary, generate,
}
use xclaw.Llm.Gateway.Prompt.{lines, is_long, summary_prompt}
use xclaw.Llm.Gateway.Fresh.{IsFresh}
use xclaw.Llm.Gateway.Recent.{IsRecent, Answers, answer-Answers}

module _ (out : Outside) where
  -- Calls of Generate, by the provider, the model and the prompt, one after the other.
  unfoldable pub generate_all :
      ℕ → List (String × String × String) → ℕ → LocalGateway → Option (ℕ × LocalGateway)
  generate_all fuel [] event g = some (event, g)
  generate_all fuel ((provider, model, prompt) ∷ calls) event g =
      elim (generate out fuel provider model prompt event g) [
        | none ↦ none
        | some o ↦ generate_all fuel calls o.1 o.2
      ]

module _ (out : Outside) (providers : Dict ProviderConfig)
    (mono : (a b : ℕ) → a ≤ b → out.clock a ≤ out.clock b) where
  -- What compressPrompt leaves, if the summaries are answered well.
  pub record Compressed (event : ℕ) (o : Outcome String) : Type 0 where
    pub fresh : IsFresh out providers o.1 o.2
    pub advanced : event ≤ o.1

  after_summary-Compressed :
      (prompt : String) (event : ℕ) (r : Option (Outcome Reply)) (o : Outcome String)
      → ((a : Outcome Reply) → r ≡ some a → IsFresh out providers a.1 a.2 × (event ≤ a.1))
      → after_summary prompt r ≡ some o
      → Compressed event o
  after_summary-Compressed prompt event none o well h = cc
  after_summary-Compressed prompt event (some (reply, e, g)) o well h =
      let (fresh, advanced) = well (reply, e, g) refl in
      subst (Compressed event) (some_inj h) (record { fresh = fresh; advanced = advanced })

  compress-Compressed :
      (summarize : String → String → Option (Outcome Reply)) (prompt : String) (event : ℕ)
      (g : LocalGateway) (o : Outcome String)
      → ((p text : String) (a : Outcome Reply)
          → summarize p text ≡ some a
          → IsFresh out providers a.1 a.2 × (event ≤ a.1))
      → IsFresh out providers event g
      → compress_prompt summarize prompt event g ≡ some o
      → Compressed event o
  unfolding compress_prompt
  compress-Compressed summarize prompt event g o well f h = elim (Bool-cases (is_long prompt)) [
    | inr short ↦
        subst (Compressed event) (some_inj (rw (compress_prompt, short) at h))
          (record { fresh = f; advanced = omega arith })
    | inl long ↦ elim (Option-cases (wants_summary g.providers (lines prompt))) [
      | inl unasked ↦
          subst (Compressed event) (some_inj (rw (compress_prompt, long, unasked) at h))
            (record { fresh = f; advanced = omega arith })
      | inr ((p, middle), asked) ↦
          after_summary-Compressed prompt event (summarize p (summary_prompt middle)) o
            (λ a e. well p (summary_prompt middle) a e) (rw (compress_prompt, long, asked) at h)
    ]
  ]

  -- What Generate leaves: the prompt was compressed, and the answer is what `Answers` says.
  pub record Generated (fuel : ℕ) (provider model prompt : String) (event : ℕ) (g : LocalGateway)
      (o : Outcome Reply) : Type 0 where
    pub sent : Outcome String
    pub sent_by :
        compress_prompt (λ p text. generate out fuel p "mini" text event g) prompt event g
        ≡ some sent
    pub later : event ≤ sent.1
    pub answers :
        Answers out providers sent.1 (cache_key out provider (route sent.2 model sent.0) sent.0) o

  abbrev Preserves : ℕ → Type 0
  Preserves fuel =
      (provider model prompt : String) (event : ℕ) (g : LocalGateway) (o : Outcome Reply)
      → IsFresh out providers event g
      → generate out fuel provider model prompt event g ≡ some o
      → IsFresh out providers o.1 o.2 × (event ≤ o.1)

  generate_step :
      (fuel : ℕ) (provider model prompt : String) (event : ℕ) (g : LocalGateway) (o : Outcome Reply)
      → Preserves fuel
      → IsFresh out providers event g
      → generate out (suc fuel) provider model prompt event g ≡ some o
      → Generated fuel provider model prompt event g o
  unfolding generate
  generate_step fuel provider model prompt event g o well f h =
      let summarize : String → String → Option (Outcome Reply) =
        λ p text. generate out fuel p "mini" text event g in
      elim (Option-cases (compress_prompt summarize prompt event g)) [
        | inl unsent ↦ ground (arith, rw (generate, unsent) at h)
        | inr (sent, e) ↦
            let c =
              compress-Compressed summarize prompt event g sent
                (λ p text a. well p "mini" text event g a f) f e in
            record {
              sent = sent;
              sent_by = e;
              later = c.advanced;
              answers = subst (Answers out providers sent.1 _) (some_inj (rw (generate, e) at h)) (
                  answer-Answers out providers mono provider (route sent.2 model sent.0) sent.0
                    sent.1 sent.2 c.fresh);
            }
      ]

  generate-Preserves : (fuel : ℕ) → Preserves fuel
  generate-Preserves zero provider model prompt event g o f h = unfold generate in cc
  generate-Preserves (suc fuel) provider model prompt event g o f h =
      let done = generate_step fuel provider model prompt event g o (generate-Preserves fuel) f h in
      (done.answers.fresh, omega (arith, done.later, done.answers.advanced))

  generate_all-IsFresh :
      (fuel : ℕ) (calls : List (String × String × String)) (event : ℕ) (g : LocalGateway)
      (o : ℕ × LocalGateway)
      → IsFresh out providers event g
      → generate_all out fuel calls event g ≡ some o
      → IsFresh out providers o.0 o.1
  unfolding generate_all
  generate_all-IsFresh fuel [] event g o f h =
      subst (λ p. IsFresh out providers p.0 p.1) (some_inj h) f
  generate_all-IsFresh fuel ((provider, model, prompt) ∷ calls) event g o f h =
      elim (Option-cases (generate out fuel provider model prompt event g)) [
        | inl stuck ↦ ground (arith, rw (generate_all, stuck) at h)
        | inr (step, e) ↦
            generate_all-IsFresh fuel calls step.1 step.2 o
              (generate-Preserves fuel provider model prompt event g step f e).0
              (rw (generate_all, e) at h)
      ]

  nothing_cached :
      (key : String) (item : CachedResponse)
      → ¬ (◌≡◌ {A = Option CachedResponse} (Dict.lookup key []) (some item))
  unfolding Dict.lookup
  nothing_cached key item h = cc

  start-IsFresh :
      (g : LocalGateway) → g.providers ≡ providers → g.cache ≡ [] → IsFresh out providers 0 g
  start-IsFresh g same blank = record {
    same_providers = same;
    once = subst HasNoRepeat (sym blank) tt;
    entries = λ key item found. absurd (nothing_cached key item (rw blank at found));
  }

-- A gateway starts with an empty cache, calls of Generate are made one after the other, and then a call
-- returns a text. If the clock never goes back, the prompt of that call was compressed, its model chosen,
-- and the text is what a provider, or the local answer, replied to a call with the same key in the cache,
-- this one or an earlier one; when the cache was read, at most five minutes had passed since that reply
-- was stored.
pub generated-IsRecent :
    (out : Outside) (fuel : ℕ) (calls : List (String × String × String)) (g₀ g g' : LocalGateway)
    (provider model prompt text : String) (event event' : ℕ)
    → ((a b : ℕ) → a ≤ b → out.clock a ≤ out.clock b)
    → g₀.cache ≡ []
    → generate_all out fuel calls 0 g₀ ≡ some (event, g)
    → generate out (suc fuel) provider model prompt event g ≡ some (ok text, event', g')
    → (sent : Outcome String) × (compress_prompt
          (λ p t. generate out fuel p "mini" t event g)
          prompt
          event
          g
        ≡ some sent)
      × (event ≤ sent.1)
      × IsRecent out g₀.providers sent.1 event'
          (cache_key out provider (route sent.2 model sent.0) sent.0)
          text
generated-IsRecent out fuel calls g₀ g g' provider model prompt text event event' mono blank before
      now =
    let f =
      generate_all-IsFresh out g₀.providers mono fuel calls 0 g₀ (event, g)
        (start-IsFresh out g₀.providers mono g₀ refl blank) before in
    let done =
      generate_step out g₀.providers mono fuel provider model prompt event g (ok text, event', g')
        (generate-Preserves out g₀.providers mono fuel) f now in
    (done.sent, done.sent_by, done.later, done.answers.recent text refl)
