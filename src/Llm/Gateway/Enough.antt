-- ===== src/Llm/Gateway/Enough.antt =====
-- The summaries that Generate asks for end: each is made of fewer lines than the prompt before it
-- (`compressPrompt` and `summarizePrompt` of cli/llm/gateway.go).
use Prim.Native.Char.{Char, code}
use text.Mathlib.TextLemmas.{nil-append, cons-append}
use xclaw.Prelude.{
  ℕ, zero, suc, ◌+◌, ◌-◌, ◌≤◌, ◌<◌, ◌≡◌, refl, sym, ap, Bool, true, false, inl, inr, List, [], ◌∷◌,
  length, take, drop, length-take, All, All-drop, Option, none, some, String, arith, Bool-cases,
  Option-cases, some_inj, leb, ◌==◌, ◌<>◌, ◌||◌, if◌then◌else◌,
}
use xclaw.Prelude.Parse.{split, join, put_first}
use xclaw.Prelude.Dict.{Dict}
use xclaw.Llm.Gateway.{LocalGateway, ProviderConfig, newlines, route}
use xclaw.Llm.Gateway.Prompt.{lines, middle_lines, summary_prompt, is_long, compact}
use xclaw.Llm.Gateway.Ask.{Outside, Reply}
use xclaw.Llm.Gateway.Generate.{
  Outcome, compress_prompt, wants_summary, generate, compressed, answer,
}

newlines-append : (s t : String) → newlines (s <> t) ≡ newlines s + newlines t
unfolding newlines
newlines-append String.[] t = rw (nil-append t) (omega arith)
newlines-append (String.◌∷◌ c s) t = rw (cons-append c s t) (elim (Bool-cases (code c == 10)) [
  | inl e ↦ rw e (omega (arith, newlines-append s t))
  | inr e ↦ rw e (newlines-append s t)
])

-- A line holds no newline.
abbrev IsLine : String → Type 0
IsLine l = newlines l ≡ 0

one : newlines "\n" ≡ 1
unfolding newlines
one = refl

abbrev summary_head : String
summary_head = "请将以下对话历史压缩为简洁摘要，保留关键信息和决策点，不超过 800 字：\n\n"

head_newlines : newlines summary_head ≡ 2
unfolding newlines
head_newlines = refl

put_first-lines :
    (c : Char) (ls : List String) (n : ℕ)
    → (code c == 10) ≡ false
    → All IsLine ls
    → length ls ≡ suc n
    → All IsLine (put_first c ls) × (length (put_first c ls) ≡ suc n)
unfolding put_first newlines
put_first-lines c [] n e h k = omega (arith, k)
put_first-lines c (l ∷ ls) n e (hl, h) k = (rw e (hl, h), k)

split-lines : (s : String) → All IsLine (split 10 s) × (length (split 10 s) ≡ suc (newlines s))
unfolding split newlines
split-lines String.[] = ((refl, tt), refl)
split-lines (String.◌∷◌ c s) =
    let (h, k) = split-lines s in
    elim (Bool-cases (code c == 10)) [
      | inl e ↦ rw e ((refl, h), ap suc k)
      | inr e ↦ rw e (put_first-lines c (split 10 s) (newlines s) e h k)
    ]

take-lines : (n : ℕ) (ls : List String) → All IsLine ls → All IsLine (take n ls)
take-lines zero ls h = tt
take-lines (suc n) [] h = tt
take-lines (suc n) (l ∷ ls) (hl, h) = (hl, take-lines n ls h)

join-newlines : (ls : List String) → All IsLine ls → newlines (join "\n" ls) ≤ length ls - 1
unfolding join
join-newlines [] h = unfold newlines in omega arith
join-newlines (l ∷ []) (hl, h) = omega (arith, hl)
join-newlines (l ∷ k ∷ ls) (hl, h) = omega (
  arith,
  hl,
  newlines-append l ("\n" <> join "\n" (k ∷ ls)),
  newlines-append "\n" (join "\n" (k ∷ ls)),
  one,
  join-newlines (k ∷ ls) h,
)

middle-lines : (ls : List String) → length (middle_lines ls) ≤ length ls - 80 - 120
middle-lines ls = omega (arith, length-take (length ls - 80 - 120) (drop 120 ls))

-- The prompt for a summary has fewer lines, where there are more than 200.
summary_prompt-newlines :
    (prompt : String)
    → 200 < length (lines prompt)
    → newlines (summary_prompt (middle_lines (lines prompt))) < newlines prompt
unfolding summary_prompt
summary_prompt-newlines prompt long =
    let (h, k) = split-lines prompt in
    let ls = lines prompt in
    omega (
      arith,
      k,
      long,
      head_newlines,
      newlines-append summary_head (join "\n" (middle_lines ls)),
      join-newlines (middle_lines ls)
          (take-lines (length ls - 80 - 120) _ (All-drop IsLine 120 ls h)),
      middle-lines ls,
    )

unless_some :
    {A : Type 0} (a b : Bool) {x y : A}
    → (if a || b then none else some x) ≡ some y
    → (a ≡ false) × (x ≡ y)
unless_some true b h = cc
unless_some false true h = cc
unless_some false false h = (refl, some_inj h)

many_lines : (n : ℕ) → leb (n - 80) 120 ≡ false → 200 < n
many_lines n h = ground arith

-- What is summarized is the middle of a prompt of more than 200 lines.
wants_summary-middle :
    (providers : Dict ProviderConfig) (ls : List String) (p : String) (middle : List String)
    → wants_summary providers ls ≡ some (p, middle)
    → (middle ≡ middle_lines ls) × (200 < length ls)
unfolding wants_summary
wants_summary-middle [] ls p middle h = cc
wants_summary-middle ((provider, cfg) ∷ providers) ls p middle h =
    let (many, same) = unless_some (leb (length ls - 80) 120) _ h in
    (sym (ap (λ q. q.1) same), many_lines (length ls) many)

module _ (summarize : String → String → Option (Outcome Reply)) where
  -- The compression needs only a summary of fewer lines.
  compress_prompt-returns :
      (prompt : String) (event : ℕ) (g : LocalGateway)
      → ((p text : String)
          → newlines text < newlines prompt
          → (o : Outcome Reply) × (summarize p text ≡ some o))
      → (o : Outcome String) × (compress_prompt summarize prompt event g ≡ some o)
  unfolding compress_prompt
  compress_prompt-returns prompt event g returns = elim (Bool-cases (is_long prompt)) [
    | inr short ↦ ((prompt, event, g), rw (compress_prompt, short) refl)
    | inl long ↦ elim (Option-cases (wants_summary g.providers (lines prompt))) [
      | inl unasked ↦ ((compact (lines prompt), event, g), rw (compress_prompt, long, unasked) refl)
      | inr ((p, middle), asked) ↦
          let (same, many) = wants_summary-middle g.providers (lines prompt) p middle asked in
          let (o, e) =
            returns p (summary_prompt middle) (rw same (summary_prompt-newlines prompt many)) in
          ((compressed prompt o.0, o.1, o.2), rw (compress_prompt, long, asked, e) refl)
    ]
  ]

-- Generate returns, with an answer or an error, if the fuel is above the number of newlines in the
-- prompt: however often the summary of a summary is asked for, the prompts get shorter.
pub generate_returns :
    (out : Outside) (fuel : ℕ) (provider model prompt : String) (event : ℕ) (g : LocalGateway)
    → newlines prompt < fuel
    → (o : Outcome Reply) × (generate out fuel provider model prompt event g ≡ some o)
unfolding generate
generate_returns out zero provider model prompt event g h = absurd (omega arith)
generate_returns out (suc fuel) provider model prompt event g h =
    let (sent, e) =
      compress_prompt-returns (λ p text. generate out fuel p "mini" text event g) prompt event g
        (λ p text fewer. generate_returns out fuel p "mini" text event g (omega arith)) in
    (answer out provider (route sent.2 model sent.0) sent.0 sent.1 sent.2, rw (generate, e) refl)
