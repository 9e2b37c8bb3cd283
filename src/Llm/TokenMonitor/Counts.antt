-- ===== src/Llm/TokenMonitor/Counts.antt =====
-- The statistics agree with one another.
use xclaw.Prelude.{
  ℕ, ◌+◌, ◌-◌, ◌*◌, ◌≤◌, ◌≡◌, refl, ap, ◌∙◌, List, [], ◌∷◌, none, some, String, str_eq, eq_iff,
  if◌then◌else◌, arith, Bool-cases, Option-cases, inl, inr,
}
use xclaw.Prelude.Dict as Dict
use xclaw.Prelude.Dict.{Dict}
use xclaw.Prelude.Int.{ℤ}
use xclaw.Scheduler.Calendar.{day_length}
use xclaw.Llm.TokenMonitor.{
  TokenUsage, TokenMonitor, today, used_since, check_limit, of_agent, sum_tokens, tokens_after,
  add_tokens, breakdown, get_stats, get_global_stats,
}

unfoldable pub sum_values : Dict ℕ → ℕ
sum_values [] = 0
sum_values ((k, n) ∷ d) = n + sum_values d

unfoldable pub value_of : String → Dict ℕ → ℕ
value_of key d = elim (Dict.lookup key d) [ none ↦ 0 | some n ↦ n ]

sum-insert :
    (key : String) (n : ℕ) (d : Dict ℕ)
    → sum_values (Dict.insert key n d) + value_of key d ≡ sum_values d + n
unfolding sum_values value_of Dict.insert Dict.lookup
sum-insert key n [] = omega arith
sum-insert key n ((k, old) ∷ d) = let rest = sum-insert key n d in ground arith

add_tokens-insert :
    (key : String) (n : ℕ) (d : Dict ℕ)
    → add_tokens key n d ≡ Dict.insert key (value_of key d + n) d
unfolding add_tokens value_of
add_tokens-insert key n d = elim (Option-cases (Dict.lookup key d)) [
  | inl e ↦ rw (add_tokens, value_of, e) (ap (λ (v : ℕ). Dict.insert key v d) (omega arith))
  | inr (v, e) ↦ rw (add_tokens, value_of, e) refl
]

sum-add_tokens :
    (key : String) (n : ℕ) (d : Dict ℕ) → sum_values (add_tokens key n d) ≡ sum_values d + n
sum-add_tokens key n d =
    let e = sum-insert key (value_of key d + n) d in rw (add_tokens-insert key n d) (omega arith)

value_of-insert :
    (key other : String) (n : ℕ) (d : Dict ℕ)
    → value_of other (Dict.insert key n d) ≡ (if str_eq key other then n else value_of other d)
unfolding value_of
value_of-insert key other n d = elim (Bool-cases (str_eq key other)) [
  | inl same ↦ rw (value_of, Dict.lookup-insert key other n d, same) refl
  | inr apart ↦ rw (value_of, Dict.lookup-insert key other n d, apart) refl
]

value_of-add_tokens :
    (key other : String) (n : ℕ) (d : Dict ℕ)
    → value_of other (add_tokens key n d) ≡ value_of other d + (if str_eq key other then n else 0)
value_of-add_tokens key other n d =
    let e = value_of-insert key other (value_of key d + n) d in
    rw (add_tokens-insert key n d) (elim (Bool-cases (str_eq key other)) [
      | inl same ↦
          let p = ap (λ (k : String). value_of k d) ((eq_iff key other).0 same) in
          e ∙ rw same (omega arith)
      | inr apart ↦ e ∙ rw apart (omega arith)
    ])

sum-breakdown :
    (key : TokenUsage → String) (history : List TokenUsage) (d : Dict ℕ)
    → sum_values (breakdown key history d) ≡ sum_values d + sum_tokens history
unfolding breakdown sum_tokens
sum-breakdown key [] d = omega arith
sum-breakdown key (u ∷ history) d =
    let rest = sum-breakdown key history (add_tokens (key u) u.total_tokens d) in
    let first = sum-add_tokens (key u) u.total_tokens d in omega arith

breakdown-total :
    (key : TokenUsage → String) (history : List TokenUsage)
    → sum_values (breakdown key history []) ≡ sum_tokens history
unfolding sum_values
breakdown-total key history = let e = sum-breakdown key history [] in omega arith

share-breakdown :
    (agent : String) (history : List TokenUsage) (d : Dict ℕ)
    → value_of agent (breakdown (λ u. u.agent_id) history d)
      ≡ value_of agent d + sum_tokens (of_agent agent history)
unfolding breakdown sum_tokens of_agent
share-breakdown agent [] d = omega arith
share-breakdown agent (u ∷ history) d =
    let rest = share-breakdown agent history (add_tokens u.agent_id u.total_tokens d) in
    let first = value_of-add_tokens u.agent_id agent u.total_tokens d in
    elim (Bool-cases (str_eq u.agent_id agent)) [
      | inl own ↦
          let f : value_of agent (add_tokens u.agent_id u.total_tokens d)
              ≡ value_of agent d + u.total_tokens =
            first ∙ rw own refl in
          rw own (omega arith)
      | inr other ↦
          let f : value_of agent (add_tokens u.agent_id u.total_tokens d) ≡ value_of agent d + 0 =
            first ∙ rw other refl in
          rw other (omega arith)
    ]

tokens_after-le :
    (start start' : ℕ) (history : List TokenUsage)
    → start' ≤ start
    → (tokens_after start history ≤ tokens_after start' history)
      × (tokens_after start' history ≤ sum_tokens history)
unfolding tokens_after sum_tokens
tokens_after-le start start' [] le = (omega arith, omega arith)
tokens_after-le start start' (u ∷ history) le =
    let (first, second) = tokens_after-le start start' history le in ground arith

used-tokens_after :
    (start : ℕ) (agent : String) (history : List TokenUsage)
    → used_since start agent history ≡ tokens_after start (of_agent agent history)
unfolding used_since tokens_after of_agent
used-tokens_after start agent [] = refl
used-tokens_after start agent (u ∷ history) =
    let rest = used-tokens_after start agent history in
    elim (Bool-cases (str_eq u.agent_id agent)) [
      | inl own ↦ rw own (ground arith)
      | inr other ↦ rw other (ground arith)
    ]

share-total :
    (agent : String) (history : List TokenUsage)
    → value_of agent (breakdown (λ u. u.agent_id) history []) ≡ sum_tokens (of_agent agent history)
unfolding value_of Dict.lookup
share-total agent history = let e = share-breakdown agent history [] in omega arith

-- The tokens of today are no more than the week's, and these no more than all; and the tokens by
-- provider, as those by model, add up to all.
pub get_stats_adds_up :
    (now : ℕ) (agent : String) (m : TokenMonitor)
    → ((get_stats now agent m).today_tokens ≤ (get_stats now agent m).week_tokens)
      × ((get_stats now agent m).week_tokens ≤ (get_stats now agent m).total_tokens)
      × (sum_values (get_stats now agent m).provider_breakdown
          ≡ (get_stats now agent m).total_tokens)
      × (sum_values (get_stats now agent m).model_breakdown ≡ (get_stats now agent m).total_tokens)
unfolding get_stats
get_stats_adds_up now agent m =
    let own = of_agent agent m.history in
    let (days, week) = tokens_after-le (today now) (today now - 7 * day_length) own (omega arith) in
    (days, week, breakdown-total (λ u. u.provider) own, breakdown-total (λ u. u.model) own)

-- CheckLimit counts what GetStats gives as today's tokens, for an agent that has a limit.
pub check_limit-today :
    (now : ℕ) (agent : String) (m : TokenMonitor) (limit : ℤ)
    → Dict.lookup agent m.limits ≡ some limit
    → (check_limit now agent m).1 ≡ (get_stats now agent m).today_tokens
unfolding check_limit get_stats
check_limit-today now agent m limit e =
    rw (check_limit, e) (used-tokens_after (today now) agent m.history)

-- The agents' shares of the global statistics add up to all tokens, and each is what the agent's own
-- statistics give.
pub global_shares :
    (now : ℕ) (agent : String) (m : TokenMonitor)
    → (sum_values (get_global_stats now m).agent_breakdown ≡ (get_global_stats now m).total_tokens)
      × (value_of agent (get_global_stats now m).agent_breakdown
          ≡ (get_stats now agent m).total_tokens)
unfolding get_global_stats get_stats
global_shares now agent m =
    (breakdown-total (λ u. u.agent_id) m.history, share-total agent m.history)
