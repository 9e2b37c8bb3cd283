-- ===== src/Llm/TokenMonitor.antt =====
-- Counting tokens: cli/llm/token_monitor.go. Counts are numbers that stay below 2^63; the clock's
-- readings are arguments, and the wrapped gateway's answers are too.
pub mod Counts
pub mod Usage
mod Examples
use xclaw.Prelude.{
  ℕ, ◌+◌, ◌-◌, ◌*◌, ◌%◌, Bool, true, false, ◌&&◌, List, [], ◌∷◌, ◌++◌, Option, none, some, String,
  str_eq, length, drop, ltb, if◌then◌else◌, ◌<>◌,
}
use xclaw.Prelude.Dict as Dict
use xclaw.Prelude.Dict.{Dict}
use xclaw.Prelude.Int.{ℤ, pos, leb_ℕ}
use xclaw.Scheduler.Calendar.{day_length}

pub record TokenUsage : Type 0 where
  pub provider : String
  pub model : String
  pub prompt_tokens : ℕ
  pub completion_tokens : ℕ
  pub total_tokens : ℕ
  pub timestamp : ℕ
  pub session_id : String
  pub agent_id : String

pub record TokenMonitor : Type 0 where
  pub history : List TokenUsage
  pub limits : Dict ℤ

abbrev pub new_token_monitor : TokenMonitor
new_token_monitor = record { history = []; limits = [] }

abbrev pub max_history : ℕ
max_history = 10000

unfoldable pub trimmed : ℕ → List TokenUsage → List TokenUsage
trimmed max history =
    if ltb max (length history) then drop (length history - max) history else history

-- Record
unfoldable pub record_usage : TokenUsage → TokenMonitor → TokenMonitor
unfolding trimmed
record_usage usage m = record m { history = trimmed max_history (m.history ++ usage ∷ []) }

unfoldable pub set_limit : String → ℤ → TokenMonitor → TokenMonitor
set_limit agent limit m = record m { limits = Dict.insert agent limit m.limits }

-- time.Now().Truncate(24 * time.Hour)
abbrev pub today : ℕ → ℕ
today now = now - now % day_length

-- The loop of CheckLimit.
unfoldable pub used_since : ℕ → String → List TokenUsage → ℕ
used_since start agent [] = 0
used_since start agent (u ∷ history) =
    let rest = used_since start agent history in
    if str_eq u.agent_id agent && ltb start u.timestamp then u.total_tokens + rest else rest

unfoldable pub check_limit : ℕ → String → TokenMonitor → Bool × ℕ × ℤ
unfolding used_since
check_limit now agent m = elim (Dict.lookup agent m.limits) [
  | none ↦ (false, 0, pos 0)
  | some limit ↦
      let used = used_since (today now) agent m.history in (leb_ℕ limit used, used, limit)
]

unfoldable pub of_agent : String → List TokenUsage → List TokenUsage
of_agent agent [] = []
of_agent agent (u ∷ history) =
    let rest = of_agent agent history in if str_eq u.agent_id agent then u ∷ rest else rest

unfoldable pub sum_tokens : List TokenUsage → ℕ
sum_tokens [] = 0
sum_tokens (u ∷ history) = u.total_tokens + sum_tokens history

unfoldable pub tokens_after : ℕ → List TokenUsage → ℕ
tokens_after start [] = 0
tokens_after start (u ∷ history) =
    let rest = tokens_after start history in
    if ltb start u.timestamp then u.total_tokens + rest else rest

-- breakdown[key] += tokens
unfoldable pub add_tokens : String → ℕ → Dict ℕ → Dict ℕ
add_tokens key tokens d = elim (Dict.lookup key d) [
  | none ↦ Dict.insert key tokens d
  | some n ↦ Dict.insert key (n + tokens) d
]

-- The loop that sums tokens by what `key` reads off a usage.
unfoldable pub breakdown : (TokenUsage → String) → List TokenUsage → Dict ℕ → Dict ℕ
breakdown key [] d = d
breakdown key (u ∷ history) d = breakdown key history (add_tokens (key u) u.total_tokens d)

pub record Stats : Type 0 where
  pub agent_id : String
  pub today_tokens : ℕ
  pub week_tokens : ℕ
  pub total_tokens : ℕ
  pub request_count : ℕ
  pub provider_breakdown : Dict ℕ
  pub model_breakdown : Dict ℕ

unfoldable pub get_stats : ℕ → String → TokenMonitor → Stats
get_stats now agent m =
    let own = of_agent agent m.history in
    record {
      agent_id = agent;
      today_tokens = tokens_after (today now) own;
      week_tokens = tokens_after (today now - 7 * day_length) own;
      total_tokens = sum_tokens own;
      request_count = length own;
      provider_breakdown = breakdown (λ u. u.provider) own [];
      model_breakdown = breakdown (λ u. u.model) own [];
    }

pub record GlobalStats : Type 0 where
  pub today_tokens : ℕ
  pub total_tokens : ℕ
  pub total_requests : ℕ
  pub agent_breakdown : Dict ℕ
  pub provider_breakdown : Dict ℕ

unfoldable pub get_global_stats : ℕ → TokenMonitor → GlobalStats
get_global_stats now m = record {
  today_tokens = tokens_after (today now) m.history;
  total_tokens = sum_tokens m.history;
  total_requests = length m.history;
  agent_breakdown = breakdown (λ u. u.agent_id) m.history [];
  provider_breakdown = breakdown (λ u. u.provider) m.history [];
}

-- What the monitored gateway records of a request: session and agent are left blank.
abbrev pub estimated : (String → ℕ) → ℕ → String → String → String → String → TokenUsage
estimated count now provider model prompt reply = record {
  provider = provider;
  model = model;
  prompt_tokens = count prompt;
  completion_tokens = count reply;
  total_tokens = count prompt + count reply;
  timestamp = now;
  session_id = "";
  agent_id = "";
}

-- (*MonitoredGateway).Generate, for the inner gateway's answer; `none` is an error.
unfoldable pub generate :
    (String → ℕ)
    → ℕ
    → String
    → String
    → String
    → Option String
    → TokenMonitor
    → Option String × TokenMonitor
unfolding record_usage
generate count now provider model prompt none m = (none, m)
generate count now provider model prompt (some reply) m =
    (some reply, record_usage (estimated count now provider model prompt reply) m)

abbrev pub joined : List String → String
joined [] = ""
joined (c ∷ chunks) = c <> joined chunks

-- (*MonitoredGateway).GenerateStream, for the chunks that the inner gateway hands on and whether it
-- succeeds; the answer is the error and what the caller's handler gets.
unfoldable pub generate_stream :
    (String → ℕ)
    → ℕ
    → String
    → String
    → String
    → List String
    → Bool
    → TokenMonitor
    → (Bool × List String) × TokenMonitor
unfolding record_usage
generate_stream count now provider model prompt chunks false m = ((false, chunks), m)
generate_stream count now provider model prompt chunks true m =
    ((true, chunks), record_usage (estimated count now provider model prompt (joined chunks)) m)
