-- ===== src/Gateway/Health.antt =====
-- The health of providers: cli/gateway/health.go. Latencies are numbers of milliseconds, whose sums
-- stay below 2^63; an error rate is kept as the number of errors and of all calls.
pub mod Counts
mod Examples
use xclaw.Prelude.{ℕ, ◌+◌, ◌/◌, ltb, Option, none, some, List, [], ◌∷◌, String, if◌then◌else◌}
use xclaw.Prelude.Dict as Dict
use xclaw.Prelude.Dict.{Dict}

pub record HealthRecord : Type 0 where
  pub success_count : ℕ
  pub error_count : ℕ
  pub total_latency : ℕ
  pub last_success : ℕ
  pub last_error : ℕ
  pub last_latency : ℕ

abbrev pub Tracker : Type 0
Tracker = Dict HealthRecord

abbrev pub new_provider_health_tracker : Tracker
new_provider_health_tracker = []

abbrev pub empty_record : HealthRecord
empty_record = record {
  success_count = 0;
  error_count = 0;
  total_latency = 0;
  last_success = 0;
  last_error = 0;
  last_latency = 0;
}

abbrev pub or_empty : Option HealthRecord → HealthRecord
or_empty none = empty_record
or_empty (some r) = r

-- getOrCreate, and the change that follows it under the same lock.
unfoldable pub update : String → (HealthRecord → HealthRecord) → Tracker → Tracker
update provider change t = Dict.insert provider (change (or_empty (Dict.lookup provider t))) t

abbrev pub succeeded : ℕ → ℕ → HealthRecord → HealthRecord
succeeded now latency r = record r {
  success_count = r.success_count + 1;
  total_latency = r.total_latency + latency;
  last_latency = latency;
  last_success = now;
}

abbrev pub failed : ℕ → ℕ → HealthRecord → HealthRecord
failed now latency r = record r {
  error_count = r.error_count + 1;
  total_latency = r.total_latency + latency;
  last_latency = latency;
  last_error = now;
}

unfoldable pub record_success : ℕ → String → ℕ → Tracker → Tracker
unfolding update
record_success now provider latency = update provider (succeeded now latency)

unfoldable pub record_error : ℕ → String → ℕ → Tracker → Tracker
unfolding update
record_error now provider latency = update provider (failed now latency)

-- What Enrich fills in; a time that is 0 is left out of the metrics.
pub record Health : Type 0 where
  pub latency_ms : ℕ
  pub errors : ℕ
  pub calls : ℕ
  pub metrics : Option HealthRecord

unfoldable pub average : ℕ → ℕ → ℕ
average sum calls = if ltb 0 calls then sum / calls else 0

unfoldable pub enrich : String → Tracker → Health
unfolding average
enrich provider t = elim (Dict.lookup provider t) [
  | none ↦ record { latency_ms = 0; errors = 0; calls = 0; metrics = none }
  | some r ↦ record {
    latency_ms = average r.total_latency (r.success_count + r.error_count);
    errors = r.error_count;
    calls = r.success_count + r.error_count;
    metrics = some r;
  }
]
