-- ===== src/Gateway/Health/Examples.antt =====
-- Calls of two providers.
use xclaw.Prelude.{◌≡◌, refl, true, false, List, [], ◌∷◌}
use xclaw.Prelude.Dict
use xclaw.Gateway.Health.{
  new_provider_health_tracker, enrich, average, update, record_success, record_error,
}
use xclaw.Gateway.Health.Counts.{
  Call, report, report_all, failures, calls_of, latencies, enrich_counts,
}

abbrev calls : List Call
calls =
    record { now = 1; provider = "p"; latency = 10; good = true }
    ∷ record { now = 2; provider = "q"; latency = 99; good = true }
    ∷ record { now = 3; provider = "p"; latency = 31; good = false }
    ∷ []

average_latency : (enrich "p" (report_all calls new_provider_health_tracker)).latency_ms ≡ 20
unfolding enrich report_all report record_success record_error update Dict.lookup Dict.insert
    average
average_latency = refl

enrich_counts_example :
    ((enrich "p" (report_all calls new_provider_health_tracker)).errors ≡ failures "p" calls)
    × ((enrich "p" (report_all calls new_provider_health_tracker)).calls ≡ calls_of "p" calls)
    × ((enrich "p" (report_all calls new_provider_health_tracker)).latency_ms
        ≡ average (latencies "p" calls) (calls_of "p" calls))
enrich_counts_example = enrich_counts "p" calls
