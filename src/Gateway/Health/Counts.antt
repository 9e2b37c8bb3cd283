-- ===== src/Gateway/Health/Counts.antt =====
-- The figures of a provider are those of its calls.
use xclaw.Prelude.{
  ℕ, ◌+◌, ◌≡◌, refl, ap, ◌∙◌, Bool, true, false, List, [], ◌∷◌, String, str_eq, eq_iff,
  if◌then◌else◌, arith, Bool-cases, Option-cases, inl, inr,
}
use mathlib.Core.Path.{subst}
use xclaw.Prelude.Dict as Dict
use xclaw.Prelude.Dict.{Dict}
use xclaw.Gateway.Health.{
  HealthRecord, Tracker, new_provider_health_tracker, or_empty, update, succeeded, failed,
  record_success, record_error, average, enrich,
}

-- A call of a provider: when it ended, of which provider, how long it took, whether it succeeded.
pub record Call : Type 0 where
  pub now : ℕ
  pub provider : String
  pub latency : ℕ
  pub good : Bool

unfoldable pub report : Call → Tracker → Tracker
unfolding record_success record_error
report c t =
    if c.good
    then record_success c.now c.provider c.latency t
    else record_error c.now c.provider c.latency t

unfoldable pub report_all : List Call → Tracker → Tracker
unfolding report
report_all [] t = t
report_all (c ∷ calls) t = report_all calls (report c t)

-- The calls of a provider that fail, all of its calls, and their latencies.
unfoldable pub failures : String → List Call → ℕ
failures provider [] = 0
failures provider (c ∷ calls) =
    let rest = failures provider calls in
    if str_eq c.provider provider then (if c.good then rest else rest + 1) else rest

unfoldable pub calls_of : String → List Call → ℕ
calls_of provider [] = 0
calls_of provider (c ∷ calls) =
    let rest = calls_of provider calls in if str_eq c.provider provider then rest + 1 else rest

unfoldable pub latencies : String → List Call → ℕ
latencies provider [] = 0
latencies provider (c ∷ calls) =
    let rest = latencies provider calls in
    if str_eq c.provider provider then rest + c.latency else rest

abbrev record_of : String → Tracker → HealthRecord
record_of provider t = or_empty (Dict.lookup provider t)

-- The record has counted these numbers on top of others.
abbrev Counted : HealthRecord → ℕ → ℕ → ℕ → HealthRecord → Type 0
Counted r errors calls sum r' =
    (r'.error_count ≡ r.error_count + errors)
    × (r'.success_count + r'.error_count ≡ r.success_count + r.error_count + calls)
    × (r'.total_latency ≡ r.total_latency + sum)

record_of-update :
    (key provider : String) (change : HealthRecord → HealthRecord) (t : Tracker)
    → record_of provider (update key change t)
      ≡ (if str_eq key provider then change (record_of provider t) else record_of provider t)
unfolding update
record_of-update key provider change t = elim (Bool-cases (str_eq key provider)) [
  | inr apart ↦ rw (Dict.lookup-insert key provider (change (record_of key t)) t, apart) refl
  | inl same ↦
      rw (Dict.lookup-insert key provider (change (record_of key t)) t, same)
        (ap (λ (k : String). change (record_of k t)) ((eq_iff key provider).0 same))
]

changed : Call → HealthRecord → HealthRecord
changed c r = if c.good then succeeded c.now c.latency r else failed c.now c.latency r

report-update : (c : Call) (t : Tracker) → report c t ≡ update c.provider (changed c) t
unfolding report record_success record_error changed
report-update c t = by_answer c.good
  where
    by_answer :
        (b : Bool)
        → (if b
            then update c.provider (succeeded c.now c.latency) t
            else update c.provider (failed c.now c.latency) t)
          ≡ update c.provider
              (λ r. if b then succeeded c.now c.latency r else failed c.now c.latency r)
              t
    by_answer true = refl
    by_answer false = refl

changed-Counted :
    (c : Call) (r : HealthRecord) → Counted r (if c.good then 0 else 1) 1 c.latency (changed c r)
unfolding changed
changed-Counted c r = by_answer c.good
  where
    by_answer :
        (b : Bool)
        → Counted r
            (if b then 0 else 1)
            1
            c.latency
            (if b then succeeded c.now c.latency r else failed c.now c.latency r)
    by_answer true = (omega arith, omega arith, refl)
    by_answer false = (refl, omega arith, refl)

both-Counted :
    (b : Bool) (r r1 r2 : HealthRecord) (errors calls sum latency : ℕ)
    → Counted r (if b then 0 else 1) 1 latency r1
    → Counted r1 errors calls sum r2
    → Counted r (if b then errors else errors + 1) (calls + 1) (sum + latency) r2
both-Counted true r r1 r2 errors calls sum latency (e, n, l) (e', n', l') =
    (omega arith, omega arith, omega arith)
both-Counted false r r1 r2 errors calls sum latency (e, n, l) (e', n', l') =
    (omega arith, omega arith, omega arith)

-- The counts add up over the calls.
all-Counted :
    (provider : String) (calls : List Call) (t : Tracker)
    → Counted
        (record_of provider t)
        (failures provider calls)
        (calls_of provider calls)
        (latencies provider calls)
        (record_of provider (report_all calls t))
unfolding report_all failures calls_of latencies
all-Counted provider [] t = (omega arith, omega arith, omega arith)
all-Counted provider (c ∷ calls) t =
    let after = record_of provider (report_all calls (report c t)) in
    let rest = all-Counted provider calls (report c t) in
    let e =
      ap (record_of provider) (report-update c t)
      ∙ record_of-update c.provider provider (changed c) t in
    elim (Bool-cases (str_eq c.provider provider)) [
      | inr apart ↦
          let f : record_of provider (report c t) ≡ record_of provider t = e ∙ rw apart refl in
          rw apart (
            subst
              (λ (r : HealthRecord).
                Counted r (failures provider calls) (calls_of provider calls)
                  (latencies provider calls) after)
              f rest)
      | inl same ↦
          let f : record_of provider (report c t) ≡ changed c (record_of provider t) =
            e ∙ rw same refl in
          rw same (
            both-Counted c.good (record_of provider t) (changed c (record_of provider t)) after
              (failures provider calls) (calls_of provider calls) (latencies provider calls)
              c.latency (changed-Counted c (record_of provider t))
              (subst
                (λ (r : HealthRecord).
                  Counted r (failures provider calls) (calls_of provider calls)
                    (latencies provider calls) after)
                f rest))
    ]

enrich-record :
    (provider : String) (t : Tracker)
    → ((enrich provider t).errors ≡ (record_of provider t).error_count)
      × ((enrich provider t).calls
          ≡ (record_of provider t).success_count + (record_of provider t).error_count)
      × ((enrich provider t).latency_ms
          ≡ average
              (record_of provider t).total_latency
              ((record_of provider t).success_count + (record_of provider t).error_count))
unfolding enrich average
enrich-record provider t = elim (Option-cases (Dict.lookup provider t)) [
  | inl e ↦ rw (enrich, e) (refl, refl, refl)
  | inr (r, e) ↦ rw (enrich, e) (refl, refl, refl)
]

-- What Enrich says of a provider, after any calls reported to a new tracker: its errors are the
-- provider's calls that failed, out of all of its calls, and the latency is their average.
pub enrich_counts :
    (provider : String) (calls : List Call)
    → ((enrich provider (report_all calls new_provider_health_tracker)).errors
        ≡ failures provider calls)
      × ((enrich provider (report_all calls new_provider_health_tracker)).calls
          ≡ calls_of provider calls)
      × ((enrich provider (report_all calls new_provider_health_tracker)).latency_ms
          ≡ average (latencies provider calls) (calls_of provider calls))
unfolding Dict.lookup
enrich_counts provider calls =
    let t = report_all calls new_provider_health_tracker in
    let (errors, total, sum) = all-Counted provider calls new_provider_health_tracker in
    let (e, n, l) = enrich-record provider t in
    let total' : (record_of provider t).success_count + (record_of provider t).error_count
        ≡ calls_of provider calls =
      omega arith in
    let sum' : (record_of provider t).total_latency ≡ latencies provider calls = omega arith in
    (
      omega arith,
      omega arith,
      l
          ∙ ap
              (λ (s : ℕ).
                average s
                  ((record_of provider t).success_count + (record_of provider t).error_count))
              sum'
          ∙ ap (average (latencies provider calls)) total',
    )
