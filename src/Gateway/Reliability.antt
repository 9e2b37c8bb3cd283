-- ===== src/Gateway/Reliability.antt =====
-- De-duplication of events and idempotence of replies (cli/gateway/reliability.go). The cache's
-- mutex guards each whole operation; `now` is the reading of the clock in it.
pub mod Window
mod Examples
use xclaw.Prelude.{
  ℕ, ◌+◌, ◌*◌, ◌^◌, Bool, true, false, [], Option, none, some, String, str_eq, ◌<>◌, ltb,
  if◌then◌else◌,
}
use xclaw.Prelude.Dict
use xclaw.Prelude.Dict.{Dict}

-- The map from a key to the time up to which it counts as seen.
pub record DedupeCache : Type 0 where
  pub items : Dict ℕ

abbrev pub new_dedupe_cache : DedupeCache
new_dedupe_cache = record { items = [] }

unfoldable pub purge : ℕ → DedupeCache → DedupeCache
purge now c = record { items = Dict.remove_if (λ until. ltb until now) c.items }

abbrev pub is_live : ℕ → Option ℕ → Bool
is_live now none = false
is_live now (some until) = ltb now until

unfoldable pub seen : ℕ → String → ℕ → DedupeCache → Bool × DedupeCache
seen now key ttl c =
    let c' = purge now c in
    if str_eq key ""
    then (false, c)
    else if is_live now (Dict.lookup key c'.items)
    then (true, c')
    else (false, record { items = Dict.insert key (now + ttl) c'.items })

unfoldable pub exists : ℕ → String → DedupeCache → Bool × DedupeCache
exists now key c =
    let c' = purge now c in
    if str_eq key "" then (false, c) else (is_live now (Dict.lookup key c'.items), c')

unfoldable pub mark : ℕ → String → ℕ → DedupeCache → DedupeCache
mark now key ttl c =
    let c' = purge now c in
    if str_eq key "" then c else record { items = Dict.insert key (now + ttl) c'.items }

pub record ReliabilityManager : Type 0 where
  pub inbound_dedupe : DedupeCache
  pub outbound_idem : DedupeCache

abbrev pub new_reliability_manager : ReliabilityManager
new_reliability_manager = record {
  inbound_dedupe = new_dedupe_cache;
  outbound_idem = new_dedupe_cache;
}

-- 24 * time.Hour
abbrev pub day : ℕ
day = 24 * 3600 * 10 ^ 9

abbrev pub inbound_key : String → String → String
inbound_key platform event_id = platform <> ":" <> event_id

unfoldable pub seen_inbound : ℕ → String → String → ReliabilityManager → Bool × ReliabilityManager
unfolding seen
seen_inbound now platform event_id r =
    let (hit, c) = seen now (inbound_key platform event_id) day r.inbound_dedupe in
    (hit, record r { inbound_dedupe = c })

unfoldable pub seen_outbound : ℕ → String → ReliabilityManager → Bool × ReliabilityManager
unfolding exists
seen_outbound now key r =
    let (hit, c) = exists now key r.outbound_idem in (hit, record r { outbound_idem = c })

unfoldable pub mark_outbound : ℕ → String → ReliabilityManager → ReliabilityManager
unfolding mark
mark_outbound now key r = record r { outbound_idem = mark now key day r.outbound_idem }
