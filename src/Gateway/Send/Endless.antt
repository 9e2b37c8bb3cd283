-- ===== src/Gateway/Send/Endless.antt =====
-- Two fallback targets and a provider that refuses: `Send` of cli/gateway/gateway.go calls itself for
-- the one from the other.
use xclaw.Prelude.{
  ℕ, zero, suc, ◌+◌, ◌≡◌, ◌≢◌, refl, sym, Bool, true, false, [], ◌∷◌, Option, none, some, String,
  str_eq, to_lower, trim_space, Option-cases, Bool-cases, ◌⊎◌, inl, inr, eq_iff, arith,
}
use mathlib.Core.Path.{subst}
use xclaw.Prelude.Dict
use xclaw.Prelude.Dict.{Dict, remove_if-Lacks}
use xclaw.Prelude.Result.{ok}
use xclaw.Approval.Lists.{first_non_empty}
use xclaw.Gateway.Reliability.{ReliabilityManager, seen_outbound}
use xclaw.Gateway.Events.{OutboundEvent, SendResult, Binding, Config, Provider}
use xclaw.Gateway.Adapter.{adapt_content}
use xclaw.Gateway.Targets.{ResolvedTarget, resolve_target, get_provider, in_quiet_hours}
use xclaw.Gateway.Delivery.{Gateway, Outside, Sent, send_with_retry}
use xclaw.Gateway.Delivery.Refused.{Refuses, refused_leaves_error}
use xclaw.Gateway.Send.Checks.{exists-unmarked, named_event-key}
use xclaw.Gateway.Send.{
  SendOutcome, Prepared, answer, deliver, is_blank, named_event, addressed, with_provider,
  with_sent, or_console, on_target, unless_seen, looked_at, prepare, fall_back, concluded,
  delivered, send,
}

module _ (out : Outside) (agent_id key : String) (cfg : Config) (bindings : Dict Binding)
    (last_targets : Dict String) (providers : Dict Provider) where
  -- What stays as it is while no message goes out.
  record Stuck (g : Gateway) : Type 0 where
    same_config : g.config ≡ cfg
    same_bindings : g.bindings ≡ bindings
    same_last_targets : g.last_targets ≡ last_targets
    same_providers : g.providers ≡ providers
    unmarked : Dict.Lacks key g.reliability.outbound_idem.items

  -- The target leads somewhere, whatever the event.
  abbrev Resolves : String → Type 0
  Resolves target =
      (event : OutboundEvent)
      → (r : ResolvedTarget) × (resolve_target cfg bindings last_targets agent_id
            (first_non_empty (trim_space target ∷ trim_space event.target ∷ [])) event
          ≡ ok r)

  -- The checks found a provider, and nothing has changed that matters.
  abbrev Routed : Prepared → Type 0
  Routed (answer reply) = ⊥
  Routed (deliver resolved p event next g) = (event.idempotency_key ≡ key) × Stuck g

  with_provider-Routed :
      (resolved : ResolvedTarget) (event : OutboundEvent) (next : ℕ) (g : Gateway)
      (p : Option Provider)
      → p ≢ none
      → event.idempotency_key ≡ key
      → Stuck g
      → Routed (with_provider out resolved event next g p)
  unfolding adapt_content
  with_provider-Routed resolved event next g none some_provider same stuck =
      absurd (some_provider refl)
  with_provider-Routed resolved event next g (some p) some_provider same stuck = (
    same,
    record {
      same_config = stuck.same_config;
      same_bindings = stuck.same_bindings;
      same_last_targets = stuck.same_last_targets;
      same_providers = stuck.same_providers;
      unmarked = stuck.unmarked;
    },
  )

  looked_at-unmarked :
      (next : ℕ) (event : OutboundEvent) (g : Gateway)
      → event.idempotency_key ≡ key
      → Stuck g
      → ((looked_at out next event g).0 ≡ false)
        × Dict.Lacks key (looked_at out next event g).1.outbound_idem.items
  unfolding seen_outbound
  looked_at-unmarked next event g same stuck =
      let free = exists-unmarked (out.clock next) key g.reliability.outbound_idem stuck.unmarked in
      elim (Bool-cases (is_blank event.idempotency_key)) [
        | inl e ↦ rw e (refl, stuck.unmarked)
        | inr e ↦ rw (e, same) free
      ]

  some-ne-none : {p : Option Provider} (q : Provider) → p ≡ some q → p ≢ none
  some-ne-none q e n = cc

  target_found :
      (g : Gateway) (target : String) (event : OutboundEvent) (resolves : Resolves target)
      → Stuck g
      → resolve_target g.config g.bindings g.last_targets agent_id
          (first_non_empty (trim_space target ∷ trim_space event.target ∷ []))
          event
        ≡ ok (resolves event).0
  target_found g target event resolves stuck =
      rw (stuck.same_config, stuck.same_bindings, stuck.same_last_targets) (resolves event).1

  console_name : to_lower (trim_space "console") ≡ "console"
  unfolding to_lower trim_space
  console_name = refl

  get_provider-console :
      (p : Provider) (ps : Dict Provider)
      → Dict.lookup "console" ps ≡ some p
      → get_provider "console" ps ≡ some p
  unfolding get_provider
  get_provider-console p ps has = rw (get_provider, console_name, has) refl

  console_found :
      (g : Gateway) (p : Provider) (o : Option Provider)
      → Dict.lookup "console" g.providers ≡ some p
      → or_console out g o ≢ none
  console_found g p none has = rw (get_provider-console p g.providers has) (λ e. cc)
  console_found g p (some q) has = λ e. cc

  module _ (console : Provider) (has_console : Dict.lookup "console" providers ≡ some console)
      (loud : (minute : ℕ) → in_quiet_hours out.clock_minutes minute cfg ≡ false) where
    loud_now :
        (g : Gateway) (minute : ℕ)
        → Stuck g
        → in_quiet_hours out.clock_minutes minute g.config ≡ false
    loud_now g minute stuck = rw stuck.same_config (loud minute)

    on_target-Routed :
        (event : OutboundEvent) (next : ℕ) (g : Gateway) (r : ResolvedTarget)
        → event.idempotency_key ≡ key
        → Stuck g
        → Routed (on_target out event next g (ok r))
    on_target-Routed event next g r same stuck = rw (loud_now g (out.minute_of_day next) stuck) (
        with_provider-Routed r (addressed r event) (1 + next) g _
          (console_found g console _ (rw stuck.same_providers has_console)) same stuck)

    unless_seen-Routed :
        (target : String) (event : OutboundEvent) (next : ℕ) (g : Gateway)
        (looked : Bool × ReliabilityManager)
        → Resolves target
        → event.idempotency_key ≡ key
        → Stuck g
        → looked.0 ≡ false
        → Dict.Lacks key looked.1.outbound_idem.items
        → Routed (unless_seen out agent_id target event next g looked)
    unless_seen-Routed target event next g (true, r) resolves same stuck fresh unmarked = absurd cc
    unless_seen-Routed target event next g (false, r) resolves same stuck fresh unmarked =
        rw (target_found g target event resolves stuck) (
          on_target-Routed event next (record g { reliability = r }) (resolves event).0 same
            (record {
              same_config = stuck.same_config;
              same_bindings = stuck.same_bindings;
              same_last_targets = stuck.same_last_targets;
              same_providers = stuck.same_providers;
              unmarked = unmarked;
            }))

    prepare-Routed :
        (next : ℕ) (target : String) (event : OutboundEvent) (g : Gateway)
        → Resolves target
        → is_blank key ≡ false
        → event.idempotency_key ≡ key
        → Stuck g
        → Routed (prepare out next agent_id target event g)
    unfolding prepare
    prepare-Routed next target event g resolves some_key same stuck =
        let event' = named_event (out.new_id next "gw") event in
        let kept = named_event-key (out.new_id next "gw") event same some_key in
        let (fresh, unmarked) = looked_at-unmarked (1 + next) event' g kept stuck in
        unless_seen-Routed target event' (2 + next) g (looked_at out (1 + next) event' g) resolves
          kept stuck fresh unmarked

    module _ (a b : String) (has_fallbacks : cfg.fallback_targets ≡ a ∷ b ∷ [])
        (a_set : is_blank a ≡ false) (b_set : is_blank b ≡ false)
        (apart : str_eq (trim_space a) (trim_space b) ≡ false) where
      abbrev IsFallback : String → Type 0
      IsFallback target = (target ≡ trim_space a) ⊎ (target ≡ trim_space b)

      -- Sending to a fallback target does not come back.
      abbrev Lost : (ℕ → String → OutboundEvent → Gateway → Option SendOutcome) → Type 0
      Lost again =
          (next : ℕ) (target : String) (event : OutboundEvent) (g : Gateway)
          → IsFallback target
          → event.idempotency_key ≡ key
          → Stuck g
          → again next target event g ≡ none

      fall_back-Lost :
          (again : ℕ → String → OutboundEvent → Gateway → Option SendOutcome) (raw : String)
          (event : OutboundEvent) (result : SendResult) (error : Option String) (next : ℕ)
          (g : Gateway)
          → Lost again
          → event.idempotency_key ≡ key
          → Stuck g
          → fall_back out again agent_id raw event result error (a ∷ b ∷ []) next g ≡ none
      unfolding fall_back
      fall_back-Lost again raw event result error next g lost same stuck =
          elim (Bool-cases (str_eq (trim_space a) raw)) [
            | inr other ↦
                rw
                  (
                    a_set,
                    other,
                    lost next (trim_space a) (record event { target = trim_space a }) g (inl refl)
                        same stuck,
                  )
                  refl
            | inl this ↦
                let other = other_than raw this in
                rw
                  (
                    a_set,
                    this,
                    b_set,
                    other,
                    lost next (trim_space b) (record event { target = trim_space b }) g (inr refl)
                        same stuck,
                  )
                  refl
          ]
        where
          other_than :
              (raw : String) → str_eq (trim_space a) raw ≡ true → str_eq (trim_space b) raw ≡ false
          other_than raw this = ground (
            arith,
            apart,
            this,
            eq_iff (trim_space a) raw,
            eq_iff (trim_space b) raw,
            eq_iff (trim_space a) (trim_space b),
          )

      kept_after : (g : Gateway) (s : Sent) → Stuck g → Stuck (with_sent out g s)
      kept_after g s stuck = record {
        same_config = stuck.same_config;
        same_bindings = stuck.same_bindings;
        same_last_targets = stuck.same_last_targets;
        same_providers = stuck.same_providers;
        unmarked = stuck.unmarked;
      }

      fallbacks_now : (g : Gateway) → Stuck g → g.config.fallback_targets ≡ a ∷ b ∷ []
      fallbacks_now g stuck = rw stuck.same_config has_fallbacks

      concluded-Lost :
          (again : ℕ → String → OutboundEvent → Gateway → Option SendOutcome) (r : ResolvedTarget)
          (event : OutboundEvent) (g : Gateway) (s : Sent) (error : Option String)
          → Lost again
          → error ≢ none
          → event.idempotency_key ≡ key
          → Stuck g
          → concluded out again agent_id r event g s error ≡ none
      unfolding concluded
      concluded-Lost again r event g s none lost failed same stuck = absurd (failed refl)
      concluded-Lost again r event g s (some message) lost failed same stuck =
          subst
            (λ targets.
              fall_back out again agent_id r.raw_target event s.result (some message) targets s.next
                (with_sent out g s)
              ≡ none)
            (sym (fallbacks_now g stuck))
            (fall_back-Lost again r.raw_target event s.result (some message) s.next
              (with_sent out g s) lost same (kept_after g s stuck))

      delivered-Lost :
          (again : ℕ → String → OutboundEvent → Gateway → Option SendOutcome) (prepared : Prepared)
          → Refuses out
          → Lost again
          → Routed prepared
          → delivered out again agent_id prepared ≡ none
      unfolding delivered
      delivered-Lost again (answer reply) refuses lost routed = absurd routed
      delivered-Lost again (deliver r p event next g) refuses lost (same, stuck) =
          elim (Option-cases (send_with_retry out agent_id p event next g)) [
            | inl panics ↦ rw (delivered, panics) refl
            | inr (s, e) ↦
                rw (delivered, e)
                  (concluded-Lost again r event g s s.error lost
                    (refused_leaves_error out agent_id p event next g s refuses e) same stuck)
          ]

      send-Lost :
          (fuel next : ℕ) (target : String) (event : OutboundEvent) (g : Gateway)
          → Refuses out
          → is_blank key ≡ false
          → Resolves (trim_space a)
          → Resolves (trim_space b)
          → Resolves target
          → event.idempotency_key ≡ key
          → Stuck g
          → send out fuel next agent_id target event g ≡ none
      unfolding send
      send-Lost zero next target event g refuses some_key to_a to_b here same stuck = refl
      send-Lost (suc fuel) next target event g refuses some_key to_a to_b here same stuck =
          delivered-Lost (λ next' fb event' g'. send out fuel next' agent_id fb event' g')
            (prepare out next agent_id target event g) refuses
            (λ next' fb event' g' which same' stuck'.
              send-Lost fuel next' fb event' g' refuses some_key to_a to_b (leads fb which) same'
                stuck')
            (prepare-Routed next target event g here some_key same stuck)
        where
          leads : (fb : String) → IsFallback fb → Resolves fb
          leads fb (inl e) = subst Resolves (sym e) to_a
          leads fb (inr e) = subst Resolves (sym e) to_b

-- The target leads somewhere in the gateway, whatever the event.
abbrev pub Leads : Gateway → String → String → Type 0
Leads g agent_id target =
    (event : OutboundEvent)
    → (r : ResolvedTarget) × (resolve_target g.config g.bindings g.last_targets agent_id
          (first_non_empty (trim_space target ∷ trim_space event.target ∷ [])) event
        ≡ ok r)

-- The gateway has two fallback targets that differ, both lead somewhere, and so does the message's
-- target; there is a console, no time is quiet, the message has a key that is not marked, and no
-- provider takes a message. Then Send does not come back, however deep it may call itself.
pub send_never_returns :
    (out : Outside) (agent_id a b target : String) (event : OutboundEvent) (g : Gateway)
    (console : Provider) (fuel next : ℕ)
    → Refuses out
    → Dict.lookup "console" g.providers ≡ some console
    → ((minute : ℕ) → in_quiet_hours out.clock_minutes minute g.config ≡ false)
    → g.config.fallback_targets ≡ a ∷ b ∷ []
    → (is_blank a ≡ false) × (is_blank b ≡ false)
    → str_eq (trim_space a) (trim_space b) ≡ false
    → Leads g agent_id (trim_space a) × Leads g agent_id (trim_space b) × Leads g agent_id target
    → is_blank event.idempotency_key ≡ false
    → Dict.Lacks event.idempotency_key g.reliability.outbound_idem.items
    → send out fuel next agent_id target event g ≡ none
send_never_returns out agent_id a b target event g console fuel next refuses has_console loud
      has_fallbacks (a_set, b_set) apart (to_a, to_b, here) some_key unmarked =
    send-Lost out agent_id event.idempotency_key g.config g.bindings g.last_targets g.providers
      console has_console loud a b has_fallbacks a_set b_set apart fuel next target event g refuses
      some_key to_a to_b here refl
      (record {
        same_config = refl;
        same_bindings = refl;
        same_last_targets = refl;
        same_providers = refl;
        unmarked = unmarked;
      })
