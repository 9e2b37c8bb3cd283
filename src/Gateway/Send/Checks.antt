-- ===== src/Gateway/Send/Checks.antt =====
-- What the checks of `Send` of cli/gateway/gateway.go look up: keys, marks and targets.
use xclaw.Prelude.{ℕ, ◌≡◌, refl, false, String, str_eq, ltb, Bool-cases, inl, inr}
use xclaw.Prelude.Dict
use xclaw.Prelude.Dict.{Dict, remove_if-Lacks}
use xclaw.Gateway.Reliability.{DedupeCache, exists, purge}
use xclaw.Gateway.Events.{OutboundEvent}
use xclaw.Gateway.Send.{is_blank, named_event}

pub exists-unmarked :
    (now : ℕ) (key : String) (c : DedupeCache)
    → Dict.Lacks key c.items
    → ((exists now key c).0 ≡ false) × Dict.Lacks key (exists now key c).1.items
unfolding exists purge
exists-unmarked now key c unmarked =
    let kept = remove_if-Lacks (λ until. ltb until now) key c.items unmarked in
    elim (Bool-cases (str_eq key "")) [
      | inl e ↦ rw e (refl, unmarked)
      | inr e ↦ rw (e, kept) (refl, refl)
    ]

pub named_event-key :
    (fresh : String) {key : String} (event : OutboundEvent)
    → event.idempotency_key ≡ key
    → is_blank key ≡ false
    → (named_event fresh event).idempotency_key ≡ key
unfolding named_event
named_event-key fresh event same some_key = rw (same, some_key) refl
