-- ===== src/Gateway/Delivery/Refused.antt =====
-- When every provider refuses, `sendWithRetry` of cli/gateway/gateway.go leaves an error.
use xclaw.Prelude.{
  ℕ, ◌+◌, ◌≡◌, ◌≢◌, refl, Bool, true, false, List, [], ◌∷◌, Option, none, some, String,
}
use xclaw.Prelude.Result.{err}
use xclaw.Gateway.Events.{OutboundEvent, Provider}
use xclaw.Gateway.Delivery.{
  Gateway, Outside, Sent, let_through, may_send, attempt_once, segments_of, degraded, unsent,
  or_blank, send_with_retry,
}
use xclaw.Gateway.Delivery.FirstTry.{at_first, at_once, send_with_retry_iff-at_once}

-- No provider takes a message.
abbrev pub Refuses : Outside → Type 0
Refuses out =
    (n : ℕ) (name : String) (event : OutboundEvent)
    → (message : String) × (out.provider_send n name event ≡ err message)

at_first-let_through :
    (out : Outside) (p : Provider) (piece : OutboundEvent) (attempt : ℕ) (s : Sent)
    (passed : Option Bool × _)
    → Refuses out
    → at_first out (let_through out p piece attempt s passed) ≡ none
at_first-let_through out p piece attempt s (none, limiter) refuses = refl
at_first-let_through out p piece attempt s (some false, limiter) refuses = refl
at_first-let_through out p piece attempt s (some true, limiter) refuses =
    rw (refuses (7 + s.next) p.name piece).1 refl

attempt-turned_down :
    (out : Outside) (agent_id : String) (p : Provider) (piece : OutboundEvent) (s : Sent)
    → Refuses out
    → at_first out (attempt_once out 1 agent_id p piece s) ≡ none
unfolding attempt_once
attempt-turned_down out agent_id p piece s refuses =
    at_first-let_through out p piece 1 s (may_send out agent_id p.capabilities piece s) refuses

at_once-turned_down :
    (out : Outside) (agent_id : String) (p : Provider) (event : OutboundEvent) (s : Sent)
    (segments : List String)
    → Refuses out
    → segments ≢ []
    → at_once out agent_id p event segments s ≡ none
unfolding at_once
at_once-turned_down out agent_id p event s [] refuses some_segment = absurd (some_segment refl)
at_once-turned_down out agent_id p event s (seg ∷ segments) refuses some_segment =
    let piece = record event { text_markdown = seg } in
    rw (at_once, attempt-turned_down out agent_id p piece s refuses) refl

or_blank-ne-nil : (out : Outside) (segments : List String) → or_blank out segments ≢ []
or_blank-ne-nil out [] e = cc
or_blank-ne-nil out (seg ∷ segments) e = cc

-- Every piece is refused, so that an error is left.
pub refused_leaves_error :
    (out : Outside) (agent_id : String) (p : Provider) (event : OutboundEvent) (next : ℕ)
    (g : Gateway) (s : Sent)
    → Refuses out
    → send_with_retry out agent_id p event next g ≡ some s
    → s.error ≢ none
refused_leaves_error out agent_id p event next g s refuses sent no_error =
    let e = (send_with_retry_iff-at_once out agent_id p event next g s).0 (sent, no_error) in
    let r =
      at_once-turned_down out agent_id p (degraded out p event) (unsent out next g)
        (segments_of out p event) refuses (or_blank-ne-nil out _) in
    cc (e, r)
