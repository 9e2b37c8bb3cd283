-- ===== src/Gateway/Delivery/GoesOut.antt =====
-- What it takes that `sendWithRetry` of cli/gateway/gateway.go gives no error, stated by the limiter and
-- the provider: its `lastErr` stays set when a later attempt goes through.
use mathlib.Core.Path.{subst}
use xclaw.Prelude.{
  ℕ, ◌+◌, ◌*◌, ◌≡◌, ◌≢◌, refl, Bool, true, false, List, [], ◌∷◌, length, Option, none, some, String,
  Option-cases, inl, inr, arith, ◌↔◌,
}
use xclaw.Prelude.Result.{Result, ok, err}
use xclaw.Gateway.RateLimiter.{RateLimiter, allow_three_level}
use xclaw.Gateway.Events.{OutboundEvent, SendResult, Provider}
use xclaw.Gateway.Delivery.{
  Gateway, Outside, Sent, subject_of, may_send, accepted, told_by, let_through, attempt_once,
  degraded, segments_of, unsent, send_with_retry,
}
use xclaw.Gateway.Delivery.FirstTry.{at_first, at_once, send_with_retry_iff-at_once}
use xclaw.Gateway.Delivery.Total.{send_with_retry_total}

module _ (out : Outside) (agent_id : String) (p : Provider) (event : OutboundEvent) where
  -- The limiter lets each segment through and the provider takes it, in order, ten events for each.
  abbrev pub GoesOut : List String → ℕ → RateLimiter → Type 0
  GoesOut [] next limiter = Unit
  GoesOut (seg ∷ segments) next limiter =
      let asked =
        allow_three_level (λ i. out.clock (i + next)) (subject_of out agent_id p.capabilities event)
          limiter in
      (asked.0 ≡ some true)
      × ((res : SendResult) × (out.provider_send (7 + next) p.name
              (record event { text_markdown = seg })
            ≡ ok res))
      × GoesOut segments (10 + next) asked.1

  -- What is left after a segment that went out.
  abbrev Passed : OutboundEvent → Sent → Option Bool × RateLimiter → Sent → Type 0
  Passed piece s passed s' =
      (passed.0 ≡ some true)
      × ((res : SendResult) × (out.provider_send (7 + s.next) p.name piece ≡ ok res))
      × (s'.next ≡ 10 + s.next)
      × (s'.limiter ≡ passed.1)

  told_by-Passed :
      (piece : OutboundEvent) (s s' : Sent) (limiter : RateLimiter) (r : Result String SendResult)
      → out.provider_send (7 + s.next) p.name piece ≡ r
      → at_first out (some (told_by out p 1 limiter s r)) ≡ some s'
      → Passed piece s (some true, limiter) s'
  told_by-Passed piece s s' limiter (ok res) took e = (refl, (res, took), cc, cc)
  told_by-Passed piece s s' limiter (err message) took e = absurd cc

  let_through-Passed :
      (piece : OutboundEvent) (s s' : Sent) (passed : Option Bool × RateLimiter)
      → at_first out (let_through out p piece 1 s passed) ≡ some s'
      → Passed piece s passed s'
  let_through-Passed piece s s' (none, limiter) e = absurd cc
  let_through-Passed piece s s' (some false, limiter) e = absurd cc
  let_through-Passed piece s s' (some true, limiter) e =
      told_by-Passed piece s s' limiter (out.provider_send (7 + s.next) p.name piece) refl e

  attempt_once-Passed :
      (piece : OutboundEvent) (s s' : Sent)
      → at_first out (attempt_once out 1 agent_id p piece s) ≡ some s'
      → Passed piece s (may_send out agent_id p.capabilities piece s) s'
  unfolding attempt_once
  attempt_once-Passed piece s s' e =
      let_through-Passed piece s s' (may_send out agent_id p.capabilities piece s) e

  pub at_once-GoesOut :
      (segments : List String) (s s' : Sent)
      → at_once out agent_id p event segments s ≡ some s'
      → GoesOut segments s.next s.limiter × (s'.next ≡ length segments * 10 + s.next)
  unfolding at_once
  at_once-GoesOut [] s s' e = let same : s'.next ≡ s.next = cc in (tt, omega (arith, same))
  at_once-GoesOut (seg ∷ segments) s s' e =
      let piece = record event { text_markdown = seg } in
      elim (Option-cases (at_first out (attempt_once out 1 agent_id p piece s))) [
        | inl failed ↦ absurd (none_ne_some (rw (at_once, failed) at e))
        | inr (s₁, first) ↦
            let (let_pass, took, counted, limited) = attempt_once-Passed piece s s₁ first in
            let (rest, further) = at_once-GoesOut segments s₁ s' (rw (at_once, first) at e) in
            (
              (
                let_pass,
                took,
                subst (λ l. GoesOut segments (10 + s.next) l) limited
                    (subst (λ n. GoesOut segments n s₁.limiter) counted rest),
              ),
              omega (arith, counted, further),
            )
      ]
    where
      none_ne_some : ◌≢◌ {A = Option Sent} none (some s')
      none_ne_some q = cc

  let_through-accepted :
      (piece : OutboundEvent) (s : Sent) (res : SendResult) (passed : Option Bool × RateLimiter)
      → passed.0 ≡ some true
      → out.provider_send (7 + s.next) p.name piece ≡ ok res
      → at_first out (let_through out p piece 1 s passed) ≡ some (accepted out p 1 passed.1 res s)
  let_through-accepted piece s res (none, limiter) q took = absurd cc
  let_through-accepted piece s res (some false, limiter) q took = absurd cc
  let_through-accepted piece s res (some true, limiter) q took = rw took refl

  attempt_once-accepted :
      (piece : OutboundEvent) (s : Sent) (res : SendResult)
      → (may_send out agent_id p.capabilities piece s).0 ≡ some true
      → out.provider_send (7 + s.next) p.name piece ≡ ok res
      → at_first out (attempt_once out 1 agent_id p piece s)
        ≡ some (accepted out p 1 (may_send out agent_id p.capabilities piece s).1 res s)
  unfolding attempt_once
  attempt_once-accepted piece s res q took =
      let_through-accepted piece s res (may_send out agent_id p.capabilities piece s) q took

  GoesOut-at_once :
      (segments : List String) (s : Sent)
      → GoesOut segments s.next s.limiter
      → (s' : Sent) × (at_once out agent_id p event segments s ≡ some s')
  unfolding at_once
  GoesOut-at_once [] s goes = (s, refl)
  GoesOut-at_once (seg ∷ segments) s (let_pass, (res, took), rest) =
      let piece = record event { text_markdown = seg } in
      let (s', e) =
        GoesOut-at_once segments
          (accepted out p 1 (may_send out agent_id p.capabilities piece s).1 res s) rest in
      (s', rw (at_once, attempt_once-accepted piece s res let_pass took) e)

-- sendWithRetry always returns. It gives no error exactly if the limiter lets each segment through and
-- the provider takes it, in order and at the first of the five attempts: a message of which a segment
-- goes out at a later attempt is reported as failed.
pub send_with_retry_iff-GoesOut :
    (out : Outside) (agent_id : String) (p : Provider) (event : OutboundEvent) (next : ℕ)
    (g : Gateway)
    → (s : Sent) × (send_with_retry out agent_id p event next g ≡ some s)
      × ((s.error ≡ none)
          ↔ GoesOut out agent_id p
              (degraded out p event)
              (segments_of out p event)
              next
              g.rate_limiter)
send_with_retry_iff-GoesOut out agent_id p event next g =
    elim (Option-cases (send_with_retry out agent_id p event next g)) [
      | inl panics ↦ absurd (send_with_retry_total out agent_id p event next g panics)
      | inr (s, sent) ↦ (
        s,
        sent,
        (
          (λ fresh.
              (at_once-GoesOut out agent_id p (degraded out p event) (segments_of out p event)
                (unsent out next g) s
                ((send_with_retry_iff-at_once out agent_id p event next g s).0 (sent, fresh))).0),
          (λ goes.
              let (s', e) =
                GoesOut-at_once out agent_id p (degraded out p event) (segments_of out p event)
                  (unsent out next g) goes in
              let (sent', fresh) =
                (send_with_retry_iff-at_once out agent_id p event next g s').1 e in
              no_error s s' sent sent' fresh),
        ),
      )
    ]
  where
    no_error :
        (s s' : Sent)
        → send_with_retry out agent_id p event next g ≡ some s
        → send_with_retry out agent_id p event next g ≡ some s'
        → s'.error ≡ none
        → s.error ≡ none
    no_error s s' e e' fresh = cc
